-- ===== src/Writer/Drain.antt =====
-- Every command in the queue is answered by as many turns as there are commands.
use zmem_cache.Writer.{
  publish, finalize, prefetch_batch, prefetch_state, canonical_write, stop, turn_with,
}
use zmem_cache.Common.{
  Result, ℕ, length, ◌≡◌, List, ◌++◌, map, ok, true, err, [], false, refl, All, ◌∷◌, sym,
  append-nil, arith, if◌then◌else◌, if◌then◌else◌, append_assoc, ◌∙◌, if◌then◌else◌, ap,
}
use zmem_cache.Writer.{
  published, Command, finalize, prefetch_batch, serve, WriterState, canonical_write, is_stop, stop,
  Answer, StoreOps, prefetch_state, turn,
}

module _ {S Publication Finalization PrefetchWrite Mutation Written Batch : Type 0}
    (ops : StoreOps S Publication Finalization PrefetchWrite Mutation Written Batch) where
  abbrev pub ticket_of : Command Publication Finalization PrefetchWrite Mutation → List ℕ
  ticket_of (publish p deadline cancelled ticket) = ticket ∷ []
  ticket_of (finalize request deadline cancelled ticket) = ticket ∷ []
  ticket_of (prefetch_batch batch deadline cancelled ticket) = ticket ∷ []
  ticket_of (prefetch_state repo_id head state deadline cancelled ticket) = ticket ∷ []
  ticket_of (canonical_write mutation deadline cancelled ticket) = ticket ∷ []
  ticket_of stop = []

  abbrev pub tickets : List (ℕ × Answer Written) → List ℕ
  tickets = map (λ a. a.0)

  abbrev pub tickets_of : List (Command Publication Finalization PrefetchWrite Mutation) → List ℕ
  tickets_of [] = []
  tickets_of (c ∷ cs) = ticket_of c ++ tickets_of cs

  -- Turns at these times.
  abbrev pub turns : List ℕ → WriterState ops → WriterState ops
  turns [] w = w
  turns (now ∷ times) w = turns times (turn ops true now w)

  published_ticket :
      (p : Publication) (ticket : ℕ) (r : S × Result (Unit {0}))
      → tickets (published ops p ticket r).1 ≡ ticket ∷ []
  published_ticket p ticket (s, ok u) = refl
  published_ticket p ticket (s, err reason) = refl

  tickets-serve :
      (c : Command Publication Finalization PrefetchWrite Mutation) (s : S)
      → tickets (serve ops c s).1 ≡ ticket_of c
  unfolding serve
  tickets-serve (publish p deadline cancelled ticket) s = published_ticket p ticket _
  tickets-serve (finalize request deadline cancelled ticket) s = refl
  tickets-serve (prefetch_batch batch deadline cancelled ticket) s = refl
  tickets-serve (prefetch_state repo_id head state deadline cancelled ticket) s = refl
  tickets-serve (canonical_write mutation deadline cancelled ticket) s = refl
  tickets-serve stop s = refl

  tickets-append :
      (xs ys : List (ℕ × Answer Written)) → tickets (xs ++ ys) ≡ tickets xs ++ tickets ys
  tickets-append [] ys = refl
  tickets-append (x ∷ xs) ys = ap (◌∷◌ x.0) (tickets-append xs ys)

  pub turn_serves :
      (now : ℕ) (w : WriterState ops)
      (queue : List (Command Publication Finalization PrefetchWrite Mutation))
      → w.is_running ≡ true
      → w.queue ≡ queue
      → turn ops true now w ≡ turn_with ops true now w queue
  unfolding turn
  turn_serves now w queue on q =
      ap (λ b. if b then turn_with ops true now w w.queue else w) on
      ∙ ap (turn_with ops true now w) q

  drains :
      (w : WriterState ops) (queue : List (Command Publication Finalization PrefetchWrite Mutation))
      (times : List ℕ)
      → w.is_running ≡ true
      → w.queue ≡ queue
      → All (λ c. is_stop ops c ≡ false) queue
      → length times ≡ length queue
      → ((turns times w).queue ≡ [])
        × (tickets (turns times w).answers ≡ tickets w.answers ++ tickets_of queue)
  drains w [] [] on q k l = (q, sym (append-nil (tickets w.answers)))
  drains w [] (now ∷ times) on q k l = absurd (ground (arith, l))
  drains w (c ∷ rest) [] on q k l = absurd (ground (arith, l))
  drains w (c ∷ rest) (now ∷ times) on q k l =
      let v = turn_with ops true now w (c ∷ rest) in
      let step = turn_serves now w (c ∷ rest) on q in
      let ih = drains v rest times (ground (arith, k.0)) refl k.1 (ground (arith, l)) in
      let more : tickets v.answers ≡ tickets w.answers ++ ticket_of c =
        tickets-append w.answers (serve ops c w.store).1
        ∙ ap (λ x. tickets w.answers ++ x) (tickets-serve c w.store) in
      (
        ap (λ x. (turns times x).queue) step ∙ ih.0,
        ap (λ x. tickets (turns times x).answers) step
            ∙ ih.1
            ∙ ap (λ x. x ++ tickets_of rest) more
            ∙ append_assoc (tickets w.answers) (ticket_of c) (tickets_of rest),
      )

  -- While the thread runs and nobody stops it, as many turns as there are commands in the queue empty
  -- it, and the answers that they add are to the senders of these commands, one each, in their order.
  pub turns-answer :
      (w : WriterState ops) (times : List ℕ)
      → w.is_running ≡ true
      → All (λ c. is_stop ops c ≡ false) w.queue
      → length times ≡ length w.queue
      → ((turns times w).queue ≡ [])
        × (tickets (turns times w).answers ≡ tickets w.answers ++ tickets_of w.queue)
  turns-answer w times h k l = drains w w.queue times h refl k l
