-- ===== src/Writer/Modes.antt =====
-- A command that is sent to the writer is served as it is performed without one.
use Prim.Native.String.{String}
use zmem_cache.Writer.{
  queue_capacity, turn_with, serve, WriterState, Answer, try_send, StoreOps, is_stop, Command,
}
use zmem_cache.Common.{
  ensure, Result, true, All, ok, refl, ap, ◌<◌, List, ◌++◌, ltb, length, false, ◌+◌, ℕ, ◌∙◌, ◌>>◌,
  ◌≡◌, arith, ◌∷◌, Bool, [], if◌then◌else◌, not, if◌then◌else◌, if◌then◌else◌, ◌&&◌, length-append,
  All-append,
}
use zmem_cache.Writer.Drain.{turns, turn_serves}
use zmem_cache.Writer.Submit.{Submitted, submit, sent_or_not}

-- As `ensure` on conditions that hold.
ensure-true :
    {A : Type 0} (b : Bool) (message : String) (next : Result A)
    → b ≡ true
    → (ensure b message >> next) ≡ next
ensure-true true message next h = refl
ensure-true false message next h = absurd (ground (arith, h))

module _ {S Publication Finalization PrefetchWrite Mutation Written Batch : Type 0}
    (ops : StoreOps S Publication Finalization PrefetchWrite Mutation Written Batch) where
  -- A store and the answers so far, after these commands.
  abbrev pub served_all :
      List (Command Publication Finalization PrefetchWrite Mutation)
      → S × List (ℕ × Answer Written)
      → S × List (ℕ × Answer Written)
  served_all [] r = r
  served_all (c ∷ cs) r = served_all cs ((serve ops c r.0).0, r.1 ++ (serve ops c r.0).1)

  served_all-snoc :
      (cs : List (Command Publication Finalization PrefetchWrite Mutation))
      (c : Command Publication Finalization PrefetchWrite Mutation)
      (r : S × List (ℕ × Answer Written))
      → served_all (cs ++ c ∷ []) r ≡ (
          let before = served_all cs r in
          ((serve ops c before.0).0, before.1 ++ (serve ops c before.0).1))
  served_all-snoc [] c r = refl
  served_all-snoc (b ∷ cs) c r =
      served_all-snoc cs c ((serve ops b r.0).0, r.1 ++ (serve ops b r.0).1)

  abbrev pub state_of : WriterState ops → S × List (ℕ × Answer Written)
  state_of w = (w.store, w.answers)

  turns-served_all :
      (times : List ℕ) (w : WriterState ops)
      (queue : List (Command Publication Finalization PrefetchWrite Mutation))
      → w.is_running ≡ true
      → w.queue ≡ queue
      → All (λ c. is_stop ops c ≡ false) queue
      → length times ≡ length queue
      → state_of (turns ops times w) ≡ served_all queue (state_of w)
  turns-served_all [] w [] on q k l = refl
  turns-served_all (now ∷ times) w [] on q k l = absurd (ground (arith, l))
  turns-served_all [] w (c ∷ rest) on q k l = absurd (ground (arith, l))
  turns-served_all (now ∷ times) w (c ∷ rest) on q k l =
      let v = turn_with ops true now w (c ∷ rest) in
      ap (λ x. state_of (turns ops times x)) (turn_serves ops now w (c ∷ rest) on q)
      ∙ turns-served_all times v rest (ground (arith, k.0)) refl k.1 (ground (arith, l))

  -- A writer that takes one more command: open and running, with room, and not told to stop.
  pub record TakesOne (w : WriterState ops) : Type 0 where
    pub open_one : w.is_open ≡ true
    pub running : w.is_running ≡ true
    pub room : length w.queue < queue_capacity
    pub no_stop : All (λ c. is_stop ops c ≡ false) w.queue

  -- The two modes of a write agree: sent to the writer, it leaves the caller's own store and answers
  -- what was received, and once the thread has taken all that was sent, the writer's store and its
  -- answer to this ticket are those that the write has without a writer, on the store that the
  -- commands before it leave.
  abbrev pub AsDirect :
      {A : Type 0}
      → (Result A → Answer Written)
      → ℕ
      → Result A
      → List ℕ
      → WriterState ops
      → S
      → (WriterState ops → S → Submitted (WriterState ops) S A)
      → Type 0
  AsDirect wrap ticket received times w s write =
      let before = served_all w.queue (state_of w) in
      let direct = write (record w { is_open = false }) before.0 in
      let sent = write w s in
      (sent.own_store ≡ s)
      × (sent.answer ≡ received)
      × ((turns ops times sent.writer).store ≡ direct.own_store)
      × ((turns ops times sent.writer).answers ≡ before.1 ++ (ticket, wrap direct.answer) ∷ [])

  -- A command is served as the direct write, its answer wrapped.
  abbrev pub ServesAs :
      {A : Type 0}
      → (Result A → Answer Written)
      → ℕ
      → Command Publication Finalization PrefetchWrite Mutation
      → (S → S × Result A)
      → Type 0
  ServesAs wrap ticket c direct =
      (t : S)
      → ((serve ops c t).0 ≡ (direct t).0) × ((serve ops c t).1 ≡ (ticket, wrap (direct t).1) ∷ [])

  try_send-ok :
      (c : Command Publication Finalization PrefetchWrite Mutation) (w : WriterState ops)
      → TakesOne w
      → try_send ops c w ≡ ok (record w { queue = w.queue ++ c ∷ [] })
  unfolding try_send
  try_send-ok c w h =
      let room : ltb (length w.queue) queue_capacity ≡ true = ground (arith, h.room) in
      ensure-true w.is_running _ _ h.running ∙ ensure-true _ _ _ room

  submit_sent :
      {A : Type 0} (c : Command Publication Finalization PrefetchWrite Mutation)
      (direct : S × Result A) (received : Result A) (w : WriterState ops) (s : S)
      → TakesOne w
      → submit ops c direct received false w s ≡ record {
        writer = record w { queue = w.queue ++ c ∷ [] };
        own_store = s;
        answer = received;
      }
  unfolding submit
  submit_sent c direct received w s h =
      ap
        (λ b.
          if b && not false
          then sent_or_not ops w s received (try_send ops c w)
          else record { writer = w; own_store = direct.0; answer = direct.1 })
        h.open_one
      ∙ ap (sent_or_not ops w s received) (try_send-ok c w h)

  pub submit-AsDirect :
      {A : Type 0} (wrap : Result A → Answer Written) (ticket : ℕ)
      (c : Command Publication Finalization PrefetchWrite Mutation) (direct : S → S × Result A)
      (received : Result A) (times : List ℕ) (w : WriterState ops) (s : S)
      → is_stop ops c ≡ false
      → ServesAs wrap ticket c direct
      → TakesOne w
      → length times ≡ length w.queue + 1
      → AsDirect wrap ticket received times w s (λ v t. submit ops c (direct t) received false v t)
  unfolding submit
  submit-AsDirect wrap ticket c direct received times w s plain as_direct h l =
      let u : WriterState ops = record w { queue = w.queue ++ c ∷ [] } in
      let before = served_all w.queue (state_of w) in
      let sent = submit_sent c (direct s) received w s h in
      let long : length times ≡ length (w.queue ++ c ∷ []) =
        omega (arith, l, length-append w.queue (c ∷ [])) in
      let stays = All-append (λ b. is_stop ops b ≡ false) w.queue (c ∷ []) h.no_stop (plain, tt) in
      let done =
        ap (λ x. state_of (turns ops times x.writer)) sent
        ∙ turns-served_all times u (w.queue ++ c ∷ []) h.running refl stays long
        ∙ served_all-snoc w.queue c (state_of w) in
      let same = as_direct before.0 in
      (
        ap (λ x. x.own_store) sent,
        ap (λ x. x.answer) sent,
        ap (λ x. x.0) done ∙ same.0,
        ap (λ x. x.1) done ∙ ap (λ x. before.1 ++ x) same.1,
      )
