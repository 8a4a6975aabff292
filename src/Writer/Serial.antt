-- ===== src/Writer/Serial.antt =====
-- The writer against a serial store: every command that is accepted is performed once, in order.
use Prim.Native.String.{String}
use zmem_cache.Writer.{
  Writer, turn, serve, try_send, enqueue_advisory, send_stop, StoreOps, Command, persisted,
  queue_capacity, close, then_call, Answer, stop, turn_with, idle_with,
}
use zmem_cache.Common.{
  ap, ◌∷◌, ◌++◌, Result, append_assoc, [], err, List, ◌∷◌, Option, ◌<◌, ◌≤◌, ℕ, none, ok, some,
  length, arith, ◌∙◌, ◌+◌, refl, ◌≡◌, Bool, inl, ◌||◌, true, Bool-cases, false, ltb, is_some, inr,
  sym, if◌then◌else◌, not, ◌>>◌, if◌then◌else◌, ensure, if◌then◌else◌,
}

module _ {S Publication Finalization PrefetchWrite Mutation Written Batch : Type 0}
    (ops : StoreOps S Publication Finalization PrefetchWrite Mutation Written Batch) where
  abbrev C : Type 0
  C = Command Publication Finalization PrefetchWrite Mutation

  abbrev W : Type 0
  W = Writer S C Batch Written

  -- What a serial store performs: a command, or an advisory write.
  pub data Work : Type 0 where
    command : Command Publication Finalization PrefetchWrite Mutation → Work
    advice : ℕ → Batch → Work

  abbrev pub Serial : Type 0
  Serial = S × List (ℕ × Answer Written)

  abbrev pub perform : Work → Serial → Serial
  perform (command c) r = ((serve ops c r.0).0, r.1 ++ (serve ops c r.0).1)
  perform (advice now batch) r =
      ((then_call (ops.set_request (now + 250000000) none r.0) (ops.persist_advisory batch)).0, r.1)

  abbrev pub perform_all : List Work → Serial → Serial
  perform_all [] r = r
  perform_all (x ∷ xs) r = perform_all xs (perform x r)

  abbrev pub commands_of : List Work → List C
  commands_of [] = []
  commands_of (command c ∷ xs) = c ∷ commands_of xs
  commands_of (advice now batch ∷ xs) = commands_of xs

  -- What happens to the writer.
  pub data Event : Type 0 where
    sent : Command Publication Finalization PrefetchWrite Mutation → Event
    turned : (locked : Bool) (now : ℕ) → Event
    advised : (locked : Bool) (batch : Batch) → Event
    closed : Event
    stopping : Event

  -- The writer, and the commands that it has accepted.
  abbrev pub Run : Type 0
  Run = W × List C

  abbrev pub accept : C → Result W → Run → Run
  accept c (ok w) r = (w, r.1 ++ c ∷ [])
  accept c (err reason) r = r

  abbrev pub accept_stop : Option (Result W) → Run → Run
  accept_stop none r = r
  accept_stop (some result) r = accept stop result r

  abbrev pub after : Event → Run → Run
  after (sent c) r = accept c (try_send ops c r.0) r
  after (turned locked now) r = (turn ops locked now r.0, r.1)
  after (advised locked batch) r = ((enqueue_advisory ops locked batch r.0).0, r.1)
  after closed r = (close ops r.0, r.1)
  after stopping r = accept_stop (send_stop ops r.0) r

  abbrev pub after_all : List Event → Run → Run
  after_all [] r = r
  after_all (e ∷ es) r = after_all es (after e r)

  -- The writer's store and answers are those of a serial store that has performed the accepted
  -- commands, in their order, up to those still in the queue, which is within its capacity.
  pub record IsSerial (start : S) (r : Run) : Type 0 where
    pub works : List Work
    pub in_order : r.1 ≡ commands_of works ++ r.0.queue
    pub same_store : (r.0.store, r.0.answers) ≡ perform_all works (start, [])
    pub bounded : length r.0.queue ≤ queue_capacity

  perform_all-snoc :
      (xs : List Work) (x : Work) (r : Serial)
      → perform_all (xs ++ x ∷ []) r ≡ perform x (perform_all xs r)
  perform_all-snoc [] x r = refl
  perform_all-snoc (y ∷ xs) x r = perform_all-snoc xs x (perform y r)

  commands_of-append :
      (xs ys : List Work) → commands_of (xs ++ ys) ≡ commands_of xs ++ commands_of ys
  commands_of-append [] ys = refl
  commands_of-append (command c ∷ xs) ys = ap (◌∷◌ c) (commands_of-append xs ys)
  commands_of-append (advice now batch ∷ xs) ys = commands_of-append xs ys

  -- A change that leaves the store, the answers and the queue.
  same_run :
      (start : S) (w v : W) (cs : List C)
      → v.store ≡ w.store
      → v.answers ≡ w.answers
      → v.queue ≡ w.queue
      → IsSerial start (w, cs)
      → IsSerial start (v, cs)
  same_run start w v cs e f g h = record {
    works = h.works;
    in_order = rw g h.in_order;
    same_store = rw (e, f) h.same_store;
    bounded = rw g h.bounded;
  }

  length-snoc : (cs : List C) (c : C) → length (cs ++ c ∷ []) ≡ length cs + 1
  length-snoc [] c = refl
  length-snoc (d ∷ cs) c = omega (arith, length-snoc cs c)

  enqueued :
      (start : S) (c : C) (w : W) (cs : List C)
      → length w.queue < queue_capacity
      → IsSerial start (w, cs)
      → IsSerial start (record w { queue = w.queue ++ c ∷ [] }, cs ++ c ∷ [])
  enqueued start c w cs l h = record {
    works = h.works;
    in_order =
        ap (λ x. x ++ c ∷ []) h.in_order ∙ append_assoc (commands_of h.works) w.queue (c ∷ []);
    same_store = h.same_store;
    bounded = omega (arith, l, length-snoc w.queue c);
  }

  -- A piece of work that is done.
  worked :
      (start : S) (x : Work) (w v : W) (cs : List C)
      → w.queue ≡ commands_of (x ∷ []) ++ v.queue
      → (v.store, v.answers) ≡ perform x (w.store, w.answers)
      → length v.queue ≤ length w.queue
      → IsSerial start (w, cs)
      → IsSerial start (v, cs)
  worked start x w v cs q e l h =
      let done = commands_of h.works in
      let step : (w.store, w.answers) ≡ perform_all h.works (start, []) = h.same_store in
      record {
        works = h.works ++ x ∷ [];
        in_order =
            h.in_order
            ∙ ap (λ y. done ++ y) q
            ∙ sym (append_assoc done (commands_of (x ∷ [])) v.queue)
            ∙ ap (λ y. y ++ v.queue) (sym (commands_of-append h.works (x ∷ [])));
        same_store = e ∙ ap (perform x) step ∙ sym (perform_all-snoc h.works x (start, []));
        bounded = omega (arith, l, h.bounded);
      }

  persisted_parts :
      (w : W) (p : S × Result (Unit {0}))
      → ((persisted ops w p).queue ≡ w.queue)
        × ((persisted ops w p).store ≡ p.0)
        × ((persisted ops w p).answers ≡ w.answers)
  persisted_parts w (s, ok u) = (refl, refl, refl)
  persisted_parts w (s, err reason) = (refl, refl, refl)

  idle-IsSerial :
      (start : S) (locked : Bool) (now : ℕ) (w : W) (pending : Option Batch) (cs : List C)
      → IsSerial start (w, cs)
      → IsSerial start (idle_with ops locked now w pending, cs)
  idle-IsSerial start true now w pending cs h = h
  idle-IsSerial start false now w none cs h = h
  idle-IsSerial start false now w (some batch) cs h =
      let p =
        then_call (ops.set_request (now + 250000000) none w.store) (ops.persist_advisory batch) in
      let (q, e, f) = persisted_parts w p in
      let same : ((persisted ops w p).store, (persisted ops w p).answers)
          ≡ perform (advice now batch) (w.store, w.answers) =
        λ i. (e i, f i) in
      worked start (advice now batch) w (persisted ops w p) cs (sym q) same
        (omega (arith, ap (λ x. length x) q)) h

  turn_with-IsSerial :
      (start : S) (locked : Bool) (now : ℕ) (w : W) (queue : List C) (cs : List C)
      → w.queue ≡ queue
      → IsSerial start (w, cs)
      → IsSerial start (turn_with ops locked now w queue, cs)
  turn_with-IsSerial start locked now w [] cs q h = idle-IsSerial start locked now w w.advisory cs h
  turn_with-IsSerial start locked now w (c ∷ rest) cs q h =
      worked start (command c) w (turn_with ops locked now w (c ∷ rest)) cs q refl
        (omega (arith, ap (λ x. length x) q)) h

  turn-IsSerial :
      (start : S) (locked : Bool) (now : ℕ) (w : W) (cs : List C)
      → IsSerial start (w, cs)
      → IsSerial start (turn ops locked now w, cs)
  unfolding turn
  turn-IsSerial start locked now w cs h =
      elim w.is_running
        as (λ b. IsSerial start (if b then turn_with ops locked now w w.queue else w, cs)) [
          | true ↦ turn_with-IsSerial start locked now w w.queue cs refl h
          | false ↦ h
        ]

  sent_if :
      (start : S) (c : C) (w v : W) (cs : List C) (on room : Bool) (stopped full : String)
      → IsSerial start (w, cs)
      → (room ≡ true → IsSerial start (v, cs ++ c ∷ []))
      → IsSerial start (accept c (ensure on stopped >> (ensure room full >> ok v)) (w, cs))
  sent_if start c w v cs false room stopped full h k = h
  sent_if start c w v cs true false stopped full h k = h
  sent_if start c w v cs true true stopped full h k = k refl

  send-IsSerial :
      (start : S) (c : C) (w : W) (cs : List C)
      → IsSerial start (w, cs)
      → IsSerial start (accept c (try_send ops c w) (w, cs))
  unfolding try_send
  send-IsSerial start c w cs h =
      sent_if start c w (record w { queue = w.queue ++ c ∷ [] }) cs w.is_running
        (ltb (length w.queue) queue_capacity) _ _ h
        (λ room. enqueued start c w cs (ground (arith, room)) h)

  stopped_if :
      (start : S) (w v : W) (cs : List C) (on room : Bool) (closed_channel : String)
      → IsSerial start (w, cs)
      → (room ≡ true → IsSerial start (v, cs ++ stop ∷ []))
      → IsSerial start (
          accept_stop
            (if not on then some (err closed_channel) else if room then some (ok v) else none)
            (w, cs))
  stopped_if start w v cs false room closed_channel h k = h
  stopped_if start w v cs true false closed_channel h k = h
  stopped_if start w v cs true true closed_channel h k = k refl

  stop-IsSerial :
      (start : S) (w : W) (cs : List C)
      → IsSerial start (w, cs)
      → IsSerial start (accept_stop (send_stop ops w) (w, cs))
  unfolding send_stop
  stop-IsSerial start w cs h =
      stopped_if start w (record w { queue = w.queue ++ stop ∷ [] }) cs w.is_running
        (ltb (length w.queue) queue_capacity) _ h
        (λ room. enqueued start stop w cs (ground (arith, room)) h)

  advised-IsSerial :
      (start : S) (locked : Bool) (batch : Batch) (w : W) (cs : List C)
      → IsSerial start (w, cs)
      → IsSerial start ((enqueue_advisory ops locked batch w).0, cs)
  unfolding enqueue_advisory
  advised-IsSerial start locked batch w cs h = elim (Bool-cases (locked || is_some w.advisory)) [
    | inl taken ↦ rw taken h
    | inr free ↦ rw free (same_run start w (record w { advisory = some batch }) cs refl refl refl h)
  ]

  after-IsSerial : (start : S) (e : Event) (r : Run) → IsSerial start r → IsSerial start (after e r)
  unfolding close
  after-IsSerial start (sent c) r h = send-IsSerial start c r.0 r.1 h
  after-IsSerial start (turned locked now) r h = turn-IsSerial start locked now r.0 r.1 h
  after-IsSerial start (advised locked batch) r h = advised-IsSerial start locked batch r.0 r.1 h
  after-IsSerial start closed r h =
      same_run start r.0 (record r.0 { is_open = false }) r.1 refl refl refl h
  after-IsSerial start stopping r h = stop-IsSerial start r.0 r.1 h

  after_all-IsSerial :
      (start : S) (es : List Event) (r : Run) → IsSerial start r → IsSerial start (after_all es r)
  after_all-IsSerial start [] r h = h
  after_all-IsSerial start (e ∷ es) r h =
      after_all-IsSerial start es (after e r) (after-IsSerial start e r h)

  unfoldable pub start_writer : S → W
  start_writer s = record {
    is_open = true;
    is_running = true;
    queue = [];
    advisory = none;
    failures = 0;
    last_publication = none;
    store = s;
    answers = [];
  }

  -- Whatever is sent to the writer and however its turns, its advisory batches and its end fall among
  -- that, its store and the answers it has given are those of a serial store that has performed the
  -- accepted commands one by one, each once and in the order of acceptance, up to those still in the
  -- queue, which never holds more than its capacity.
  pub runs-IsSerial :
      (start : S) (es : List Event) → IsSerial start (after_all es (start_writer start, []))
  unfolding start_writer
  runs-IsSerial start es =
      after_all-IsSerial start es (start_writer start, [])
        (record { works = []; in_order = refl; same_store = refl; bounded = omega arith })
