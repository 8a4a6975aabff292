-- ===== src/Writer.antt =====
-- The publication writer: `PublicationCommand`, `PublicationWriter`, `enqueue_advisory` and the
-- functions that send it commands, of crates/zmem-svc/src/lib.rs. The store and what commands carry
-- are parameters; each operation of the store answers and leaves a store. A response channel is a
-- ticket, a cancellation token a number, an instant a number of nanoseconds.
pub mod Serial
pub mod Submit
pub mod Modes
pub mod Agree
pub mod Advisory
pub mod Drain
pub mod Tests
use zmem_cache.Common.{
  some, length, is_some, ℤ, if◌then◌else◌, [], ◌+◌, Text, ℕ, if◌then◌else◌, err, ◌++◌, ◌%◌, List,
  ensure, if◌then◌else◌, ok, Bool, ltb, Option, ◌∷◌, ◌||◌, ◌^◌, Result, true, false, not, none,
  ◌>>◌,
}

pub data Command (Publication Finalization PrefetchWrite Mutation : Type 0) : Type 0 where
  publish :
      Publication
      → Option ℕ
      → Option ℕ
      → ℕ
      → Command Publication Finalization PrefetchWrite Mutation
  finalize :
      Finalization
      → Option ℕ
      → Option ℕ
      → ℕ
      → Command Publication Finalization PrefetchWrite Mutation
  prefetch_batch :
      PrefetchWrite → ℕ → Option ℕ → ℕ → Command Publication Finalization PrefetchWrite Mutation
  prefetch_state :
      ℤ → Text → Text → ℕ → Option ℕ → ℕ → Command Publication Finalization PrefetchWrite Mutation
  canonical_write :
      Mutation → ℕ → Option ℕ → ℕ → Command Publication Finalization PrefetchWrite Mutation
  stop : Command Publication Finalization PrefetchWrite Mutation

-- What a command answers.
pub data Answer (Written : Type 0) : Type 0 where
  finished : Result (Unit {0}) → Answer Written
  flagged : Result Bool → Answer Written
  written : Result Written → Answer Written

-- The operations of the store that the writer calls.
pub record StoreOps (S Publication Finalization PrefetchWrite Mutation Written Batch : Type 0)
    : Type 0 where
  pub set_request : ℕ → Option ℕ → S → S × Result (Unit {0})
  pub publish_trail : Publication → S → S × Result (Unit {0})
  pub finalize_store : Finalization → S → S × Result Bool
  pub apply_prefetch_write : PrefetchWrite → S → S × Result Bool
  pub set_prefetch_state : ℤ → Text → Text → S → S × Result (Unit {0})
  pub apply_canonical_mutation : Mutation → S → S × Result Written
  pub persist_advisory : Batch → S → S × Result (Unit {0})
  pub trail_id : Publication → Text

-- `and_then` on the store's answers.
abbrev pub then_call : {S A B : Type 0} → S × Result A → (S → S × Result B) → S × Result B
then_call (s, err reason) next = (s, err reason)
then_call (s, ok value) next = next s

pub record Writer (S C Batch Written : Type 0) : Type 0 where
  pub is_open : Bool
  pub is_running : Bool
  pub queue : List C
  pub advisory : Option Batch
  pub failures : ℕ
  pub last_publication : Option Text
  pub store : S
  pub answers : List (ℕ × Answer Written)

abbrev pub queue_capacity : ℕ
queue_capacity = 8

abbrev pub has_value {ℓ} : {A : Type ℓ} → Result A → Bool
has_value (ok value) = true
has_value (err reason) = false

module _ {S Publication Finalization PrefetchWrite Mutation Written Batch : Type 0}
    (ops : StoreOps S Publication Finalization PrefetchWrite Mutation Written Batch) where
  -- `set_request_deadline_and_cancellation` where there is a deadline.
  unfoldable pub prepare : Option ℕ → Option ℕ → S → S × Result (Unit {0})
  prepare none cancelled s = (s, ok tt)
  prepare (some deadline) cancelled s = ops.set_request deadline cancelled s

  abbrev pub published :
      Publication → ℕ → S × Result (Unit {0}) → S × List (ℕ × Answer Written) × Option Text
  published p ticket (s, err reason) = (s, (ticket, finished (err reason)) ∷ [], none)
  published p ticket (s, ok u) = (s, (ticket, finished (ok u)) ∷ [], some (ops.trail_id p))

  -- A command served: the store, its answer, and the trail that it published.
  unfoldable pub serve :
      Command Publication Finalization PrefetchWrite Mutation
      → S
      → S × List (ℕ × Answer Written) × Option Text
  serve (publish p deadline cancelled ticket) s =
      published p ticket (then_call (prepare deadline cancelled s) (ops.publish_trail p))
  serve (finalize request deadline cancelled ticket) s =
      let r = then_call (prepare deadline cancelled s) (ops.finalize_store request) in
      (r.0, (ticket, flagged r.1) ∷ [], none)
  serve (prefetch_batch batch deadline cancelled ticket) s =
      let r = then_call (ops.set_request deadline cancelled s) (ops.apply_prefetch_write batch) in
      (r.0, (ticket, flagged r.1) ∷ [], none)
  serve (prefetch_state repo_id head state deadline cancelled ticket) s =
      let r =
        then_call (ops.set_request deadline cancelled s)
          (ops.set_prefetch_state repo_id head state) in
      (r.0, (ticket, finished r.1) ∷ [], none)
  serve (canonical_write mutation deadline cancelled ticket) s =
      let r =
        then_call (ops.set_request deadline cancelled s) (ops.apply_canonical_mutation mutation) in
      (r.0, (ticket, written r.1) ∷ [], none)
  serve stop s = (s, [], none)

  abbrev pub or_last : Option Text → Option Text → Option Text
  or_last (some trail) last = some trail
  or_last none last = last

  abbrev pub WriterState : Type 0
  WriterState = Writer S (Command Publication Finalization PrefetchWrite Mutation) Batch Written

  abbrev pub persisted : WriterState → S × Result (Unit {0}) → WriterState
  persisted w (s, ok u) = record w { store = s; advisory = none }
  persisted w (s, err reason) = record w { store = s; failures = (w.failures + 1) % 2 ^ 64 }

  -- The timeout of 25 milliseconds: an advisory batch is written, when its slot is not locked.
  abbrev pub idle_with : Bool → ℕ → WriterState → Option Batch → WriterState
  idle_with true now w pending = w
  idle_with false now w none = w
  idle_with false now w (some batch) =
      persisted w
        (then_call (ops.set_request (now + 250000000) none w.store) (ops.persist_advisory batch))

  abbrev pub is_stop : Command Publication Finalization PrefetchWrite Mutation → Bool
  is_stop stop = true
  is_stop _ = false

  -- The turn of the loop that takes this queue.
  abbrev pub turn_with :
      Bool
      → ℕ
      → WriterState
      → List (Command Publication Finalization PrefetchWrite Mutation)
      → WriterState
  turn_with locked now w [] = idle_with locked now w w.advisory
  turn_with locked now w (c ∷ rest) =
      let served = serve c w.store in
      record w {
        queue = rest;
        is_running = not (is_stop c);
        store = served.0;
        answers = w.answers ++ served.1;
        last_publication = or_last served.2 w.last_publication;
      }

  -- A turn of the thread, as long as it runs.
  unfoldable pub turn : Bool → ℕ → WriterState → WriterState
  turn locked now w = if w.is_running then turn_with locked now w w.queue else w

  -- `try_send` of a sender that was there: full, disconnected, or sent.
  unfoldable pub try_send :
      Command Publication Finalization PrefetchWrite Mutation → WriterState → Result WriterState
  try_send c w = do
    ensure w.is_running "publication writer stopped"
    ensure (ltb (length w.queue) queue_capacity) "publication queue is full"
    ok (record w { queue = w.queue ++ c ∷ [] })

  -- `enqueue_advisory`.
  unfoldable pub enqueue_advisory : Bool → Batch → WriterState → WriterState × Bool
  enqueue_advisory locked batch w =
      if locked || is_some w.advisory
      then (w, false)
      else (record w { advisory = some batch }, true)

  -- The first part of `stop`: the sender is taken.
  unfoldable pub close : WriterState → WriterState
  close w = record w { is_open = false }

  -- The `send` of `stop` waits for room, and fails when the thread has ended.
  unfoldable pub send_stop : WriterState → Option (Result WriterState)
  send_stop w =
      if not w.is_running
      then some (err "sending on a closed channel")
      else if ltb (length w.queue) queue_capacity
      then some (ok (record w { queue = w.queue ++ stop ∷ [] }))
      else none
