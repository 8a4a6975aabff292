-- ===== src/Writer/Submit.antt =====
-- Sending to the writer, or writing directly where there is none: `enqueue_canonical_write`,
-- `canonical_write_or_direct`, `canonical_write`, `publish_canonical_trail`,
-- `finalize_canonical_store`, `stage_prefetch_batch` and `set_prefetch_state` of
-- crates/zmem-svc/src/lib.rs. What is received in time, or the error of a wait
-- that ends without it, is an argument, as are whether the lock of the queue is poisoned and the store
-- that `canonical_write` opens.
use zmem_cache.Writer.{publish, finalize, prefetch_batch, prefetch_state, canonical_write}
use zmem_cache.Writer.{
  Command, finalize, canonical_write, try_send, prefetch_state, prefetch_batch, WriterState,
  StoreOps,
}
use zmem_cache.Common.{
  ℤ, Result, Text, if◌then◌else◌, Bool, Option, some, if◌then◌else◌, ◌+◌, codes, ◌>>=◌,
  if◌then◌else◌, ℕ, text_eq, ok, err, none, not, ◌&&◌,
}
use zmem_cache.Host.{Moment, check_request_deadline, request_remaining}

-- The writer, the caller's own store, and the answer.
pub record Submitted (W S A : Type 0) : Type 0 where
  pub writer : W
  pub own_store : S
  pub answer : Result A

-- The request's deadline, or one in two minutes.
unfoldable pub deadline_of : Moment → ℕ
deadline_of m = elim m.deadline [ some deadline ↦ deadline | none ↦ m.now + 120000000000 ]

module _ {S Publication Finalization PrefetchWrite Mutation Written Batch : Type 0}
    (ops : StoreOps S Publication Finalization PrefetchWrite Mutation Written Batch) where
  abbrev pub C : Type 0
  C = Command Publication Finalization PrefetchWrite Mutation

  abbrev pub sent_or_not :
      {A : Type 0}
      → WriterState ops
      → S
      → Result A
      → Result (WriterState ops)
      → Submitted (WriterState ops) S A
  sent_or_not w s received (err reason) = record { writer = w; own_store = s; answer = err reason }
  sent_or_not w s received (ok sent) = record { writer = sent; own_store = s; answer = received }

  -- With a sender the command is sent and its answer received; without one, or when the lock of its
  -- place is poisoned, the store is used.
  unfoldable pub submit :
      {A : Type 0}
      → C
      → S × Result A
      → Result A
      → Bool
      → WriterState ops
      → S
      → Submitted (WriterState ops) S A
  submit c direct received poisoned w s =
      if w.is_open && not poisoned
      then sent_or_not w s received (try_send ops c w)
      else record { writer = w; own_store = direct.0; answer = direct.1 }

  abbrev pub checked :
      {A : Type 0}
      → WriterState ops
      → S
      → Result (Unit {0})
      → Submitted (WriterState ops) S A
      → Submitted (WriterState ops) S A
  checked w s (err reason) next = record { writer = w; own_store = s; answer = err reason }
  checked w s (ok u) next = next

  unfoldable pub canonical_write_or_direct :
      Moment
      → Option ℕ
      → ℕ
      → Mutation
      → Result Written
      → Bool
      → WriterState ops
      → S
      → Submitted (WriterState ops) S Written
  canonical_write_or_direct m token ticket mutation received poisoned w s =
      checked w s (check_request_deadline m) (
        submit (canonical_write mutation (deadline_of m) token ticket)
          (ops.apply_canonical_mutation mutation s) received poisoned w s)

  -- `canonical_write` opens the store when it writes directly.
  abbrev pub on_opened : Mutation → S → Result S → S × Result Written
  on_opened mutation s (err reason) = (s, err reason)
  on_opened mutation s (ok opened) = ops.apply_canonical_mutation mutation opened

  unfoldable pub canonical_write_opened :
      Moment
      → Option ℕ
      → ℕ
      → Mutation
      → Result S
      → Result Written
      → Bool
      → WriterState ops
      → S
      → Submitted (WriterState ops) S Written
  canonical_write_opened m token ticket mutation opened received poisoned w s =
      checked w s (check_request_deadline m) (
        submit (canonical_write mutation (deadline_of m) token ticket) (on_opened mutation s opened)
          received poisoned w s)

  -- The time that is left is asked for once the command is sent.
  unfoldable pub publish_canonical_trail :
      Moment
      → Option ℕ
      → ℕ
      → Publication
      → Result (Unit {0})
      → Bool
      → WriterState ops
      → S
      → Submitted (WriterState ops) S (Unit {0})
  publish_canonical_trail m token ticket publication received poisoned w s =
      submit (publish publication m.deadline token ticket) (ops.publish_trail publication s)
        (request_remaining m >>= λ remaining. received) poisoned w s

  unfoldable pub finalize_canonical_store :
      Moment
      → Option ℕ
      → ℕ
      → Finalization
      → Result Bool
      → Bool
      → WriterState ops
      → S
      → Submitted (WriterState ops) S Bool
  finalize_canonical_store m token ticket request received poisoned w s =
      submit (finalize request m.deadline token ticket) (ops.finalize_store request s)
        (request_remaining m >>= λ remaining. received) poisoned w s

  unfoldable pub stage_prefetch_batch :
      Moment
      → Option ℕ
      → ℕ
      → PrefetchWrite
      → Result Bool
      → Bool
      → WriterState ops
      → S
      → Submitted (WriterState ops) S Bool
  stage_prefetch_batch m token ticket batch received poisoned w s =
      submit (prefetch_batch batch (deadline_of m) token ticket) (ops.apply_prefetch_write batch s)
        received poisoned w s

  -- The end of the service is recorded whether the request is cancelled or not.
  unfoldable pub state_token : Text → Option ℕ → Option ℕ
  state_token state token = if text_eq state (codes "paused_shutdown") then none else token

  unfoldable pub set_prefetch_state :
      Moment
      → Option ℕ
      → ℕ
      → ℤ
      → Text
      → Text
      → Result (Unit {0})
      → Bool
      → WriterState ops
      → S
      → Submitted (WriterState ops) S (Unit {0})
  set_prefetch_state m token ticket repo_id head state received poisoned w s =
      submit (prefetch_state repo_id head state (deadline_of m) (state_token state token) ticket)
        (ops.set_prefetch_state repo_id head state s) received poisoned w s
