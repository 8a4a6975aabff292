-- ===== src/Writer/Advisory.antt =====
-- A pending advisory batch stays in its slot until the store has taken it.
use Prim.Native.String.{String}
use zmem_cache.Writer.Serial.{sent, turned, advised, closed, stopping, accept, accept_stop}
use zmem_cache.Writer.{
  stop, try_send, idle_with, enqueue_advisory, send_stop, turn, queue_capacity, close,
}
use zmem_cache.Common.{
  Result, ◌∙◌, ℕ, Bool, some, inl, ◌≡◌, List, inr, ok, true, Option, err, ◌⊎◌, [], false, ◌+◌, refl,
  ◌∷◌, none, sym, arith, not, if◌then◌else◌, ◌>>◌, ensure, if◌then◌else◌, ltb, is_some, ◌||◌,
  length, ◌++◌, if◌then◌else◌, ap, subst,
}
use zmem_cache.Writer.{Command, WriterState, persisted, turn_with, StoreOps, then_call}
use zmem_cache.Writer.Serial.{Event, turned, sent, advised, after}

module _ {S Publication Finalization PrefetchWrite Mutation Written Batch : Type 0}
    (ops : StoreOps S Publication Finalization PrefetchWrite Mutation Written Batch) where
  -- The store took the batch in a turn with nothing to serve.
  abbrev pub IsWritten : Batch → WriterState ops → Event ops → Type 0
  IsWritten batch w (turned locked now) =
      (locked ≡ false)
      × (w.queue ≡ [])
      × (w.is_running ≡ true)
      × ((then_call (ops.set_request (now + 250000000) none w.store) (ops.persist_advisory batch)).1
          ≡ ok tt)
  IsWritten batch w (sent c) = ⊥
  IsWritten batch w (advised locked other) = ⊥
  IsWritten batch w closed = ⊥
  IsWritten batch w stopping = ⊥

  abbrev Keeps : Batch → WriterState ops → Event ops → WriterState ops → Type 0
  Keeps batch w e v = (v.advisory ≡ some batch) ⊎ IsWritten batch w e

  persisted_keeps :
      (batch : Batch) (w : WriterState ops) (p : S × Result (Unit {0}))
      → w.advisory ≡ some batch
      → ((persisted ops w p).advisory ≡ some batch) ⊎ (p.1 ≡ ok tt)
  persisted_keeps batch w (s, ok u) h = inr refl
  persisted_keeps batch w (s, err reason) h = inl h

  idle-Keeps :
      (batch : Batch) (now : ℕ) (w : WriterState ops)
      → w.queue ≡ []
      → w.advisory ≡ some batch
      → w.is_running ≡ true
      → Keeps batch w (turned false now) (idle_with ops false now w (some batch))
  idle-Keeps batch now w q h on =
      let p =
        then_call (ops.set_request (now + 250000000) none w.store) (ops.persist_advisory batch) in
      elim (persisted_keeps batch w p h) [
        | inl kept ↦ inl kept
        | inr done ↦ inr (refl, q, on, done)
      ]

  turn_with-Keeps :
      (batch : Batch) (locked : Bool) (now : ℕ) (w : WriterState ops)
      (queue : List (Command Publication Finalization PrefetchWrite Mutation))
      → w.queue ≡ queue
      → w.advisory ≡ some batch
      → w.is_running ≡ true
      → Keeps batch w (turned locked now) (turn_with ops locked now w queue)
  turn_with-Keeps batch locked now w (c ∷ rest) q h on = inl h
  turn_with-Keeps batch true now w [] q h on = inl h
  turn_with-Keeps batch false now w [] q h on =
      subst (λ o. Keeps batch w (turned false now) (idle_with ops false now w o)) (sym h)
        (idle-Keeps batch now w q h on)

  running-Keeps :
      (batch : Batch) (locked : Bool) (now : ℕ) (w : WriterState ops) (on : Bool)
      → w.is_running ≡ on
      → w.advisory ≡ some batch
      → Keeps batch w (turned locked now) (if on then turn_with ops locked now w w.queue else w)
  running-Keeps batch locked now w true on h = turn_with-Keeps batch locked now w w.queue refl h on
  running-Keeps batch locked now w false off h = inl h

  turn-Keeps :
      (batch : Batch) (locked : Bool) (now : ℕ) (w : WriterState ops)
      → w.advisory ≡ some batch
      → Keeps batch w (turned locked now) (turn ops locked now w)
  unfolding turn
  turn-Keeps batch locked now w h = running-Keeps batch locked now w w.is_running refl h

  sent_keeps :
      (batch : Batch) (c : Command Publication Finalization PrefetchWrite Mutation)
      (w v : WriterState ops) (cs : List (Command Publication Finalization PrefetchWrite Mutation))
      (on room : Bool) (stopped full : String)
      → w.advisory ≡ some batch
      → v.advisory ≡ some batch
      → (accept ops c (ensure on stopped >> (ensure room full >> ok v)) (w, cs)).0.advisory
        ≡ some batch
  sent_keeps batch c w v cs false room stopped full h k = h
  sent_keeps batch c w v cs true false stopped full h k = h
  sent_keeps batch c w v cs true true stopped full h k = k

  stop_keeps :
      (batch : Batch) (w v : WriterState ops)
      (cs : List (Command Publication Finalization PrefetchWrite Mutation)) (on room : Bool)
      (closed_channel : String)
      → w.advisory ≡ some batch
      → v.advisory ≡ some batch
      → (accept_stop ops
          (if not on then some (err closed_channel) else if room then some (ok v) else none)
          (w, cs)).0.advisory
        ≡ some batch
  stop_keeps batch w v cs false room closed_channel h k = h
  stop_keeps batch w v cs true false closed_channel h k = h
  stop_keeps batch w v cs true true closed_channel h k = k

  advised_keeps :
      (locked : Bool) (w : WriterState ops) (o : Option Batch) (v : WriterState ops) {batch : Batch}
      → o ≡ some batch
      → (if◌then◌else◌ {A = WriterState ops × Bool} (locked || is_some o) (w, false) (v, true)).0
        ≡ w
  advised_keeps true w o v h = refl
  advised_keeps false w (some b) v h = refl
  advised_keeps false w none v h = absurd (ground (arith, h))

  -- A pending advisory batch is not lost: whatever happens next, it stays in its slot, unless a turn
  -- with an empty queue has had the store write it. A newer batch does not take its place.
  pub after_keeps :
      (batch : Batch) (e : Event ops) (w : WriterState ops)
      (cs : List (Command Publication Finalization PrefetchWrite Mutation))
      → w.advisory ≡ some batch
      → ((after ops e (w, cs)).0.advisory ≡ some batch) ⊎ IsWritten batch w e
  unfolding try_send send_stop enqueue_advisory close
  after_keeps batch (sent c) w cs h = inl (
      sent_keeps batch c w (record w { queue = w.queue ++ c ∷ [] }) cs w.is_running
        (ltb (length w.queue) queue_capacity) _ _ h h)
  after_keeps batch (turned locked now) w cs h = turn-Keeps batch locked now w h
  after_keeps batch (advised locked other) w cs h = inl (
      ap (λ v. v.advisory)
        (advised_keeps locked w w.advisory (record w { advisory = some other }) h)
      ∙ h)
  after_keeps batch closed w cs h = inl h
  after_keeps batch stopping w cs h = inl (
      stop_keeps batch w (record w { queue = w.queue ++ stop ∷ [] }) cs w.is_running
        (ltb (length w.queue) queue_capacity) _ h h)
