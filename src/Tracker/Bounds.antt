-- ===== src/Tracker/Bounds.antt =====
-- The tracker stays within its bounds, whatever lookups it records.
use zmem_cache.Common.{
  is_empty, pair_Eq, text_Eq, insert, Option, ◌&&◌, none, refl, inr, weight_at, false, inl, lookup,
  ◌+◌, Option-cases, ◌≡◌, length, List, leb, ap, ℕ, ◌≤◌, Text, ◌==◌, some, arith, ◌-◌, ◌||◌,
  if◌then◌else◌, ltb, length-insert-le, weigh-insert, length-insert-some, if◌then◌else◌, Bool-cases,
  if◌then◌else◌, text_Eq, [], ◌∷◌, Bool, true,
}
use zmem_cache.Tracker.{
  use_trail, RouteKey, half, size, SyncSummary, stored_size, use_bytes, route_bytes, record_lookup,
  Tracker, Stored, credit_route, elapsed_seconds, initialize, retained, prune, load_routes, flush,
  targets,
}
use zmem_cache.Demand.{max_routes, expire}

-- The sizes of all that is kept add up to no more than `bytes`, within half of the budget; there are
-- no more routes and uses than `max_routes`.
pub record IsWithin (t : Tracker) : Type 0 where
  pub counted : route_bytes t.routes + use_bytes t.uses ≤ t.bytes
  pub bounded : t.bytes ≤ half
  pub few_routes : length t.routes ≤ max_routes
  pub few_uses : length t.uses ≤ max_routes

size-pos : (s : Stored) → 512 ≤ size s
unfolding size
size-pos s = omega arith

abbrev route_weight : RouteKey → Stored → ℕ
route_weight key s = size s

abbrev use_weight : Text → ℕ → ℕ
use_weight trail at = length trail + 128

weight_stored : (key : RouteKey) (o : Option Stored) → weight_at route_weight key o ≡ stored_size o
weight_stored key none = refl
weight_stored key (some s) = refl

-- Where the route is not new there is no more of them than before.
length_routes :
    (key : RouteKey) (s : Stored) (m : List (RouteKey × Stored))
    → (stored_size (lookup key m) == 0 && leb max_routes (length m)) ≡ false
    → length m ≤ max_routes
    → length (insert key s m) ≤ max_routes
length_routes key s m h k = elim (Option-cases (lookup key m)) [
  | inl none_there ↦
      let small : leb max_routes (length m) ≡ false =
        ground (arith, h, ap stored_size none_there) in
      ground (arith, length-insert-le key s m)
  | inr there ↦ omega (arith, length-insert-some key s there.0 m there.1)
]

use_trail-IsWithin :
    (now : ℕ) (trail : Text) (t : Tracker) → IsWithin t → IsWithin (use_trail now trail t).0
unfolding use_trail
use_trail-IsWithin now trail t w =
    let heavier = weigh-insert use_weight trail now t.uses in
    elim (Option-cases (lookup trail t.uses)) [
      | inr there ↦
          let found = there.1 in
          let known : use_bytes (insert trail now t.uses) + (length trail + 128)
              ≤ use_bytes t.uses + (length trail + 128) =
            rw found at heavier in
          rw found (record {
            counted = omega (arith, known, w.counted);
            bounded = w.bounded;
            few_routes = w.few_routes;
            few_uses = omega (arith, length-insert-some trail now there.0 t.uses found, w.few_uses);
          })
      | inl absent ↦
          elim (Bool-cases
            (ltb (length t.uses) max_routes && leb (t.bytes + length trail + 128) half)) [
              | inl fits ↦
                  rw (absent, fits)
                    (record {
                      counted = omega (arith, heavier, w.counted);
                      bounded = ground (arith, fits);
                      few_routes = w.few_routes;
                      few_uses = ground (arith, fits, length-insert-le trail now t.uses);
                    })
              | inr full ↦ rw (absent, full) w
            ]
    ]

-- Recording a lookup keeps the tracker within its bounds.
record_lookup-IsWithin :
    (instant capacity : ℕ) (summary : SyncSummary) (t : Tracker)
    → IsWithin t
    → IsWithin (record_lookup instant capacity summary t).0
unfolding record_lookup
record_lookup-IsWithin instant capacity summary t w =
    let now = t.epoch + elapsed_seconds instant t.origin in
    let key : RouteKey = (summary.repository, summary.route) in
    let credited = credit_route now instant summary t in
    let route : Stored = record { demand = credited.0; capacity = capacity } in
    let previous = stored_size (lookup key t.routes) in
    let bytes = t.bytes - previous + size route in
    let heavier = weigh-insert route_weight key route t.routes in
    let same = weight_stored key (lookup key t.routes) in
    elim (Bool-cases ((previous == 0 && leb max_routes (length t.routes)) || ltb half bytes)) [
      | inl skips ↦ rw skips w
      | inr fits ↦ rw fits (
          use_trail-IsWithin now summary.trail_id
            (record t {
              bytes = bytes;
              credited = if credited.1 then insert key instant t.credited else t.credited;
              routes = insert key route t.routes;
            })
            (record {
              counted = omega (arith, heavier, same, w.counted);
              bounded = ground (arith, fits);
              few_routes = length_routes key route t.routes (ground (arith, fits)) w.few_routes;
              few_uses = w.few_uses;
            }))
    ]

load_routes-IsWithin :
    (now : ℕ) (t : Tracker) (loaded : List Stored)
    → IsWithin t
    → IsWithin (load_routes now t loaded)
unfolding load_routes
load_routes-IsWithin now t [] w = w
load_routes-IsWithin now t (s ∷ rest) w =
    let live : Stored = record s { demand = expire now s.demand } in
    let key : RouteKey = (live.demand.repository, live.demand.route) in
    let heavier = weigh-insert route_weight key live t.routes in
    elim (Bool-cases (
      is_empty live.demand.observations
      || leb max_routes (length t.routes)
      || ltb half (t.bytes + size live))) [
        | inl skips ↦ rw skips (load_routes-IsWithin now t rest w)
        | inr fits ↦ rw fits (
            load_routes-IsWithin now
              (record t { bytes = t.bytes + size live; routes = insert key live t.routes }) rest
              (record {
                counted = omega (arith, heavier, w.counted);
                bounded = ground (arith, fits);
                few_routes = ground (arith, fits, length-insert-le key live t.routes);
                few_uses = w.few_uses;
              }))
      ]

retained-le :
    (now : ℕ) (routes : List (RouteKey × Stored))
    → (route_bytes (retained now routes) ≤ route_bytes routes)
      × (length (retained now routes) ≤ length routes)
unfolding retained size expire
retained-le now [] = (omega arith, omega arith)
retained-le now ((key, s) ∷ rest) =
    let ih = retained-le now rest in
    elim (Bool-cases (is_empty (expire now s.demand).observations)) [
      | inl empty ↦ rw empty (omega (arith, ih.0), omega (arith, ih.1))
      | inr full ↦ rw full (omega (arith, ih.0), omega (arith, ih.1))
    ]

prune-IsWithin : (now : ℕ) (t : Tracker) → IsWithin t → IsWithin (prune now t)
unfolding prune
prune-IsWithin now t w =
    let (lighter, fewer) = retained-le now t.routes in
    record {
      counted = omega arith;
      bounded = omega (arith, lighter, w.counted, w.bounded);
      few_routes = omega (arith, fewer, w.few_routes);
      few_uses = w.few_uses;
    }

flush-IsWithin :
    (now instant : ℕ) (accepts : Bool) (t : Tracker)
    → IsWithin t
    → IsWithin (flush now instant accepts t).0
unfolding flush
flush-IsWithin now instant accepts t w =
    let same : IsWithin (record t { flushed = instant }) = record {
      counted = w.counted;
      bounded = w.bounded;
      few_routes = w.few_routes;
      few_uses = w.few_uses;
    } in
    elim (Bool-cases (leb 5 (elapsed_seconds instant t.flushed))) [
      | inr early ↦ rw early w
      | inl due ↦ elim accepts as (λ b. IsWithin (flush now instant b t).0) [
        | false ↦ rw due same
        | true ↦ rw due (record {
          counted = omega arith;
          bounded = omega (arith, w.counted, w.bounded);
          few_routes = w.few_routes;
          few_uses = omega arith;
        })
      ]
    ]

-- What the process does with its tracker.
pub data Call : Type 0 where
  looked_up : (instant capacity : ℕ) (summary : SyncSummary) → Call
  asked : (instant ceiling : ℕ) (accepts : Bool) → Call

abbrev pub after : Call → Tracker → Tracker
after (looked_up instant capacity summary) t = (record_lookup instant capacity summary t).0
after (asked instant ceiling accepts) t = (targets instant ceiling accepts t).0

abbrev pub after_all : List Call → Tracker → Tracker
after_all [] t = t
after_all (c ∷ cs) t = after_all cs (after c t)

after-IsWithin : (c : Call) (t : Tracker) → IsWithin t → IsWithin (after c t)
unfolding targets
after-IsWithin (looked_up instant capacity summary) t w =
    record_lookup-IsWithin instant capacity summary t w
after-IsWithin (asked instant ceiling accepts) t w =
    let now = t.epoch + elapsed_seconds instant t.origin in
    flush-IsWithin now instant accepts (prune now t) (prune-IsWithin now t w)

after_all-IsWithin : (cs : List Call) (t : Tracker) → IsWithin t → IsWithin (after_all cs t)
after_all-IsWithin [] t w = w
after_all-IsWithin (c ∷ cs) t w = after_all-IsWithin cs (after c t) (after-IsWithin c t w)

-- From any loaded routes on, after any sequence of lookups and of calls of `targets`, whatever the
-- clock, the allocator and the writer do, the tracker is within its bounds: the sizes of the routes
-- and of the uses add up to no more than its count of bytes, that is within half of the budget, and
-- there are at most `max_routes` routes and as many uses.
pub initialize-IsWithin :
    (now instant : ℕ) (loaded : List Stored) (cs : List Call)
    → IsWithin (after_all cs (initialize now instant loaded))
unfolding initialize
initialize-IsWithin now instant loaded cs =
    let fresh : Tracker = record {
      routes = [];
      uses = [];
      credited = [];
      bytes = 0;
      origin = instant;
      epoch = now;
      flushed = instant;
    } in
    let start : IsWithin fresh = record {
      counted = omega arith;
      bounded = omega arith;
      few_routes = omega arith;
      few_uses = omega arith;
    } in
    after_all-IsWithin cs _ (load_routes-IsWithin now fresh loaded start)
