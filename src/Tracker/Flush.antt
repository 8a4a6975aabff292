-- ===== src/Tracker/Flush.antt =====
-- What `targets` answers, and that no use of a trail is lost before it is handed over.
use zmem_cache.Common.{
  is_empty, false, none, ◌+◌, Option, [], All, ℕ, refl, ◌∷◌, ◌≡◌, ◌∷◌, some, Text, Bool, inr, map,
  leb, true, ap, inl, List, Bool-cases, All-sort_by,
}
use zmem_cache.Tracker.{
  retained, prune, DemandUse, Tracker, RouteKey, targets_of, listed, flush, elapsed_seconds,
  AdvisoryBatch, Stored, snapshot, targets, with_target,
}
use zmem_cache.Demand.{RouteDemand, IsCompact, target, expire}
use zmem_cache.Demand.Expire.{expire-IsCompact}

-- A route is compact at this time, and this is its target.
abbrev pub IsAnswer : ℕ → ℕ → RouteDemand × ℕ → Type 0
IsAnswer now ceiling (r, depth) = IsCompact now r.observations × (target r now ceiling ≡ some depth)

-- What happens with the uses: they are all kept, or all in the accepted batch.
abbrev pub KeepsUses : Tracker → Tracker → Option AdvisoryBatch → Type 0
KeepsUses before now_tracker none = now_tracker.uses ≡ before.uses
KeepsUses before now_tracker (some b) =
    (map (λ u. (u.trail, u.at)) b.uses ≡ before.uses)
    × (now_tracker.uses ≡ [])
    × (b.routes ≡ listed now_tracker.routes)

map-uses :
    (us : List (Text × ℕ))
    → map
        (λ (u : DemandUse). (u.trail, u.at))
        (map (λ (u : Text × ℕ). record { trail = u.0; at = u.1 }) us)
      ≡ us
map-uses [] = refl
map-uses (u ∷ us) = ap (◌∷◌ u) (map-uses us)

flush_keeps :
    (now instant : ℕ) (accepts : Bool) (t : Tracker)
    → KeepsUses t (flush now instant accepts t).0 (flush now instant accepts t).1
unfolding flush snapshot
flush_keeps now instant accepts t = elim (Bool-cases (leb 5 (elapsed_seconds instant t.flushed))) [
  | inr early ↦ rw early refl
  | inl due ↦
      elim accepts as (λ b. KeepsUses t (flush now instant b t).0 (flush now instant b t).1) [
        | false ↦ rw due refl
        | true ↦ rw due (map-uses t.uses, refl, refl)
      ]
]

All-retained :
    (now : ℕ) (routes : List (RouteKey × Stored))
    → All (λ r. IsCompact now r.1.demand.observations) (retained now routes)
unfolding retained
All-retained now [] = tt
All-retained now ((key, s) ∷ rest) =
    elim (Bool-cases (is_empty (expire now s.demand).observations)) [
      | inl empty ↦ rw empty (All-retained now rest)
      | inr full ↦ rw full (expire-IsCompact now s.demand, All-retained now rest)
    ]

All-map :
    {A B : Type 0} (P : B → Type 0) (f : A → B) (xs : List A)
    → All (λ x. P (f x)) xs
    → All P (map f xs)
All-map P f [] h = tt
All-map P f (x ∷ xs) h = (h.0, All-map P f xs h.1)

All-listed :
    (now : ℕ) (routes : List (RouteKey × Stored))
    → All (λ r. IsCompact now r.1.demand.observations) routes
    → All (λ r. IsCompact now r.observations) (listed routes)
unfolding listed
All-listed now routes h =
    All-map (λ r. IsCompact now r.observations) (λ (r : RouteKey × Stored). r.1.demand) _
      (All-sort_by _ _ routes h)

All-with_target :
    (now ceiling : ℕ) (r : RouteDemand) (o : Option ℕ) (rest : List (RouteDemand × ℕ))
    → target r now ceiling ≡ o
    → IsCompact now r.observations
    → All (IsAnswer now ceiling) rest
    → All (IsAnswer now ceiling) (with_target r o rest)
All-with_target now ceiling r none rest e c h = h
All-with_target now ceiling r (some depth) rest e c h = ((c, e), h)

All-targets_of :
    (now ceiling : ℕ) (rs : List RouteDemand)
    → All (λ r. IsCompact now r.observations) rs
    → All (IsAnswer now ceiling) (targets_of now ceiling rs)
All-targets_of now ceiling [] h = tt
All-targets_of now ceiling (r ∷ rs) h =
    All-with_target now ceiling r (target r now ceiling) _ refl h.0
      (All-targets_of now ceiling rs h.1)

flush_routes :
    (now instant : ℕ) (accepts : Bool) (t : Tracker) (P : RouteKey × Stored → Type 0)
    → All P t.routes
    → All P (flush now instant accepts t).0.routes
unfolding flush
flush_routes now instant accepts t P h =
    elim (Bool-cases (leb 5 (elapsed_seconds instant t.flushed))) [
      | inr early ↦ rw early h
      | inl due ↦ elim accepts as (λ b. All P (flush now instant b t).0.routes) [
        | false ↦ rw due h
        | true ↦ rw due h
      ]
    ]

-- Each answer of `targets` is a route whose samples are compact now, with its target under the
-- ceiling; and the pending uses are all kept, or all handed over in the batch that was accepted, with
-- every route that is kept.
pub targets-IsAnswer :
    (instant ceiling : ℕ) (accepts : Bool) (t : Tracker)
    → All
        (IsAnswer (t.epoch + elapsed_seconds instant t.origin) ceiling)
        (targets instant ceiling accepts t).2
      × KeepsUses t (targets instant ceiling accepts t).0 (targets instant ceiling accepts t).1
unfolding targets prune
targets-IsAnswer instant ceiling accepts t =
    let now = t.epoch + elapsed_seconds instant t.origin in
    let kept =
      All-listed now _
        (flush_routes now instant accepts (prune now t) _ (All-retained now t.routes)) in
    (All-targets_of now ceiling _ kept, flush_keeps now instant accepts (prune now t))
