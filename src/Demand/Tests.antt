-- ===== src/Demand/Tests.antt =====
-- The theorems of the demand policy at concrete routes.
use zmem_cache.Demand.Expire.{expire-IsCompact}
use zmem_cache.Demand.Observe.{observe-observe}
use zmem_cache.Demand.Target.{target_sound, IsDeeper}
use zmem_cache.Common.{
  ◌++◌, false, ◌≡◌, ℕ, Any, refl, List, arith, ◌≤◌, codes, keep, ◌∷◌, [], ◌<◌, All, ◌+◌, sort_by,
}
use zmem_cache.Demand.{
  deepest, thin, target_of, expire_observations, IsCompact, is_close, target, lead, saturating_add,
  observe, expire, is_recent, is_deeper, Observation, window, newest_sixty, RouteDemand, is_live,
}

abbrev route_of : List Observation → RouteDemand
route_of xs = record {
  repository = codes "repo";
  route = codes "refs/heads/main";
  oid = codes "a1";
  generation = codes "g";
  observations = xs;
}

abbrev sample : ℕ → ℕ → Observation
sample at depth = record { at = at; depth = depth }

-- Out of order, one sample too close to another, and one from the future.
abbrev busy : RouteDemand
busy = route_of (sample 900 700 ∷ sample 100 600 ∷ sample 930 800 ∷ sample 9000 900 ∷ [])

abbrev deep : RouteDemand
deep = route_of (sample 1000 700 ∷ sample 1100 900 ∷ [])

abbrev shallow : RouteDemand
shallow = route_of (sample 1000 400 ∷ sample 1100 500 ∷ [])

expire-IsCompact_example : IsCompact 1000 (expire 1000 busy).observations
expire-IsCompact_example = expire-IsCompact 1000 busy

observe-observe_example : (observe 1030 700 (observe 1000 800 busy).0).1 ≡ false
unfolding observe expire expire_observations is_live is_close thin newest_sixty is_recent sort_by
observe-observe_example = observe-observe 1000 1030 800 700 busy (omega arith) (omega arith) refl

target_sound_example :
    (a b : Observation) × (pre mid post : List Observation) × (deep.observations
      ≡ pre ++ (a ∷ (mid ++ (b ∷ post))))
    × IsDeeper 1200 a
    × IsDeeper 1200 b
    × All (λ s. s.depth < 1400) (keep (is_deeper 1200) deep.observations)
    × (1400 ≤ 5000)
    × Any (λ s. IsDeeper 1200 s × (1400 ≤ s.depth + window)) deep.observations
unfolding target target_of is_deeper is_live lead saturating_add deepest
target_sound_example = target_sound deep 1200 5000 refl
