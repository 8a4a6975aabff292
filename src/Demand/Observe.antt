-- ===== src/Demand/Observe.antt =====
-- `observe` keeps the list compact, and credits at most one sample a minute.
use zmem_cache.Common.{
  ℕ, ◌+◌, ◌*◌, ◌≤◌, ◌≡◌, refl, ◌↔◌, inl, inr, Bool, true, false, List, [], ◌∷◌, ◌++◌, arith, length,
  keep, All, All-append, All-keep, get_last?, Bool-cases, some, ◌<◌, keep-keep, All-imp,
  All-keep_self, sym, ◌∙◌,
}
use zmem_cache.Demand.{
  Observation, RouteDemand, sample_seconds, expire, is_recent, observe, IsLive, IsSpaced, IsCompact,
  expire_observations, is_live,
}
use zmem_cache.Demand.Expire.{expire-IsCompact, IsLive-of_is_live, expire_observations_of_IsCompact}

spaced_span :
    (now : ℕ) (x : Observation) (xs : List Observation)
    → All (IsLive now) (x ∷ xs)
    → IsSpaced (x ∷ xs)
    → x.at + 60 * length xs ≤ now
spaced_span now x [] live spaced = omega arith
spaced_span now x (y ∷ ys) live spaced = omega (arith, spaced_span now y ys live.1 spaced.1)

-- Sixty samples a minute apart fill the hour.
length-le_of_spaced :
    (now : ℕ) (xs : List Observation) → All (IsLive now) xs → IsSpaced xs → length xs ≤ 60
length-le_of_spaced now [] live spaced = omega arith
length-le_of_spaced now (x ∷ xs) live spaced = omega (arith, spaced_span now x xs live spaced)

IsSpaced-append :
    (xs : List Observation) (z : Observation)
    → All (λ y. y.at + sample_seconds ≤ z.at) xs
    → IsSpaced xs
    → IsSpaced (xs ++ z ∷ [])
IsSpaced-append [] z h s = (tt, tt)
IsSpaced-append (x ∷ xs) z h s =
    (All-append _ xs (z ∷ []) s.0 (h.0, tt), IsSpaced-append xs z h.1 s.1)

-- The test on the last sample is a test on all of them.
not_recent-All :
    (now : ℕ) (xs : List Observation)
    → All (IsLive now) xs
    → IsSpaced xs
    → is_recent now (get_last? xs) ≡ false
    → All (λ y. y.at + sample_seconds ≤ now) xs
unfolding is_recent
not_recent-All now [] live s h = tt
not_recent-All now (x ∷ []) live s h = (ground arith, tt)
not_recent-All now (x ∷ y ∷ ys) live s h =
    let rest = not_recent-All now (y ∷ ys) live.1 s.1 h in (omega arith, rest)

All-not_recent :
    (now : ℕ) (xs : List Observation)
    → All (λ y. y.at + sample_seconds ≤ now) xs
    → is_recent now (get_last? xs) ≡ false
unfolding is_recent
All-not_recent now [] h = refl
All-not_recent now (x ∷ []) h = ground arith
All-not_recent now (x ∷ y ∷ ys) h = All-not_recent now (y ∷ ys) h.1

-- Recording a sample keeps the stored list compact, credited or not: the list never outgrows sixty.
observe-IsCompact :
    (now depth : ℕ) (r : RouteDemand) → IsCompact now (observe now depth r).0.observations
unfolding observe
observe-IsCompact now depth r =
    let e = expire now r in
    let c : IsCompact now e.observations = expire-IsCompact now r in
    let z : Observation = record { at = now; depth = depth } in
    elim (Bool-cases (is_recent now (get_last? e.observations))) [
      | inl h ↦ rw h c
      | inr h ↦
          let live : All (IsLive now) (e.observations ++ z ∷ []) =
            All-append _ e.observations (z ∷ []) c.live (omega arith) in
          let spaced : IsSpaced (e.observations ++ z ∷ []) =
            IsSpaced-append e.observations z (not_recent-All now e.observations c.live c.spaced h)
              c.spaced in
          rw h (record {
            live = live;
            spaced = spaced;
            bounded = length-le_of_spaced now _ live spaced;
          })
    ]

-- A sample is credited exactly when every sample that is still stored is at least a minute old.
observe_credit :
    (now depth : ℕ) (r : RouteDemand)
    → ((observe now depth r).1 ≡ true)
      ↔ All (λ y. y.at + sample_seconds ≤ now) (expire now r).observations
unfolding observe
observe_credit now depth r =
    let c : IsCompact now (expire now r).observations = expire-IsCompact now r in
    (
      λ h. not_recent-All now (expire now r).observations c.live c.spaced (ground arith),
      λ h. rw (All-not_recent now (expire now r).observations h),
    )

IsSpaced-keep :
    (p : Observation → Bool) (xs : List Observation) → IsSpaced xs → IsSpaced (keep p xs)
IsSpaced-keep p [] s = tt
IsSpaced-keep p (x ∷ xs) s = elim (Bool-cases (p x)) [
  | inl e ↦ rw e (All-keep _ p xs s.0, IsSpaced-keep p xs s.1)
  | inr e ↦ rw e (IsSpaced-keep p xs s.1)
]

get_last?-append : (xs : List Observation) (z : Observation) → get_last? (xs ++ z ∷ []) ≡ some z
get_last?-append [] z = refl
get_last?-append (x ∷ []) z = refl
get_last?-append (x ∷ y ∷ xs) z = get_last?-append (y ∷ xs) z

keep-append :
    (p : Observation → Bool) (xs ys : List Observation) → keep p (xs ++ ys) ≡ keep p xs ++ keep p ys
keep-append p [] ys = refl
keep-append p (x ∷ xs) ys = ground (arith, keep-append p xs ys)

observe_credited :
    (now d : ℕ) (r : RouteDemand)
    → (observe now d r).1 ≡ true
    → (observe now d r).0.observations
      ≡ (expire now r).observations ++ record { at = now; depth = d } ∷ []
unfolding observe
observe_credited now d r h =
    elim (Bool-cases (is_recent now (get_last? (expire now r).observations))) [
      | inl e ↦ absurd (ground arith)
      | inr e ↦ rw e
    ]

observe_refused :
    (now d : ℕ) (r : RouteDemand)
    → is_recent now (get_last? (expire_observations now r.observations)) ≡ true
    → (observe now d r).1 ≡ false
unfolding observe expire
observe_refused now d r h = rw h

expire_observations-expired :
    (now : ℕ) (xs : List Observation)
    → expire_observations now (keep (is_live now) xs) ≡ expire_observations now xs
unfolding expire_observations
expire_observations-expired now xs = rw (keep-keep (is_live now) xs)

-- Of a compact list, expiry at a later second drops what is no longer live, and nothing else.
expire_observations-keep :
    (now later : ℕ) (xs : List Observation)
    → now ≤ later
    → IsCompact now xs
    → expire_observations later xs ≡ keep (is_live later) xs
expire_observations-keep now later xs le c =
    let ys = keep (is_live later) xs in
    let live : All (IsLive later) ys =
      All-imp _ _ (IsLive-of_is_live later) ys (All-keep_self (is_live later) xs) in
    let spaced : IsSpaced ys = IsSpaced-keep (is_live later) xs c.spaced in
    let compact : IsCompact later ys = record {
      live = live;
      spaced = spaced;
      bounded = length-le_of_spaced later ys live spaced;
    } in
    sym (expire_observations-expired later xs) ∙ expire_observations_of_IsCompact later ys compact

still_recent :
    (now later d : ℕ) (xs : List Observation)
    → now ≤ later
    → later < now + sample_seconds
    → IsCompact now (xs ++ record { at = now; depth = d } ∷ [])
    → is_recent later
        (get_last? (expire_observations later (xs ++ record { at = now; depth = d } ∷ [])))
      ≡ true
unfolding is_live is_recent
still_recent now later d xs le near c =
    let z : Observation = record { at = now; depth = d } in
    let z_live : keep (is_live later) (z ∷ []) ≡ z ∷ [] = ground arith in
    rw
      (
        expire_observations-keep now later (xs ++ z ∷ []) le c,
        keep-append (is_live later) xs (z ∷ []),
        z_live,
        get_last?-append (keep (is_live later) xs) z,
      )
      (ground arith)

-- Two calls within a minute credit one sample at most: after a credited call the next is not.
pub observe-observe :
    (now later d e : ℕ) (r : RouteDemand)
    → now ≤ later
    → later < now + sample_seconds
    → (observe now d r).1 ≡ true
    → (observe later e (observe now d r).0).1 ≡ false
observe-observe now later d e r le near credited =
    let compact : IsCompact now (observe now d r).0.observations = observe-IsCompact now d r in
    let shape = observe_credited now d r credited in
    let again =
      still_recent now later d (expire now r).observations le near (rw shape at compact) in
    observe_refused later e (observe now d r).0 (rw shape again)
