-- ===== src/Demand/Expire.antt =====
-- `expire` leaves a compact list, and leaves a compact list alone.
use zmem_cache.Common.{
  ℕ, ◌+◌, ◌-◌, ◌≤◌, ◌≡◌, refl, ap, ◌⊎◌, inl, inr, true, false, List, [], ◌∷◌, Option, none, some,
  arith, ltb, length, drop, keep, All, All-imp, All-drop, All-keep_self, keep_of_All, length-drop,
  sort_by, SortedBy, sort_by-SortedBy, All-sort_by, sort_by_of_SortedBy, Bool-cases,
}
use zmem_cache.Demand.{
  Observation, RouteDemand, sample_seconds, is_live, by_time, is_close, thin, newest_sixty,
  expire_observations, expire, IsLive, IsSpaced, IsCompact,
}

by_time_total : (a b : Observation) → (by_time a b ≡ true) ⊎ (by_time b a ≡ true)
by_time_total a b = ground arith

by_time_trans : (a b c : Observation) → by_time a b ≡ true → by_time b c ≡ true → by_time a c ≡ true
by_time_trans a b c h k = ground arith

pub IsLive-of_is_live : (now : ℕ) (x : Observation) → is_live now x ≡ true → IsLive now x
unfolding is_live
IsLive-of_is_live now x h = ground arith

is_live-of_IsLive : (now : ℕ) (x : Observation) → IsLive now x → is_live now x ≡ true
unfolding is_live
is_live-of_IsLive now x h = ground arith

module _ {ℓ} (P : Observation → Type ℓ) where
  All-thin : (last : Option ℕ) (xs : List Observation) → All P xs → All P (thin last xs)
  unfolding thin
  All-thin last [] h = tt
  All-thin last (x ∷ xs) h = elim (Bool-cases (is_close last x)) [
    | inl e ↦ rw (e, thin) (All-thin last xs h.1)
    | inr e ↦ rw (e, thin) (h.0, All-thin (some x.at) xs h.1)
  ]

-- What is kept after a sample at `at` is at least a minute later.
thin_after :
    (at : ℕ) (xs : List Observation)
    → All (λ y. at ≤ y.at) xs
    → SortedBy by_time xs
    → All (λ y. at + sample_seconds ≤ y.at) (thin (some at) xs)
unfolding thin
thin_after at [] h s = tt
thin_after at (x ∷ xs) h s = elim (Bool-cases (is_close (some at) x)) [
  | inl e ↦ rw (e, thin) (thin_after at xs h.1 s.1)
  | inr e ↦
      let far : at + sample_seconds ≤ x.at = unfold is_close in ground arith in
      rw (e, thin)
        (
          far,
          All-thin _ (some x.at) xs
              (All-imp _ _ (λ y (p : by_time x y ≡ true). ground arith) xs s.0),
        )
]

thin-IsSpaced :
    (last : Option ℕ) (xs : List Observation) → SortedBy by_time xs → IsSpaced (thin last xs)
unfolding thin
thin-IsSpaced last [] s = tt
thin-IsSpaced last (x ∷ xs) s = elim (Bool-cases (is_close last x)) [
  | inl e ↦ rw (e, thin) (thin-IsSpaced last xs s.1)
  | inr e ↦
      rw (e, thin)
        (
          thin_after x.at xs (All-imp _ _ (λ y (p : by_time x y ≡ true). ground arith) xs s.0) s.1,
          thin-IsSpaced (some x.at) xs s.1,
        )
]

IsSpaced-drop : (n : ℕ) (xs : List Observation) → IsSpaced xs → IsSpaced (drop n xs)
IsSpaced-drop ℕ.zero xs h = h
IsSpaced-drop (ℕ.suc n) [] h = h
IsSpaced-drop (ℕ.suc n) (x ∷ xs) h = IsSpaced-drop n xs h.1

newest_sixty-IsCompact :
    (now : ℕ) (xs : List Observation)
    → All (IsLive now) xs
    → IsSpaced xs
    → IsCompact now (newest_sixty xs)
unfolding newest_sixty
newest_sixty-IsCompact now xs live spaced = elim (Bool-cases (ltb 60 (length xs))) [
  | inl e ↦ rw e (record {
    live = All-drop _ (length xs - 60) xs live;
    spaced = IsSpaced-drop (length xs - 60) xs spaced;
    bounded = ground (arith, length-drop (length xs - 60) xs);
  })
  | inr e ↦ rw e (record { live = live; spaced = spaced; bounded = ground arith })
]

expire_observations-IsCompact :
    (now : ℕ) (xs : List Observation) → IsCompact now (expire_observations now xs)
unfolding expire_observations
expire_observations-IsCompact now xs =
    let live =
      All-imp _ _ (IsLive-of_is_live now) (keep (is_live now) xs)
        (All-keep_self (is_live now) xs) in
    newest_sixty-IsCompact now (thin none (sort_by by_time (keep (is_live now) xs)))
      (All-thin _ none _ (All-sort_by by_time _ _ live))
      (thin-IsSpaced none _ (sort_by-SortedBy by_time by_time_total by_time_trans _))

-- After `expire` every sample is at most an hour old and not from the future, any two are at least
-- a minute apart in ascending order, and there are at most sixty, whatever was stored before.
pub expire-IsCompact : (now : ℕ) (r : RouteDemand) → IsCompact now (expire now r).observations
unfolding expire
expire-IsCompact now r = expire_observations-IsCompact now r.observations

SortedBy-of_IsSpaced : (xs : List Observation) → IsSpaced xs → SortedBy by_time xs
SortedBy-of_IsSpaced [] h = tt
SortedBy-of_IsSpaced (x ∷ xs) h = (
  All-imp _ _ (λ y (p : x.at + sample_seconds ≤ y.at). ground arith) xs h.0,
  SortedBy-of_IsSpaced xs h.1,
)

abbrev Follows : Option ℕ → List Observation → Type 0
Follows none xs = Unit
Follows (some at) xs = All (λ y. at + sample_seconds ≤ y.at) xs

Follows-is_close :
    (last : Option ℕ) (x : Observation) (xs : List Observation)
    → Follows last (x ∷ xs)
    → is_close last x ≡ false
unfolding is_close
Follows-is_close none x xs f = refl
Follows-is_close (some at) x xs f = ground arith

thin_of_IsSpaced :
    (last : Option ℕ) (xs : List Observation) → Follows last xs → IsSpaced xs → thin last xs ≡ xs
unfolding thin
thin_of_IsSpaced last [] f h = refl
thin_of_IsSpaced last (x ∷ xs) f h =
    rw (Follows-is_close last x xs f, thin) (ap (◌∷◌ x) (thin_of_IsSpaced (some x.at) xs h.0 h.1))

pub expire_observations_of_IsCompact :
    (now : ℕ) (xs : List Observation) → IsCompact now xs → expire_observations now xs ≡ xs
unfolding expire_observations newest_sixty
expire_observations_of_IsCompact now xs c =
    let kept = keep_of_All (is_live now) xs (All-imp _ _ (is_live-of_IsLive now) xs c.live) in
    let sorted = sort_by_of_SortedBy by_time xs (SortedBy-of_IsSpaced xs c.spaced) in
    rw (kept, sorted, thin_of_IsSpaced none xs tt c.spaced) (ground (arith, c.bounded))

-- Expiring a second time at the same second changes nothing.
expire-expire : (now : ℕ) (r : RouteDemand) → expire now (expire now r) ≡ expire now r
unfolding expire
expire-expire now r =
    ap (λ xs. record r { observations = xs })
      (expire_observations_of_IsCompact now _ (expire_observations-IsCompact now r.observations))
