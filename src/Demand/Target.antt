-- ===== src/Demand/Target.antt =====
-- When `target` asks for a deeper window, and how deep.
use zmem_cache.Common.{
  ℕ, ◌+◌, ◌≤◌, ◌<◌, ◌≡◌, refl, ◌⊎◌, inl, inr, true, List, [], ◌∷◌, some, arith, max, All, Any,
  All-imp, min, Any-imp, ◌++◌, length, none, keep, keep_split, Any-of_keep, All-Any, All-keep_self,
  ◌∙◌, Any_const, ap,
}
use zmem_cache.Demand.{
  Observation, window, is_deeper, deepest, lead, saturating_add, target_of, target, usize_max,
  RouteDemand,
}

-- A live sample deeper than one window.
abbrev pub IsDeeper : ℕ → Observation → Type 0
IsDeeper now s = (s.at ≤ now) × (now < s.at + 3600) × (window < s.depth)

IsDeeper-of_is_deeper : (now : ℕ) (s : Observation) → is_deeper now s ≡ true → IsDeeper now s
unfolding is_deeper
IsDeeper-of_is_deeper now s h = ground arith

le-deepest : (d : ℕ) (xs : List Observation) → d ≤ deepest d xs
unfolding deepest
le-deepest d [] = omega arith
le-deepest d (x ∷ xs) = omega (arith, le-deepest (max d x.depth) xs)

All-deepest : (d : ℕ) (xs : List Observation) → All (λ s. s.depth ≤ deepest d xs) xs
unfolding deepest
All-deepest d [] = tt
All-deepest d (x ∷ xs) =
    (omega (arith, le-deepest (max d x.depth) xs), All-deepest (max d x.depth) xs)

deepest_attained :
    (d : ℕ) (xs : List Observation) → (deepest d xs ≡ d) ⊎ Any (λ s. deepest d xs ≡ s.depth) xs
unfolding deepest
deepest_attained d [] = inl refl
deepest_attained d (x ∷ xs) = elim (deepest_attained (max d x.depth) xs) [
  | inl e ↦ grind arith
  | inr a ↦ inr (inr a)
]

-- The fold over a list of at least two samples is its greatest depth.
module _ (a b : Observation) (xs : List Observation) where
  greatest : ℕ
  greatest = deepest (max a.depth b.depth) xs

  All-greatest : All (λ s. s.depth ≤ greatest) (a ∷ b ∷ xs)
  unfolding greatest
  All-greatest =
      let h = le-deepest (max a.depth b.depth) xs in
      (omega arith, (omega arith, All-deepest (max a.depth b.depth) xs))

  Any-greatest : Any (λ s. greatest ≡ s.depth) (a ∷ b ∷ xs)
  unfolding greatest
  Any-greatest = elim (deepest_attained (max a.depth b.depth) xs) [
    | inl e ↦ grind arith
    | inr r ↦ inr (inr r)
  ]

lead_sound : (d c : ℕ) {t : ℕ} → lead d c ≡ some t → (d < t) × (t ≤ c) × (t ≤ d + window)
unfolding lead
lead_sound d c h = ground arith

lead_complete : (d c : ℕ) → d + window ≤ usize_max → d < c → lead d c ≡ some (min (d + window) c)
unfolding lead saturating_add
lead_complete d c fits h = ground arith

-- What a target says of the samples that count: none is deeper, and it leads one by a window at most.
record IsLead (c t : ℕ) (xs : List Observation) : Type 0 where
  pub above : All (λ s. s.depth < t) xs
  pub capped : t ≤ c
  pub near : Any (λ s. t ≤ s.depth + window) xs

target_of-IsLead :
    (c t : ℕ) (xs : List Observation)
    → target_of xs c ≡ some t
    → (a : Observation) × (b : Observation) × (rest : List Observation) × (xs ≡ a ∷ b ∷ rest)
      × IsLead c t xs
unfolding target_of greatest
target_of-IsLead c t [] h = absurd (ground arith)
target_of-IsLead c t (a ∷ []) h = absurd (ground arith)
target_of-IsLead c t (a ∷ b ∷ rest) h =
    let d = greatest a b rest in
    let l : (d < t) × (t ≤ c) × (t ≤ d + window) = lead_sound d c h in
    (
      a,
      b,
      rest,
      refl,
      record {
        above =
            All-imp (λ s. s.depth ≤ d) (λ s. s.depth < t) (λ s p. omega arith) (a ∷ b ∷ rest)
              (All-greatest a b rest);
        capped = l.1;
        near =
            Any-imp (λ s. d ≡ s.depth) (λ s. t ≤ s.depth + window) (λ s p. omega arith)
              (a ∷ b ∷ rest) (Any-greatest a b rest);
      },
    )

-- A target is asked for only on the evidence of two separate samples, both at most an hour old and
-- deeper than one window. It is at most the ceiling, beyond every sample that counts, and
-- no more than one window beyond some sample that counts.
pub target_sound :
    (r : RouteDemand) (now ceiling : ℕ) {t : ℕ}
    → target r now ceiling ≡ some t
    → (a b : Observation) × (pre mid post : List Observation) × (r.observations
        ≡ pre ++ (a ∷ (mid ++ (b ∷ post))))
      × IsDeeper now a
      × IsDeeper now b
      × All (λ s. s.depth < t) (keep (is_deeper now) r.observations)
      × (t ≤ ceiling)
      × Any (λ s. IsDeeper now s × (t ≤ s.depth + window)) r.observations
unfolding target
target_sound r now ceiling {t} h =
    let p = is_deeper now in
    let (a, b, rest, e, l) = target_of-IsLead ceiling t (keep p r.observations) h in
    let (pre, post, e₁, pa, k₁) = keep_split p r.observations a (b ∷ rest) e in
    let (mid, post', e₂, pb, k₂) = keep_split p post b rest k₁ in
    (
      a,
      b,
      pre,
      mid,
      post',
      e₁ ∙ ap (λ z. pre ++ (a ∷ z)) e₂,
      IsDeeper-of_is_deeper now a pa,
      IsDeeper-of_is_deeper now b pb,
      l.above,
      l.capped,
      Any-of_keep _ p r.observations (
          All-Any (λ s. p s ≡ true) (λ s. t ≤ s.depth + window) _
            (λ s d n. (IsDeeper-of_is_deeper now s d, n)) (keep p r.observations)
            (All-keep_self p r.observations) l.near),
    )

-- With two samples that count, none of which is as deep as the ceiling (nor within a window of the
-- largest usize), a target is always asked for.
target_complete :
    (r : RouteDemand) (now ceiling : ℕ)
    → 2 ≤ length (keep (is_deeper now) r.observations)
    → All
        (λ s. (s.depth < ceiling) × (s.depth + window ≤ usize_max))
        (keep (is_deeper now) r.observations)
    → (t : ℕ) × (target r now ceiling ≡ some t)
unfolding target target_of greatest
target_complete r now ceiling two small = go (keep (is_deeper now) r.observations) two small
  where
    go :
        (xs : List Observation)
        → 2 ≤ length xs
        → All (λ s. (s.depth < ceiling) × (s.depth + window ≤ usize_max)) xs
        → (t : ℕ) × (target_of xs ceiling ≡ some t)
    go [] n h = absurd (omega arith)
    go (a ∷ []) n h = absurd (omega arith)
    go (a ∷ b ∷ rest) n h =
        let d = greatest a b rest in
        let fits : (d < ceiling) × (d + window ≤ usize_max) = Any_const _ (a ∷ b ∷ rest) (
          All-Any (λ s. (s.depth < ceiling) × (s.depth + window ≤ usize_max)) (λ s. d ≡ s.depth)
            (λ _. (d < ceiling) × (d + window ≤ usize_max)) (λ s p q. omega arith) (a ∷ b ∷ rest) h
            (Any-greatest a b rest)) in
        (min (d + window) ceiling, lead_complete d ceiling fits.1 fits.0)

-- Samples no deeper than one window never ask for a target.
target_shallow :
    (r : RouteDemand) (now ceiling : ℕ)
    → All (λ s. s.depth ≤ window) r.observations
    → target r now ceiling ≡ none
unfolding target target_of
target_shallow r now ceiling h = rw (none_deeper r.observations h)
  where
    none_deeper :
        (xs : List Observation) → All (λ s. s.depth ≤ window) xs → keep (is_deeper now) xs ≡ []
    none_deeper [] h = refl
    none_deeper (x ∷ xs) h = unfold is_deeper in ground (arith, none_deeper xs h.1)
