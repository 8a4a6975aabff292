-- ===== src/Areas/Within.antt =====
-- Every path of a change is in one of its affected areas.
use zmem_cache.Common.{
  all, true, ◌∷◌, get_elem?, List, inl, ◌⊎◌, Text, subst, ◌≡◌, sort_by, ◌∙◌, none, split, length, ℕ,
  All, zero, suc, text_eq_sound, Bool, sym, Any, Bool-cases, map, ◌++◌, take, ◌≤◌, max, insert_by,
  ap, arith, join, inr, refl, Option, [], some, text_eq, All-imp, leb, Any-imp, false,
}
use zmem_cache.Areas.{
  all_areas, paths_of, area_le, common_len, is_single, group_area, Groups, root_areas, dedup,
  option_text_eq, derive_affected_areas, slash, init, group_paths,
}
use zmem_cache.Areas.Covers.{
  IsHeaded, InGroup, IsSeen, Any-append_left, group_paths-IsHeaded, Any-append_right,
  group_paths-IsSeen,
}
use zmem_cache.Journal.{root_area}
use zmem_cache.History.{ChangedPath}

-- The two lists agree at this many places from an index on.
abbrev Agree : List Text → List Text → ℕ → ℕ → Type 0
Agree d f i zero = Unit
Agree d f i (suc c) = (get_elem? d i ≡ get_elem? f i) × Agree d f (suc i) c

option_text_eq_sound : (o p : Option Text) → option_text_eq o p ≡ true → o ≡ p
option_text_eq_sound none none h = refl
option_text_eq_sound none (some t) h = absurd (ground (arith, h))
option_text_eq_sound (some s) none h = absurd (ground (arith, h))
option_text_eq_sound (some s) (some t) h = ap some (text_eq_sound s t h)

Any-one :
    (P : List Text → Type 0) (d : List Text) (xs : List (List Text))
    → All P xs
    → Any (λ x. x ≡ d) xs
    → P d
Any-one P d [] h k = absurd k
Any-one P d (x ∷ xs) h (inl e) = subst P e h.0
Any-one P d (x ∷ xs) h (inr k) = Any-one P d xs h.1 k

all-Any :
    (p : List Text → Bool) (d : List Text) (xs : List (List Text))
    → all p xs ≡ true
    → Any (λ x. x ≡ d) xs
    → p d ≡ true
all-Any p d [] h k = absurd k
all-Any p d (x ∷ xs) h (inl e) = subst (λ y. p y ≡ true) e (ground (arith, h))
all-Any p d (x ∷ xs) h (inr k) = all-Any p d xs (ground (arith, h)) k

common_len-Agree :
    (d first : List Text) (parents : List (List Text)) (i left : ℕ)
    → Any (λ p. p ≡ d) parents
    → Agree d first i (common_len first parents i left)
unfolding common_len
common_len-Agree d first parents i zero k = tt
common_len-Agree d first parents i (suc left) k =
    let test = λ (parent : List Text). option_text_eq (get_elem? parent i) (get_elem? first i) in
    elim (Bool-cases (all test parents)) [
      | inr differ ↦ rw differ tt
      | inl alike ↦ rw alike (
        option_text_eq_sound _ _ (all-Any test d parents alike k),
        common_len-Agree d first parents (suc i) left k,
      )
    ]

Agree-tail :
    (x y : Text) (d f : List Text) (i c : ℕ) → Agree (x ∷ d) (y ∷ f) (suc i) c → Agree d f i c
Agree-tail x y d f i zero h = tt
Agree-tail x y d f i (suc c) h = (h.0, Agree-tail x y d f (suc i) c h.1)

take-Agree : (c : ℕ) (d f : List Text) → Agree d f 0 c → take c d ≡ take c f
take-Agree zero d f h = refl
take-Agree (suc c) [] [] h = refl
take-Agree (suc c) [] (y ∷ f) h = absurd (ground (arith, h.0))
take-Agree (suc c) (x ∷ d) [] h = absurd (ground (arith, h.0))
take-Agree (suc c) (x ∷ d) (y ∷ f) h =
    let same : x ≡ y = ground (arith, h.0) in
    let rest : take c d ≡ take c f = take-Agree c d f (Agree-tail x y d f 0 c h.1) in cc

take-max :
    (c : ℕ) (d f : List Text)
    → take c d ≡ take c f
    → take 1 d ≡ take 1 f
    → take (max c 1) d ≡ take (max c 1) f
take-max zero d f h k = k
take-max (suc c) d f h k =
    let same : suc c ≡ max (suc c) 1 = omega arith in subst (λ n. take n d ≡ take n f) same h

-- The area is one of the directories above.
abbrev IsAbove : List Text → Text → Type 0
IsAbove d area = (n : ℕ) × (1 ≤ n) × (area ≡ join slash (take n d))

group_area-IsAbove :
    (d : List Text) (group : Text × List (List Text))
    → IsHeaded group
    → InGroup d group
    → IsAbove d (group_area group.1)
unfolding group_area
group_area-IsAbove d (key, []) h k = absurd k
group_area-IsAbove d (key, first ∷ parents) h k =
    let c = common_len first (first ∷ parents) 0 (length first) in
    let head : take 1 d ≡ key ∷ [] = Any-one (λ p. take 1 p ≡ key ∷ []) d (first ∷ parents) h k in
    let agree =
      take-Agree c d first (common_len-Agree d first (first ∷ parents) 0 (length first) k) in
    (max c 1, omega arith, ap (join slash) (sym (take-max c d first agree (head ∙ sym h.0))))

Any-areas :
    (d : List Text) (groups : List (Text × List (List Text)))
    → All IsHeaded groups
    → Any (InGroup d) groups
    → Any (IsAbove d) (map (λ group. group_area group.1) groups)
Any-areas d [] h k = absurd k
Any-areas d (group ∷ groups) h (inl k) = inl (group_area-IsAbove d group h.0 k)
Any-areas d (group ∷ groups) h (inr k) = inr (Any-areas d groups h.1 k)

module _ (P : Text → Type 0) where
  Any-insert_by_head : (x : Text) (xs : List Text) → P x → Any P (insert_by area_le x xs)
  unfolding insert_by
  Any-insert_by_head x [] h = inl h
  Any-insert_by_head x (y ∷ ys) h = elim (Bool-cases (area_le x y)) [
    | inl e ↦ rw e (inl h)
    | inr e ↦ rw e (inr (Any-insert_by_head x ys h))
  ]

  Any-insert_by : (x : Text) (xs : List Text) → Any P xs → Any P (insert_by area_le x xs)
  unfolding insert_by
  Any-insert_by x [] h = absurd h
  Any-insert_by x (y ∷ ys) h = elim (Bool-cases (area_le x y)) [
    | inl e ↦ rw e (inr h)
    | inr e ↦ rw e (elim h [ inl k ↦ inl k | inr k ↦ inr (Any-insert_by x ys k) ])
  ]

  Any-sort_by : (xs : List Text) → Any P xs → Any P (sort_by area_le xs)
  unfolding sort_by
  Any-sort_by [] h = absurd h
  Any-sort_by (x ∷ xs) (inl h) = Any-insert_by_head x (sort_by area_le xs) h
  Any-sort_by (x ∷ xs) (inr h) = Any-insert_by x (sort_by area_le xs) (Any-sort_by xs h)

  Any-dedup : (xs : List Text) → Any P xs → Any P (dedup xs)
  unfolding dedup
  Any-dedup [] h = absurd h
  Any-dedup (a ∷ []) h = h
  Any-dedup (a ∷ b ∷ rest) h = elim (Bool-cases (text_eq a b)) [
    | inl e ↦
        let same : a ≡ b = text_eq_sound a b e in
        rw e (elim h [
          | inl k ↦ Any-dedup (b ∷ rest) (inl (subst P same k))
          | inr k ↦ Any-dedup (b ∷ rest) k
        ])
    | inr e ↦ rw e (elim h [ inl k ↦ inl k | inr k ↦ inr (Any-dedup (b ∷ rest) k) ])
  ]

-- The area of a path: the root for a path of one part, or a directory above it.
abbrev pub IsWithin : Text → Text → Type 0
IsWithin path area =
    ((area ≡ root_area) × (is_single (split slash path) ≡ true))
    ⊎ ((n : ℕ) × (1 ≤ n) × (area ≡ join slash (take n (init (split slash path)))))

seen-IsWithin :
    (g : Groups) (path : Text)
    → All IsHeaded g.1
    → IsSeen g path
    → Any
        (IsWithin path)
        (dedup (sort_by area_le (root_areas g.0 ++ map (λ group. group_area group.1) g.1)))
seen-IsWithin g path h s =
    let found = map (λ group. group_area group.1) g.1 in
    let W = IsWithin path in
    Any-dedup W _ (
      Any-sort_by W _ (elim s [
        | inl root ↦
            Any-append_left W (root_areas g.0) found
              (subst (λ b. Any W (root_areas b)) (sym root.0) (inl (inl (refl, root.1))))
        | inr k ↦ Any-append_right W (root_areas g.0) found (
            Any-imp (IsAbove (init (split slash path))) W (λ area above. inr above) found
              (Any-areas (init (split slash path)) g.1 h k))
      ]))

-- Every path of a change is within one of the areas that are derived from it: the root, for a path of
-- one part, or else a directory above it.
pub derive_affected_areas-IsWithin :
    (changes : List ChangedPath) {areas : List Text}
    → derive_affected_areas changes ≡ some areas
    → All (λ path. Any (IsWithin path) areas) (paths_of changes)
unfolding derive_affected_areas all_areas
derive_affected_areas-IsWithin changes {areas} h =
    let g = group_paths (paths_of changes) (false, []) in
    let headed = group_paths-IsHeaded (paths_of changes) (false, []) tt in
    let every =
      All-imp _ _ (λ path s. seen-IsWithin g path headed s) (paths_of changes)
        (group_paths-IsSeen (paths_of changes) (false, [])) in
    elim (Bool-cases (leb (length (all_areas changes)) 3)) [
      | inr many ↦ absurd (ground (arith, rw many at h))
      | inl few ↦
          let same : some (all_areas changes) ≡ some areas = rw few at h in
          let equal : all_areas changes ≡ areas = cc in
          subst (λ x. All (λ path. Any (IsWithin path) x) (paths_of changes)) equal every
    ]
