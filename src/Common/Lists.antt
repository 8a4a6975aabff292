-- ===== src/Common/Lists.antt =====
-- Lists measured and indexed by native numbers, Boolean filters, and predicates by recursion.
use Prim.Native.Nat.{ℕ, zero, suc, ◌+◌, ◌-◌, ◌≤◌, min}
use mathlib.Core.Path.{◌≡◌, refl, ap}
use mathlib.Core.Bool.{Bool, true, false, ◌&&◌, ◌||◌}
use mathlib.Core.List.{List, [], ◌∷◌, ◌++◌, map}
use mathlib.Core.Option.{Option, none, some}
use native.Mathlib.Omega.{arith}
use mathlib.Core.Logic.{◌⊎◌, inl, inr}
use zmem_cache.Common.Tests.{if◌then◌else◌, Bool-cases}

abbrev pub is_empty {ℓ} : {A : Type ℓ} → List A → Bool
is_empty [] = true
is_empty (x ∷ xs) = false

module _ {ℓ} {A : Type ℓ} where
  abbrev pub length : List A → ℕ
  length [] = 0
  length (x ∷ xs) = suc (length xs)

  abbrev pub get_elem? : List A → ℕ → Option A
  get_elem? [] i = none
  get_elem? (x ∷ xs) zero = some x
  get_elem? (x ∷ xs) (suc i) = get_elem? xs i

  abbrev pub take : ℕ → List A → List A
  take zero xs = []
  take (suc n) [] = []
  take (suc n) (x ∷ xs) = x ∷ take n xs

  abbrev pub drop : ℕ → List A → List A
  drop zero xs = xs
  drop (suc n) [] = []
  drop (suc n) (x ∷ xs) = drop n xs

  -- `last` of a slice.
  abbrev pub get_last? : List A → Option A
  get_last? [] = none
  get_last? (x ∷ []) = some x
  get_last? (x ∷ y ∷ l) = get_last? (y ∷ l)

  -- `retain` and `filter`.
  abbrev pub keep : (A → Bool) → List A → List A
  keep p [] = []
  keep p (x ∷ xs) = if p x then x ∷ keep p xs else keep p xs

  abbrev pub all : (A → Bool) → List A → Bool
  all p [] = true
  all p (x ∷ xs) = p x && all p xs

  abbrev pub any : (A → Bool) → List A → Bool
  any p [] = false
  any p (x ∷ xs) = p x || any p xs

module _ {ℓ} {A : Type ℓ} where
  pub length-append : (xs ys : List A) → length (xs ++ ys) ≡ length xs + length ys
  length-append [] ys = omega arith
  length-append (x ∷ xs) ys = omega (arith, length-append xs ys)

  pub length-drop : (n : ℕ) (xs : List A) → length (drop n xs) ≡ length xs - n
  length-drop zero xs = omega arith
  length-drop (suc n) [] = omega arith
  length-drop (suc n) (x ∷ xs) = omega (arith, length-drop n xs)

  pub length-take : (n : ℕ) (xs : List A) → length (take n xs) ≡ min n (length xs)
  length-take zero xs = omega arith
  length-take (suc n) [] = omega arith
  length-take (suc n) (x ∷ xs) = omega (arith, length-take n xs)

  pub take-append-drop : (n : ℕ) (xs : List A) → take n xs ++ drop n xs ≡ xs
  take-append-drop zero xs = refl
  take-append-drop (suc n) [] = refl
  take-append-drop (suc n) (x ∷ xs) = ap (◌∷◌ x) (take-append-drop n xs)

  pub length-keep-le : (p : A → Bool) (xs : List A) → length (keep p xs) ≤ length xs
  length-keep-le p [] = omega arith
  length-keep-le p (x ∷ xs) = ground (arith, length-keep-le p xs)

module _ {ℓ κ} {A : Type ℓ} where
  abbrev pub All : (A → Type κ) → List A → Type κ
  All P [] = Unit
  All P (x ∷ xs) = P x × All P xs

  pub All-append : (P : A → Type κ) (xs ys : List A) → All P xs → All P ys → All P (xs ++ ys)
  All-append P [] ys hx hy = hy
  All-append P (x ∷ xs) ys hx hy = (hx.0, All-append P xs ys hx.1 hy)

  pub All-drop : (P : A → Type κ) (n : ℕ) (xs : List A) → All P xs → All P (drop n xs)
  All-drop P zero xs h = h
  All-drop P (suc n) [] h = h
  All-drop P (suc n) (x ∷ xs) h = All-drop P n xs h.1

module _ {ℓ κ μ} {A : Type ℓ} where
  pub All-imp :
      (P : A → Type κ) (Q : A → Type μ)
      → ((a : A) → P a → Q a)
      → (xs : List A) → All P xs
      → All Q xs
  All-imp P Q f [] h = tt
  All-imp P Q f (x ∷ xs) h = (f x h.0, All-imp P Q f xs h.1)

module _ {ℓ} {A : Type ℓ} where
  pub All-keep_self : (p : A → Bool) (xs : List A) → All (λ x. p x ≡ true) (keep p xs)
  All-keep_self p [] = tt
  All-keep_self p (x ∷ xs) = ground (arith, All-keep_self p xs)

  pub keep_of_All : (p : A → Bool) (xs : List A) → All (λ x. p x ≡ true) xs → keep p xs ≡ xs
  keep_of_All p [] h = refl
  keep_of_All p (x ∷ xs) h = ground (arith, keep_of_All p xs h.1)

module _ {ℓ κ} {A : Type ℓ} where
  pub All-keep : (P : A → Type κ) (p : A → Bool) (xs : List A) → All P xs → All P (keep p xs)
  All-keep P p [] h = tt
  All-keep P p (x ∷ xs) h = ground (arith, All-keep P p xs h.1)

-- At a level of its own, the empty type is small.
abbrev pub Any {ℓ} : {A : Type ℓ} → (A → Type 0) → List A → Type 0
Any P [] = ⊥
Any P (x ∷ xs) = P x ⊎ Any P xs

pub Any-imp {ℓ} :
    {A : Type ℓ} (P Q : A → Type 0) → ((a : A) → P a → Q a) → (xs : List A) → Any P xs → Any Q xs
Any-imp P Q f (x ∷ xs) (inl p) = inl (f x p)
Any-imp P Q f (x ∷ xs) (inr r) = inr (Any-imp P Q f xs r)
Any-imp P Q f [] h = h

pub All-Any {ℓ} :
    {A : Type ℓ} (P Q R : A → Type 0)
    → ((a : A) → P a → Q a → R a)
    → (xs : List A) → All P xs
    → Any Q xs
    → Any R xs
All-Any P Q R f (x ∷ xs) h (inl q) = inl (f x h.0 q)
All-Any P Q R f (x ∷ xs) h (inr r) = inr (All-Any P Q R f xs h.1 r)
All-Any P Q R f [] h k = k

pub Any-of_keep {ℓ} :
    {A : Type ℓ} (P : A → Type 0) (p : A → Bool) (xs : List A) → Any P (keep p xs) → Any P xs
Any-of_keep P p [] h = h
Any-of_keep P p (x ∷ xs) h = ground (arith, Any-of_keep P p xs)

pub length-keep_pos {ℓ} :
    {A : Type ℓ} (P : A → Type 0) (p : A → Bool)
    → ((a : A) → P a → p a ≡ true)
    → (xs : List A) → Any P xs
    → 1 ≤ length (keep p xs)
length-keep_pos P p f (x ∷ xs) (inl h) = rw (f x h) (omega arith)
length-keep_pos P p f (x ∷ xs) (inr h) = ground (arith, length-keep_pos P p f xs h)
length-keep_pos P p f [] h = absurd h

-- The first element that passes, and what passes after it.
pub keep_split {ℓ} :
    {A : Type ℓ} (p : A → Bool) (xs : List A) (a : A) (ys : List A)
    → keep p xs ≡ a ∷ ys
    → (pre : List A) × (post : List A) × (xs ≡ pre ++ (a ∷ post))
      × (p a ≡ true)
      × (keep p post ≡ ys)
keep_split p [] a ys h = absurd (ground arith)
keep_split p (x ∷ xs) a ys h = elim (Bool-cases (p x)) [
  | inl e ↦
      let h' : x ∷ keep p xs ≡ a ∷ ys = rw e at h in
      let same : x ≡ a = ground arith in
      ([], xs, ap (λ z. z ∷ xs) same, rw (← same) e, ground arith)
  | inr e ↦
      let h' : keep p xs ≡ a ∷ ys = rw e at h in
      let (pre, post, q, r, s) = keep_split p xs a ys h' in (x ∷ pre, post, ap (◌∷◌ x) q, r, s)
]

pub Any_const {ℓ} : {A : Type ℓ} (C : Type 0) (xs : List A) → Any (λ _. C) xs → C
Any_const C (x ∷ xs) (inl c) = c
Any_const C (x ∷ xs) (inr r) = Any_const C xs r
Any_const C [] h = absurd h

pub keep-keep {ℓ} : {A : Type ℓ} (p : A → Bool) (xs : List A) → keep p (keep p xs) ≡ keep p xs
keep-keep p xs = keep_of_All p (keep p xs) (All-keep_self p xs)

pub length-map {ℓ κ} :
    {A : Type ℓ} {B : Type κ} (f : A → B) (xs : List A) → length (map f xs) ≡ length xs
length-map f [] = refl
length-map f (x ∷ xs) = ap suc (length-map f xs)

pub All-zip {ℓ κ} :
    {A : Type ℓ} (P Q R : A → Type κ)
    → ((a : A) → P a → Q a → R a)
    → (xs : List A) → All P xs
    → All Q xs
    → All R xs
All-zip P Q R f [] h k = tt
All-zip P Q R f (x ∷ xs) h k = (f x h.0 k.0, All-zip P Q R f xs h.1 k.1)
