-- ===== src/Common/Sort.antt =====
-- The stable sort (`sort_by_key`, `sort_by`, `sort`) over a Boolean order.
use Prim.Native.Nat.{suc}
use mathlib.Core.Path.{◌≡◌, refl, ap, ◌∙◌}
use mathlib.Core.Logic.{◌⊎◌, inl, inr}
use mathlib.Core.Bool.{Bool, true}
use mathlib.Core.List.{List, [], ◌∷◌, Perm}
use mathlib.Core.List.Perm
use native.Mathlib.Omega.{arith}
use zmem_cache.Common.Tests.{if◌then◌else◌, Bool-cases}
use zmem_cache.Common.Lists.{All, All-imp, length}

module _ {ℓ} {A : Type ℓ} (le : A → A → Bool) where
  -- An earlier element stays before a later one of the same key.
  unfoldable pub insert_by : A → List A → List A
  insert_by x [] = x ∷ []
  insert_by x (y ∷ ys) = if le x y then x ∷ y ∷ ys else y ∷ insert_by x ys

  unfoldable pub sort_by : List A → List A
  unfolding insert_by
  sort_by [] = []
  sort_by (x ∷ xs) = insert_by x (sort_by xs)

  -- Every earlier element is below every later one.
  abbrev pub SortedBy : List A → Type 0
  SortedBy [] = Unit
  SortedBy (x ∷ xs) = All (λ y. le x y ≡ true) xs × SortedBy xs

  insert_by-perm : (x : A) (xs : List A) → Perm (insert_by x xs) (x ∷ xs)
  unfolding insert_by
  insert_by-perm x [] = Perm.refl (x ∷ [])
  insert_by-perm x (y ∷ ys) = elim (Bool-cases (le x y)) [
    | inl h ↦ rw h (Perm.refl (x ∷ y ∷ ys))
    | inr h ↦ rw h (Perm.trans (Perm.cons y (insert_by-perm x ys)) (Perm.swap x y ys))
  ]

  pub sort_by-perm : (xs : List A) → Perm (sort_by xs) xs
  unfolding sort_by
  sort_by-perm [] = Perm.refl []
  sort_by-perm (x ∷ xs) = Perm.trans (insert_by-perm x (sort_by xs)) (Perm.cons x (sort_by-perm xs))

  length-insert_by : (x : A) (xs : List A) → length (insert_by x xs) ≡ suc (length xs)
  unfolding insert_by
  length-insert_by x [] = refl
  length-insert_by x (y ∷ ys) = ground (arith, length-insert_by x ys)

  pub length-sort_by : (xs : List A) → length (sort_by xs) ≡ length xs
  unfolding sort_by
  length-sort_by [] = refl
  length-sort_by (x ∷ xs) = length-insert_by x (sort_by xs) ∙ ap suc (length-sort_by xs)

  insert_by-head : (x : A) (xs : List A) → All (λ y. le x y ≡ true) xs → insert_by x xs ≡ x ∷ xs
  unfolding insert_by
  insert_by-head x [] h = refl
  insert_by-head x (y ∷ ys) h = rw h.0

  -- A sorted list is left as it is.
  pub sort_by_of_SortedBy : (xs : List A) → SortedBy xs → sort_by xs ≡ xs
  unfolding sort_by
  sort_by_of_SortedBy [] h = refl
  sort_by_of_SortedBy (x ∷ xs) h =
      ap (insert_by x) (sort_by_of_SortedBy xs h.1) ∙ insert_by-head x xs h.0

module _ {ℓ κ} {A : Type ℓ} (le : A → A → Bool) (P : A → Type κ) where
  All-insert_by : (x : A) (xs : List A) → P x → All P xs → All P (insert_by le x xs)
  unfolding insert_by
  All-insert_by x [] p h = (p, tt)
  All-insert_by x (y ∷ ys) p h = elim (Bool-cases (le x y)) [
    | inl e ↦ rw e (p, h)
    | inr e ↦ rw e (h.0, All-insert_by x ys p h.1)
  ]

  pub All-sort_by : (xs : List A) → All P xs → All P (sort_by le xs)
  unfolding sort_by
  All-sort_by [] h = tt
  All-sort_by (x ∷ xs) h = All-insert_by x (sort_by le xs) h.0 (All-sort_by xs h.1)

module _ {ℓ} {A : Type ℓ} (le : A → A → Bool)
    (total : (a b : A) → (le a b ≡ true) ⊎ (le b a ≡ true))
    (trans : (a b c : A) → le a b ≡ true → le b c ≡ true → le a c ≡ true) where
  insert_by-SortedBy : (x : A) (xs : List A) → SortedBy le xs → SortedBy le (insert_by le x xs)
  unfolding insert_by
  insert_by-SortedBy x [] h = (tt, tt)
  insert_by-SortedBy x (y ∷ ys) h = elim (Bool-cases (le x y)) [
    | inl e ↦ rw e ((e, All-imp _ _ (λ z. trans x y z e) ys h.0), h)
    | inr e ↦
        let f : le y x ≡ true = ground (arith, total x y) in
        rw e (All-insert_by le _ x ys f h.0, insert_by-SortedBy x ys h.1)
  ]

  pub sort_by-SortedBy : (xs : List A) → SortedBy le (sort_by le xs)
  unfolding sort_by
  sort_by-SortedBy [] = tt
  sort_by-SortedBy (x ∷ xs) = insert_by-SortedBy x (sort_by le xs) (sort_by-SortedBy xs)
