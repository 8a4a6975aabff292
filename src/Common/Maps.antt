-- ===== src/Common/Maps.antt =====
-- Maps as association lists over keys with a Boolean equality (`HashMap`, `BTreeMap`).
use Prim.Native.Nat.{ℕ, suc, ◌+◌, ◌≤◌}
use mathlib.Core.Path.{◌≡◌, refl, ap}
use mathlib.Core.Logic.{◌↔◌, inl, inr}
use mathlib.Core.Bool.{Bool, true, false, ◌&&◌}
use mathlib.Core.Option.{Option, none, some}
use mathlib.Core.List.{List, [], ◌∷◌}
use native.Mathlib.Omega.{arith}
use zmem_cache.Common.Tests.{if◌then◌else◌, Bool-cases}
use zmem_cache.Common.Texts.{Text, text_eq, text_eq_iff}
use zmem_cache.Common.Lists.{length}

-- The keys that a map may have.
pub record Eq (K : Type 0) : Type 0 where
  pub beq : K → K → Bool
  pub beq_iff : (a b : K) → (beq a b ≡ true) ↔ (a ≡ b)

instance abbrev pub text_Eq : Eq Text
text_Eq = record { beq = text_eq; beq_iff = text_eq_iff }

module _ {K : Type 0} ⦃e : Eq K⦄ where
  infix 50 ◌=?◌
  abbrev pub ◌=?◌ : K → K → Bool
  a =? b = e.beq a b

  pub =?_self : (a : K) → (a =? a) ≡ true
  =?_self a = (e.beq_iff a a).1 refl

pub pair_eq_iff :
    {K J : Type 0} (e : Eq K) (f : Eq J) (a b : K × J)
    → ((e.beq a.0 b.0 && f.beq a.1 b.1) ≡ true) ↔ (a ≡ b)
pair_eq_iff e f (a, c) (b, d) = (
  λ h.
      let first : a ≡ b = (e.beq_iff a b).0 (ground (arith, h)) in
      let second : c ≡ d = (f.beq_iff c d).0 (ground (arith, h)) in cc,
  λ h. ground (arith, (e.beq_iff a b).1 (ap (λ x. x.0) h), (f.beq_iff c d).1 (ap (λ x. x.1) h)),
)

instance abbrev pub pair_Eq : {K J : Type 0} ⦃e : Eq K⦄ ⦃f : Eq J⦄ → Eq (K × J)
pair_Eq ⦃e⦄ ⦃f⦄ = record { beq = λ a b. e.beq a.0 b.0 && f.beq a.1 b.1; beq_iff = pair_eq_iff e f }

abbrev pub map_option {ℓ} : {V : Type ℓ} → (V → V) → Option V → Option V
map_option f none = none
map_option f (some v) = some (f v)

module _ {K : Type 0} {V : Type 0} ⦃e : Eq K⦄ where
  unfoldable pub lookup : K → List (K × V) → Option V
  lookup k [] = none
  lookup k ((j, v) ∷ m) = if j =? k then some v else lookup k m

  -- Every entry of the key goes.
  unfoldable pub remove : K → List (K × V) → List (K × V)
  remove k [] = []
  remove k ((j, v) ∷ m) = if j =? k then remove k m else (j, v) ∷ remove k m

  unfoldable pub insert : K → V → List (K × V) → List (K × V)
  insert k v m = (k, v) ∷ remove k m

  -- `get_mut` and a write through it.
  unfoldable pub update : K → (V → V) → List (K × V) → List (K × V)
  update k f [] = []
  update k f ((j, v) ∷ m) = if j =? k then (j, f v) ∷ m else (j, v) ∷ update k f m

  pub lookup-remove :
      (k j : K) (m : List (K × V)) → lookup j (remove k m) ≡ (if k =? j then none else lookup j m)
  unfolding lookup remove
  lookup-remove k j [] = ground arith
  lookup-remove k j ((i, v) ∷ m) =
      ground (arith, e.beq_iff k j, e.beq_iff i k, e.beq_iff i j, lookup-remove k j m)

  pub lookup-insert :
      (k j : K) (v : V) (m : List (K × V))
      → lookup j (insert k v m) ≡ (if k =? j then some v else lookup j m)
  unfolding lookup insert
  lookup-insert k j v m = ground (arith, lookup-remove k j m)

  pub lookup-insert_self : (k : K) (v : V) (m : List (K × V)) → lookup k (insert k v m) ≡ some v
  lookup-insert_self k v m = rw (lookup-insert k k v m, =?_self k)

  pub lookup-update :
      (k j : K) (f : V → V) (m : List (K × V))
      → lookup j (update k f m) ≡ (if k =? j then map_option f (lookup j m) else lookup j m)
  unfolding lookup update
  lookup-update k j f [] = ground arith
  lookup-update k j f ((i, v) ∷ m) =
      ground (arith, e.beq_iff k j, e.beq_iff i k, e.beq_iff i j, lookup-update k j f m)

  pub length-remove-le : (k : K) (m : List (K × V)) → length (remove k m) ≤ length m
  unfolding remove
  length-remove-le k [] = omega arith
  length-remove-le k ((j, v) ∷ m) = ground (arith, length-remove-le k m)

  -- Removing a key that is there makes the map smaller.
  pub length-remove-lt :
      (k : K) (v : V) (m : List (K × V))
      → lookup k m ≡ some v
      → suc (length (remove k m)) ≤ length m
  unfolding lookup remove
  length-remove-lt k v [] h = ground arith
  length-remove-lt k v ((j, w) ∷ m) h = elim (Bool-cases (j =? k)) [
    | inl q ↦ rw q (ground (arith, length-remove-le k m))
    | inr q ↦
        let h' : lookup k m ≡ some v = rw q at h in rw q (omega (arith, length-remove-lt k v m h'))
  ]

  pub length-update : (k : K) (f : V → V) (m : List (K × V)) → length (update k f m) ≡ length m
  unfolding update
  length-update k f [] = refl
  length-update k f ((j, v) ∷ m) = ground (arith, length-update k f m)

  -- No key has two entries.
  abbrev pub Unique : List (K × V) → Type 0
  Unique [] = Unit
  Unique ((k, v) ∷ m) = (lookup k m ≡ none) × Unique m

  pub Unique-remove : (k : K) (m : List (K × V)) → Unique m → Unique (remove k m)
  unfolding remove
  Unique-remove k [] u = tt
  Unique-remove k ((j, v) ∷ m) u = elim (Bool-cases (j =? k)) [
    | inl q ↦ rw q (Unique-remove k m u.1)
    | inr q ↦
        let gone : lookup j (remove k m) ≡ none = ground (arith, lookup-remove k j m, u.0) in
        rw q (gone, Unique-remove k m u.1)
  ]

  pub Unique-insert : (k : K) (v : V) (m : List (K × V)) → Unique m → Unique (insert k v m)
  unfolding insert
  Unique-insert k v m u =
      let gone : lookup k (remove k m) ≡ none = rw (lookup-remove k k m, =?_self k) in
      (gone, Unique-remove k m u)

  pub Unique-update : (k : K) (f : V → V) (m : List (K × V)) → Unique m → Unique (update k f m)
  unfolding update
  Unique-update k f [] u = tt
  Unique-update k f ((j, v) ∷ m) u = elim (Bool-cases (j =? k)) [
    | inl q ↦ rw q u
    | inr q ↦
        let gone : lookup j (update k f m) ≡ none = ground (arith, lookup-update k j f m, u.0) in
        rw q (gone, Unique-update k f m u.1)
  ]

  pub lookup-cons_ne :
      (k j : K) (v : V) (m : List (K × V)) → (j =? k) ≡ false → lookup k ((j, v) ∷ m) ≡ lookup k m
  unfolding lookup
  lookup-cons_ne k j v m h = rw h

  -- What the entries weigh together.
  abbrev pub weigh : (K → V → ℕ) → List (K × V) → ℕ
  weigh f [] = 0
  weigh f ((k, v) ∷ m) = f k v + weigh f m

  abbrev pub weight_at : (K → V → ℕ) → K → Option V → ℕ
  weight_at f k none = 0
  weight_at f k (some v) = f k v

  -- A removed key takes at least the weight of its entry with it.
  pub weigh-remove :
      (f : K → V → ℕ) (k : K) (m : List (K × V))
      → weigh f (remove k m) + weight_at f k (lookup k m) ≤ weigh f m
  unfolding lookup remove
  weigh-remove f k [] = omega arith
  weigh-remove f k ((j, v) ∷ m) = elim (Bool-cases (j =? k)) [
    | inl q ↦
        let same : j ≡ k = (e.beq_iff j k).0 q in
        let w : f j v ≡ f k v = ap (λ x. f x v) same in rw q (omega (arith, weigh-remove f k m, w))
    | inr q ↦ rw q (omega (arith, weigh-remove f k m))
  ]

  pub weigh-insert :
      (f : K → V → ℕ) (k : K) (v : V) (m : List (K × V))
      → weigh f (insert k v m) + weight_at f k (lookup k m) ≤ weigh f m + f k v
  unfolding insert
  weigh-insert f k v m = omega (arith, weigh-remove f k m)

  pub length-insert-le : (k : K) (v : V) (m : List (K × V)) → length (insert k v m) ≤ length m + 1
  unfolding insert
  length-insert-le k v m = omega (arith, length-remove-le k m)

  -- Where the key is there the map does not grow.
  pub length-insert-some :
      (k : K) (v w : V) (m : List (K × V)) → lookup k m ≡ some w → length (insert k v m) ≤ length m
  unfolding insert
  length-insert-some k v w m h = length-remove-lt k w m h
