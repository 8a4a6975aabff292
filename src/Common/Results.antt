-- ===== src/Common/Results.antt =====
-- `anyhow::Result`: a value, or the text of the error. `?` is `←` in a `do` block, and
-- `anyhow::ensure!` is `ensure`.
use mathlib.Core.Path.{◌≡◌, refl}
use mathlib.Core.Bool.{Bool, true, false}
use mathlib.Core.Option.{Option, none, some}
use mathlib.Core.List.{List, [], ◌∷◌}
use native.Mathlib.Omega.{arith}
use zmem_cache.Common.Lists.{All}
use Prim.Native.String.{String}

pub data Result {ℓ} (A : Type ℓ) : Type ℓ where
  ok : A → Result A
  err : String → Result A

infixl 5 ◌>>=◌
abbrev pub ◌>>=◌ {ℓ κ} : {A : Type ℓ} {B : Type κ} → Result A → (A → Result B) → Result B
err reason >>= next = err reason
ok value >>= next = next value

abbrev pub ensure : Bool → String → Result (Unit {0})
ensure false reason = err reason
ensure true reason = ok tt

infixl 5 ◌>>◌
abbrev pub ◌>>◌ {ℓ} : {B : Type ℓ} → Result (Unit {0}) → Result B → Result B
first >> second = first >>= λ _. second

-- `ok_or_else`.
abbrev pub ok_or {ℓ} : {A : Type ℓ} → Option A → String → Result A
ok_or none e = err e
ok_or (some a) e = ok a

-- `collect::<Result<Vec<_>, _>>` over a fallible `map`: the first error wins.
abbrev pub map_ok {ℓ κ} : {A : Type ℓ} {B : Type κ} → (A → Result B) → List A → Result (List B)
map_ok f [] = ok []
map_ok f (x ∷ xs) = f x >>= λ y. map_ok f xs >>= λ ys. ok (y ∷ ys)

-- `for x in xs { check(x)?; }`
abbrev pub each_ok {ℓ} : {A : Type ℓ} → (A → Result (Unit {0})) → List A → Result (Unit {0})
each_ok f [] = ok tt
each_ok f (x ∷ xs) = f x >>= λ _. each_ok f xs

-- What a successful chain went through.
pub bind_parts {ℓ κ} :
    {A : Type ℓ} {B : Type κ} (step : Result A) (rest : A → Result B) {out : B}
    → (step >>= rest) ≡ ok out
    → (value : A) × (step ≡ ok value) × (rest value ≡ ok out)
bind_parts (err reason) rest h = ground arith
bind_parts (ok value) rest h = (value, refl, h)

pub ensure_then {ℓ} :
    {B : Type ℓ} (b : Bool) (e : String) (m : Result B) {r : B}
    → (ensure b e >> m) ≡ ok r
    → (b ≡ true) × (m ≡ ok r)
ensure_then true e m h = (refl, h)
ensure_then false e m h = absurd (ground arith)

pub each_ok-All {ℓ} :
    {A : Type ℓ} (f : A → Result (Unit {0})) (xs : List A)
    → each_ok f xs ≡ ok tt
    → All (λ x. f x ≡ ok tt) xs
each_ok-All f [] h = tt
each_ok-All f (x ∷ xs) h =
    let (t, e, k) = bind_parts (f x) (λ _. each_ok f xs) h in (e, each_ok-All f xs k)

pub All-each_ok {ℓ} :
    {A : Type ℓ} (f : A → Result (Unit {0})) (xs : List A)
    → All (λ x. f x ≡ ok tt) xs
    → each_ok f xs ≡ ok tt
All-each_ok f [] h = refl
All-each_ok f (x ∷ xs) h = rw h.0 (All-each_ok f xs h.1)

-- What holds of the result, if there is one.
abbrev pub Returns {ℓ} : {A : Type ℓ} → (A → Type 0) → Result A → Type 0
Returns P (ok value) = P value
Returns P (err reason) = Unit

pub Returns-bind {ℓ κ} :
    {A : Type ℓ} {B : Type κ} (P : B → Type 0) (step : Result A) (rest : A → Result B)
    → ((value : A) → step ≡ ok value → Returns P (rest value))
    → Returns P (step >>= rest)
Returns-bind P (ok value) rest h = h value refl
Returns-bind P (err reason) rest h = tt

pub Returns-ensure {ℓ} :
    {B : Type ℓ} (P : B → Type 0) (test : Bool) (reason : String) (rest : Result B)
    → (test ≡ true → Returns P rest)
    → Returns P (ensure test reason >> rest)
Returns-ensure P true reason rest h = h refl
Returns-ensure P false reason rest h = tt

pub Returns-of {ℓ} :
    {A : Type ℓ} (P : A → Type 0) (r : Result A) (value : A) → r ≡ ok value → Returns P r → P value
Returns-of P r value e h = rw e at h
