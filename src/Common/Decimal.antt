-- ===== src/Common/Decimal.antt =====
-- Decimal text: `to_string` and `str::parse` of unsigned and signed machine integers.
use Prim.Native.Nat.{ℕ, zero, suc, ◌+◌, ◌-◌, ◌*◌, ◌/◌, ◌%◌, ◌^◌, ◌≤◌, ◌<◌}
use mathlib.Core.Path.{◌≡◌, refl, sym, ap, ◌∙◌}
use mathlib.Core.Logic.{◌≢◌, inl, inr}
use mathlib.Core.Bool.{Bool, true, false, ◌&&◌}
use mathlib.Core.Option.{Option, none, some}
use mathlib.Core.List.{[], ◌∷◌, ◌++◌}
use native.Mathlib.Omega.{arith}
use zmem_cache.Common.Tests.{ltb, leb, ◌==◌, if◌then◌else◌, Bool-cases}
use zmem_cache.Common.Lists.{All, All-append, All-imp, all}
use zmem_cache.Common.Int.{ℤ, pos, negsuc}
use zmem_cache.Common.Texts.{Text, Lacks}

-- The digits of `n`; the fuel `suc n` is more than its digits.
unfoldable pub digits : ℕ → ℕ → Text
digits zero n = []
digits (suc f) n =
    let rest = digits f (n / 10) in
    let last = b'0' + n % 10 in if ltb n 10 then last ∷ [] else rest ++ last ∷ []

unfoldable pub print_ℕ : ℕ → Text
unfolding digits
print_ℕ n = digits (suc n) n

unfoldable pub print_ℤ : ℤ → Text
print_ℤ (pos n) = print_ℕ n
print_ℤ (negsuc n) = b'-' ∷ print_ℕ (n + 1)

abbrev pub is_digit : ℕ → Bool
is_digit c = leb b'0' c && leb c b'9'

unfoldable pub value_from : ℕ → Text → ℕ
value_from acc [] = acc
value_from acc (c ∷ s) = value_from (acc * 10 + (c - b'0')) s

-- One or more digits.
unfoldable pub read_digits : Text → Option ℕ
unfolding value_from
read_digits [] = none
read_digits (c ∷ s) = if all is_digit (c ∷ s) then some (value_from 0 (c ∷ s)) else none

unfoldable pub within : ℕ → Option ℕ → Option ℕ
within limit none = none
within limit (some n) = if leb n limit then some n else none

-- An unsigned integer takes an optional `+`.
unfoldable pub parse_usize : Text → Option ℕ
parse_usize [] = none
parse_usize (c ∷ s) = within (2 ^ 64 - 1) (if c == b'+' then read_digits s else read_digits (c ∷ s))

unfoldable pub negated : Option ℕ → Option ℤ
negated none = none
negated (some zero) = some (pos 0)
negated (some (suc n)) = some (negsuc n)

unfoldable pub unsigned : Option ℕ → Option ℤ
unsigned none = none
unsigned (some n) = some (pos n)

-- A signed integer takes an optional sign.
unfoldable pub parse_i64 : Text → Option ℤ
parse_i64 [] = none
parse_i64 (c ∷ s) =
    if c == b'-'
    then negated (within (2 ^ 63) (read_digits s))
    else unsigned (within (2 ^ 63 - 1) (if c == b'+' then read_digits s else read_digits (c ∷ s)))

abbrev pub IsDigit : ℕ → Type 0
IsDigit c = (b'0' ≤ c) × (c ≤ b'9')

digits-IsDigit : (f n : ℕ) → All IsDigit (digits f n)
unfolding digits
digits-IsDigit zero n = tt
digits-IsDigit (suc f) n = elim (Bool-cases (ltb n 10)) [
  | inl e ↦ rw e (omega arith)
  | inr e ↦ rw e (All-append _ (digits f (n / 10)) _ (digits-IsDigit f (n / 10)) (omega arith))
]

value_from-append :
    (acc : ℕ) (s : Text) (c : ℕ) → value_from acc (s ++ c ∷ []) ≡ value_from acc s * 10 + (c - b'0')
unfolding value_from
value_from-append acc [] c = refl
value_from-append acc (d ∷ s) c = value_from-append (acc * 10 + (d - b'0')) s c

value_from-digits : (f n : ℕ) → n < f → value_from 0 (digits f n) ≡ n
unfolding digits
value_from-digits zero n h = absurd (omega arith)
value_from-digits (suc f) n h = elim (Bool-cases (ltb n 10)) [
  | inl e ↦ rw e (unfold value_from in ground arith)
  | inr e ↦
      rw (e, value_from-append 0 (digits f (n / 10)) (b'0' + n % 10))
        (ground (arith, value_from-digits f (n / 10)))
]

digits-ne-nil : (f n : ℕ) → digits (suc f) n ≢ []
unfolding digits
digits-ne-nil f n = elim (Bool-cases (ltb n 10)) [
  | inl e ↦ rw e (ground arith)
  | inr e ↦ rw e (snoc-ne-nil (digits f (n / 10)) (b'0' + n % 10))
]
  where
    snoc-ne-nil : (s : Text) (c : ℕ) → s ++ c ∷ [] ≢ []
    snoc-ne-nil [] c = ground arith
    snoc-ne-nil (d ∷ s) c = ground arith

all-is_digit : (s : Text) → All IsDigit s → all is_digit s ≡ true
all-is_digit [] h = refl
all-is_digit (c ∷ s) h = ground (arith, all-is_digit s h.1)

pub print_ℕ-IsDigit : (n : ℕ) → All IsDigit (print_ℕ n)
unfolding print_ℕ
print_ℕ-IsDigit n = digits-IsDigit (suc n) n

read_digits_lem : (s : Text) → s ≢ [] → All IsDigit s → read_digits s ≡ some (value_from 0 s)
unfolding read_digits
read_digits_lem [] h d = absurd (h refl)
read_digits_lem (c ∷ s) h d = rw (all-is_digit (c ∷ s) d)

pub read_digits-print : (n : ℕ) → read_digits (print_ℕ n) ≡ some n
unfolding print_ℕ
read_digits-print n =
    read_digits_lem (digits (suc n) n) (digits-ne-nil n n) (digits-IsDigit (suc n) n)
    ∙ ap some (value_from-digits (suc n) n (omega arith))

parse_usize_plain :
    (s : Text) (n : ℕ)
    → All IsDigit s
    → read_digits s ≡ some n
    → n < 2 ^ 64
    → parse_usize s ≡ some n
unfolding parse_usize within
parse_usize_plain [] n d r h = unfold read_digits in ground arith
parse_usize_plain (c ∷ s) n d r h = ground arith

-- A printed `usize` is read back.
pub parse_usize-print : (n : ℕ) → n < 2 ^ 64 → parse_usize (print_ℕ n) ≡ some n
parse_usize-print n h = parse_usize_plain (print_ℕ n) n (print_ℕ-IsDigit n) (read_digits-print n) h

parse_i64_plain :
    (s : Text) (n : ℕ)
    → All IsDigit s
    → read_digits s ≡ some n
    → n < 2 ^ 63
    → parse_i64 s ≡ some (pos n)
unfolding parse_i64 within unsigned
parse_i64_plain [] n d r h = unfold read_digits in ground arith
parse_i64_plain (c ∷ s) n d r h = ground arith

abbrev pub IsI64 : ℤ → Type 0
IsI64 (pos n) = n < 2 ^ 63
IsI64 (negsuc n) = n < 2 ^ 63

-- A printed `i64` is read back.
pub parse_i64-print : (z : ℤ) → IsI64 z → parse_i64 (print_ℤ z) ≡ some z
unfolding print_ℤ parse_i64 within negated
parse_i64-print (pos n) h =
    parse_i64_plain (print_ℕ n) n (print_ℕ-IsDigit n) (read_digits-print n) h
parse_i64-print (negsuc n) h = ground (arith, read_digits-print (n + 1))

digit-ne : (c b : ℕ) → is_digit b ≡ false → IsDigit c → c ≢ b
digit-ne c b h d e = ground arith

pub print_ℕ-Lacks : (n b : ℕ) → is_digit b ≡ false → Lacks b (print_ℕ n)
print_ℕ-Lacks n b h =
    All-imp IsDigit (λ c. c ≢ b) (λ c d. digit-ne c b h d) (print_ℕ n) (print_ℕ-IsDigit n)

pub print_ℤ-Lacks : (z : ℤ) (b : ℕ) → is_digit b ≡ false → b ≢ b'-' → Lacks b (print_ℤ z)
unfolding print_ℤ
print_ℤ-Lacks (pos n) b h k = print_ℕ-Lacks n b h
print_ℤ-Lacks (negsuc n) b h k = (λ e. k (sym e), print_ℕ-Lacks (n + 1) b h)
