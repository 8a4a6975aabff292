-- ===== src/Common/Parts.antt =====
-- Laws of `split` and `join`, and of texts that lack a character.
use Prim.Native.Nat.{ℕ}
use mathlib.Core.Path.{◌≡◌, refl, sym, ap, ◌∙◌}
use mathlib.Core.Logic.{◌≢◌, inl, inr}
use mathlib.Core.Bool.{false}
use mathlib.Core.List.{List, [], ◌∷◌}
use native.Mathlib.Omega.{arith}
use zmem_cache.Common.Tests.{◌==◌, Bool-cases}
use zmem_cache.Common.Lists.{All, All-append, any}
use zmem_cache.Common.Texts.{Text, push_head, split, join, Lacks, split-ne-nil}

join-push_head :
    (sep c : ℕ) (ps : List Text) → ps ≢ [] → join sep (push_head c ps) ≡ c ∷ join sep ps
unfolding join
join-push_head sep c [] h = absurd (h refl)
join-push_head sep c (p ∷ []) h = refl
join-push_head sep c (p ∷ q ∷ ps) h = refl

join-nil_part : (sep : ℕ) (ps : List Text) → ps ≢ [] → join sep ([] ∷ ps) ≡ sep ∷ join sep ps
unfolding join
join-nil_part sep [] h = absurd (h refl)
join-nil_part sep (p ∷ ps) h = refl

pub join-split : (sep : ℕ) (s : Text) → join sep (split sep s) ≡ s
unfolding split join
join-split sep [] = refl
join-split sep (c ∷ s) = elim (Bool-cases (c == sep)) [
  | inl e ↦
      let i : c ≡ sep = ground arith in
      rw e (
        join-nil_part sep (split sep s) (split-ne-nil sep s)
        ∙ ap (◌∷◌ sep) (join-split sep s)
        ∙ ap (λ x. x ∷ s) (sym i))
  | inr e ↦
      rw e (join-push_head sep c (split sep s) (split-ne-nil sep s) ∙ ap (◌∷◌ c) (join-split sep s))
]

All-push_head :
    (b c : ℕ) (ps : List Text) → c ≢ b → All (Lacks b) ps → All (Lacks b) (push_head c ps)
All-push_head b c [] h k = ((h, tt), tt)
All-push_head b c (p ∷ ps) h k = ((h, k.0), k.1)

pub split-Lacks : (sep : ℕ) (s : Text) → All (Lacks sep) (split sep s)
unfolding split
split-Lacks sep [] = (tt, tt)
split-Lacks sep (c ∷ s) = elim (Bool-cases (c == sep)) [
  | inl e ↦ rw e (tt, split-Lacks sep s)
  | inr e ↦ rw e (All-push_head sep c (split sep s) (ground arith) (split-Lacks sep s))
]

pub split-Lacks_other : (b sep : ℕ) (s : Text) → Lacks b s → All (Lacks b) (split sep s)
unfolding split
split-Lacks_other b sep [] h = (tt, tt)
split-Lacks_other b sep (c ∷ s) h = elim (Bool-cases (c == sep)) [
  | inl e ↦ rw e (tt, split-Lacks_other b sep s h.1)
  | inr e ↦ rw e (All-push_head b c (split sep s) h.0 (split-Lacks_other b sep s h.1))
]

pub any-Lacks : (b : ℕ) (s : Text) → any (λ c. c == b) s ≡ false → Lacks b s
any-Lacks b [] h = tt
any-Lacks b (c ∷ s) h = ground (arith, any-Lacks b s)

pub Lacks-any : (b : ℕ) (s : Text) → Lacks b s → any (λ c. c == b) s ≡ false
Lacks-any b [] h = refl
Lacks-any b (c ∷ s) h = ground (arith, Lacks-any b s h.1)

pub Lacks-join : (b sep : ℕ) (ps : List Text) → sep ≢ b → All (Lacks b) ps → Lacks b (join sep ps)
unfolding join
Lacks-join b sep [] h k = tt
Lacks-join b sep (p ∷ []) h k = k.0
Lacks-join b sep (p ∷ q ∷ ps) h k =
    All-append (λ c. c ≢ b) p (sep ∷ join sep (q ∷ ps)) k.0 (h, Lacks-join b sep (q ∷ ps) h k.1)
