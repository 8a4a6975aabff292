-- ===== src/Journal/Area.antt =====
-- The affected areas that validation accepts: `<root>` and normalized relative paths.
use Prim.Native.String.{String}
use zmem_cache.Common.{
  split, Lacks, split-ne-nil, refl, drop, ◌∷◌, Text, ◌≢◌, inl, ◌∷◌, ◌≡◌, arith, [], starts_with,
  All, push_head, sym, List, codes, Bool-cases, ◌==◌, join, ℕ, inr, false, subst, all, Bool,
  All-drop, true, not, All-imp, ◌↔◌, text_eq_complete, text_eq, text_eq_sound, split-join, ok, ◌⊎◌,
  ensure, Lacks-join, split-Lacks, split-Lacks_other, join-split, Lacks-any, any-Lacks,
}
use zmem_cache.Journal.{contains, is_proper_part, is_normal_path, validate_area, root_area}

abbrev pub IsPart : Text → Type 0
IsPart part = (part ≢ []) × (part ≢ codes ".") × (part ≢ codes "..") × Lacks 47 part × Lacks 92 part

-- A path of one part or more, joined by slashes.
pub record IsNormalPath (value : Text) : Type 0 where
  pub parts : List Text
  pub some_part : parts ≢ []
  pub each_part : All IsPart parts
  pub joined : value ≡ join 47 parts

drop-push_head : (c : ℕ) (ps : List Text) → ps ≢ [] → drop 1 (push_head c ps) ≡ drop 1 ps
drop-push_head c [] h = absurd (h refl)
drop-push_head c (p ∷ ps) h = refl

abbrev IsFull : Text → Type 0
IsFull p = p ≢ []

starts_with-slash : (s : Text) → All IsFull (split 47 s) → starts_with (codes "/") s ≡ false
unfolding split starts_with
starts_with-slash [] h = refl
starts_with-slash (c ∷ s) h = elim (Bool-cases (c == 47)) [
  | inl e ↦ let h' : IsFull [] × All IsFull (split 47 s) = rw e at h in absurd (h'.0 refl)
  | inr e ↦ ground arith
]

contains_slashes : (s : Text) → All IsFull (drop 1 (split 47 s)) → contains (codes "//") s ≡ false
unfolding contains split starts_with
contains_slashes [] h = refl
contains_slashes (c ∷ s) h = elim (Bool-cases (c == 47)) [
  | inl e ↦
      let h' : All IsFull (split 47 s) = rw e at h in
      let head : starts_with (codes "/") s ≡ false = starts_with-slash s h' in
      let rest : contains (codes "//") s ≡ false =
        contains_slashes s (All-drop IsFull 1 (split 47 s) h') in
      ground (arith, starts_with, rest, head)
  | inr e ↦
      let h' : All IsFull (drop 1 (push_head c (split 47 s))) = rw e at h in
      let rest : contains (codes "//") s ≡ false =
        contains_slashes s
          (subst (All IsFull) (drop-push_head c (split 47 s) (split-ne-nil 47 s)) h') in
      ground (arith, rest)
]

all-All : (p : Text → Bool) (xs : List Text) → all p xs ≡ true → All (λ x. p x ≡ true) xs
all-All p [] h = tt
all-All p (x ∷ xs) h = ground (arith, all-All p xs)

All-all : (p : Text → Bool) (xs : List Text) → All (λ x. p x ≡ true) xs → all p xs ≡ true
All-all p [] h = refl
All-all p (x ∷ xs) h = rw h.0 (All-all p xs h.1)

pub ne_of_text_eq : (p q : Text) → not (text_eq p q) ≡ true → p ≢ q
ne_of_text_eq p q h e = absurd (ground (arith, text_eq_complete p q e))

pub text_eq_of_ne : (p q : Text) → p ≢ q → not (text_eq p q) ≡ true
text_eq_of_ne p q h = elim (Bool-cases (text_eq p q)) [
  | inl e ↦ absurd (h (text_eq_sound p q e))
  | inr e ↦ rw e refl
]

IsPart-of_proper : (p : Text) → is_proper_part p ≡ true → Lacks 47 p → Lacks 92 p → IsPart p
IsPart-of_proper p h k l = (
  ne_of_text_eq p [] (ground arith),
  ne_of_text_eq p (codes ".") (ground arith),
  ne_of_text_eq p (codes "..") (ground arith),
  k,
  l,
)

IsPart-of :
    (ps : List Text)
    → All (λ p. is_proper_part p ≡ true) ps
    → All (Lacks 47) ps
    → All (Lacks 92) ps
    → All IsPart ps
IsPart-of [] h k l = tt
IsPart-of (p ∷ ps) h k l = (IsPart-of_proper p h.0 k.0 l.0, IsPart-of ps h.1 k.1 l.1)

is_proper_part_of : (p : Text) → IsPart p → is_proper_part p ≡ true
is_proper_part_of p h =
    rw (text_eq_of_ne p [] h.0, text_eq_of_ne p (codes ".") h.1, text_eq_of_ne p (codes "..") h.2)
      refl

pub IsNormalPath-of : (value : Text) → is_normal_path value ≡ true → IsNormalPath value
unfolding is_normal_path
IsNormalPath-of value h = record {
  parts = split 47 value;
  some_part = split-ne-nil 47 value;
  each_part =
      let lacks : Lacks 92 value = any-Lacks 92 value (ground arith) in
      IsPart-of (split 47 value) (all-All is_proper_part (split 47 value) (ground arith))
        (split-Lacks 47 value) (split-Lacks_other 92 47 value lacks);
  joined = sym (join-split 47 value);
}

join-full : (ps : List Text) → ps ≢ [] → All IsPart ps → join 47 ps ≢ []
unfolding join
join-full [] h k e = h refl
join-full (p ∷ []) h k e = k.0.0 e
join-full ([] ∷ q ∷ ps) h k e = k.0.0 refl
join-full ((c ∷ p) ∷ q ∷ ps) h k e = absurd (ground arith)

is_normal_path_of : (value : Text) → IsNormalPath value → is_normal_path value ≡ true
unfolding is_normal_path
is_normal_path_of value n =
    let ps = n.parts in
    let lack : All (Lacks 47) ps = All-imp _ _ (λ p k. k.3) ps n.each_part in
    let lack' : All (Lacks 92) ps = All-imp _ _ (λ p k. k.4) ps n.each_part in
    let full : All IsFull ps = All-imp _ _ (λ p k. k.0) ps n.each_part in
    let parts : split 47 (join 47 ps) ≡ ps = split-join 47 ps n.some_part lack in
    let full' : All IsFull (split 47 (join 47 ps)) = subst (All IsFull) (sym parts) full in
    let v = join 47 ps in
    let rest : All IsFull (drop 1 (split 47 v)) = All-drop IsFull 1 (split 47 v) full' in
    let proper : All (λ p. is_proper_part p ≡ true) ps =
      All-imp _ _ (λ p k. is_proper_part_of p k) ps n.each_part in
    rw
      (
        n.joined,
        text_eq_of_ne v [] (join-full ps n.some_part n.each_part),
        starts_with-slash v full',
        Lacks-any 92 v (Lacks-join 92 47 ps (omega arith) lack'),
        contains_slashes v rest,
        parts,
        All-all is_proper_part ps proper,
      )
      refl

ensure-true : (b : Bool) (e : String) → ensure b e ≡ ok tt → b ≡ true
ensure-true true e h = refl
ensure-true false e h = absurd (ground arith)

-- `validate_area` accepts a value exactly when it is `<root>` or its parts, one or more, joined by
-- slashes, where no part is empty, `.` or `..` or holds a slash or a backslash.
pub validate_area_iff :
    (value : Text) → (validate_area value ≡ ok tt) ↔ ((value ≡ root_area) ⊎ IsNormalPath value)
unfolding validate_area
validate_area_iff value = elim (Bool-cases (text_eq value root_area)) [
  | inl e ↦ rw e (λ h. inl (text_eq_sound value root_area e), λ h. refl)
  | inr e ↦
      let other_value : value ≢ root_area = ne_of_text_eq value root_area (rw e refl) in
      rw e (
        λ h. inr (IsNormalPath-of value (ensure-true (is_normal_path value) _ h)),
        λ h. elim h [
          | inl k ↦ absurd (other_value k)
          | inr n ↦ rw (is_normal_path_of value n) refl
        ],
      )
]
