-- ===== src/Metadata/Range.antt =====
-- The range between two commits of a trail: its ends are in it, and the META commit is not.
use Prim.Native.String.{String}
use zmem_cache.Common.{
  [], inl, List, ◌&&◌, ◌≡◌, refl, false, all, arith, map, not, keep, Bool-cases, has_text, true,
  Bool, some, none, inr, ◌∷◌, Text, Option-cases, ok, text_eq_complete, sym, ◌∙◌, text_eq_sound,
  subst, if◌then◌else◌, if◌then◌else◌, if◌then◌else◌, text_eq, Option, ok_or, text_eq_self, ap,
  ◌||◌, ensure_then, bind_parts,
}
use zmem_cache.Metadata.{commit_by_oid, TrailCommit, resolve_meta_range, is_in_range}

-- No two commits, and no commit and itself, are ancestors of each other.
abbrev pub are_apart : TrailCommit → TrailCommit → Bool
are_apart c d = not (has_text c.oid d.ancestors && has_text d.oid c.ancestors)

unfoldable pub is_acyclic : List TrailCommit → Bool
is_acyclic membership = all (λ c. all (are_apart c) membership) membership

abbrev oids_of : List TrailCommit → List Text
oids_of = map (λ c. c.oid)

all-commit_head :
    (p : TrailCommit → Bool) (oid : Text) (x commit : TrailCommit)
    → p x ≡ true
    → (if text_eq x.oid oid then some x else none) ≡ some commit
    → (p commit ≡ true) × (commit.oid ≡ oid)
all-commit_head p oid x commit h k = elim (Bool-cases (text_eq x.oid oid)) [
  | inl e ↦
      let k' : some x ≡ some commit = rw e at k in
      let same : x ≡ commit = cc in
      subst (λ c. (p c ≡ true) × (c.oid ≡ oid)) same (h, text_eq_sound x.oid oid e)
  | inr e ↦ let k' : none ≡ some commit = rw e at k in absurd (ground (arith, k'))
]

-- A law of all commits holds for a commit that is found.
all-commit_by_oid :
    (p : TrailCommit → Bool) (oid : Text) (xs : List TrailCommit) (commit : TrailCommit)
    → all p xs ≡ true
    → commit_by_oid oid xs ≡ some commit
    → (p commit ≡ true) × (commit.oid ≡ oid)
unfolding commit_by_oid
all-commit_by_oid p oid [] commit h k = absurd (ground (arith, k))
all-commit_by_oid p oid (x ∷ xs) commit h k = elim (Option-cases (commit_by_oid oid xs)) [
  | inl e ↦
      let k' : (if text_eq x.oid oid then some x else none) ≡ some commit = rw e at k in
      all-commit_head p oid x commit (ground (arith, h)) k'
  | inr (c, e) ↦
      let k' : some c ≡ some commit = rw e at k in
      all-commit_by_oid p oid xs commit (ground (arith, h)) (e ∙ k')
]

has-keep_later :
    (p : TrailCommit → Bool) (oid : Text) (x : TrailCommit) (xs : List TrailCommit)
    → has_text oid (oids_of (keep p xs)) ≡ true
    → has_text oid (oids_of (keep p (x ∷ xs))) ≡ true
unfolding has_text
has-keep_later p oid x xs h = elim (Bool-cases (p x)) [
  | inl e ↦ rw e (ground (arith, h))
  | inr e ↦ rw e h
]

has-keep_head :
    (p : TrailCommit → Bool) (oid : Text) (x : TrailCommit) (xs : List TrailCommit)
    (commit : TrailCommit)
    → (if text_eq x.oid oid then some x else none) ≡ some commit
    → p commit ≡ true
    → has_text oid (oids_of (keep p (x ∷ xs))) ≡ true
unfolding has_text
has-keep_head p oid x xs commit h k = elim (Bool-cases (text_eq x.oid oid)) [
  | inl e ↦
      let h' : some x ≡ some commit = rw e at h in
      let same : x ≡ commit = cc in
      let k' : p x ≡ true = rw (sym same) at k in
      let t : text_eq oid x.oid ≡ true =
        text_eq_complete oid x.oid (sym (text_eq_sound x.oid oid e)) in
      rw (k', t) refl
  | inr e ↦ let h' : none ≡ some commit = rw e at h in absurd (ground (arith, h'))
]

-- A commit that is found and passes the test is among those kept.
has-keep :
    (p : TrailCommit → Bool) (oid : Text) (xs : List TrailCommit) (commit : TrailCommit)
    → commit_by_oid oid xs ≡ some commit
    → p commit ≡ true
    → has_text oid (oids_of (keep p xs)) ≡ true
unfolding commit_by_oid has_text
has-keep p oid [] commit h k = absurd (ground (arith, h))
has-keep p oid (x ∷ xs) commit h k = elim (Option-cases (commit_by_oid oid xs)) [
  | inl e ↦
      let h' : (if text_eq x.oid oid then some x else none) ≡ some commit = rw e at h in
      has-keep_head p oid x xs commit h' k
  | inr (c, e) ↦
      let h' : some c ≡ some commit = rw e at h in
      has-keep_later p oid x xs (has-keep p oid xs commit (e ∙ h') k)
]

-- An oid is not among those kept when no commit of it passes the test.
has-keep_none :
    (p : TrailCommit → Bool) (oid : Text) (xs : List TrailCommit)
    → ((c : TrailCommit) → c.oid ≡ oid → p c ≡ false)
    → has_text oid (oids_of (keep p xs)) ≡ false
unfolding has_text
has-keep_none p oid [] h = refl
has-keep_none p oid (x ∷ xs) h = elim (Bool-cases (p x)) [
  | inl e ↦ elim (Bool-cases (text_eq oid x.oid)) [
    | inl f ↦ absurd (ground (arith, e, h x (sym (text_eq_sound oid x.oid f))))
    | inr f ↦ rw (e, f) (has-keep_none p oid xs h)
  ]
  | inr e ↦ rw e (has-keep_none p oid xs h)
]

-- A commit that has `to` as an ancestor is not in a range that ends there.
after_range :
    (from to meta : TrailCommit)
    → are_apart meta to ≡ true
    → are_apart meta meta ≡ true
    → has_text to.oid meta.ancestors ≡ true
    → (c : TrailCommit) → c.oid ≡ meta.oid
    → is_in_range from to c ≡ false
after_range from to meta a b h c e =
    let differs : text_eq meta.oid to.oid ≡ false = elim (Bool-cases (text_eq meta.oid to.oid)) [
      | inl f ↦
          let same : meta.oid ≡ to.oid = text_eq_sound meta.oid to.oid f in
          let h' : has_text meta.oid meta.ancestors ≡ true = rw (sym same) at h in
          absurd (ground (arith, b, h'))
      | inr f ↦ f
    ] in
    let f1 : text_eq c.oid to.oid ≡ false = rw e differs in
    let f2 : has_text c.oid to.ancestors ≡ false = rw e (ground (arith, a, h)) in
    ground (arith, f1, f2)

text_eq_sym : (s t : Text) → text_eq s t ≡ text_eq t s
text_eq_sym s t = elim (Bool-cases (text_eq s t)) [
  | inl e ↦ rw (e, text_eq_complete t s (sym (text_eq_sound s t e))) refl
  | inr e ↦ elim (Bool-cases (text_eq t s)) [
    | inl f ↦ absurd (ground (arith, e, text_eq_complete s t (sym (text_eq_sound t s f))))
    | inr f ↦ rw (e, f) refl
  ]
]

ends_in_range :
    (from to : TrailCommit)
    → (text_eq from.oid to.oid || has_text from.oid to.ancestors) ≡ true
    → (is_in_range from to from ≡ true) × (is_in_range from to to ≡ true)
ends_in_range from to h = (
  rw (text_eq_self from.oid) h,
  ground (arith, text_eq_self to.oid, text_eq_sym from.oid to.oid, h),
)

ok_or-eq-ok : {A : Type 0} (o : Option A) (e : String) (a : A) → ok_or o e ≡ ok a → o ≡ some a
ok_or-eq-ok none e a h = absurd (ground (arith, h))
ok_or-eq-ok (some b) e a h = let same : b ≡ a = cc in ap some same

pub record IsRange (from_oid to_oid meta_oid : Text) (out : List Text) : Type 0 where
  has_from : has_text from_oid out ≡ true
  has_to : has_text to_oid out ≡ true
  lacks_meta : has_text meta_oid out ≡ false

-- For a membership in which no two commits are ancestors of each other, and none of itself, a range
-- that `resolve_meta_range` answers holds both endpoints and does not hold the META commit.
pub resolve_meta_range-IsRange :
    (membership : List TrailCommit) (meta_oid from_oid to_oid : Text) (complete : Bool)
    (out : List Text)
    → is_acyclic membership ≡ true
    → resolve_meta_range membership meta_oid from_oid to_oid complete ≡ ok out
    → IsRange from_oid to_oid meta_oid out
unfolding resolve_meta_range is_acyclic
resolve_meta_range-IsRange membership meta_oid from_oid to_oid complete out h k =
    let (c, k0) = ensure_then complete _ _ k in
    let (from, f, k1) = bind_parts (ok_or (commit_by_oid from_oid membership) _) _ k0 in
    let (to, t, k2) = bind_parts (ok_or (commit_by_oid to_oid membership) _) _ k1 in
    let (meta, m, k3) = bind_parts (ok_or (commit_by_oid meta_oid membership) _) _ k2 in
    let (reaches, k4) =
      ensure_then (text_eq from.oid to.oid || has_text from.oid to.ancestors) _ _ k3 in
    let (precede, k5) =
      ensure_then (has_text from.oid meta.ancestors && has_text to.oid meta.ancestors) _ _ k4 in
    let f' = ok_or-eq-ok (commit_by_oid from_oid membership) _ from f in
    let t' = ok_or-eq-ok (commit_by_oid to_oid membership) _ to t in
    let m' = ok_or-eq-ok (commit_by_oid meta_oid membership) _ meta m in
    let p = is_in_range from to in
    let e : oids_of (keep p membership) ≡ out = cc in
    let apart =
      all-commit_by_oid (λ x. all (are_apart x) membership) meta_oid membership meta h m' in
    let a = all-commit_by_oid (are_apart meta) to_oid membership to apart.0 t' in
    let b = all-commit_by_oid (are_apart meta) meta_oid membership meta apart.0 m' in
    let ends = ends_in_range from to reaches in
    let out_meta = after_range from to meta a.0 b.0 (ground (arith, precede)) in
    let r : IsRange from_oid to_oid meta_oid (oids_of (keep p membership)) = record {
      has_from = has-keep p from_oid membership from f' ends.0;
      has_to = has-keep p to_oid membership to t' ends.1;
      lacks_meta = has-keep_none p meta_oid membership (λ x i. out_meta x (i ∙ sym apart.1));
    } in
    subst (IsRange from_oid to_oid meta_oid) e r
