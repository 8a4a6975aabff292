-- ===== src/Metadata/Resolve.antt =====
-- When the assignments of a key agree: the set of the maximal values.
use zmem_cache.Common.{
  ◌≢◌, [], subst, inl, All, List, ◌≡◌, refl, arith, ◌↔◌, text_eq, text_le, Bool-cases,
  text_eq_sound, sym, text_eq_self, inr, ap, ◌∷◌, Text, Any, true, any, keep, map, has_text,
  text_eq_complete, Bool, false,
}
use zmem_cache.Metadata.{
  resolved, value_set, resolve_metadata_assignments, ReachableAssignment, effective_of,
  maximal_values, insert_value, supersedes, is_maximal,
}

All-insert_value :
    (P : Text → Type 0) (v : Text) (vs : List Text) → All P (insert_value v vs) → P v × All P vs
unfolding insert_value
All-insert_value P v [] h = h
All-insert_value P v (w ∷ ws) h = elim (Bool-cases (text_eq v w)) [
  | inl e ↦ let h' : All P (w ∷ ws) = rw e at h in (subst P (sym (text_eq_sound v w e)) h'.0, h')
  | inr e ↦ elim (Bool-cases (text_le v w)) [
    | inl f ↦ (rw (e, f) at h)
    | inr f ↦
        let h' : P w × All P (insert_value v ws) = rw (e, f) at h in
        let r = All-insert_value P v ws h'.1 in (r.0, (h'.0, r.1))
  ]
]

All-value_set : (P : Text → Type 0) (vs : List Text) → All P (value_set vs) → All P vs
unfolding value_set
All-value_set P [] h = tt
All-value_set P (v ∷ vs) h =
    let r = All-insert_value P v (value_set vs) h in (r.0, All-value_set P vs r.1)

abbrev IsAll : Text → List Text → Type 0
IsAll v = All (λ w. w ≡ v)

value_set_one : (v w : Text) (vs : List Text) → IsAll v (w ∷ vs) → value_set (w ∷ vs) ≡ v ∷ []
unfolding value_set insert_value
value_set_one v w [] h = ap (λ x. x ∷ []) h.0
value_set_one v w (x ∷ xs) h = rw (value_set_one v x xs h.1, h.0, text_eq_self v) refl

insert_value-ne-nil : (v : Text) (vs : List Text) → insert_value v vs ≢ []
unfolding insert_value
insert_value-ne-nil v [] h = absurd (ground (arith, h))
insert_value-ne-nil v (w ∷ ws) h = absurd (ground (arith, h))

effective_one : (vs : List Text) (v : Text) → effective_of vs ≡ resolved v → vs ≡ v ∷ []
effective_one [] v h = absurd (ground arith)
effective_one (w ∷ []) v h = ground arith
effective_one (w ∷ x ∷ vs) v h = absurd (ground arith)

value_set_one_iff :
    (v : Text) (vs : List Text)
    → (effective_of (value_set vs) ≡ resolved v) ↔ ((vs ≢ []) × IsAll v vs)
unfolding value_set
value_set_one_iff v [] = (λ h. absurd (ground arith), λ h. absurd (h.0 refl))
value_set_one_iff v (w ∷ ws) = (
  λ h.
      let e = effective_one (value_set (w ∷ ws)) v h in
      let a : IsAll v (value_set (w ∷ ws)) = subst (IsAll v) (sym e) (refl, tt) in
      (λ k. absurd (ground (arith, k)), All-value_set (λ x. x ≡ v) (w ∷ ws) a),
  λ h. ap effective_of (value_set_one v w ws h.1),
)

-- No assignment of another commit has the commit of `a` among its ancestors.
abbrev pub IsMaximal : List ReachableAssignment → ReachableAssignment → Type 0
IsMaximal assignments a =
    All (λ b. b.commit_oid ≢ a.commit_oid → ¬ Any (λ t. t ≡ a.commit_oid) b.ancestors) assignments

has_text-Any : (t : Text) (ts : List Text) → has_text t ts ≡ true → Any (λ u. u ≡ t) ts
unfolding has_text
has_text-Any t [] h = absurd (ground (arith, h))
has_text-Any t (u ∷ ts) h = elim (Bool-cases (text_eq t u)) [
  | inl e ↦ inl (sym (text_eq_sound t u e))
  | inr e ↦ let h' : has_text t ts ≡ true = rw e at h in inr (has_text-Any t ts h')
]

has_text_of_Any : (t : Text) (ts : List Text) → Any (λ u. u ≡ t) ts → has_text t ts ≡ true
unfolding has_text
has_text_of_Any t [] h = absurd h
has_text_of_Any t (u ∷ ts) (inl e) = rw (e, text_eq_self t) refl
has_text_of_Any t (u ∷ ts) (inr r) = ground (arith, has_text_of_Any t ts r)

abbrev Yields : ReachableAssignment → ReachableAssignment → Type 0
Yields b a = b.commit_oid ≢ a.commit_oid → ¬ Any (λ t. t ≡ a.commit_oid) b.ancestors

supersedes_iff : (b a : ReachableAssignment) → (supersedes b a ≡ false) ↔ Yields b a
supersedes_iff b a = elim (Bool-cases (text_eq b.commit_oid a.commit_oid)) [
  | inl e ↦ (λ h n. absurd (n (text_eq_sound b.commit_oid a.commit_oid e)), λ y. rw e refl)
  | inr e ↦ elim (Bool-cases (has_text a.commit_oid b.ancestors)) [
    | inl f ↦ (
      λ h. absurd (ground (arith, h, e, f)),
      λ y. absurd (
          y (λ k. absurd (ground (arith, text_eq_complete b.commit_oid a.commit_oid k, e)))
            (has_text-Any a.commit_oid b.ancestors f)),
    )
    | inr f ↦ (
      λ h n k. absurd (ground (arith, has_text_of_Any a.commit_oid b.ancestors k, f)),
      λ y. ground (arith, e, f),
    )
  ]
]

any_iff :
    (a : ReachableAssignment) (bs : List ReachableAssignment)
    → (any (λ b. supersedes b a) bs ≡ false) ↔ All (λ b. Yields b a) bs
any_iff a [] = (λ h. tt, λ h. refl)
any_iff a (b ∷ bs) =
    let s = supersedes_iff b a in
    let ih = any_iff a bs in
    elim (Bool-cases (supersedes b a)) [
      | inl e ↦ (λ h. absurd (ground (arith, h, e)), λ h. absurd (ground (arith, e, s.1 h.0)))
      | inr e ↦ (
        λ h. let h' : any (λ b. supersedes b a) bs ≡ false = rw e at h in (s.0 e, ih.0 h'),
        λ h. rw e (ih.1 h.1),
      )
    ]

is_maximal_iff :
    (assignments : List ReachableAssignment) (a : ReachableAssignment)
    → (is_maximal assignments a ≡ true) ↔ IsMaximal assignments a
is_maximal_iff assignments a =
    let i = any_iff a assignments in
    (λ h. i.0 (ground (arith, h)), λ h. let e = i.1 h in ground (arith, e))

module _ (p : ReachableAssignment → Bool) (P : ReachableAssignment → Type 0)
    (iff : (a : ReachableAssignment) → (p a ≡ true) ↔ P a) where
  values-Any :
      (rows : List ReachableAssignment) → (map (λ a. a.value) (keep p rows) ≢ []) ↔ Any P rows
  values-Any [] = (λ h. absurd (h refl), λ h. absurd h)
  values-Any (a ∷ rows) = elim (Bool-cases (p a)) [
    | inl e ↦ rw e ((λ h. inl ((iff a).0 e)), (λ h k. absurd (ground (arith, k))))
    | inr e ↦ rw e (
      λ h. inr ((values-Any rows).0 h),
      λ h. elim h [
        | inl k ↦ absurd (ground (arith, e, (iff a).1 k))
        | inr r ↦ (values-Any rows).1 r
      ],
    )
  ]

  values-All :
      (v : Text) (rows : List ReachableAssignment)
      → IsAll v (map (λ a. a.value) (keep p rows)) ↔ All (λ a. P a → a.value ≡ v) rows
  values-All v [] = (λ h. tt, λ h. tt)
  values-All v (a ∷ rows) = elim (Bool-cases (p a)) [
    | inl e ↦ rw e (
      (λ h. ((λ k. h.0), (values-All v rows).0 h.1)),
      (λ h. (h.0 ((iff a).0 e), (values-All v rows).1 h.1)),
    )
    | inr e ↦ rw e (
      (λ h. ((λ k. absurd (ground (arith, e, (iff a).1 k))), (values-All v rows).0 h)),
      (λ h. (values-All v rows).1 h.1),
    )
  ]

-- `resolve_metadata_assignments` resolves to `v` exactly when some assignment is maximal, that is,
-- no assignment of another commit has its commit as an ancestor, and the value of every maximal
-- assignment is `v`.
pub resolve_metadata_assignments_iff :
    (assignments : List ReachableAssignment) (v : Text)
    → (resolve_metadata_assignments assignments ≡ resolved v) ↔ (
        Any (IsMaximal assignments) assignments
        × All (λ a. IsMaximal assignments a → a.value ≡ v) assignments)
unfolding resolve_metadata_assignments
resolve_metadata_assignments_iff assignments v =
    let maximal = is_maximal_iff assignments in
    let one = value_set_one_iff v (maximal_values assignments) in
    let some_of = values-Any (is_maximal assignments) (IsMaximal assignments) maximal assignments in
    let all_of =
      values-All (is_maximal assignments) (IsMaximal assignments) maximal v assignments in
    (
      λ h. let r = one.0 h in (some_of.0 r.0, all_of.0 r.1),
      λ h. one.1 (some_of.1 h.0, all_of.1 h.1),
    )
