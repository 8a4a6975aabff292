-- ===== src/Sync/Decision.antt =====
-- When a synchronization is spared, extends what is stored, or starts again.
use zmem_cache.Common.{
  none, false, ◌↔◌, text_eq_iff, ℕ, true, Bool, arith, Option, Text, ◌≢◌, some, ◌≡◌, text_eq_sound,
  text_eq, text_eq_complete, inr, sym, ◌∙◌, refl, if◌then◌else◌, ap, if◌then◌else◌, inl, subst,
  if◌then◌else◌, Bool-cases,
}
use zmem_cache.Sync.{differs, Anchor, incremental, select_sync, current, SyncDecision, rebuild}

-- The anchor was written under this schema, extension and view.
pub record IsUnder (anchor : Anchor) (schema : ℕ) (extension view : Text) : Type 0 where
  pub same_schema : anchor.schema ≡ schema
  pub same_extension : anchor.extension_hash ≡ extension
  pub same_view : anchor.attention_identity ≡ view

abbrev decide : Bool → Bool → Bool → SyncDecision
decide different same ancestor =
    if different
    then rebuild
    else if same
    then current
    else if ancestor
    then incremental
    else rebuild

differs_iff :
    (a : Anchor) (schema : ℕ) (extension view : Text)
    → (differs a schema extension view ≡ false) ↔ IsUnder a schema extension view
differs_iff a schema extension view =
    let e = text_eq_iff a.extension_hash extension in
    let v = text_eq_iff a.attention_identity view in
    (
      λ h. record {
        same_schema = ground (arith, h);
        same_extension = e.0 (ground (arith, h));
        same_view = v.0 (ground (arith, h));
      },
      λ u. rw (u.same_schema, e.1 u.same_extension, v.1 u.same_view) (ground arith),
    )

decide-current : (d s n : Bool) → decide d s n ≡ current → (d ≡ false) × (s ≡ true)
decide-current true s n h = absurd (ground (arith, h))
decide-current false true n h = (refl, refl)
decide-current false false true h = absurd (ground (arith, h))
decide-current false false false h = absurd (ground (arith, h))

decide-incremental :
    (d s n : Bool) → decide d s n ≡ incremental → (d ≡ false) × (s ≡ false) × (n ≡ true)
decide-incremental true s n h = absurd (ground (arith, h))
decide-incremental false true n h = absurd (ground (arith, h))
decide-incremental false false true h = (refl, refl, refl)
decide-incremental false false false h = absurd (ground (arith, h))

same_anchor : {a b : Anchor} → some a ≡ some b → a ≡ b
same_anchor h = cc

text_eq_ne : (s t : Text) → s ≢ t → text_eq s t ≡ false
text_eq_ne s t h = elim (Bool-cases (text_eq s t)) [
  | inl e ↦ absurd (h (text_eq_sound s t e))
  | inr e ↦ e
]

-- `select_sync` answers that the cache is current exactly when there is an anchor under the same
-- schema, extension and view whose head is the requested one, and asks for incremental work exactly
-- when there is such an anchor with another head, which is an ancestor of the requested one.
pub select_sync_iff :
    (anchor : Option Anchor) (head : Text) (schema : ℕ) (extension view : Text) (ancestor : Bool)
    → ((select_sync anchor head schema extension view ancestor ≡ current)
        ↔ ((a : Anchor) × (anchor ≡ some a) × IsUnder a schema extension view × (a.head ≡ head)))
      × ((select_sync anchor head schema extension view ancestor ≡ incremental) ↔ (
          (a : Anchor) × (anchor ≡ some a)
          × IsUnder a schema extension view
          × (a.head ≢ head)
          × (ancestor ≡ true)))
unfolding select_sync
select_sync_iff none head schema extension view ancestor = (
  (λ h. absurd (ground (arith, h)), λ h. absurd (ground (arith, h.1))),
  (λ h. absurd (ground (arith, h)), λ h. absurd (ground (arith, h.1))),
)
select_sync_iff (some a) head schema extension view ancestor =
    let d = differs a schema extension view in
    let s = text_eq a.head head in
    (
      (
        λ h.
            let r = decide-current d s ancestor h in
            (a, refl, (differs_iff a schema extension view).0 r.0, text_eq_sound a.head head r.1),
        λ (b, e, u, k).
            let same = same_anchor e in
            let u' = subst (λ x. IsUnder x schema extension view) (sym same) u in
            let k' : a.head ≡ head = ap (λ x. x.head) same ∙ k in
            rw ((differs_iff a schema extension view).1 u', text_eq_complete a.head head k') refl,
      ),
      (
        λ h.
            let r = decide-incremental d s ancestor h in
            let moved : a.head ≢ head =
              λ k. absurd (ground (arith, r.1, text_eq_complete a.head head k)) in
            (a, refl, (differs_iff a schema extension view).0 r.0, moved, r.2),
        λ (b, e, u, k, n).
            let same = same_anchor e in
            let u' = subst (λ x. IsUnder x schema extension view) (sym same) u in
            let k' : a.head ≢ head = λ x. k (ap (λ y. y.head) (sym same) ∙ x) in
            rw ((differs_iff a schema extension view).1 u', text_eq_ne a.head head k', n) refl,
      ),
    )
