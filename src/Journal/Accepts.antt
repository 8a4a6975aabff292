-- ===== src/Journal/Accepts.antt =====
-- What an accepted action journal holds, said of its parts and not of the checks.
use zmem_cache.Journal.Area.{ne_of_text_eq, text_eq_of_ne}
use zmem_cache.Journal.Operation.{
  IsKey, IsMetadata, validate_metadata_operation_iff, then_iff, ensure_iff,
}
use zmem_cache.Journal.{
  cancel, diagnose, validate_factor, Floats, add_relationship, validate_action, Action,
  MetadataOperation, decay, add_entry, metadata_patch, validate_action_journal,
  validate_metadata_operation, HostResponse, protocol_version,
}
use zmem_cache.Common.{
  ◌≤◌, ◌≢◌, ◌↔◌, true, ok, [], All, ◌≡◌, All-each_ok, Bool, Result, Text, All-imp, ℕ, false, ltb,
  arith, ◌∷◌, List, text_eq, codes, each_ok, ensure, refl, not, length, ◌&&◌, each_ok-All, ◌∙◌,
  ensure_then, text_eq_sound, ◌==◌, ap, subst, bind_parts, text_eq_complete,
}

abbrev pub IsOperation : MetadataOperation → Type 0
IsOperation o = IsKey o.key × IsMetadata o.key o.operator o.value

and_iff : (a b : Bool) → (a && b ≡ true) ↔ ((a ≡ true) × (b ≡ true))
and_iff true b = (λ h. (refl, h), λ h. h.1)
and_iff false b = (λ h. absurd (ground (arith, h)), λ h. absurd (ground (arith, h.0)))

index_iff : (n : ℕ) → (ltb 0 n ≡ true) ↔ (1 ≤ n)
index_iff n = (λ h. ground (arith, h), λ h. ground (arith, h))

full_iff : (s : Text) → (not (text_eq s []) ≡ true) ↔ (s ≢ [])
full_iff s = (ne_of_text_eq s [], text_eq_of_ne s [])

some_iff : (os : List MetadataOperation) → (ltb 0 (length os) ≡ true) ↔ (os ≢ [])
some_iff [] = (λ h. absurd (ground (arith, h)), λ h. absurd (h refl))
some_iff (o ∷ os) = (λ h k. absurd (ground (arith, k)), λ h. ground arith)

-- Two equivalences, one after the other, and side by side.
iff_trans : {A B C : Type 0} → (A ↔ B) → (B ↔ C) → (A ↔ C)
iff_trans e f = (λ a. f.0 (e.0 a), λ c. e.1 (f.1 c))

iff_pair : {A B C D : Type 0} → (A ↔ B) → (C ↔ D) → ((A × C) ↔ (B × D))
iff_pair e f = (λ h. (e.0 h.0, f.0 h.1), λ h. (e.1 h.0, f.1 h.1))

iff_swap : {A B : Type 0} → ((A × B) ↔ (B × A))
iff_swap = (λ h. (h.1, h.0), λ h. (h.1, h.0))

operations_iff :
    (os : List MetadataOperation)
    → (each_ok validate_metadata_operation os ≡ ok tt) ↔ All IsOperation os
operations_iff os = (
  λ h. All-imp _ _ (λ o k. (validate_metadata_operation_iff o).0 k) os (each_ok-All _ os h),
  λ h. All-each_ok _ os (All-imp _ _ (λ o k. (validate_metadata_operation_iff o).1 k) os h),
)

module _ {F : Type 0} (fl : Floats F) where
  -- A finite number from zero to one.
  abbrev pub IsFactor : F → Type 0
  IsFactor x =
      (fl.is_finite x ≡ true)
      × ((fl.at_most fl.float_zero x ≡ true) × (fl.at_most x fl.float_one ≡ true))

  abbrev pub IsAction : Action F → Type 0
  IsAction (add_entry entry) = (1 ≤ entry.annotation_index) × IsFactor entry.score
  IsAction (add_relationship c s t score) = IsFactor score
  IsAction (decay t index factor) = (1 ≤ index) × IsFactor factor
  IsAction (cancel t index) = 1 ≤ index
  IsAction (metadata_patch from_sha to_sha operations) =
      ((from_sha ≢ []) × (to_sha ≢ [])) × ((operations ≢ []) × All IsOperation operations)
  IsAction (diagnose message) = message ≢ []

  IsFactor-iff : (x : F) → (validate_factor fl x ≡ true) ↔ IsFactor x
  unfolding validate_factor
  IsFactor-iff x =
      iff_trans (and_iff (fl.is_finite x) (fl.at_most fl.float_zero x && fl.at_most x fl.float_one))
        (iff_pair (λ h. h, λ h. h) (and_iff (fl.at_most fl.float_zero x) _))

  validate_action_iff : (action : Action F) → (validate_action fl action ≡ ok tt) ↔ IsAction action
  unfolding validate_action
  validate_action_iff (add_entry entry) =
      iff_trans
        (then_iff (ensure (ltb 0 entry.annotation_index) "annotation indexes are one-based")
          (ensure (validate_factor fl entry.score) "invalid entry score"))
        (iff_pair
          (iff_trans (ensure_iff _ "annotation indexes are one-based")
            (index_iff entry.annotation_index))
          (iff_trans (ensure_iff _ "invalid entry score") (IsFactor-iff entry.score)))
  validate_action_iff (add_relationship c s t score) =
      iff_trans (ensure_iff _ "invalid relationship score") (IsFactor-iff score)
  validate_action_iff (decay t index factor) = iff_trans (ensure_iff _ "invalid decay action") (
      iff_trans (and_iff (validate_factor fl factor) _)
        (iff_trans (iff_pair (IsFactor-iff factor) (index_iff index)) iff_swap))
  validate_action_iff (cancel t index) =
      iff_trans (ensure_iff _ "invalid cancel action") (index_iff index)
  validate_action_iff (metadata_patch from_sha to_sha operations) =
      iff_trans (then_iff (ensure _ "metadata patch endpoints are required") _) (
        iff_pair
          (iff_trans (ensure_iff _ "metadata patch endpoints are required") (
            iff_trans (and_iff (not (text_eq from_sha [])) _)
              (iff_pair (full_iff from_sha) (full_iff to_sha))))
          (iff_trans (then_iff (ensure _ "metadata patch operations are required") _) (
            iff_pair
              (iff_trans (ensure_iff _ "metadata patch operations are required")
                (some_iff operations))
              (operations_iff operations))))
  validate_action_iff (diagnose message) =
      iff_trans (ensure_iff _ "empty diagnostic action") (full_iff message)

  actions_iff :
      (actions : List (Action F))
      → (each_ok (validate_action fl) actions ≡ ok tt) ↔ All IsAction actions
  actions_iff actions = (
    λ h. All-imp _ _ (λ a k. (validate_action_iff a).0 k) actions (each_ok-All _ actions h),
    λ h. All-each_ok _ actions (All-imp _ _ (λ a k. (validate_action_iff a).1 k) actions h),
  )

  -- A response that `validate_action_journal` may return.
  pub record IsResponse (response : HostResponse F) : Type 0 where
    of_protocol : response.version_of_protocol ≡ protocol_version
    of_extension : response.extension_hash ≢ []
    of_version : response.journal.version ≡ 1
    of_origin : response.journal.origin ≡ codes "zmem-expansion-context"
    of_actions : All IsAction response.journal.actions

  -- `validate_action_journal` answers `response` exactly when the bytes decode to it and it is of
  -- this protocol, names its extension, has version 1 and the origin of the expansion context, and
  -- each action holds what its kind asks for: one-based indices, finite scores and factors from 0
  -- to 1, endpoints and operations of a patch, a known key, a value that the operator and the key
  -- allow (an area is `<root>` or a normalized path), a message.
  pub validate_action_journal_iff :
      (from_slice : Text → Result (HostResponse F)) (data_bytes : Text) (response : HostResponse F)
      → (validate_action_journal fl from_slice data_bytes ≡ ok response)
        ↔ ((from_slice data_bytes ≡ ok response) × IsResponse response)
  unfolding validate_action_journal
  validate_action_journal_iff from_slice data_bytes response = (
    λ h.
        let (r, e, f) = bind_parts (from_slice data_bytes) _ h in
        let (a, f1) = ensure_then (r.version_of_protocol == protocol_version) _ _ f in
        let (b, f2) = ensure_then (not (text_eq r.extension_hash [])) _ _ f1 in
        let (c, f3) =
          ensure_then
            (r.journal.version == 1 && text_eq r.journal.origin (codes "zmem-expansion-context")) _
            _ f2 in
        let (t, d, f4) = bind_parts (each_ok (validate_action fl) r.journal.actions) _ f3 in
        let g : r ≡ response = ground (arith, f4) in
        let origin : text_eq r.journal.origin (codes "zmem-expansion-context") ≡ true =
          ground (arith, c) in
        (
          e ∙ ap ok g,
          subst IsResponse g (record {
            of_protocol = ground (arith, a);
            of_extension = (full_iff r.extension_hash).0 b;
            of_version = ground (arith, c);
            of_origin = text_eq_sound r.journal.origin _ origin;
            of_actions = (actions_iff r.journal.actions).0 d;
          }),
        ),
    λ (e, r).
        rw
          (
            e,
            r.of_protocol,
            (full_iff response.extension_hash).1 r.of_extension,
            r.of_version,
            text_eq_complete response.journal.origin _ r.of_origin,
            (actions_iff response.journal.actions).1 r.of_actions,
          )
          refl,
  )
