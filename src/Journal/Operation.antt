-- ===== src/Journal/Operation.antt =====
-- What an accepted metadata operation holds: `validate_metadata_operation`.
use Prim.Native.String.{String}
use zmem_cache.Journal.Area.{IsNormalPath, validate_area_iff, ne_of_text_eq, text_eq_of_ne}
use zmem_cache.Common.{
  ◌⊎◌, Text, ◌≢◌, ◌↔◌, codes, ◌≡◌, Option, ok, none, some, [], refl, inr, true, inl, text_eq_iff,
  Bool-cases, text_eq_sound, text_eq, if◌then◌else◌, text_eq_complete, if◌then◌else◌, arith,
  if◌then◌else◌, Result, ◌>>◌, false, not, Bool, err, ensure,
}
use zmem_cache.Journal.{
  validate_metadata_operation, add_value, root_area, set_value, MetadataOperator, null_value,
  is_metadata_key, check_area_key, validate_area, MetadataOperation, has_value, check_value,
}

abbrev pub IsArea : Text → Type 0
IsArea v = (v ≡ root_area) ⊎ IsNormalPath v

-- A value that a key takes.
abbrev pub IsValue : Text → Text → Type 0
IsValue key v = (v ≢ []) × (key ≡ codes "affected_areas" → IsArea v)

abbrev pub IsMetadata : Text → MetadataOperator → Option Text → Type 0
IsMetadata key null_value none = Unit
IsMetadata key null_value (some v) = ⊥
IsMetadata key add_value none = ⊥
IsMetadata key add_value (some v) = (key ≢ codes "owner") × IsValue key v
IsMetadata key set_value none = ⊥
IsMetadata key set_value (some v) = IsValue key v

abbrev pub IsKey : Text → Type 0
IsKey key = (key ≡ codes "affected_areas") ⊎ (key ≡ codes "owner") ⊎ (key ≡ codes "tags")

is_metadata_key_iff : (key : Text) → (is_metadata_key key ≡ true) ↔ IsKey key
is_metadata_key_iff key =
    let a = text_eq_iff key (codes "affected_areas") in
    let o = text_eq_iff key (codes "owner") in
    let t = text_eq_iff key (codes "tags") in
    (λ h. ground (arith, a.0, o.0, t.0), λ h. ground (arith, a.1, o.1, t.1))

IsArea-iff :
    (key v : Text)
    → ((if text_eq key (codes "affected_areas") then validate_area v else ok tt) ≡ ok tt)
      ↔ (key ≡ codes "affected_areas" → IsArea v)
IsArea-iff key v = elim (Bool-cases (text_eq key (codes "affected_areas"))) [
  | inl e ↦
      let same : key ≡ codes "affected_areas" = text_eq_sound key _ e in
      rw e (λ h k. (validate_area_iff v).0 h, λ h. (validate_area_iff v).1 (h same))
  | inr e ↦ rw e (λ h k. absurd (ground (arith, text_eq_complete key _ k)), λ h. refl)
]

-- The area check on a value that is there.
check_area_key_iff :
    (key : Text) (operator : MetadataOperator) (v : Text)
    → (operator ≢ null_value)
    → (check_area_key key operator (some v) ≡ ok tt) ↔ (key ≡ codes "affected_areas" → IsArea v)
check_area_key_iff key null_value v n = absurd (n refl)
check_area_key_iff key add_value v n = IsArea-iff key v
check_area_key_iff key set_value v n = IsArea-iff key v

pub then_iff : (m k : Result (Unit {0})) → ((m >> k) ≡ ok tt) ↔ ((m ≡ ok tt) × (k ≡ ok tt))
then_iff (ok t) k = (λ h. (refl, h), λ h. h.1)
then_iff (err e) k = (λ h. absurd (ground arith), λ h. absurd (ground (arith, h.0)))

pub ensure_iff : (b : Bool) (e : String) → (ensure b e ≡ ok tt) ↔ (b ≡ true)
ensure_iff true e = (λ h. refl, λ h. refl)
ensure_iff false e = (λ h. absurd (ground arith), λ h. absurd (ground arith))

-- Why a value that is there passes: it is not empty, and an area is one.
IsValue-iff :
    (key v : Text) (operator : MetadataOperator)
    → (operator ≢ null_value)
    → ((ensure (has_value (some v)) "metadata operation requires a value"
          >> check_area_key key operator (some v))
        ≡ ok tt)
      ↔ IsValue key v
IsValue-iff key v operator n =
    let e =
      then_iff (ensure (not (text_eq v [])) "metadata operation requires a value")
        (check_area_key key operator (some v)) in
    let a = check_area_key_iff key operator v n in
    let b = ensure_iff (not (text_eq v [])) "metadata operation requires a value" in
    (
      λ h. (ne_of_text_eq v [] (b.0 (e.0 h).0), a.0 (e.0 h).1),
      λ h. e.1 (b.1 (text_eq_of_ne v [] h.0), a.1 h.1),
    )

null_area : (key : Text) → check_area_key key null_value none ≡ ok tt
null_area key = elim (Bool-cases (text_eq key (codes "affected_areas"))) [
  | inl e ↦ rw e refl
  | inr e ↦ rw e refl
]

rest_iff :
    (key : Text) (operator : MetadataOperator) (value : Option Text)
    → ((check_value operator key value >> check_area_key key operator value) ≡ ok tt)
      ↔ IsMetadata key operator value
rest_iff key null_value none = (λ h. tt, λ h. null_area key)
rest_iff key null_value (some v) = (λ h. absurd (ground arith), λ h. absurd h)
rest_iff key add_value none = elim (Bool-cases (text_eq key (codes "owner"))) [
  | inl e ↦ rw e (λ h. absurd (ground (arith, h)), λ h. absurd h)
  | inr e ↦ rw e (λ h. absurd (ground (arith, h)), λ h. absurd h)
]
rest_iff key add_value (some v) = elim (Bool-cases (text_eq key (codes "owner"))) [
  | inl e ↦
      rw e
        (λ h. absurd (ground (arith, h)), λ h. absurd (h.0 (text_eq_sound key (codes "owner") e)))
  | inr e ↦
      let n : key ≢ codes "owner" = ne_of_text_eq key (codes "owner") (rw e refl) in
      let r = IsValue-iff key v add_value (λ x. absurd (ground (arith, x))) in
      rw e (λ h. (n, r.0 h), λ h. r.1 h.1)
]
rest_iff key set_value none = (λ h. absurd (ground (arith, h)), λ h. absurd h)
rest_iff key set_value (some v) = IsValue-iff key v set_value (λ x. absurd (ground (arith, x)))

pub validate_metadata_operation_iff :
    (operation : MetadataOperation)
    → (validate_metadata_operation operation ≡ ok tt)
      ↔ (IsKey operation.key × IsMetadata operation.key operation.operator operation.value)
unfolding validate_metadata_operation
validate_metadata_operation_iff operation =
    let rest =
      check_value operation.operator operation.key operation.value
      >> check_area_key operation.key operation.operator operation.value in
    let e = then_iff (ensure (is_metadata_key operation.key) "unsupported metadata key") rest in
    let b = ensure_iff (is_metadata_key operation.key) "unsupported metadata key" in
    let k = is_metadata_key_iff operation.key in
    let r = rest_iff operation.key operation.operator operation.value in
    (λ h. (k.0 (b.0 (e.0 h).0), r.0 (e.0 h).1), λ h. e.1 (b.1 (k.1 h.0), r.1 h.1))
