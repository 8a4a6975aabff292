-- ===== src/Journal/Batch.antt =====
-- An inspection batch answers exactly the commits it was asked about, in their order.
use zmem_cache.Common.{
  refl, ensure_then, ◌∷◌, subst, length, ◌∙◌, arith, ap, ◌==◌, Result, bind_parts, sym, map, ok,
  suc, ◌≡◌, text_eq_sound, text_eq, text_eq_self, Text, ◌↔◌, List, map_ok, [], true, ℕ,
}
use zmem_cache.Journal.{
  inspection_of, HostInspection, check_identity, protocol_version, validate_host_inspection_batch,
  zip, HostInspectionBatch, IdentifiedHostInspection,
}

abbrev ids_of : List IdentifiedHostInspection → List Text
ids_of = map (λ i. i.id)

eq_same : (n : ℕ) → (n == n) ≡ true
eq_same n = ground arith

check_zip_ok :
    (is : List IdentifiedHostInspection)
    → map_ok check_identity (zip is (ids_of is)) ≡ ok (map inspection_of is)
unfolding check_identity
check_zip_ok [] = refl
check_zip_ok (i ∷ is) = rw (text_eq_self i.id, check_zip_ok is) refl

length-ids_of : (is : List IdentifiedHostInspection) → length is ≡ length (ids_of is)
length-ids_of [] = refl
length-ids_of (i ∷ is) = ap suc (length-ids_of is)

check_zip-ids :
    (is : List IdentifiedHostInspection) (ids : List Text) (out : List HostInspection)
    → length is ≡ length ids
    → map_ok check_identity (zip is ids) ≡ ok out
    → ids_of is ≡ ids
unfolding check_identity
check_zip-ids [] [] out k h = refl
check_zip-ids [] (x ∷ ids) out k h = absurd (omega (arith, k))
check_zip-ids (i ∷ is) [] out k h = absurd (omega (arith, k))
check_zip-ids (i ∷ is) (x ∷ ids) out k h =
    let (a, e, f) = bind_parts (check_identity (i, x)) _ h in
    let (same, g) = ensure_then (text_eq i.id x) _ (ok (inspection_of i)) e in
    let (rest, e', f') = bind_parts (map_ok check_identity (zip is ids)) _ f in
    let tail : ids_of is ≡ ids = check_zip-ids is ids rest (omega (arith, k)) e' in
    rw (text_eq_sound i.id x same, tail) refl

-- `validate_host_inspection_batch` answers `out` exactly when the bytes decode to a batch of this
-- protocol version whose identities are the expected ones, all of them and in their order, and
-- `out` holds the counts and diagnostics of that batch.
pub validate_host_inspection_batch_iff :
    (from_slice : Text → Result HostInspectionBatch) (data_bytes : Text) (expected_ids : List Text)
    (out : List HostInspection)
    → (validate_host_inspection_batch from_slice data_bytes expected_ids ≡ ok out) ↔ (
        (batch : HostInspectionBatch) × (from_slice data_bytes ≡ ok batch)
        × (batch.version_of_protocol ≡ protocol_version)
        × (map (λ i. i.id) batch.inspections ≡ expected_ids)
        × (out ≡ map inspection_of batch.inspections))
unfolding validate_host_inspection_batch
validate_host_inspection_batch_iff from_slice data_bytes ids out = (
  λ h.
      let (batch, e, f) = bind_parts (from_slice data_bytes) _ h in
      let (v, g) = ensure_then (batch.version_of_protocol == protocol_version) _ _ f in
      let (l, k) = ensure_then (length batch.inspections == length ids) _ _ g in
      let same : ids_of batch.inspections ≡ ids =
        check_zip-ids batch.inspections ids out (ground arith) k in
      let k' : map_ok check_identity (zip batch.inspections (ids_of batch.inspections)) ≡ ok out =
        subst (λ x. map_ok check_identity (zip batch.inspections x) ≡ ok out) (sym same) k in
      let o : ok out ≡ ok (map inspection_of batch.inspections) =
        sym k' ∙ check_zip_ok batch.inspections in
      (batch, e, ground arith, same, cc),
  λ (batch, e, v, same, o).
      rw (e, v, sym same, sym (length-ids_of batch.inspections))
        (rw (eq_same (length batch.inspections)) (check_zip_ok batch.inspections ∙ ap ok (sym o))),
)
