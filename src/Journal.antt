-- ===== src/Journal.antt =====
-- The action journal of an extension host and its validation: crates/zmem-core/src/lib.rs. The
-- decoder `serde_json::from_slice` is a parameter, and so are the operations on `f64`.
pub mod Area
pub mod Operation
pub mod Accepts
pub mod Batch
pub mod Tests
use zmem_cache.Common.{
  Result, false, ◌&&◌, each_ok, all, none, length, Text, [], ◌∷◌, ok, ◌==◌, not, if◌then◌else◌,
  Bool, ◌/◌, text_eq, if◌then◌else◌, err, ℕ, any, codes, some, ensure, List, ◌||◌, ltb, split,
  map_ok, ℤ, Option, starts_with, if◌then◌else◌, ◌>>◌, ◌>>=◌,
}

abbrev pub protocol_version : ℕ
protocol_version = 5

-- What `validate_factor` uses of `f64`.
pub record Floats (F : Type 0) : Type 0 where
  pub is_finite : F → Bool
  pub at_most : F → F → Bool
  pub float_zero : F
  pub float_one : F

unfoldable pub validate_factor : {F : Type 0} → Floats F → F → Bool
validate_factor fl value =
    fl.is_finite value && (fl.at_most fl.float_zero value && fl.at_most value fl.float_one)

pub data MetadataOperator : Type 0 where
  set_value : MetadataOperator
  add_value : MetadataOperator
  null_value : MetadataOperator

pub record MetadataOperation : Type 0 where
  pub key : Text
  pub operator : MetadataOperator
  pub value : Option Text

pub record AddEntry (F : Type 0) : Type 0 where
  pub commit_sha : Text
  pub annotation_index : ℕ
  pub entry_type : Text
  pub content : Text
  pub score : F
  pub valid : Bool
  pub commit_time : ℤ
  pub scope : Option Text

pub data Action (F : Type 0) : Type 0 where
  add_entry : AddEntry F → Action F
  add_relationship : (commit_sha source target : Text) → (score : F) → Action F
  decay : (target_sha : Text) → (target_index : ℕ) → (factor : F) → Action F
  cancel : (target_sha : Text) → (target_index : ℕ) → Action F
  metadata_patch : (from_sha to_sha : Text) → List MetadataOperation → Action F
  diagnose : (message : Text) → Action F

pub record ActionJournal (F : Type 0) : Type 0 where
  pub version : ℕ
  pub origin : Text
  pub actions : List (Action F)

pub record HostResponse (F : Type 0) : Type 0 where
  pub version_of_protocol : ℕ
  pub extension_hash : Text
  pub journal : ActionJournal F
  pub hook_diagnostics : List Text
  pub annotation_count : ℕ

unfoldable pub contains : Text → Text → Bool
contains part [] = starts_with part []
contains part (c ∷ s) = starts_with part (c ∷ s) || contains part s

abbrev pub root_area : Text
root_area = codes "<root>"

abbrev pub is_proper_part : Text → Bool
is_proper_part part =
    not (text_eq part []) && not (text_eq part (codes ".")) && not (text_eq part (codes ".."))

unfoldable pub is_normal_path : Text → Bool
is_normal_path value =
    not (text_eq value [])
    && not (starts_with (codes "/") value)
    && not (any (λ c. c == 92) value)
    && not (contains (codes "//") value)
    && all is_proper_part (split 47 value)

unfoldable pub validate_area : Text → Result (Unit {0})
validate_area value =
    if text_eq value root_area
    then ok tt
    else ensure (is_normal_path value) "affected area must be a normalized repository-relative path"

abbrev pub has_value : Option Text → Bool
has_value none = false
has_value (some value) = not (text_eq value [])

-- The match on the operator.
abbrev pub check_value : MetadataOperator → Text → Option Text → Result (Unit {0})
check_value null_value key none = ok tt
check_value null_value key (some v) = err "null operation carries a value"
check_value add_value key value = do
  ensure (not (text_eq key (codes "owner"))) "metadata add requires a set-valued key"
  ensure (has_value value) "metadata operation requires a value"
check_value set_value key value = ensure (has_value value) "metadata operation requires a value"

-- The check of an area, with the `unwrap` of a value that is missing as an error.
abbrev pub check_area : MetadataOperator → Option Text → Result (Unit {0})
check_area null_value value = ok tt
check_area add_value none = err "called `Option::unwrap()` on a `None` value"
check_area set_value none = err "called `Option::unwrap()` on a `None` value"
check_area add_value (some value) = validate_area value
check_area set_value (some value) = validate_area value

abbrev pub check_area_key : Text → MetadataOperator → Option Text → Result (Unit {0})
check_area_key key operator value =
    if text_eq key (codes "affected_areas") then check_area operator value else ok tt

abbrev pub is_metadata_key : Text → Bool
is_metadata_key key =
    text_eq key (codes "affected_areas")
    || text_eq key (codes "owner")
    || text_eq key (codes "tags")

unfoldable pub validate_metadata_operation : MetadataOperation → Result (Unit {0})
validate_metadata_operation operation = do
  ensure (is_metadata_key operation.key) "unsupported metadata key"
  check_value operation.operator operation.key operation.value
  check_area_key operation.key operation.operator operation.value

-- One round of the loop over the actions.
unfoldable pub validate_action : {F : Type 0} → Floats F → Action F → Result (Unit {0})
validate_action fl (add_entry entry) = do
  ensure (ltb 0 entry.annotation_index) "annotation indexes are one-based"
  ensure (validate_factor fl entry.score) "invalid entry score"
validate_action fl (add_relationship c s t score) =
    ensure (validate_factor fl score) "invalid relationship score"
validate_action fl (decay t target_index factor) =
    ensure (validate_factor fl factor && ltb 0 target_index) "invalid decay action"
validate_action fl (cancel t target_index) = ensure (ltb 0 target_index) "invalid cancel action"
validate_action fl (metadata_patch from_sha to_sha operations) = do
  ensure (not (text_eq from_sha []) && not (text_eq to_sha []))
      "metadata patch endpoints are required"
  ensure (ltb 0 (length operations)) "metadata patch operations are required"
  each_ok validate_metadata_operation operations
validate_action fl (diagnose message) = ensure (not (text_eq message [])) "empty diagnostic action"

unfoldable pub validate_action_journal :
    {F : Type 0} → Floats F → (Text → Result (HostResponse F)) → Text → Result (HostResponse F)
validate_action_journal fl from_slice data_bytes = do
  response ← from_slice data_bytes
  ensure (response.version_of_protocol == protocol_version) "unsupported extension protocol"
  ensure (not (text_eq response.extension_hash [])) "missing extension identity"
  ensure
      (response.journal.version == 1
        && text_eq response.journal.origin (codes "zmem-expansion-context"))
      "invalid action journal provenance"
  each_ok (validate_action fl) response.journal.actions
  ok response

pub record HostInspection : Type 0 where
  pub version_of_protocol : ℕ
  pub annotation_count : ℕ
  pub parser_diagnostics : List Text

pub record IdentifiedHostInspection : Type 0 where
  pub id : Text
  pub annotation_count : ℕ
  pub parser_diagnostics : List Text

pub record HostInspectionBatch : Type 0 where
  pub version_of_protocol : ℕ
  pub inspections : List IdentifiedHostInspection

abbrev pub zip {ℓ κ} : {A : Type ℓ} {B : Type κ} → List A → List B → List (A × B)
zip [] ys = []
zip (x ∷ xs) [] = []
zip (x ∷ xs) (y ∷ ys) = (x, y) ∷ zip xs ys

abbrev pub inspection_of : IdentifiedHostInspection → HostInspection
inspection_of inspection = record {
  version_of_protocol = protocol_version;
  annotation_count = inspection.annotation_count;
  parser_diagnostics = inspection.parser_diagnostics;
}

unfoldable pub check_identity : IdentifiedHostInspection × Text → Result HostInspection
check_identity (inspection, expected) = do
  ensure (text_eq inspection.id expected) "extension inspection batch identity or order mismatch"
  ok (inspection_of inspection)

unfoldable pub validate_host_inspection_batch :
    (Text → Result HostInspectionBatch) → Text → List Text → Result (List HostInspection)
validate_host_inspection_batch from_slice data_bytes expected_ids = do
  batch ← from_slice data_bytes
  ensure (batch.version_of_protocol == protocol_version) "unsupported extension protocol"
  ensure (length batch.inspections == length expected_ids) "incomplete extension inspection batch"
  map_ok check_identity (zip batch.inspections expected_ids)

unfoldable pub validate_host_inspection :
    (Text → Result HostInspection) → Text → Result HostInspection
validate_host_inspection from_slice data_bytes = do
  inspection ← from_slice data_bytes
  ensure (inspection.version_of_protocol == protocol_version) "unsupported extension protocol"
  ok inspection
