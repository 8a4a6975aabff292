-- ===== src/Journal/Tests.antt =====
-- The validations at concrete journals, batches and areas.
use zmem_cache.Journal.Area.{validate_area_iff, IsNormalPath}
use zmem_cache.Journal.Accepts.{validate_action_journal_iff, IsResponse}
use zmem_cache.Journal.Batch.{validate_host_inspection_batch_iff}
use zmem_cache.Common.{
  ◌≡◌, Result, ◌↔◌, true, leb, if◌then◌else◌, err, if◌then◌else◌, map, ℕ, ◌⊎◌, ok, codes, ◌∷◌, [],
  if◌then◌else◌, Text, text_eq,
}
use zmem_cache.Journal.{
  validate_area, protocol_version, Floats, decay, validate_action_journal, root_area, cancel,
  inspection_of, validate_host_inspection_batch, HostInspectionBatch, IdentifiedHostInspection,
  HostResponse,
}

-- Thousandths, all of them finite.
abbrev thousandths : Floats ℕ
thousandths = record { is_finite = λ x. true; at_most = leb; float_zero = 0; float_one = 1000 }

abbrev response : HostResponse ℕ
response = record {
  version_of_protocol = 5;
  extension_hash = codes "ext";
  journal = record {
    version = 1;
    origin = codes "zmem-expansion-context";
    actions = decay (codes "a1") 1 500 ∷ cancel (codes "a1") 2 ∷ [];
  };
  hook_diagnostics = [];
  annotation_count = 2;
}

abbrev decode_response : Text → Result (HostResponse ℕ)
decode_response bytes = if text_eq bytes (codes "{}") then ok response else err "expected value"

validate_area_iff_example :
    (validate_area (codes "src/core") ≡ ok tt)
    ↔ ((codes "src/core" ≡ root_area) ⊎ IsNormalPath (codes "src/core"))
validate_area_iff_example = validate_area_iff (codes "src/core")

validate_action_journal_iff_example :
    (validate_action_journal thousandths decode_response (codes "{}") ≡ ok response)
    ↔ ((decode_response (codes "{}") ≡ ok response) × IsResponse thousandths response)
validate_action_journal_iff_example =
    validate_action_journal_iff thousandths decode_response (codes "{}") response

abbrev inspection : IdentifiedHostInspection
inspection = record { id = codes "a1"; annotation_count = 2; parser_diagnostics = [] }

abbrev decode_batch : Text → Result HostInspectionBatch
decode_batch bytes = ok (record { version_of_protocol = 5; inspections = inspection ∷ [] })

validate_host_inspection_batch_iff_example :
    (validate_host_inspection_batch decode_batch [] (codes "a1" ∷ [])
      ≡ ok (inspection_of inspection ∷ []))
    ↔ ((batch : HostInspectionBatch) × (decode_batch [] ≡ ok batch)
        × (batch.version_of_protocol ≡ protocol_version)
        × (map (λ i. i.id) batch.inspections ≡ codes "a1" ∷ [])
        × (inspection_of inspection ∷ [] ≡ map inspection_of batch.inspections))
validate_host_inspection_batch_iff_example =
    validate_host_inspection_batch_iff decode_batch [] (codes "a1" ∷ [])
      (inspection_of inspection ∷ [])
