-- ===== src/Metadata/Tests.antt =====
-- A range and an agreement at concrete histories.
use zmem_cache.Metadata.Range.{resolve_meta_range-IsRange, IsRange, is_acyclic}
use zmem_cache.Metadata.{
  resolved, resolve_metadata_assignments, resolve_meta_range, ReachableAssignment, TrailCommit,
  commit_by_oid,
}
use zmem_cache.Metadata.Resolve.{resolve_metadata_assignments_iff, IsMaximal}
use zmem_cache.Common.{
  refl, ◌≡◌, List, Text, ◌↔◌, codes, All, true, text_eq, ◌∷◌, has_text, [], Any,
}

abbrev commit_of : Text → List Text → TrailCommit
commit_of oid ancestors = record { oid = oid; ancestors = ancestors }

abbrev trail : List TrailCommit
trail =
    commit_of (codes "a") []
    ∷ commit_of (codes "b") (codes "a" ∷ [])
    ∷ commit_of (codes "c") (codes "a" ∷ codes "b" ∷ [])
    ∷ []

resolve_meta_range-IsRange_example :
    IsRange (codes "a") (codes "b") (codes "c") (codes "a" ∷ codes "b" ∷ [])
unfolding resolve_meta_range commit_by_oid is_acyclic has_text text_eq
resolve_meta_range-IsRange_example =
    resolve_meta_range-IsRange trail (codes "c") (codes "a") (codes "b") true
      (codes "a" ∷ codes "b" ∷ []) refl refl

abbrev assignment : Text → Text → List Text → ReachableAssignment
assignment commit_oid value ancestors = record {
  commit_oid = commit_oid;
  value = value;
  ancestors = ancestors;
}

abbrev assignments : List ReachableAssignment
assignments =
    assignment (codes "a") (codes "ann") []
    ∷ assignment (codes "b") (codes "bob") (codes "a" ∷ [])
    ∷ []

resolve_metadata_assignments_iff_example :
    (resolve_metadata_assignments assignments ≡ resolved (codes "bob")) ↔ (
      Any (IsMaximal assignments) assignments
      × All (λ a. IsMaximal assignments a → a.value ≡ codes "bob") assignments)
resolve_metadata_assignments_iff_example =
    resolve_metadata_assignments_iff assignments (codes "bob")
