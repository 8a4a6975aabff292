-- ===== src/Metadata.antt =====
-- Metadata over a range of commits: `resolve_meta_range` and `resolve_metadata_assignments` of
-- crates/zmem-core/src/lib.rs. A set of ancestors is a list that only membership is asked of.
pub mod Range
pub mod Resolve
pub mod Tests
use zmem_cache.Common.{
  map, if◌then◌else◌, Option, [], Result, not, if◌then◌else◌, some, List, Bool, any, ok, none,
  if◌then◌else◌, ok_or, ensure, text_le, has_text, keep, Text, ◌∷◌, ◌&&◌, ◌||◌, text_eq, ◌>>◌,
  ◌>>=◌,
}

pub record TrailCommit : Type 0 where
  pub oid : Text
  pub ancestors : List Text

abbrev pub or_else : Option TrailCommit → Option TrailCommit → Option TrailCommit
or_else none b = b
or_else (some a) b = some a

-- The map by oid holds the last commit of each oid.
unfoldable pub commit_by_oid : Text → List TrailCommit → Option TrailCommit
commit_by_oid oid [] = none
commit_by_oid oid (commit ∷ rest) =
    or_else (commit_by_oid oid rest) (if text_eq commit.oid oid then some commit else none)

abbrev pub is_in_range : TrailCommit → TrailCommit → TrailCommit → Bool
is_in_range from to commit =
    (text_eq commit.oid from.oid || has_text from.oid commit.ancestors)
    && (text_eq commit.oid to.oid || has_text commit.oid to.ancestors)

unfoldable pub resolve_meta_range :
    List TrailCommit → Text → Text → Text → Bool → Result (List Text)
resolve_meta_range membership meta_oid from_oid to_oid complete = do
  ensure complete "incomplete META range"
  from ← ok_or (commit_by_oid from_oid membership) "missing META from endpoint"
  to ← ok_or (commit_by_oid to_oid membership) "missing META to endpoint"
  meta ← ok_or (commit_by_oid meta_oid membership) "missing META commit"
  ensure (text_eq from.oid to.oid || has_text from.oid to.ancestors)
      "META from is not an ancestor of to"
  ensure (has_text from.oid meta.ancestors && has_text to.oid meta.ancestors)
      "META endpoints must precede META commit"
  ok (map (λ commit. commit.oid) (keep (is_in_range from to) membership))

pub record ReachableAssignment : Type 0 where
  pub commit_oid : Text
  pub value : Text
  pub ancestors : List Text

pub data EffectiveMetadataValue : Type 0 where
  resolved : Text → EffectiveMetadataValue
  conflict : List Text → EffectiveMetadataValue

-- A `BTreeSet` is the sorted list of its values, each once.
unfoldable pub insert_value : Text → List Text → List Text
insert_value v [] = v ∷ []
insert_value v (w ∷ ws) =
    let rest = insert_value v ws in
    if text_eq v w then w ∷ ws else if text_le v w then v ∷ w ∷ ws else w ∷ rest

unfoldable pub value_set : List Text → List Text
unfolding insert_value
value_set [] = []
value_set (v ∷ vs) = insert_value v (value_set vs)

abbrev pub supersedes : ReachableAssignment → ReachableAssignment → Bool
supersedes newer candidate =
    not (text_eq newer.commit_oid candidate.commit_oid)
    && has_text candidate.commit_oid newer.ancestors

abbrev pub is_maximal : List ReachableAssignment → ReachableAssignment → Bool
is_maximal assignments candidate = not (any (λ newer. supersedes newer candidate) assignments)

abbrev pub maximal_values : List ReachableAssignment → List Text
maximal_values assignments = map (λ a. a.value) (keep (is_maximal assignments) assignments)

abbrev pub effective_of : List Text → EffectiveMetadataValue
effective_of [] = conflict []
effective_of (v ∷ []) = resolved v
effective_of (v ∷ w ∷ vs) = conflict (v ∷ w ∷ vs)

unfoldable pub resolve_metadata_assignments : List ReachableAssignment → EffectiveMetadataValue
unfolding value_set
resolve_metadata_assignments assignments = effective_of (value_set (maximal_values assignments))
