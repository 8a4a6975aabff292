-- ===== src/Git.antt =====
-- The repository that git gives access to: `GitRepo` of crates/zmem-core/src/lib.rs, its selectors
-- and its walks. What git answers is a parameter. A text is here the list of its characters; an
-- error holds the fixed part of its message, and a failed `expect` is an error.
pub mod Selector
pub mod Printed
pub mod Walk
pub mod Tests
use zmem_cache.Common.{
  Option, Bool, reverse, none, ensure, false, err, ℕ, has_text, split_whitespace, keep, drop,
  length, if◌then◌else◌, ◌^◌, ◌+◌, text_eq, trim, insert, ◌∷◌, map_ok, Text, ◌-◌, lines,
  starts_with, ◌&&◌, not, ◌==◌, Result, any, if◌then◌else◌, ltb, if◌then◌else◌, some, map, ◌++◌,
  is_full, min, ok, take, List, codes, [], print_ℕ, ◌>>=◌, text_Eq, ◌>>◌,
}
use zmem_cache.Attention.{AttentionLimit, maximum}

-- `std::process::Output`: whether it succeeded, and what it wrote.
pub record Output : Type 0 where
  pub success : Bool
  pub stdout : Text

-- Git started in the repository: by arguments, and by arguments and an input. Starting it may fail.
pub record Process : Type 0 where
  pub run_git : List Text → Result Output
  pub run_git_input : List Text → Text → Result Output
  pub from_utf8 : Text → Result Text

pub record ResolvedSelector : Type 0 where
  pub selector : Text
  pub oid : Text
  pub local_branch : Bool
  pub route : Text

pub record GitWalk : Type 0 where
  pub shas : List Text
  pub parents : List (Text × List Text)
  pub truncated : Bool

abbrev pub newline : ℕ
newline = 10

-- The oids of an output, one on each line.
unfoldable pub oid_lines : Text → List Text
oid_lines output = keep is_full (lines output)

-- A line of `rev-list --parents`: an oid and those of its parents.
unfoldable pub parse_parents : Text → Result (Text × List Text)
parse_parents line = elim (split_whitespace line) [
  | [] ↦ err "rev-list --parents emits an OID"
  | sha ∷ fields ↦ ok (sha, fields)
]

-- The map after all insertions in order.
unfoldable pub parent_map :
    List (Text × List Text) → List (Text × List Text) → List (Text × List Text)
parent_map found [] = found
parent_map found ((sha, fields) ∷ rest) = parent_map (insert sha fields found) rest

-- `saturating_add(1)` of a maximum.
unfoldable pub sentinel : ℕ → ℕ
sentinel most = min (most + 1) (2 ^ 64 - 1)

unfoldable pub walk_arguments : Option ℕ → Text → List Text
walk_arguments none head = codes "rev-list" ∷ codes "--topo-order" ∷ codes "--parents" ∷ head ∷ []
walk_arguments (some most) head =
    codes "rev-list"
    ∷ codes "--topo-order"
    ∷ codes "--parents"
    ∷ (codes "--max-count=" ++ print_ℕ (sentinel most))
    ∷ head
    ∷ []

unfoldable pub is_cut : Option ℕ → List Text → Bool
is_cut none shas = false
is_cut (some most) shas = ltb most (length shas)

unfoldable pub cut : Option ℕ → List Text → List Text
cut none shas = shas
cut (some most) shas = take most shas

-- The walk of the rows that were read.
unfoldable pub walk_of : Option ℕ → List (Text × List Text) → GitWalk
walk_of most rows =
    let shas = cut most (map (λ r. r.0) rows) in
    record {
      shas = shas;
      parents = keep (λ r. has_text r.0 shas) (parent_map [] rows);
      truncated = is_cut most (map (λ r. r.0) rows);
    }

module _ (process : Process) where
  unfoldable pub git : List Text → Result Text
  git arguments = do
    output ← process.run_git arguments
    ensure output.success "git failed"
    process.from_utf8 output.stdout

  unfoldable pub head_oid : Result Text
  head_oid = do value ← git (codes "rev-parse" ∷ codes "HEAD" ∷ []); ok (trim value)

  unfoldable pub resolve_reference : Text → Result Text
  resolve_reference reference = do
    value ← git (codes "rev-parse" ∷ codes "--verify" ∷ (reference ++ codes "^{commit}") ∷ [])
    ok (trim value)

  unfoldable pub resolve_observed : Text → Text → Result ResolvedSelector
  resolve_observed reference observed_oid = do
    oid ← resolve_reference reference
    ensure (text_eq oid observed_oid) "stale ref"
    named ← git (codes "rev-parse" ∷ codes "--symbolic-full-name" ∷ reference ∷ [])
    let name = trim named
    let is_name = starts_with (codes "refs/") name && not (any (λ c. c == newline) name)
    let route = if is_name then name else codes "oid:" ++ oid
    ok (record {
      selector = reference;
      oid = oid;
      local_branch = starts_with (codes "refs/heads/") route;
      route = route;
    })

  unfoldable pub is_ancestor : Text → Text → Result Bool
  is_ancestor ancestor descendant = do
    output ←
        process.run_git (codes "merge-base" ∷ codes "--is-ancestor" ∷ ancestor ∷ descendant ∷ [])
    ok output.success

  unfoldable pub ancestors : Text → Result (List Text)
  ancestors commit = do
    output ← git (codes "rev-list" ∷ commit ∷ [])
    ok (keep is_full (drop 1 (lines output)))

  unfoldable pub walk_range : Option Text → Text → Text
  walk_range none head = head
  walk_range (some anchor) head = anchor ++ codes ".." ++ head

  unfoldable pub walk_oldest : Option Text → Text → Result (List Text)
  walk_oldest after head = do
    output ←
        git
          (codes "rev-list" ∷ codes "--reverse" ∷ codes "--topo-order" ∷ walk_range after head ∷ [])
    ok (oid_lines output)

  unfoldable pub walk_newest : Text → AttentionLimit → Result GitWalk
  walk_newest head limit = do
    output ← git (walk_arguments (maximum limit) head)
    rows ← map_ok parse_parents (oid_lines output)
    ok (walk_of (maximum limit) rows)

  unfoldable pub walk_trail : Text → AttentionLimit → Result GitWalk
  walk_trail head limit = do
    walk ← walk_newest head limit
    ok (record walk { shas = reverse walk.shas })
