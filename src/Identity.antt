-- ===== src/Identity.antt =====
-- Identities as text: the view identity of an `AttentionUsage` (`view_identity`,
-- `from_view_identity`, `attention_identity_allows_incremental`) and the key of a `TrailIdentity`, of
-- crates/zmem-core/src/lib.rs. A `String` is the list of its bytes.
pub mod View
pub mod Key
pub mod Tests
use zmem_cache.Attention.{
  AttentionBound, commit_bound, node_bound, AttentionUsage, AttentionPolicy, as_i64,
}
use zmem_cache.Common.{
  ℤ, print_ℕ, Option, none, false, if◌then◌else◌, ◌&&◌, Bool, some, map, parse_usize, ℕ, print_ℤ,
  text_eq, if◌then◌else◌, parse_i64, Text, if◌then◌else◌, [], ◌∷◌, codes, List, join, true, split,
}

unfoldable pub bound_name : AttentionBound → Text
bound_name commit_bound = codes "commit"
bound_name node_bound = codes "node"

unfoldable pub print_bool : Bool → Text
print_bool true = codes "true"
print_bool false = codes "false"

unfoldable pub parse_bool : Text → Option Bool
parse_bool s =
    if text_eq s (codes "true")
    then some true
    else if text_eq s (codes "false")
    then some false
    else none

abbrev pub or_empty : Option Text → Text
or_empty none = []
or_empty (some t) = t

-- `format!("v1:{}:…")` puts a colon between eight fields.
unfoldable pub view_identity : AttentionUsage → Option Text → Text
view_identity u lower_boundary = join b':' (
    codes "v1"
    ∷ print_ℤ u.commit_limit
    ∷ print_ℤ u.node_limit
    ∷ print_ℕ u.selected_commits
    ∷ print_ℕ u.selected_nodes
    ∷ print_bool u.truncated
    ∷ join b',' (map bound_name u.reached)
    ∷ or_empty lower_boundary
    ∷ [])

unfoldable pub parse_bound : Text → Option AttentionBound
parse_bound s =
    if text_eq s (codes "commit")
    then some commit_bound
    else if text_eq s (codes "node")
    then some node_bound
    else none

infixl 5 ◌>>=?◌
abbrev pub ◌>>=?◌ {ℓ κ} : {A : Type ℓ} {B : Type κ} → Option A → (A → Option B) → Option B
none >>=? f = none
some a >>=? f = f a

-- `collect::<Option<Vec<_>>>`.
unfoldable pub parse_bounds : List Text → Option (List AttentionBound)
parse_bounds [] = some []
parse_bounds (p ∷ ps) = parse_bound p >>=? λ b. parse_bounds ps >>=? λ bs. some (b ∷ bs)

unfoldable pub parse_reached : Text → Option (List AttentionBound)
parse_reached [] = some []
parse_reached (c ∷ s) = parse_bounds (split b',' (c ∷ s))

-- The eight parts that `from_view_identity` asks for, the first of them `v1`.
unfoldable pub from_parts : List Text → Option AttentionUsage
from_parts (v ∷ commits ∷ nodes ∷ selected ∷ counted ∷ cut ∷ bounds ∷ lower ∷ []) =
    if text_eq v (codes "v1")
    then (parse_reached bounds >>=? λ reached. parse_i64 commits >>=? λ commit_limit.
        parse_i64 nodes >>=? λ node_limit. parse_usize selected >>=? λ selected_commits.
        parse_usize counted >>=? λ selected_nodes. parse_bool cut >>=? λ truncated. some (record {
          commit_limit = commit_limit;
          node_limit = node_limit;
          selected_commits = selected_commits;
          selected_nodes = selected_nodes;
          truncated = truncated;
          reached = reached;
        }))
    else none
from_parts _ = none

unfoldable pub from_view_identity : Text → Option AttentionUsage
from_view_identity identity = from_parts (split b':' identity)

unfoldable pub parts_allow : List Text → AttentionPolicy → Bool
parts_allow (v ∷ commits ∷ nodes ∷ selected ∷ counted ∷ cut ∷ bounds ∷ lower ∷ []) policy =
    text_eq v (codes "v1")
    && (text_eq commits (print_ℤ (as_i64 policy.commit_limit))
        && (text_eq nodes (print_ℤ (as_i64 policy.node_limit)) && text_eq cut (codes "false")))
parts_allow _ policy = false

unfoldable pub attention_identity_allows_incremental : Text → AttentionPolicy → Bool
attention_identity_allows_incremental identity policy = parts_allow (split b':' identity) policy

pub record TrailIdentity : Type 0 where
  pub repository_id : ℤ
  pub head_oid : Text
  pub attention : AttentionPolicy
  pub extension_identity : Text
  pub protocol_version : ℕ
  pub schema_version : ℕ

unfoldable pub key : TrailIdentity → Text
key t = join b':' (
    codes "trail"
    ∷ print_ℤ t.repository_id
    ∷ t.head_oid
    ∷ print_ℤ (as_i64 t.attention.commit_limit)
    ∷ print_ℤ (as_i64 t.attention.node_limit)
    ∷ t.extension_identity
    ∷ print_ℕ t.protocol_version
    ∷ print_ℕ t.schema_version
    ∷ [])
