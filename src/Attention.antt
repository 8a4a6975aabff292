-- ===== src/Attention.antt =====
-- Attention limits and the selection of history: crates/zmem-core/src/lib.rs (`AttentionLimit`,
-- `AttentionPolicy`, `AttentionUsage`, `select_attention`) and
-- `history_policy_for_proposal` of crates/zmem-svc/src/lib.rs. `usize` and `i64` are 64 bits wide.
-- An iterator of candidates is a list, newest first.
pub mod Limits
pub mod Select
pub mod Proposal
pub mod Tests
use Prim.Native.String.{String, ◌++◌ as str_append}
use zmem_cache.Common.{
  ℕ, ℤ, Option, List, Bool, Text, ◌<◌, ◌^◌, Result, some, false, if◌then◌else◌, codes, [], join,
  split, ◌≤◌, ◌-◌, eq_ℤ, none, ltb, ◌∷◌, text_eq, min, ◌++◌, true, print_ℤ, parse_i64, ◌&&◌, ◌+◌,
  print_ℕ, parse_usize, ◌%◌, map, pos, negsuc, ok, ◌>>=◌, ◌>>◌, err, ensure, leb, ok_or, reverse,
  leb_ℤ, length, ◌==◌,
}

abbrev pub usize_mod : ℕ
usize_mod = 2 ^ 64

abbrev pub i64_max : ℕ
i64_max = 2 ^ 63 - 1

-- `limited` holds a `NonZeroUsize`.
pub data AttentionLimit : Type 0 where
  zero_limit : AttentionLimit
  limited : ℕ → AttentionLimit
  unlimited : AttentionLimit

-- `usize::try_from` of an `i64`.
unfoldable pub try_usize : ℤ → Result ℕ
try_usize (pos n) = ok n
try_usize (negsuc n) = err "out of range integral type conversion attempted"

unfoldable pub parse_limit : ℤ → String → Result AttentionLimit
unfolding try_usize
parse_limit value name = if eq_ℤ value (negsuc 0) then ok unlimited else do
  ensure (leb_ℤ (pos 1) value) (str_append name " limit must be a positive integer or -1")
  converted ← try_usize value
  ok (limited converted)

unfoldable pub as_i64 : AttentionLimit → ℤ
as_i64 zero_limit = pos 0
as_i64 (limited value) = pos (if leb value i64_max then value else i64_max)
as_i64 unlimited = negsuc 0

unfoldable pub maximum : AttentionLimit → Option ℕ
maximum zero_limit = some 0
maximum (limited value) = some value
maximum unlimited = none

pub record AttentionPolicy : Type 0 where
  pub commit_limit : AttentionLimit
  pub node_limit : AttentionLimit

-- `AttentionPolicy::default`.
abbrev pub default_policy : AttentionPolicy
default_policy = record { commit_limit = limited 500; node_limit = limited 400 }

-- The inner function `value` of `resolve`: the request, else the environment, else the fallback.
unfoldable pub resolved : Option ℤ → Option Text → ℤ → String → Result ℤ
resolved (some requested) environment fallback name = ok requested
resolved none (some environment) fallback name =
    ok_or (parse_i64 environment) (str_append "invalid " (str_append name " limit"))
resolved none none fallback name = ok fallback

unfoldable pub resolve : Option ℤ → Option ℤ → Option Text → Option Text → Result AttentionPolicy
resolve request_commit request_node environment_commit environment_node = do
  commit ← resolved request_commit environment_commit (pos 500) "commit"
  commit_limit ← parse_limit commit "commit"
  node ← resolved request_node environment_node (pos 400) "node"
  node_limit ← parse_limit node "node"
  ok (record { commit_limit = commit_limit; node_limit = node_limit })

pub data AttentionBound : Type 0 where
  commit_bound node_bound : AttentionBound

pub record AttentionUsage : Type 0 where
  pub commit_limit : ℤ
  pub node_limit : ℤ
  pub selected_commits : ℕ
  pub selected_nodes : ℕ
  pub truncated : Bool
  pub reached : List AttentionBound

pub record AttentionCandidate {ℓ} (T : Type ℓ) : Type ℓ where
  pub value : T
  pub annotation_count : ℕ

pub record AttentionSelection {ℓ} (T : Type ℓ) : Type ℓ where
  pub selected : List T
  pub usage : AttentionUsage

-- `nodes.saturating_add(count) > maximum`, if the policy has a maximum.
unfoldable pub exceeds : Option ℕ → ℕ → ℕ → Bool
exceeds none nodes count = false
exceeds (some most) nodes count = ltb most (min (nodes + count) (usize_mod - 1))

-- The loop when it ends: the node count, the values in the order they were pushed, and whether it
-- broke.
pub record Walked {ℓ} (T : Type ℓ) : Type ℓ where
  pub nodes : ℕ
  pub selected : List T
  pub stopped : Bool

unfoldable pub reached_bounds : Bool → Bool → List AttentionBound
reached_bounds commit_truncated stopped =
    (if commit_truncated then commit_bound ∷ [] else [])
    ++ (if stopped then node_bound ∷ [] else [])

unfoldable pub is_nonempty : List AttentionBound → Bool
is_nonempty [] = false
is_nonempty (b ∷ bs) = true

unfoldable pub reserve_fits : Option ℕ → ℕ → Result (Unit {0})
reserve_fits none reserved = ok tt
reserve_fits (some most) reserved =
    ensure (leb reserved most) "proposed message exceeds node attention limit"

module _ {ℓ} {T : Type ℓ} where
  -- `nodes += count` wraps around in a release build.
  unfoldable pub walk : Option ℕ → List (AttentionCandidate T) → ℕ → List T → Walked T
  walk limit [] nodes selected = record { nodes = nodes; selected = selected; stopped = false }
  walk limit (c ∷ rest) nodes selected = elim (exceeds limit nodes c.annotation_count) [
    | true ↦ record { nodes = nodes; selected = selected; stopped = true }
    | false ↦ walk limit rest ((nodes + c.annotation_count) % usize_mod) (selected ++ c.value ∷ [])
  ]

  -- The account that is returned with the reversed selection.
  unfoldable pub account : AttentionPolicy → Bool → Walked T → AttentionSelection T
  account policy commit_truncated w =
      let reached = reached_bounds commit_truncated w.stopped in
      record {
        selected = reverse w.selected;
        usage = record {
          commit_limit = as_i64 policy.commit_limit;
          node_limit = as_i64 policy.node_limit;
          selected_commits = length w.selected;
          selected_nodes = w.nodes;
          truncated = is_nonempty reached;
          reached = reached;
        };
      }

  unfoldable pub select_attention :
      List (AttentionCandidate T) → AttentionPolicy → ℕ → Bool → Result (AttentionSelection T)
  select_attention candidates policy reserved commit_truncated = do
    let limit = maximum policy.node_limit
    reserve_fits limit reserved
    ok (account policy commit_truncated (walk limit candidates reserved []))

-- What is left of the policy beside a proposed message (`history_policy_for_proposal`).
unfoldable pub remaining_limit : ℕ → ℕ → Result AttentionLimit
unfolding parse_limit
remaining_limit most proposed =
    if most == proposed
    then ok zero_limit
    else if leb (most - proposed) i64_max
    then parse_limit (pos (most - proposed)) "node"
    else err "out of range integral type conversion attempted"

unfoldable pub history_limit : Option ℕ → ℕ → Result AttentionLimit
unfolding remaining_limit
history_limit none proposed = ok unlimited
history_limit (some most) proposed = do
  ensure (leb proposed most) "proposed message exceeds node attention limit"
  remaining_limit most proposed

unfoldable pub history_policy_for_proposal : AttentionPolicy → ℕ → Result AttentionPolicy
unfolding history_limit
history_policy_for_proposal policy proposed = do
  node_limit ← history_limit (maximum policy.node_limit) proposed
  ok (record { commit_limit = policy.commit_limit; node_limit = node_limit })

-- A limit as `parse` makes it: positive, and within `i64`.
abbrev pub IsParsed : AttentionLimit → Type 0
IsParsed zero_limit = ⊥
IsParsed (limited value) = (0 < value) × (value ≤ i64_max)
IsParsed unlimited = Unit
