-- ===== src/Attention/Tests.antt =====
-- The theorems of the attention limits and the selection at concrete inputs.
use zmem_cache.Attention.Select.{select_attention_longest, IsSelection}
use zmem_cache.Attention.Proposal.{select-history_policy}
use zmem_cache.Common.{pos, false, ◌≡◌, ℕ, refl, List, arith, ok, ◌∷◌, [], ℤ, true}
use zmem_cache.Attention.{
  as_i64, limited, maximum, AttentionSelection, AttentionPolicy, parse_limit, AttentionCandidate,
  try_usize, select_attention, reached_bounds, remaining_limit, history_policy_for_proposal,
  is_nonempty, reserve_fits, account, exceeds, node_bound, walk, history_limit,
}

abbrev candidate : ℕ → ℕ → AttentionCandidate ℕ
candidate value annotations = record { value = value; annotation_count = annotations }

-- The newest commit first; the third does not fit ten nodes.
abbrev history : List (AttentionCandidate ℕ)
history = candidate 3 4 ∷ candidate 2 3 ∷ candidate 1 9 ∷ []

abbrev ten_nodes : AttentionPolicy
ten_nodes = record { commit_limit = limited 500; node_limit = limited 10 }

abbrev eight_nodes : AttentionPolicy
eight_nodes = record { commit_limit = limited 500; node_limit = limited 8 }

-- The two newest commits, under this node limit and with this many nodes counted.
abbrev chosen : ℤ → ℕ → AttentionSelection ℕ
chosen node_limit nodes = record {
  selected = 2 ∷ 3 ∷ [];
  usage = record {
    commit_limit = pos 500;
    node_limit = node_limit;
    selected_commits = 2;
    selected_nodes = nodes;
    truncated = true;
    reached = node_bound ∷ [];
  };
}

select_attention_longest_example :
    (taken rest : List (AttentionCandidate ℕ)) × IsSelection history ten_nodes 2 false
      (chosen (pos 10) 9)
      taken
      rest
unfolding select_attention reserve_fits walk account exceeds as_i64 maximum reached_bounds
    is_nonempty
select_attention_longest_example =
    select_attention_longest history ten_nodes 2 false (omega arith) refl

select-history_policy_example :
    (s' : AttentionSelection ℕ) × (select_attention history ten_nodes 2 false ≡ ok s')
    × (s'.selected ≡ 2 ∷ 3 ∷ [])
    × (s'.usage.reached ≡ node_bound ∷ [])
unfolding select_attention reserve_fits walk account exceeds as_i64 maximum reached_bounds
    is_nonempty history_policy_for_proposal history_limit remaining_limit parse_limit try_usize
select-history_policy_example =
    select-history_policy history ten_nodes eight_nodes 2 false {s = chosen (pos 8) 7} (omega arith)
      refl refl
