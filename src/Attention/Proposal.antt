-- ===== src/Attention/Proposal.antt =====
-- How a proposed message shares the node budget with the history.
use zmem_cache.Attention.Limits.{WithinI64}
use zmem_cache.Attention.Select.{within_reserve}
use zmem_cache.Common.{
  Option, none, sym, ◌-◌, false, inr, ensure, ◌%◌, ap, subst, arith, bind_parts, refl, Bool, some,
  ok, ◌+◌, inl, ℕ, ◌++◌, ◌∙◌, ◌≡◌, Bool-cases, leb, [], reverse, ◌∷◌, List, true, ◌≤◌,
}
use zmem_cache.Attention.{
  remaining_limit, history_limit, AttentionCandidate, parse_limit, select_attention, maximum,
  account, usize_mod, i64_max, walk, AttentionSelection, exceeds, AttentionLimit, reached_bounds,
  AttentionPolicy, reserve_fits, history_policy_for_proposal,
}

-- The loop with the proposal's nodes counted in, and with the budget reduced by them.
module _ {ℓ} {T : Type ℓ} where
  walk_shift :
      (m k : ℕ) (cs : List (AttentionCandidate T)) (n : ℕ) (acc : List T)
      → m ≤ i64_max
      → k + n ≤ m
      → ((walk (some m) cs (k + n) acc).selected ≡ (walk (some (m - k)) cs n acc).selected)
        × ((walk (some m) cs (k + n) acc).stopped ≡ (walk (some (m - k)) cs n acc).stopped)
  unfolding walk
  walk_shift m k [] n acc h le = (refl, refl)
  walk_shift m k (c ∷ cs) n acc h le =
      elim (Bool-cases (exceeds (some m) (k + n) c.annotation_count)) [
        | inl e ↦
            let e' : exceeds (some (m - k)) n c.annotation_count ≡ true =
              unfold exceeds in ground arith in
            rw (e, e', walk) (refl, refl)
        | inr e ↦
            let e' : exceeds (some (m - k)) n c.annotation_count ≡ false =
              unfold exceeds in ground arith in
            let fits : k + n + c.annotation_count ≤ m = unfold exceeds in ground arith in
            let small : (k + n + c.annotation_count) % usize_mod ≡ k + (n + c.annotation_count) =
              omega arith in
            let small' : (n + c.annotation_count) % usize_mod ≡ n + c.annotation_count =
              omega arith in
            rw (e, e', walk, small, small')
              (walk_shift m k cs (n + c.annotation_count) (acc ++ c.value ∷ []) h (omega arith))
      ]

  walk_unlimited :
      (k : ℕ) (cs : List (AttentionCandidate T)) (n n' : ℕ) (acc : List T)
      → ((walk none cs n acc).selected ≡ (walk none cs n' acc).selected)
        × ((walk none cs n acc).stopped ≡ (walk none cs n' acc).stopped)
  unfolding walk exceeds
  walk_unlimited k [] n n' acc = (refl, refl)
  walk_unlimited k (c ∷ cs) n n' acc = walk_unlimited k cs _ _ (acc ++ c.value ∷ [])

remaining_limit-maximum :
    (m k : ℕ) {l : AttentionLimit} → k ≤ m → remaining_limit m k ≡ ok l → maximum l ≡ some (m - k)
unfolding remaining_limit maximum parse_limit
remaining_limit-maximum m k {l} le h = ground arith

-- The budget that is left beside `k` nodes.
abbrev Reduced : Option ℕ → ℕ → Option ℕ → Type 0
Reduced none k o = o ≡ none
Reduced (some m) k o = (k ≤ m) × (o ≡ some (m - k))

history_limit-Reduced :
    (limit : Option ℕ) (k : ℕ) {l : AttentionLimit}
    → history_limit limit k ≡ ok l
    → Reduced limit k (maximum l)
unfolding history_limit
history_limit-Reduced none k h = unfold maximum in ground arith
history_limit-Reduced (some m) k {l} h =
    let (u, e, h') = bind_parts (ensure (leb k m) _) _ h in
    let le : k ≤ m = ground arith in (le, remaining_limit-maximum m k le h')

module _ {ℓ} {T : Type ℓ} where
  walk-Reduced :
      (limit o : Option ℕ) (k : ℕ) (cs : List (AttentionCandidate T))
      → WithinI64 limit
      → Reduced limit k o
      → (reserve_fits limit k ≡ ok tt)
        × ((walk limit cs k []).selected ≡ (walk o cs 0 []).selected)
        × ((walk limit cs k []).stopped ≡ (walk o cs 0 []).stopped)
  walk-Reduced none o k cs i r =
      let (same, stop) = walk_unlimited k cs k 0 [] in
      rw r (unfold reserve_fits in refl, same, stop)
  walk-Reduced (some m) o k cs i r =
      let (same, stop) = walk_shift m k cs 0 [] i (omega arith) in
      let plain : k + 0 ≡ k = omega arith in
      rw r.1 (
        within_reserve (some m) k r.0,
        ap (λ x. (walk (some m) cs x []).selected) (sym plain) ∙ same,
        ap (λ x. (walk (some m) cs x []).stopped) (sym plain) ∙ stop,
      )

  -- Checking a proposed message: selecting history under the policy that
  -- `history_policy_for_proposal` leaves selects what the whole policy, with a node limit within
  -- i64, selects with the proposal's nodes reserved, and reports the same bounds as reached.
  pub select-history_policy :
      (cs : List (AttentionCandidate T)) (policy history : AttentionPolicy) (proposed : ℕ)
      (b : Bool) {s : AttentionSelection T}
      → WithinI64 (maximum policy.node_limit)
      → history_policy_for_proposal policy proposed ≡ ok history
      → select_attention cs history 0 b ≡ ok s
      → (s' : AttentionSelection T) × (select_attention cs policy proposed b ≡ ok s')
        × (s'.selected ≡ s.selected)
        × (s'.usage.reached ≡ s.usage.reached)
  unfolding select_attention history_policy_for_proposal account
  select-history_policy cs policy history proposed b {s} fits h k =
      let limit = maximum policy.node_limit in
      let (l, e, h') = bind_parts (history_limit limit proposed) _ h in
      let same_limit : l ≡ history.node_limit = ground arith in
      let reduced : Reduced limit proposed (maximum history.node_limit) =
        subst (λ x. Reduced limit proposed (maximum x)) same_limit
          (history_limit-Reduced limit proposed e) in
      let (fit, same, stop) =
        walk-Reduced limit (maximum history.node_limit) proposed cs fits reduced in
      let (u, _, k') = bind_parts (reserve_fits (maximum history.node_limit) 0) _ k in
      let selection : account history b (walk (maximum history.node_limit) cs 0 []) ≡ s =
        ground arith in
      (
        account policy b (walk limit cs proposed []),
        rw fit,
        ap reverse same ∙ ap (λ x. x.selected) selection,
        ap (reached_bounds b) stop ∙ ap (λ x. x.usage.reached) selection,
      )
