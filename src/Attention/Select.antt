-- ===== src/Attention/Select.antt =====
-- What `select_attention` selects, and how a proposed message shares the budget.
use zmem_cache.Common.{
  List, Option, ℕ, Bool, ◌∷◌, ◌+◌, some, false, ◌≡◌, sym, ◌<◌, ◌≤◌, true, ◌++◌, ◌%◌, append-nil,
  map, arith, Bool-cases, inl, inr, refl, [], none, append_assoc, ap, ◌∙◌, ◌↔◌, length, ok,
  bind_parts, reverse, length-map, subst,
}
use zmem_cache.Attention.{
  i64_max, AttentionCandidate, usize_mod, walk, Walked, exceeds, maximum, select_attention,
  AttentionSelection, reached_bounds, reserve_fits, is_nonempty, AttentionPolicy, account,
}

pub total {ℓ} : {T : Type ℓ} → List (AttentionCandidate T) → ℕ
total [] = 0
total (c ∷ cs) = c.annotation_count + total cs

-- A node budget as policies have it, or room in a usize for all the nodes.
abbrev pub IsSafe {ℓ} : {T : Type ℓ} → Option ℕ → ℕ → List (AttentionCandidate T) → Type 0
IsSafe none nodes cs = nodes + total cs < usize_mod
IsSafe (some m) nodes cs = m ≤ i64_max

abbrev pub Within : Option ℕ → ℕ → Type 0
Within none nodes = Unit
Within (some m) nodes = nodes ≤ m

-- The next candidate, if there is one, does not fit.
abbrev pub Blocks {ℓ} : {T : Type ℓ} → Option ℕ → ℕ → List (AttentionCandidate T) → Type 0
Blocks limit nodes [] = Unit
Blocks none nodes (c ∷ rest) = ⊥
Blocks (some m) nodes (c ∷ rest) = m < nodes + c.annotation_count

abbrev is_cons {ℓ} : {A : Type ℓ} → List A → Bool
is_cons [] = false
is_cons (x ∷ xs) = true

-- The outcome of the loop, by the candidates that it took and those that it left.
record IsWalk {ℓ} {T : Type ℓ} (limit : Option ℕ) (cs : List (AttentionCandidate T)) (nodes : ℕ)
    (acc : List T) (w : Walked T) (taken rest : List (AttentionCandidate T)) : Type ℓ where
  parts : cs ≡ taken ++ rest
  values : w.selected ≡ acc ++ map (λ c. c.value) taken
  counted : w.nodes ≡ nodes + total taken
  within : Within limit w.nodes
  blocked : Blocks limit w.nodes rest
  stops : w.stopped ≡ is_cons rest

module _ {ℓ} {T : Type ℓ} where
  step_fits :
      (limit : Option ℕ) (c : AttentionCandidate T) (rest : List (AttentionCandidate T)) (nodes : ℕ)
      → IsSafe limit nodes (c ∷ rest)
      → Within limit nodes
      → exceeds limit nodes c.annotation_count ≡ false
      → ((nodes + c.annotation_count) % usize_mod ≡ nodes + c.annotation_count)
        × Within limit (nodes + c.annotation_count)
        × IsSafe limit (nodes + c.annotation_count) rest
  unfolding exceeds total
  step_fits none c rest nodes s w e = ground arith
  step_fits (some m) c rest nodes s w e = ground arith

  step-Blocks :
      (limit : Option ℕ) (c : AttentionCandidate T) (rest : List (AttentionCandidate T)) (nodes : ℕ)
      → exceeds limit nodes c.annotation_count ≡ true
      → Blocks limit nodes (c ∷ rest)
  unfolding exceeds
  step-Blocks none c rest nodes e = absurd (ground arith)
  step-Blocks (some m) c rest nodes e = ground arith

  walk-IsWalk :
      (limit : Option ℕ) (cs : List (AttentionCandidate T)) (nodes : ℕ) (acc : List T)
      → IsSafe limit nodes cs
      → Within limit nodes
      → (taken rest : List (AttentionCandidate T)) × IsWalk limit cs nodes acc
          (walk limit cs nodes acc)
          taken
          rest
  unfolding walk total
  walk-IsWalk limit [] nodes acc s w = (
    [],
    [],
    record {
      parts = refl;
      values = sym (append-nil acc);
      counted = omega arith;
      within = w;
      blocked = tt;
      stops = refl;
    },
  )
  walk-IsWalk limit (c ∷ cs) nodes acc s w =
      elim (Bool-cases (exceeds limit nodes c.annotation_count)) [
        | inl e ↦ (
          [],
          c ∷ cs,
          rw (e, walk)
              (record {
                parts = refl;
                values = sym (append-nil acc);
                counted = omega arith;
                within = w;
                blocked = step-Blocks limit c cs nodes e;
                stops = refl;
              }),
        )
        | inr e ↦
            let (small, w', s') = step_fits limit c cs nodes s w e in
            let (taken, rest, i) =
              walk-IsWalk limit cs (nodes + c.annotation_count) (acc ++ c.value ∷ []) s' w' in
            (
              c ∷ taken,
              rest,
              rw (e, walk, small)
                  (record {
                    parts = ap (◌∷◌ c) i.parts;
                    values = i.values ∙ append_assoc acc (c.value ∷ []) (map (λ c. c.value) taken);
                    counted = omega (arith, i.counted);
                    within = i.within;
                    blocked = i.blocked;
                    stops = i.stops;
                  }),
            )
      ]

-- What was selected, by the candidates that were taken and those that were left.
pub record IsSelection {ℓ} {T : Type ℓ} (cs : List (AttentionCandidate T))
    (policy : AttentionPolicy) (reserved : ℕ) (commit_truncated : Bool) (s : AttentionSelection T)
    (taken rest : List (AttentionCandidate T)) : Type ℓ where
  pub parts : cs ≡ taken ++ rest
  pub oldest_first : s.selected ≡ reverse (map (λ c. c.value) taken)
  pub nodes : s.usage.selected_nodes ≡ reserved + total taken
  pub commits : s.usage.selected_commits ≡ length taken
  pub budget : Within (maximum policy.node_limit) s.usage.selected_nodes
  pub longest : Blocks (maximum policy.node_limit) s.usage.selected_nodes rest
  pub whole : (s.usage.truncated ≡ false) ↔ ((commit_truncated ≡ false) × (rest ≡ []))
  pub bounds : s.usage.reached ≡ reached_bounds commit_truncated (is_cons rest)

reserve_within :
    (limit : Option ℕ) (reserved : ℕ) → reserve_fits limit reserved ≡ ok tt → Within limit reserved
unfolding reserve_fits
reserve_within none reserved h = tt
reserve_within (some m) reserved h = ground arith

pub within_reserve :
    (limit : Option ℕ) (reserved : ℕ) → Within limit reserved → reserve_fits limit reserved ≡ ok tt
unfolding reserve_fits
within_reserve none reserved h = refl
within_reserve (some m) reserved h = ground arith

module _ {ℓ} {T : Type ℓ} where
  untruncated :
      (commit_truncated : Bool) (rest : List (AttentionCandidate T))
      → (is_nonempty (reached_bounds commit_truncated (is_cons rest)) ≡ false)
        ↔ ((commit_truncated ≡ false) × (rest ≡ []))
  unfolding is_nonempty reached_bounds
  untruncated true rest = (λ h. absurd (ground arith), λ h. absurd (ground arith))
  untruncated false [] = (λ h. (refl, refl), λ h. refl)
  untruncated false (c ∷ rest) = (λ h. absurd (ground arith), λ h. absurd (ground arith))

  account-IsSelection :
      (cs : List (AttentionCandidate T)) (policy : AttentionPolicy) (reserved : ℕ) (b : Bool)
      (w : Walked T) (taken rest : List (AttentionCandidate T))
      → IsWalk (maximum policy.node_limit) cs reserved [] w taken rest
      → IsSelection cs policy reserved b (account policy b w) taken rest
  unfolding account
  account-IsSelection cs policy reserved b w taken rest i = record {
    parts = i.parts;
    oldest_first = ap reverse i.values;
    nodes = i.counted;
    commits = ap length i.values ∙ length-map (λ c. c.value) taken;
    budget = i.within;
    longest = i.blocked;
    whole = rw i.stops (untruncated b rest);
    bounds = ap (reached_bounds b) i.stops;
  }

  -- A selection succeeds exactly when the reserved nodes fit the node limit.
  select_attention_iff :
      (cs : List (AttentionCandidate T)) (policy : AttentionPolicy) (reserved : ℕ) (b : Bool)
      → ((s : AttentionSelection T) × (select_attention cs policy reserved b ≡ ok s))
        ↔ Within (maximum policy.node_limit) reserved
  unfolding select_attention
  select_attention_iff cs policy reserved b = (
    λ (s, h).
        let (u, e, _) = bind_parts (reserve_fits (maximum policy.node_limit) reserved) _ h in
        reserve_within (maximum policy.node_limit) reserved e,
    λ w. (
      account policy b (walk (maximum policy.node_limit) cs reserved []),
      rw (within_reserve (maximum policy.node_limit) reserved w),
    ),
  )

  -- With a node limit within i64, or without one when all nodes add up below 2^64, a selection that
  -- is made is the longest run of newest candidates that fits the node budget beside the reserved
  -- nodes, oldest first, with an exact account: its commits and nodes, and truncation reported
  -- exactly when commits were cut off before or a candidate was left.
  pub select_attention_longest :
      (cs : List (AttentionCandidate T)) (policy : AttentionPolicy) (reserved : ℕ) (b : Bool)
      {s : AttentionSelection T}
      → IsSafe (maximum policy.node_limit) reserved cs
      → select_attention cs policy reserved b ≡ ok s
      → (taken rest : List (AttentionCandidate T)) × IsSelection cs policy reserved b s taken rest
  unfolding select_attention
  select_attention_longest cs policy reserved b {s} safe h =
      let limit = maximum policy.node_limit in
      let (u, e, h') = bind_parts (reserve_fits limit reserved) _ h in
      let (taken, rest, i) =
        walk-IsWalk limit cs reserved [] safe (reserve_within limit reserved e) in
      let same : account policy b (walk limit cs reserved []) ≡ s = ground arith in
      (
        taken,
        rest,
        subst (λ x. IsSelection cs policy reserved b x taken rest) same
            (account-IsSelection cs policy reserved b _ taken rest i),
      )
