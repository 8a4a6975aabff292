-- ===== src/Retention/Tests.antt =====
-- The eviction plans at concrete rows.
use zmem_cache.Retention.Plan.{select_evictions-IsPlan, IsPlan}
use zmem_cache.Retention.{
  TrailCohort, select_trail_evictions, Cohort, select_evictions, RetentionPolicy, entry_sum,
}
use zmem_cache.Common.{
  false, ◌≡◌, List, pos, arith, codes, ◌-ℤ◌, true, ◌∷◌, [], ℕ, Bool, any, if◌then◌else◌, text_eq,
  err, ◌++◌, Result, Text, ok, refl, some, if◌then◌else◌, All, if◌then◌else◌,
}
use zmem_cache.Retention.Finalize.{
  pick_trails, FinalOps, Finalization, finalize_store, collect_sizes,
}
use zmem_cache.Retention.Picked.{finalize_store_active, IsPicked, pick_trails-IsPicked, size_in}

abbrev cohort : ℕ → ℕ → Cohort
cohort time entries = record {
  repo_id = pos 1;
  oid = codes "a1";
  commit_time = pos time;
  entries = entries;
}

abbrev rows : List Cohort
rows = cohort 300 40 ∷ cohort 100 30 ∷ cohort 990 50 ∷ []

abbrev policy : RetentionPolicy
policy = record { max_entries = 60; protect_recent_seconds = pos 100 }

select_evictions-IsPlan_example :
    IsPlan rows (pos 1000) policy (select_evictions rows (pos 1000) policy)
unfolding ◌-ℤ◌
select_evictions-IsPlan_example =
    select_evictions-IsPlan rows (pos 1000) policy (unfold entry_sum in omega arith) (omega arith)

abbrev trail_cohort : ℕ → Bool → TrailCohort
trail_cohort time referenced = record {
  repository_id = pos 1;
  trail_id = codes "t";
  source_time = pos time;
  referenced = referenced;
  protected = false;
  entries = 4;
}

abbrev trails : List TrailCohort
trails = trail_cohort 9 false ∷ trail_cohort 5 true ∷ trail_cohort 7 false ∷ []

abbrev named_trail : ℕ → ℕ → TrailCohort
named_trail name entries = record {
  repository_id = pos 1;
  trail_id = name ∷ [];
  source_time = pos name;
  referenced = false;
  protected = false;
  entries = entries;
}

-- The first one is active.
abbrev three_trails : List TrailCohort
three_trails = named_trail 1 30 ∷ named_trail 2 40 ∷ named_trail 3 50 ∷ []

pick_trails-IsPicked_example :
    (out : List Text × ℕ) × (pick_trails 80
        (1 ∷ [])
        (collect_sizes [] three_trails)
        120
        (select_trail_evictions three_trails)
      ≡ some out)
    × IsPicked (size_in three_trails) 80 (1 ∷ []) 120 (select_trail_evictions three_trails) out
pick_trails-IsPicked_example = pick_trails-IsPicked 80 (1 ∷ []) 120 three_trails

-- A store is the list of what it has evicted.
abbrev evicts : List Text → List Text → List Text × Result (Unit {0})
evicts trails s = (trails ++ s, ok tt)

-- The same, but the active trail is a failure.
abbrev guarded : List Text → List Text → List Text × Result (Unit {0})
guarded trails s =
    if any (λ t. text_eq t (1 ∷ [])) trails then (s, err "active") else evicts trails s

abbrev store_ops : FinalOps (List Text)
store_ops = record {
  set_ref_alias = λ repo_id selector trail head s. (s, ok tt);
  trail_cohorts = λ now protect_recent s. ok three_trails;
  evict_trails = evicts;
  cohorts = λ s. ok rows;
  evict = λ plan s. (s, ok tt);
}

abbrev request : Finalization
request = record {
  repo_id = pos 1;
  alias = some (codes "main");
  active_trail_id = 1 ∷ [];
  head = codes "c3";
  now = pos 1000;
  protect_recent_seconds = pos 100;
  max_entries = 80;
}

guarded_lem :
    (trails : List Text)
    → All (λ t. text_eq t (1 ∷ []) ≡ false) trails
    → any (λ t. text_eq t (1 ∷ [])) trails ≡ false
guarded_lem [] h = refl
guarded_lem (t ∷ ts) h = rw (h.0, guarded_lem ts h.1) refl

finalize_store_active_example :
    finalize_store store_ops request []
    ≡ finalize_store (record store_ops { evict_trails = guarded }) request []
finalize_store_active_example =
    finalize_store_active store_ops request guarded (λ trails h s. rw (guarded_lem trails h) refl)
      []
