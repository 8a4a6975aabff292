-- ===== src/Retention/Finalize.antt =====
-- The end of a publication: `Finalization` and `finalize_store` of crates/zmem-svc/src/lib.rs, with
-- the store's operations as parameters. Each leaves a store, and answers or fails.
use zmem_cache.Common.{
  if◌then◌else◌, List, insert, ok, if◌then◌else◌, lookup, ◌^◌, Bool, ℕ, ◌||◌, if◌then◌else◌, ℤ, ◌%◌,
  err, [], none, text_eq, ◌∷◌, Text, some, Option, ◌+◌, leb, ◌-◌, Result, ltb, text_Eq,
}
use zmem_cache.Retention.{
  EvictionPlan, Cohort, select_trail_evictions, select_evictions, TrailCohort,
}

pub record Finalization : Type 0 where
  pub repo_id : ℤ
  pub alias : Option Text
  pub active_trail_id : Text
  pub head : Text
  pub now : ℤ
  pub protect_recent_seconds : ℤ
  pub max_entries : ℕ

pub record FinalOps (S : Type 0) : Type 0 where
  pub set_ref_alias : ℤ → Text → Text → Text → S → S × Result (Unit {0})
  pub trail_cohorts : ℤ → ℤ → S → Result (List TrailCohort)
  pub evict_trails : List Text → S → S × Result (Unit {0})
  pub cohorts : S → Result (List Cohort)
  pub evict : EvictionPlan → S → S × Result (Unit {0})

pub trail_sum : List TrailCohort → ℕ
trail_sum [] = 0
trail_sum (row ∷ rows) = row.entries + trail_sum rows

-- The sizes by trail, after all rows in order.
unfoldable pub collect_sizes : List (Text × ℕ) → List TrailCohort → List (Text × ℕ)
collect_sizes found [] = found
collect_sizes found (row ∷ rows) = collect_sizes (insert row.trail_id row.entries found) rows

-- The loop over the trails that may go: those evicted and the total that is left, or none where a
-- trail has no size and the index panics.
abbrev pub with_trail : Text → Option (List Text × ℕ) → Option (List Text × ℕ)
with_trail trail none = none
with_trail trail (some (evicted, total)) = some (trail ∷ evicted, total)

abbrev pub sized : Option ℕ → (ℕ → Option (List Text × ℕ)) → Option (List Text × ℕ)
sized none next = none
sized (some entries) next = next entries

unfoldable pub pick_trails : ℕ → Text → List (Text × ℕ) → ℕ → List Text → Option (List Text × ℕ)
pick_trails max_entries active sizes total [] = some ([], total)
pick_trails max_entries active sizes total (trail ∷ rest) =
    if leb total max_entries
    then some ([], total)
    else if text_eq trail active
    then pick_trails max_entries active sizes total rest
    else sized (lookup trail sizes)
        λ entries. with_trail trail (pick_trails max_entries active sizes (total - entries) rest)

module _ {S : Type 0} (ops : FinalOps S) where
  abbrev pub alias_step : Finalization → Option Text → S → S × Result (Unit {0})
  alias_step request none s = (s, ok tt)
  alias_step request (some selector) s =
      ops.set_ref_alias request.repo_id selector request.active_trail_id request.head s

  abbrev pub after_plan : Bool → EvictionPlan → S × Result (Unit {0}) → S × Result Bool
  after_plan over plan (s, err reason) = (s, err reason)
  after_plan over plan (s, ok u) = (s, ok (over || plan.over_capacity))

  abbrev pub plan_step : Finalization → ℕ → S → Result (List Cohort) → S × Result Bool
  plan_step request total s (err reason) = (s, err reason)
  plan_step request total s (ok rows) =
      let plan = select_evictions rows request.now (record {
        max_entries = request.max_entries;
        protect_recent_seconds = request.protect_recent_seconds;
      }) in
      after_plan (ltb request.max_entries total) plan (ops.evict plan s)

  abbrev pub evict_step : Finalization → ℕ → S × Result (Unit {0}) → S × Result Bool
  evict_step request total (s, err reason) = (s, err reason)
  evict_step request total (s, ok u) = plan_step request total s (ops.cohorts s)

  abbrev pub picked_step : Finalization → S → Option (List Text × ℕ) → S × Result Bool
  picked_step request s none = (s, err "no entry found for key")
  picked_step request s (some (evicted, total)) =
      evict_step request total (ops.evict_trails evicted s)

  abbrev pub trail_step : Finalization → S → Result (List TrailCohort) → S × Result Bool
  trail_step request s (err reason) = (s, err reason)
  trail_step request s (ok rows) = picked_step request s (
      pick_trails request.max_entries request.active_trail_id (collect_sizes [] rows)
        (trail_sum rows % 2 ^ 64) (select_trail_evictions rows))

  abbrev pub aliased_step : Finalization → S × Result (Unit {0}) → S × Result Bool
  aliased_step request (s, err reason) = (s, err reason)
  aliased_step request (s, ok u) =
      trail_step request s (ops.trail_cohorts request.now request.protect_recent_seconds s)

  unfoldable pub finalize_store : Finalization → S → S × Result Bool
  finalize_store request s = aliased_step request (alias_step request request.alias s)
