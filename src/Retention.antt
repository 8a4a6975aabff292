-- ===== src/Retention.antt =====
-- What retention evicts: `select_evictions` and `select_trail_evictions` of
-- crates/zmem-store/src/lib.rs. A u64 sum and an i64 difference wrap around as in a release build.
pub mod Plan
pub mod Finalize
pub mod Picked
pub mod Tests
use zmem_cache.Common.{
  neg_part, ℕ, ◌^◌, ◌&&◌, ℤ, [], pos, pos_part, ◌-◌, leb_ℤ, keep, ◌+◌, List, negsuc, if◌then◌else◌,
  Text, if◌then◌else◌, if◌then◌else◌, text_le, ◌-ℤ◌, leb, not, ◌||◌, eq_ℤ, ltb, ◌%◌, Bool, sort_by,
  map, ◌∷◌,
}

pub record Cohort : Type 0 where
  pub repo_id : ℤ
  pub oid : Text
  pub commit_time : ℤ
  pub entries : ℕ

pub record RetentionPolicy : Type 0 where
  pub max_entries : ℕ
  pub protect_recent_seconds : ℤ

pub record EvictionPlan : Type 0 where
  pub targets : List (ℤ × Text)
  pub over_capacity : Bool

pub record TrailCohort : Type 0 where
  pub repository_id : ℤ
  pub trail_id : Text
  pub source_time : ℤ
  pub referenced : Bool
  pub protected : Bool
  pub entries : ℕ

abbrev pub u64_mod : ℕ
u64_mod = 2 ^ 64

-- The i64 with the same bits.
unfoldable pub wrap_i64 : ℤ → ℤ
wrap_i64 z =
    let bits = (pos_part z + (u64_mod - neg_part z % u64_mod)) % u64_mod in
    if ltb bits (2 ^ 63) then pos bits else negsuc (u64_mod - 1 - bits)

abbrev pub ltb_ℤ : ℤ → ℤ → Bool
ltb_ℤ a b = not (leb_ℤ b a)

-- The order of tuples (time, repository, name).
unfoldable pub tuple_le : ℤ → ℤ → Text → ℤ → ℤ → Text → Bool
tuple_le t r s t' r' s' = ltb_ℤ t t' || (eq_ℤ t t' && (ltb_ℤ r r' || (eq_ℤ r r' && text_le s s')))

abbrev pub cohort_le : Cohort → Cohort → Bool
cohort_le a b = tuple_le a.commit_time a.repo_id a.oid b.commit_time b.repo_id b.oid

abbrev pub trail_le : TrailCohort → TrailCohort → Bool
trail_le a b =
    tuple_le a.source_time a.repository_id a.trail_id b.source_time b.repository_id b.trail_id

abbrev pub is_free : TrailCohort → Bool
is_free row = not row.referenced && not row.protected

-- The trails that may go, in the order they go.
unfoldable pub free_trails : List TrailCohort → List TrailCohort
free_trails rows = sort_by trail_le (keep is_free rows)

unfoldable pub select_trail_evictions : List TrailCohort → List Text
unfolding free_trails
select_trail_evictions rows = map (λ row. row.trail_id) (free_trails rows)

unfoldable pub is_eligible : ℤ → RetentionPolicy → Cohort → Bool
is_eligible now policy row =
    eq_ℤ policy.protect_recent_seconds (pos 0)
    || leb_ℤ row.commit_time (wrap_i64 (now -ℤ policy.protect_recent_seconds))

unfoldable pub eligible_rows : List Cohort → ℤ → RetentionPolicy → List Cohort
eligible_rows rows now policy = sort_by cohort_le (keep (is_eligible now policy) rows)

pub entry_sum : List Cohort → ℕ
entry_sum [] = 0
entry_sum (row ∷ rows) = row.entries + entry_sum rows

-- The loop over the eligible rows: its targets, and the total that is left.
unfoldable pub evict_rows : ℕ → ℕ → List Cohort → List (ℤ × Text) × ℕ
evict_rows max_entries total [] = ([], total)
evict_rows max_entries total (row ∷ rest) =
    let (targets, left) = evict_rows max_entries (total - row.entries) rest in
    if leb total max_entries then ([], total) else ((row.repo_id, row.oid) ∷ targets, left)

unfoldable pub select_evictions : List Cohort → ℤ → RetentionPolicy → EvictionPlan
select_evictions rows now policy =
    let (targets, left) =
      evict_rows policy.max_entries (entry_sum rows % u64_mod) (eligible_rows rows now policy) in
    record { targets = targets; over_capacity = ltb policy.max_entries left }
