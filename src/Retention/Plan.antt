-- ===== src/Retention/Plan.antt =====
-- The plan is the shortest run of oldest eligible cohorts that brings the entries within the limit.
use zmem_cache.Common.{
  ℕ, ◌++◌, ◌<◌, ℤ, length, [], inl, ◌-◌, ◌≤◌, take, List, inr, Text, ap, leb, arith, text_le_total,
  ◌⊎◌, refl, Bool-cases, text_le_trans, ◌∷◌, true, map, ◌≡◌, ◌∷◌, pos, false, negsuc, zero, IsI64,
  suc, ◌^◌, sort_by, keep, sort_by-SortedBy, SortedBy, eq_ℤ, ◌||◌, ltb, sort_by-perm, Bool, ◌-ℤ◌,
  leb_ℤ, ◌%◌, Perm, subst, sym,
}
use zmem_cache.Retention.{
  entry_sum, tuple_le, Cohort, evict_rows, wrap_i64, trail_le, select_evictions, is_free,
  free_trails, TrailCohort, cohort_le, eligible_rows, is_eligible, RetentionPolicy,
  select_trail_evictions, EvictionPlan,
}

tuple_le_total :
    (t r : ℤ) (s : Text) (t' r' : ℤ) (s' : Text)
    → (tuple_le t r s t' r' s' ≡ true) ⊎ (tuple_le t' r' s' t r s ≡ true)
unfolding tuple_le
tuple_le_total t r s t' r' s' = ground (arith, text_le_total s s')

tuple_le_trans :
    (t r : ℤ) (s : Text) (t' r' : ℤ) (s' : Text) (t'' r'' : ℤ) (s'' : Text)
    → tuple_le t r s t' r' s' ≡ true
    → tuple_le t' r' s' t'' r'' s'' ≡ true
    → tuple_le t r s t'' r'' s'' ≡ true
unfolding tuple_le
tuple_le_trans t r s t' r' s' t'' r'' s'' h k = ground (arith, text_le_trans s s' s'')

abbrev target : Cohort → ℤ × Text
target row = (row.repo_id, row.oid)

abbrev is_old : ℤ → RetentionPolicy → Cohort → Bool
is_old now policy row =
    eq_ℤ policy.protect_recent_seconds (pos 0)
    || leb_ℤ row.commit_time (now -ℤ policy.protect_recent_seconds)

-- The rows that the loop takes and leaves: it stops as soon as the total fits.
record IsRun (max_entries total : ℕ) (rows : List Cohort) (out : List (ℤ × Text) × ℕ) : Type 0 where
  taken : List Cohort
  rest : List Cohort
  parts : rows ≡ taken ++ rest
  targets : out.0 ≡ map target taken
  left : out.1 ≡ total - entry_sum taken
  ends : (out.1 ≤ max_entries) ⊎ (rest ≡ [])
  needed : (n : ℕ) → n < length taken → max_entries < total - entry_sum (take n taken)

needed_more :
    (m total : ℕ) (row : Cohort) (taken : List Cohort)
    → leb total m ≡ false
    → ((n : ℕ) → n < length taken → m < (total - row.entries) - entry_sum (take n taken))
    → (n : ℕ) → n < suc (length taken)
    → m < total - entry_sum (take n (row ∷ taken))
unfolding entry_sum
needed_more m total row taken e h zero k = ground arith
needed_more m total row taken e h (suc n) k = omega (arith, h n (omega arith))

evict_rows-IsRun :
    (max_entries total : ℕ) (rows : List Cohort)
    → IsRun max_entries total rows (evict_rows max_entries total rows)
unfolding evict_rows entry_sum
evict_rows-IsRun m total [] = record {
  taken = [];
  rest = [];
  parts = refl;
  targets = refl;
  left = omega arith;
  ends = inr refl;
  needed = λ n h. absurd (omega arith);
}
evict_rows-IsRun m total (row ∷ rest) = elim (Bool-cases (leb total m)) [
  | inl e ↦ rw e (record {
    taken = [];
    rest = row ∷ rest;
    parts = refl;
    targets = refl;
    left = omega arith;
    ends = inl (ground arith);
    needed = λ n h. absurd (omega arith);
  })
  | inr e ↦
      let r = evict_rows-IsRun m (total - row.entries) rest in
      rw e (record {
        taken = row ∷ r.taken;
        rest = r.rest;
        parts = ap (◌∷◌ row) r.parts;
        targets = ap (◌∷◌ (target row)) r.targets;
        left = omega (arith, r.left);
        ends = r.ends;
        needed = needed_more m total row r.taken e r.needed;
      })
]

wrap_i64_self : (z : ℤ) → IsI64 z → wrap_i64 z ≡ z
unfolding wrap_i64
wrap_i64_self (pos n) h = ground arith
wrap_i64_self (negsuc n) h = ground arith

is_eligible_old :
    (now : ℤ) (policy : RetentionPolicy)
    → IsI64 (now -ℤ policy.protect_recent_seconds)
    → (rows : List Cohort) → keep (is_eligible now policy) rows ≡ keep (is_old now policy) rows
unfolding is_eligible
is_eligible_old now policy h rows =
    subst
      (λ z.
        keep (λ row. eq_ℤ policy.protect_recent_seconds (pos 0) || leb_ℤ row.commit_time z) rows
        ≡ keep (is_old now policy) rows)
      (sym (wrap_i64_self _ h)) refl

eligible_rows-perm :
    (rows : List Cohort) (now : ℤ) (policy : RetentionPolicy)
    → IsI64 (now -ℤ policy.protect_recent_seconds)
    → Perm (eligible_rows rows now policy) (keep (is_old now policy) rows)
unfolding eligible_rows
eligible_rows-perm rows now policy h =
    subst (Perm (sort_by cohort_le (keep (is_eligible now policy) rows)))
      (is_eligible_old now policy h rows)
      (sort_by-perm cohort_le (keep (is_eligible now policy) rows))

cohort_le_total : (a b : Cohort) → (cohort_le a b ≡ true) ⊎ (cohort_le b a ≡ true)
cohort_le_total a b = tuple_le_total a.commit_time a.repo_id a.oid b.commit_time b.repo_id b.oid

cohort_le_trans :
    (a b c : Cohort) → cohort_le a b ≡ true → cohort_le b c ≡ true → cohort_le a c ≡ true
cohort_le_trans a b c =
    tuple_le_trans a.commit_time a.repo_id a.oid b.commit_time b.repo_id b.oid c.commit_time
      c.repo_id c.oid

trail_le_total : (a b : TrailCohort) → (trail_le a b ≡ true) ⊎ (trail_le b a ≡ true)
trail_le_total a b =
    tuple_le_total a.source_time a.repository_id a.trail_id b.source_time b.repository_id b.trail_id

trail_le_trans :
    (a b c : TrailCohort) → trail_le a b ≡ true → trail_le b c ≡ true → trail_le a c ≡ true
trail_le_trans a b c =
    tuple_le_trans a.source_time a.repository_id a.trail_id b.source_time b.repository_id b.trail_id
      c.source_time c.repository_id c.trail_id

eligible_rows-SortedBy :
    (rows : List Cohort) (now : ℤ) (policy : RetentionPolicy)
    → SortedBy cohort_le (eligible_rows rows now policy)
unfolding eligible_rows
eligible_rows-SortedBy rows now policy =
    sort_by-SortedBy cohort_le cohort_le_total cohort_le_trans (keep (is_eligible now policy) rows)

-- What a plan promises: `taken` is a run of the oldest cohorts outside the protected window, oldest
-- first, `rest` are the others of these.
pub record IsPlan (rows : List Cohort) (now : ℤ) (policy : RetentionPolicy) (plan : EvictionPlan)
    : Type 0 where
  taken : List Cohort
  rest : List Cohort
  old_rows : Perm (taken ++ rest) (keep (is_old now policy) rows)
  oldest_first : SortedBy cohort_le (taken ++ rest)
  targets : plan.targets ≡ map target taken
  reports : plan.over_capacity ≡ ltb policy.max_entries (entry_sum rows - entry_sum taken)
  enough : (entry_sum rows - entry_sum taken ≤ policy.max_entries) ⊎ (rest ≡ [])
  needed :
      (n : ℕ) → n < length taken → policy.max_entries < entry_sum rows - entry_sum (take n taken)

-- For rows whose entries add up below 2^64 and a protected window whose start fits an `i64`, the
-- targets of `select_evictions` are the oldest cohorts outside the window, in order of time,
-- repository and oid; they stop as soon as the entries that are left fit the limit and not before,
-- or all such cohorts are taken; and `over_capacity` says whether what is left exceeds the limit.
pub select_evictions-IsPlan :
    (rows : List Cohort) (now : ℤ) (policy : RetentionPolicy)
    → entry_sum rows < 2 ^ 64
    → IsI64 (now -ℤ policy.protect_recent_seconds)
    → IsPlan rows now policy (select_evictions rows now policy)
unfolding select_evictions
select_evictions-IsPlan rows now policy h k =
    let e : entry_sum rows % 2 ^ 64 ≡ entry_sum rows = omega (arith, h) in
    let sorted = eligible_rows-SortedBy rows now policy in
    let perm = eligible_rows-perm rows now policy k in
    let r = evict_rows-IsRun policy.max_entries (entry_sum rows) (eligible_rows rows now policy) in
    rw e (record {
      taken = r.taken;
      rest = r.rest;
      old_rows = subst (λ xs. Perm xs (keep (is_old now policy) rows)) r.parts perm;
      oldest_first = subst (SortedBy cohort_le) r.parts sorted;
      targets = r.targets;
      reports = ap (ltb policy.max_entries) r.left;
      enough = rw r.left at r.ends;
      needed = r.needed;
    })

-- `select_trail_evictions` lists exactly the trails that are neither referenced nor protected, each
-- as often as the input holds it, in order of source time, repository and name.
select_trail_evictions_lem :
    (rows : List TrailCohort)
    → (out : List TrailCohort) × Perm out (keep is_free rows)
      × SortedBy trail_le out
      × (select_trail_evictions rows ≡ map (λ row. row.trail_id) out)
unfolding select_trail_evictions free_trails
select_trail_evictions_lem rows = (
  free_trails rows,
  sort_by-perm trail_le (keep is_free rows),
  sort_by-SortedBy trail_le trail_le_total trail_le_trans (keep is_free rows),
  refl,
)
