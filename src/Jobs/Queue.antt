-- ===== src/Jobs/Queue.antt =====
-- The coordinator's invariant: every key that waits in `ready_keys` has a job, which is queued;
-- every key that a worker holds has a job, which is running; no key waits or is held twice; at most
-- thirty-two wait; the map has one entry for each key; and the demand counter counts both.
use zmem_cache.Common.{
  ◌≢◌, lookup-update, ◌<◌, Option, Unique-insert, All-append, false, insert, length-append, remove,
  All, lookup, All-imp, Unique-remove, ◌≤◌, some, ◌≡◌, Bool-cases, subst, inl, length, true, List,
  lookup-insert, ◌++◌, lookup-remove, sym, update, Unique, [], ◌≡◌, ◌∷◌, none, inr, arith,
  Unique-update, ◌=?◌, lookup-cons_ne, ◌∙◌, ◌⊎◌, ◌+◌, refl,
}
use zmem_cache.Jobs.{
  Ident, IndexJob, JobKey, Coordinator, queue_limit, find_done, queued, ident_eq_iff, is_done,
  ident_Eq, running, JobState,
}

-- The key has a job, in this state.
abbrev pub IsStateIn : JobState → List (Ident × IndexJob) → JobKey → Type 0
IsStateIn st jobs key = (job : IndexJob) × (lookup key.ident jobs ≡ some job) × (job.state ≡ st)

abbrev pub Distinct : List JobKey → Type 0
Distinct [] = Unit
Distinct (k ∷ ks) = All (λ j. k.ident ≢ j.ident) ks × Distinct ks

pub record IsQueue (jobs : List (Ident × IndexJob)) (waiting held : List JobKey) : Type 0 where
  pub bounded : length waiting ≤ queue_limit
  pub all_queued : All (IsStateIn queued jobs) waiting
  pub all_running : All (IsStateIn running jobs) held
  pub distinct : Distinct waiting
  pub distinct_held : Distinct held
  pub unique : Unique jobs

-- The coordinator, with the keys that workers hold.
pub record IsSound (c : Coordinator) (held : List JobKey) : Type 0 where
  pub queue : IsQueue c.jobs c.ready_keys held
  pub counted : c.demand_jobs ≡ length c.ready_keys + length held

abbrev pub IsIdle : JobState → Type 0
IsIdle s = (s ≢ queued) × (s ≢ running)

-- The key's job, if it has one, neither waits nor runs.
abbrev pub IsIdleIn : List (Ident × IndexJob) → Ident → Type 0
IsIdleIn jobs k = (job : IndexJob) → lookup k jobs ≡ some job → IsIdle job.state

-- A job in another state is found under another key.
elsewhere :
    (st : JobState) (jobs : List (Ident × IndexJob)) (k : Ident) (key : JobKey)
    → ((job : IndexJob) → lookup k jobs ≡ some job → job.state ≢ st)
    → IsStateIn st jobs key
    → k ≢ key.ident
elsewhere st jobs k key h (job, found, q) e =
    h job (subst (λ x. lookup x jobs ≡ some job) (sym e) found) q

pub ne-of_ne : (a b : Ident) → a ≢ b → (a =? b) ≡ false
ne-of_ne a b h = ground (arith, ident_eq_iff a b)

-- The three ways to write the map leave the other keys alone.
module _ (st : JobState) (jobs : List (Ident × IndexJob)) (k : Ident) (key : JobKey) where
  remove_other : k ≢ key.ident → IsStateIn st jobs key → IsStateIn st (remove k jobs) key
  remove_other n w = (w.0, rw (lookup-remove k key.ident jobs, ne-of_ne k key.ident n) w.1, w.2)

  pub update_other :
      (f : IndexJob → IndexJob)
      → k ≢ key.ident
      → IsStateIn st jobs key
      → IsStateIn st (update k f jobs) key
  update_other f n w = (w.0, rw (lookup-update k key.ident f jobs, ne-of_ne k key.ident n) w.1, w.2)

  insert_other :
      (job' : IndexJob)
      → k ≢ key.ident
      → IsStateIn st jobs key
      → IsStateIn st (insert k job' jobs) key
  insert_other job' n w =
      (w.0, rw (lookup-insert k key.ident job' jobs, ne-of_ne k key.ident n) w.1, w.2)

module _ (jobs : List (Ident × IndexJob)) (waiting held : List JobKey) (k : Ident) where
  idle_elsewhere :
      (st : JobState) (key : JobKey)
      → (st ≡ queued) ⊎ (st ≡ running)
      → IsIdleIn jobs k
      → IsStateIn st jobs key
      → k ≢ key.ident
  idle_elsewhere st key (inl e) h = elsewhere st jobs k key (λ job f q. (h job f).0 (q ∙ e))
  idle_elsewhere st key (inr e) h = elsewhere st jobs k key (λ job f q. (h job f).1 (q ∙ e))

  -- A write that leaves other keys alone, at an idle key.
  write-IsQueue :
      (jobs' : List (Ident × IndexJob))
      → ((st : JobState) (key : JobKey)
          → k ≢ key.ident
          → IsStateIn st jobs key
          → IsStateIn st jobs' key)
      → Unique jobs'
      → IsIdleIn jobs k
      → IsQueue jobs waiting held
      → IsQueue jobs' waiting held
  write-IsQueue jobs' other u h q = record {
    bounded = q.bounded;
    all_queued =
        All-imp (IsStateIn queued jobs) (IsStateIn queued jobs')
          (λ key w. other queued key (idle_elsewhere queued key (inl refl) h w) w) waiting
          q.all_queued;
    all_running =
        All-imp (IsStateIn running jobs) (IsStateIn running jobs')
          (λ key w. other running key (idle_elsewhere running key (inr refl) h w) w) held
          q.all_running;
    distinct = q.distinct;
    distinct_held = q.distinct_held;
    unique = u;
  }

  -- Dropping, changing and putting a job at a key that is idle.
  pub remove-IsQueue :
      IsIdleIn jobs k → IsQueue jobs waiting held → IsQueue (remove k jobs) waiting held
  remove-IsQueue h q =
      write-IsQueue (remove k jobs) (λ st key. remove_other st jobs k key)
        (Unique-remove k jobs q.unique) h q

  pub update-IsQueue :
      (f : IndexJob → IndexJob)
      → IsIdleIn jobs k
      → IsQueue jobs waiting held
      → IsQueue (update k f jobs) waiting held
  update-IsQueue f h q =
      write-IsQueue (update k f jobs) (λ st key. update_other st jobs k key f)
        (Unique-update k f jobs q.unique) h q

  pub insert-IsQueue :
      (job : IndexJob)
      → IsIdleIn jobs k
      → IsQueue jobs waiting held
      → IsQueue (insert k job jobs) waiting held
  insert-IsQueue job h q =
      write-IsQueue (insert k job jobs) (λ st key. insert_other st jobs k key job)
        (Unique-insert k job jobs q.unique) h q

Distinct-append :
    (waiting : List JobKey) (key : JobKey)
    → All (λ j. j.ident ≢ key.ident) waiting
    → Distinct waiting
    → Distinct (waiting ++ key ∷ [])
Distinct-append [] key h d = (tt, tt)
Distinct-append (k ∷ ks) key h d =
    (All-append _ ks (key ∷ []) d.0 (h.0, tt), Distinct-append ks key h.1 d.1)

-- A key joins the queue: its job is queued now and was idle before.
pub push-IsQueue :
    (jobs jobs' : List (Ident × IndexJob)) (waiting held : List JobKey) (key : JobKey)
    → IsIdleIn jobs key.ident
    → length waiting < queue_limit
    → IsQueue jobs waiting held
    → IsQueue jobs' waiting held
    → IsStateIn queued jobs' key
    → IsQueue jobs' (waiting ++ key ∷ []) held
push-IsQueue jobs jobs' waiting held key h room q q' w = record {
  bounded = omega (arith, length-append waiting (key ∷ []));
  all_queued = All-append _ waiting (key ∷ []) q'.all_queued (w, tt);
  all_running = q'.all_running;
  distinct =
      Distinct-append waiting key
        (All-imp (IsStateIn queued jobs) (λ j. j.ident ≢ key.ident)
          (λ j v e. elsewhere queued jobs key.ident j (λ job f. (h job f).0) v (sym e)) waiting
          q.all_queued)
        q.distinct;
  distinct_held = q.distinct_held;
  unique = q'.unique;
}

-- The first finished job that is found is the job of its key.
pub find_done-lookup :
    (jobs : List (Ident × IndexJob)) (k : Ident) (job : IndexJob)
    → Unique jobs
    → find_done jobs ≡ some (k, job)
    → (lookup k jobs ≡ some job) × (is_done job.state ≡ true)
unfolding find_done
find_done-lookup [] k job u h = absurd (ground arith)
find_done-lookup ((j, v) ∷ rest) k job u h = elim (Bool-cases (is_done v.state)) [
  | inl e ↦
      let h' : ◌≡◌ {A = Option (Ident × IndexJob)} (some (j, v)) (some (k, job)) = rw e at h in
      let ek : j ≡ k = ground arith in
      let ev : v ≡ job = ground arith in
      (unfold lookup in ground (arith, ident_eq_iff j k), rw (← ev) e)
  | inr e ↦
      let h' : find_done rest ≡ some (k, job) = rw e at h in
      let (found, d) = find_done-lookup rest k job u.1 h' in
      let other : (j =? k) ≡ false = elim (Bool-cases (j =? k)) [
        | inl q ↦
            let same : j ≡ k = (ident_eq_iff j k).0 q in
            let none_here : lookup k rest ≡ none = subst (λ x. lookup x rest ≡ none) same u.0 in
            absurd (ground arith)
        | inr q ↦ q
      ] in
      (lookup-cons_ne k j v rest other ∙ found, d)
]
