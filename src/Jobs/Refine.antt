-- ===== src/Jobs/Refine.antt =====
-- `refine_identity` moves the running job to its refined key and keeps the invariant.
use zmem_cache.Jobs.Queue.{IsSound, IsQueue, IsStateIn, ne-of_ne}
use zmem_cache.Jobs.Finish.{states_differ, queued-ne-running}
use zmem_cache.Jobs.{
  update_index_job_key, fail, queued, CanonicalMutation, move_job, IndexJob, running, Outcome,
  JobKey, refine_identity, Coordinator, done, Ident, refined_generation, on_write, JobState,
  refine_to, ident_Eq,
}
use zmem_cache.Common.{
  ap, Bool, inr, ◌≢◌, List, Unique-insert, text_eq, lookup-insert, lookup, remove, Bool-cases, ◌∙◌,
  sym, arith, ◌≡◌, Option-cases, some, All-imp, none, subst, lookup-insert_self, insert,
  Unique-remove, lookup-remove, Text, inl, All-zip, ◌∷◌,
}

-- The key that the worker goes on with.
abbrev pub key_after : JobKey → Outcome JobKey → JobKey
key_after old (fail e) = old
key_after old (done key) = key

present-ne-absent :
    (st : JobState) (jobs : List (Ident × IndexJob)) (k : Ident) (key : JobKey)
    → lookup k jobs ≡ none
    → IsStateIn st jobs key
    → k ≢ key.ident
present-ne-absent st jobs k key h (job, found, s) e =
    let found' : lookup k jobs ≡ some job = subst (λ x. lookup x jobs ≡ some job) (sym e) found in
    absurd (ground arith)

module _ (jobs : List (Ident × IndexJob)) (old refined : JobKey) (job : IndexJob)
    (absent : lookup refined.ident jobs ≡ none) where
  moved : List (Ident × IndexJob)
  moved = insert refined.ident job (remove old.ident jobs)

  moved_other :
      (st : JobState) (key : JobKey)
      → old.ident ≢ key.ident
      → IsStateIn st jobs key
      → IsStateIn st moved key
  unfolding moved
  moved_other st key n w = (
    w.0,
    rw
        (
          lookup-insert refined.ident key.ident job (remove old.ident jobs),
          ne-of_ne refined.ident key.ident (present-ne-absent st jobs refined.ident key absent w),
          lookup-remove old.ident key.ident jobs,
          ne-of_ne old.ident key.ident n,
        )
        w.1,
    w.2,
  )

  moved-IsQueue :
      (waiting held : List JobKey)
      → lookup old.ident jobs ≡ some job
      → IsQueue jobs waiting (old ∷ held)
      → IsQueue moved waiting (refined ∷ held)
  moved-IsQueue waiting held found q =
      let w = q.all_running.0 in
      let is_running : job.state ≡ running =
        let same : job ≡ w.0 = ground arith in ap (λ x. x.state) same ∙ w.2 in
      record {
        bounded = q.bounded;
        all_queued =
            All-imp (IsStateIn queued jobs) (IsStateIn queued moved)
              (λ key v.
                moved_other queued key
                  (states_differ running queued jobs old key (λ e. queued-ne-running (sym e)) w v)
                  v)
              waiting q.all_queued;
        all_running = (
          (
            job,
            unfold moved in lookup-insert_self refined.ident job (remove old.ident jobs),
            is_running,
          ),
          All-zip (λ j. old.ident ≢ j.ident) (IsStateIn running jobs) (IsStateIn running moved)
              (λ key n v. moved_other running key n v) held q.distinct_held.0 q.all_running.1,
        );
        distinct = q.distinct;
        distinct_held = (
          All-imp (IsStateIn running jobs) (λ j. refined.ident ≢ j.ident)
              (λ j v. present-ne-absent running jobs refined.ident j absent v) held q.all_running.1,
          q.distinct_held.1,
        );
        unique =
            unfold moved in
            Unique-insert refined.ident job (remove old.ident jobs)
              (Unique-remove old.ident jobs q.unique);
      }

module _ (write : CanonicalMutation → Outcome (Unit {0})) where
  on_write_key :
      (o : Outcome (Unit {0})) (c c' : Coordinator) (old refined : JobKey) (held : List JobKey)
      → IsSound c (old ∷ held)
      → IsSound c' (refined ∷ held)
      → IsSound
          (on_write o c (c', done refined)).0
          (key_after old (on_write o c (c', done refined)).1 ∷ held)
  on_write_key (fail e) c c' old refined held q r = q
  on_write_key (done u) c c' old refined held q r = r

  refine_to-IsSound :
      (c : Coordinator) (old refined : JobKey) (held : List JobKey)
      → IsSound c (old ∷ held)
      → IsSound
          (refine_to write old refined c).0
          (key_after old (refine_to write old refined c).1 ∷ held)
  unfolding refine_to move_job
  refine_to-IsSound c old refined held q = elim (Option-cases (lookup refined.ident c.jobs)) [
    | inr (other_job, e) ↦ rw (e, refine_to) q
    | inl absent ↦
        let w = q.queue.all_running.0 in
        rw (absent, w.1, refine_to, move_job)
          (on_write_key (write (update_index_job_key (w.0).id refined.ident)) c _ old refined held q
            (record {
              queue =
                  unfold moved in
                  moved-IsQueue c.jobs old refined w.0 absent c.ready_keys held w.1 q.queue;
              counted = q.counted;
            }))
  ]

  -- After the identity is known the worker's key is held still, refined or not: the job moves with
  -- its state, no other key is disturbed, and the coordinator stays sound.
  pub refine_identity-IsSound :
      (old : JobKey) (identity : Text) (trusted : Bool) (c : Coordinator) (held : List JobKey)
      → IsSound c (old ∷ held)
      → IsSound
          (refine_identity write old identity trusted c).0
          (key_after old (refine_identity write old identity trusted c).1 ∷ held)
  unfolding refine_identity
  refine_identity-IsSound old identity trusted c held q =
      elim (Bool-cases (text_eq old.ident.generation (refined_generation identity trusted))) [
        | inl e ↦ rw e q
        | inr e ↦ rw e (refine_to-IsSound c old _ held q)
      ]
