-- ===== src/Jobs/Ids.antt =====
-- The answers of `admit` and `retry`, and what a failed write leaves behind.
use zmem_cache.Common.{
  lookup-remove, refl, ◌≤◌, lookup, =?_self, false, remove, ℕ, none, ◌<◌, true, some, ◌≡◌, ◌≢◌,
  arith, List, leb, length, text_Eq, ◌∙◌, inr, ◌++◌, Text, Option, Bool-cases, sym, ap, codes,
  subst, Option-cases, lookup-insert_self, inl,
}
use zmem_cache.Jobs.{
  retry, done, enqueue, Ident, JobState, remove_index_job, admit, panic, ready, find_done, Failure,
  Outcome, fail, Coordinator, queued, admit_new, JobKey, evict_one, IndexJob, queue_limit,
  job_limit, CanonicalMutation, admit_existing, ident_Eq, create, insert_index_job, new_job,
  on_write, hex,
}

-- An answer that is a job is the job of the key, and it is not `ready`.
Answers : JobKey → Coordinator × Outcome IndexJob → Type 0
Answers key r =
    (job : IndexJob) → r.1 ≡ done job → (lookup key.ident r.0.jobs ≡ some job) × (job.state ≢ ready)

on_write-Answers :
    (key : JobKey) (o : Outcome (Unit {0})) (c : Coordinator) (r : Coordinator × Outcome IndexJob)
    → Answers key r
    → Answers key (on_write o c r)
unfolding Answers
on_write-Answers key (fail e) c r a job h = absurd (ground arith)
on_write-Answers key (done u) c r a job h = a job h

refused-Answers : (key : JobKey) (c : Coordinator) (e : Failure) → Answers key (c, fail e)
unfolding Answers
refused-Answers key c e job h = absurd (ground arith)

module _ (write : CanonicalMutation → Outcome (Unit {0})) (random : Outcome (List ℕ))
    (now : ℕ) where
  enqueue-Answers :
      (c : Coordinator) (key : JobKey) (bytes : List ℕ)
      → Answers key (enqueue write random now c key bytes)
  unfolding enqueue
  enqueue-Answers c key bytes =
      let job = new_job (codes "job-" ++ hex bytes) now in
      on_write-Answers key (write (insert_index_job job.id key.ident)) c _ (
        unfold Answers in
        λ job' h.
          let same : job ≡ job' = ground arith in
          (
            lookup-insert_self key.ident job c.jobs ∙ ap some same,
            subst (λ x. x.state ≢ ready) same (unfold new_job in λ q. ground arith),
          ))

  create-Answers :
      (c : Coordinator) (key : JobKey) (bytes : Outcome (List ℕ))
      → Answers key (create write random now c key bytes)
  unfolding create
  create-Answers c key (fail e) = refused-Answers key c e
  create-Answers c key (done bytes) = enqueue-Answers c key bytes

  evict_one-Answers :
      (c : Coordinator) (key : JobKey) (found : Option (Ident × IndexJob))
      → Answers key (evict_one write random now c key found)
  unfolding evict_one
  evict_one-Answers c key none = refused-Answers key c _
  evict_one-Answers c key (some (old, job)) =
      on_write-Answers key (write (remove_index_job job.id)) _ _ (create-Answers _ key random)

  admit_new-Answers :
      (c : Coordinator) (key : JobKey) → Answers key (admit_new write random now c key)
  unfolding admit_new
  admit_new-Answers c key = elim (Bool-cases (leb queue_limit (length c.ready_keys))) [
    | inl e ↦ rw e (refused-Answers key c _)
    | inr e ↦ elim (Bool-cases (leb job_limit (length c.jobs))) [
      | inl f ↦ rw (e, f) (evict_one-Answers c key (find_done c.jobs))
      | inr f ↦ rw (e, f) (create-Answers c key random)
    ]
  ]

  admit_existing-Answers :
      (c : Coordinator) (key : JobKey) (job : IndexJob) (s : JobState)
      → job.state ≡ s
      → lookup key.ident c.jobs ≡ some job
      → Answers key (admit_existing write random now c key job s)
  unfolding admit_existing
  admit_existing-Answers c key job ready e found =
      on_write-Answers key (write (remove_index_job job.id)) c _ (admit_new-Answers _ key)
  admit_existing-Answers c key job _ e found =
      unfold Answers in
      λ job' h.
        let same : job ≡ job' = ground arith in
        (found ∙ ap some same, subst (λ x. x.state ≢ ready) same (λ q. ground arith))

  -- An admission that answers with a job answers with the job that the coordinator then holds for
  -- the key, and never with a ready one: a stale result is replaced.
  admit_answer :
      (c : Coordinator) (key : JobKey) {job : IndexJob}
      → (admit write random now c key).1 ≡ done job
      → (lookup key.ident (admit write random now c key).0.jobs ≡ some job) × (job.state ≢ ready)
  unfolding admit Answers
  admit_answer c key {job} h = elim (Option-cases (lookup key.ident c.jobs)) [
    | inl e ↦ rw (e, admit) (admit_new-Answers c key job (rw (e, admit) at h))
    | inr (job', e) ↦
        rw (e, admit) (admit_existing-Answers c key job' job'.state refl e job (rw (e, admit) at h))
  ]

  -- A key whose job is not ready is admitted to that very job, and nothing changes: repeated
  -- requests share one job.
  admit_shared :
      (c : Coordinator) (key : JobKey) (job : IndexJob)
      → lookup key.ident c.jobs ≡ some job
      → job.state ≢ ready
      → admit write random now c key ≡ (c, done job)
  unfolding admit
  admit_shared c key job found busy = rw (found, admit) (by_state job.state busy)
    where
      by_state :
          (s : JobState) → s ≢ ready → admit_existing write random now c key job s ≡ (c, done job)
      by_state ready n = absurd (n refl)
      by_state queued n = unfold admit_existing in refl
      by_state _ n = unfold admit_existing in refl

  failed_eviction :
      (c : Coordinator) (key : JobKey) (old : Ident) (job : IndexJob) (e : Failure)
      → lookup key.ident c.jobs ≡ none
      → length c.ready_keys < queue_limit
      → job_limit ≤ length c.jobs
      → find_done c.jobs ≡ some (old, job)
      → write (remove_index_job job.id) ≡ fail e
      → admit write random now c key ≡ (record c { jobs = remove old c.jobs }, fail e)
  unfolding admit admit_new evict_one
  failed_eviction c key old job e absent room full found failing =
      let r : leb queue_limit (length c.ready_keys) ≡ false = ground arith in
      let f : leb job_limit (length c.jobs) ≡ true = ground arith in
      rw (absent, r, f, found, failing, admit, admit_new, evict_one)

  lost_job-retry :
      (c : Coordinator) (id : Text) (k : JobKey)
      → lookup id c.by_id ≡ some k
      → lookup k.ident c.jobs ≡ none
      → (retry write random now c id).1 ≡ fail (panic "indexed job exists")
  unfolding retry
  lost_job-retry c id k known gone = rw (known, gone, retry)

  -- When the map is full and the queue is not, the admission of a new key drops the first finished
  -- job before its row is removed. If its id leads to its key and that write fails, the id leads to
  -- the key still, and a later retry of it panics at `expect`.
  pub failed_eviction-retry :
      (c : Coordinator) (key k : JobKey) (job : IndexJob) (e : Failure)
      → lookup key.ident c.jobs ≡ none
      → length c.ready_keys < queue_limit
      → job_limit ≤ length c.jobs
      → find_done c.jobs ≡ some (k.ident, job)
      → lookup job.id c.by_id ≡ some k
      → write (remove_index_job job.id) ≡ fail e
      → (retry write random now (admit write random now c key).0 job.id).1
        ≡ fail (panic "indexed job exists")
  failed_eviction-retry c key k job e absent room full found known failing =
      let gone : lookup k.ident (remove k.ident c.jobs) ≡ none =
        rw (lookup-remove k.ident k.ident c.jobs, =?_self k.ident) in
      let dropped = failed_eviction c key k.ident job e absent room full found failing in
      subst
        (λ (r : Coordinator × Outcome IndexJob).
          (retry write random now r.0 job.id).1 ≡ fail (panic "indexed job exists"))
        (sym dropped) (lost_job-retry _ job.id k known gone)
