-- ===== src/Jobs/Admission.antt =====
-- `admit` and `retry` keep the queue's invariant, whatever the writes and the random source answer.
use zmem_cache.Jobs.Queue.{
  IsSound, push-IsQueue, find_done-lookup, remove-IsQueue, insert-IsQueue, update-IsQueue, IsIdleIn,
  IsIdle,
}
use zmem_cache.Jobs.{
  fail, Outcome, ready, Ident, admit_existing, enqueue, queue_limit, retry_job, hex, done,
  Coordinator, find_done, queued, CanonicalMutation, JobState, IndexJob, retry, set_index_job_state,
  remove_index_job, evict_one, failed, requeued, JobKey, insert_index_job, create, on_write,
  is_done, job_limit, admit, admit_new, new_job, ident_Eq, running,
}
use zmem_cache.Common.{
  codes, Option-cases, Text, ◌<◌, length, update, lookup-update, ◌++◌, lookup-remove, inr, leb,
  refl, insert, arith, ◌≡◌, some, ℕ, subst, =?_self, lookup-insert_self, none, lookup, inl,
  Bool-cases, remove, List, Option, true, text_Eq, ◌+◌, length-append, ◌∷◌, [],
}

absent-IsIdleIn :
    (jobs : List (Ident × IndexJob)) (k : Ident) → lookup k jobs ≡ none → IsIdleIn jobs k
absent-IsIdleIn jobs k h job e = absurd (ground arith)

known-IsIdleIn :
    (jobs : List (Ident × IndexJob)) (k : Ident) (job : IndexJob)
    → lookup k jobs ≡ some job
    → IsIdle job.state
    → IsIdleIn jobs k
known-IsIdleIn jobs k job h n job' e =
    let same : job ≡ job' = ground arith in subst (λ x. IsIdle x.state) same n

on_write-IsSound :
    {A : Type 0} (held : List JobKey) (o : Outcome (Unit {0})) (c : Coordinator)
    (next : Coordinator × Outcome A)
    → IsSound c held
    → IsSound next.0 held
    → IsSound (on_write o c next).0 held
on_write-IsSound held (fail e) c next q r = q
on_write-IsSound held (done _) c next q r = r

is_done-IsIdle : (s : JobState) → is_done s ≡ true → IsIdle s
is_done-IsIdle queued h = absurd (ground arith)
is_done-IsIdle running h = absurd (ground arith)
is_done-IsIdle _ h = (λ e. ground arith, λ e. ground arith)

push_count :
    (c : Coordinator) (held : List JobKey) (key : JobKey)
    → IsSound c held
    → c.demand_jobs + 1 ≡ length (c.ready_keys ++ key ∷ []) + length held
push_count c held key q = omega (arith, q.counted, length-append c.ready_keys (key ∷ []))

module _ (write : CanonicalMutation → Outcome (Unit {0})) (random : Outcome (List ℕ)) (now : ℕ)
    (held : List JobKey) where
  enqueue-IsSound :
      (c : Coordinator) (key : JobKey) (bytes : List ℕ)
      → lookup key.ident c.jobs ≡ none
      → length c.ready_keys < queue_limit
      → IsSound c held
      → IsSound (enqueue write random now c key bytes).0 held
  unfolding enqueue
  enqueue-IsSound c key bytes absent room q =
      let job = new_job (codes "job-" ++ hex bytes) now in
      let fresh = absent-IsIdleIn c.jobs key.ident absent in
      on_write-IsSound held (write (insert_index_job job.id key.ident)) c _ q (record {
        queue =
            push-IsQueue c.jobs (insert key.ident job c.jobs) c.ready_keys held key fresh room
              q.queue (insert-IsQueue c.jobs c.ready_keys held key.ident job fresh q.queue)
              (job, lookup-insert_self key.ident job c.jobs, unfold new_job in refl);
        counted = push_count c held key q;
      })

  create-IsSound :
      (c : Coordinator) (key : JobKey) (bytes : Outcome (List ℕ))
      → lookup key.ident c.jobs ≡ none
      → length c.ready_keys < queue_limit
      → IsSound c held
      → IsSound (create write random now c key bytes).0 held
  unfolding create
  create-IsSound c key (fail e) absent room q = q
  create-IsSound c key (done bytes) absent room q = enqueue-IsSound c key bytes absent room q

  evict_one-IsSound :
      (c : Coordinator) (key : JobKey) (found : Option (Ident × IndexJob))
      → find_done c.jobs ≡ found
      → lookup key.ident c.jobs ≡ none
      → length c.ready_keys < queue_limit
      → IsSound c held
      → IsSound (evict_one write random now c key found).0 held
  unfolding evict_one
  evict_one-IsSound c key none e absent room q = q
  evict_one-IsSound c key (some (old, job)) e absent room q =
      let (found, finished_job) = find_done-lookup c.jobs old job q.queue.unique e in
      let dropped =
        remove-IsQueue c.jobs c.ready_keys held old
          (known-IsIdleIn c.jobs old job found (is_done-IsIdle job.state finished_job)) q.queue in
      let gone : lookup key.ident (remove old c.jobs) ≡ none =
        ground (arith, lookup-remove old key.ident c.jobs) in
      on_write-IsSound held (write (remove_index_job job.id))
        (record c { jobs = remove old c.jobs }) _ (record { queue = dropped; counted = q.counted })
        (create-IsSound (record c { jobs = remove old c.jobs; by_id = remove job.id c.by_id }) key
          random gone room (record { queue = dropped; counted = q.counted }))

  admit_new-IsSound :
      (c : Coordinator) (key : JobKey)
      → lookup key.ident c.jobs ≡ none
      → IsSound c held
      → IsSound (admit_new write random now c key).0 held
  unfolding admit_new
  admit_new-IsSound c key absent q = elim (Bool-cases (leb queue_limit (length c.ready_keys))) [
    | inl e ↦ rw e q
    | inr e ↦
        let room : length c.ready_keys < queue_limit = ground arith in
        elim (Bool-cases (leb job_limit (length c.jobs))) [
          | inl f ↦ rw (e, f) (evict_one-IsSound c key (find_done c.jobs) refl absent room q)
          | inr f ↦ rw (e, f) (create-IsSound c key random absent room q)
        ]
  ]

  admit_existing-IsSound :
      (c : Coordinator) (key : JobKey) (job : IndexJob) (s : JobState)
      → job.state ≡ s
      → lookup key.ident c.jobs ≡ some job
      → IsSound c held
      → IsSound (admit_existing write random now c key job s).0 held
  unfolding admit_existing
  admit_existing-IsSound c key job ready e found q =
      let dropped =
        remove-IsQueue c.jobs c.ready_keys held key.ident
          (known-IsIdleIn c.jobs key.ident job found (λ h. ground arith, λ h. ground arith))
          q.queue in
      let gone : lookup key.ident (remove key.ident c.jobs) ≡ none =
        rw (lookup-remove key.ident key.ident c.jobs, =?_self key.ident) in
      on_write-IsSound held (write (remove_index_job job.id)) c _ q (
        admit_new-IsSound
          (record c { jobs = remove key.ident c.jobs; by_id = remove job.id c.by_id }) key gone
          (record { queue = dropped; counted = q.counted }))
  admit_existing-IsSound c key job _ e found q = q

  -- Admission keeps the queue sound, whatever the writes and the random source answer: at most
  -- thirty-two keys wait, each once and each with a queued job.
  pub admit-IsSound :
      (c : Coordinator) (key : JobKey)
      → IsSound c held
      → IsSound (admit write random now c key).0 held
  unfolding admit
  admit-IsSound c key q = elim (Option-cases (lookup key.ident c.jobs)) [
    | inl e ↦ rw (e, admit) (admit_new-IsSound c key e q)
    | inr (job, e) ↦ rw (e, admit) (admit_existing-IsSound c key job job.state refl e q)
  ]

  retry_job-IsSound :
      (c : Coordinator) (id : Text) (key : JobKey) (job : IndexJob) (s : JobState)
      → job.state ≡ s
      → lookup key.ident c.jobs ≡ some job
      → IsSound c held
      → IsSound (retry_job write random now c id key job s).0 held
  unfolding retry_job
  retry_job-IsSound c id key job failed e found q =
      let idle = known-IsIdleIn c.jobs key.ident job found (λ h. ground arith, λ h. ground arith) in
      let requeue = requeued write random now in
      let w : lookup key.ident (update key.ident requeue c.jobs) ≡ some (requeue job) =
        rw (lookup-update key.ident key.ident requeue c.jobs, =?_self key.ident, found) in
      elim (Bool-cases (leb queue_limit (length c.ready_keys))) [
        | inl f ↦ rw f q
        | inr f ↦ rw f (
            on_write-IsSound held (write (set_index_job_state id queued none)) c _ q (record {
              queue =
                  push-IsQueue c.jobs (update key.ident requeue c.jobs) c.ready_keys held key idle
                    (ground arith) q.queue
                    (update-IsQueue c.jobs c.ready_keys held key.ident requeue idle q.queue)
                    (requeue job, w, refl);
              counted = push_count c held key q;
            }))
      ]
  retry_job-IsSound c id key job _ e found q = q

  -- A retry keeps the queue sound.
  pub retry-IsSound :
      (c : Coordinator) (id : Text) → IsSound c held → IsSound (retry write random now c id).0 held
  unfolding retry
  retry-IsSound c id q = elim (Option-cases (lookup id c.by_id)) [
    | inl e ↦ rw (e, retry) q
    | inr (key, e) ↦ elim (Option-cases (lookup key.ident c.jobs)) [
      | inl f ↦ rw (e, f, retry) q
      | inr (job, f) ↦ rw (e, f, retry) (retry_job-IsSound c id key job job.state refl f q)
    ]
  ]
