-- ===== src/Jobs/Finish.antt =====
-- The worker's steps keep the invariant and meet no failed `expect`; with the other operations in any
-- order, so do all runs of the coordinator.
use zmem_cache.Jobs.Queue.{IsSound, IsQueue, IsStateIn, update_other, IsIdle}
use zmem_cache.Common.{
  ◌≡◌, some, [], List, ◌∷◌, ℕ, none, arith, Unique-update, subst, update, All-imp, ◌≢◌, ◌∙◌, sym,
  ◌+◌, lookup, lookup-update, refl, =?_self, length, ◌^◌, All, All-zip, ◌<◌, ap,
}
use zmem_cache.Jobs.{
  take_job, finish_job, Coordinator, JobKey, SyncResult, done, take_first, running, synced,
  IndexJob, started, JobState, sync_failed, Ident, finished, queued, ident_Eq,
}

-- Two waiting or held lists, at a key that is in neither.
module _ (jobs : List (Ident × IndexJob)) (k : Ident) (f : IndexJob → IndexJob) where
  update-All :
      (st : JobState) (keys : List JobKey)
      → All (λ j. k ≢ j.ident) keys
      → All (IsStateIn st jobs) keys
      → All (IsStateIn st (update k f jobs)) keys
  update-All st keys n w =
      All-zip (λ j. k ≢ j.ident) (IsStateIn st jobs) (IsStateIn st (update k f jobs))
        (λ j ne s. update_other st jobs k j f ne s) keys n w

-- A key whose job is in one state is no key whose job is in another.
pub states_differ :
    (s t : JobState) (jobs : List (Ident × IndexJob)) (a b : JobKey)
    → s ≢ t
    → IsStateIn s jobs a
    → IsStateIn t jobs b
    → a.ident ≢ b.ident
states_differ s t jobs a b n (j, fa, sa) (k, fb, sb) e =
    let fb' : lookup a.ident jobs ≡ some k = subst (λ x. lookup x jobs ≡ some k) (sym e) fb in
    let same : j ≡ k = ground arith in n (sym sa ∙ (ap (λ x. x.state) same ∙ sb))

pub queued-ne-running : queued ≢ running
queued-ne-running e = ground arith

-- What is left in the queue, and what is held, when its first key is taken.
taken-IsQueue :
    (now : ℕ) (jobs : List (Ident × IndexJob)) (key : JobKey) (rest held : List JobKey)
    → IsQueue jobs (key ∷ rest) held
    → IsQueue (update key.ident (started now) jobs) rest (key ∷ held)
taken-IsQueue now jobs key rest held q =
    let w = q.all_queued.0 in
    let apart : All (λ j. key.ident ≢ j.ident) held =
      All-imp (IsStateIn running jobs) (λ j. key.ident ≢ j.ident)
        (λ j r. states_differ queued running jobs key j queued-ne-running w r) held q.all_running in
    record {
      bounded = omega (arith, q.bounded);
      all_queued = update-All jobs key.ident (started now) queued rest q.distinct.0 q.all_queued.1;
      all_running = (
        (
          started now w.0,
          rw (lookup-update key.ident key.ident (started now) jobs, =?_self key.ident, w.1),
          refl,
        ),
        update-All jobs key.ident (started now) running held apart q.all_running,
      );
      distinct = q.distinct.1;
      distinct_held = (apart, q.distinct_held);
      unique = Unique-update key.ident (started now) jobs q.unique;
    }

-- What a worker finds: nothing to do, or the first key of the queue, which it holds from then on.
abbrev pub IsTaken : ℕ → Coordinator → List JobKey → List JobKey → Type 0
IsTaken now c held [] = take_job now c ≡ (c, done none)
IsTaken now c held (key ∷ rest) =
    ((take_job now c).1 ≡ done (some key))
    × ((take_job now c).0.ready_keys ≡ rest)
    × IsSound (take_job now c).0 (key ∷ held)

take_first_lem :
    (now : ℕ) (c : Coordinator) (held keys : List JobKey)
    → c.ready_keys ≡ keys
    → IsSound c held
    → IsTaken now c held keys
unfolding take_job take_first
take_first_lem now c held [] e q = rw e
take_first_lem now c held (key ∷ rest) e q =
    let full : IsQueue c.jobs (key ∷ rest) held = subst (λ x. IsQueue c.jobs x held) e q.queue in
    let n : c.demand_jobs ≡ length rest + length (key ∷ held) =
      omega (arith, q.counted, ap length e) in
    let w = full.all_queued.0 in
    rw (e, w.1, take_first)
      (refl, refl, record { queue = taken-IsQueue now c.jobs key rest held full; counted = n })

-- A worker takes the first waiting key, if any, in a sound coordinator: its job is always there
-- (`expect` cannot fail), and the coordinator stays sound with the key held.
pub take_job_lem :
    (now : ℕ) (c : Coordinator) (held : List JobKey)
    → IsSound c held
    → IsTaken now c held c.ready_keys
take_job_lem now c held q = take_first_lem now c held c.ready_keys refl q

finished_state : (now : ℕ) (r : SyncResult) (job : IndexJob) → IsIdle (finished now r job).state
finished_state now (synced n) job = (λ e. ground arith, λ e. ground arith)
finished_state now (sync_failed t) job = (λ e. ground arith, λ e. ground arith)

-- `finish_job` for the first of the held keys of a sound coordinator, with fewer than 2^32 others
-- held: the key is let go, the counter falls by exactly one, and the coordinator stays sound.
pub finish_job-IsSound :
    (now : ℕ) (key : JobKey) (result : SyncResult) (c : Coordinator) (held : List JobKey)
    → length held < 2 ^ 32
    → IsSound c (key ∷ held)
    → IsSound (finish_job now key result c) held
unfolding finish_job
finish_job-IsSound now key result c held few q =
    let f = finished now result in
    let w = q.queue.all_running.0 in
    let apart : All (λ j. key.ident ≢ j.ident) c.ready_keys =
      All-imp (IsStateIn queued c.jobs) (λ j. key.ident ≢ j.ident)
        (λ j r. states_differ running queued c.jobs key j (λ e. queued-ne-running (sym e)) w r)
        c.ready_keys q.queue.all_queued in
    record {
      queue = record {
        bounded = q.queue.bounded;
        all_queued = update-All c.jobs key.ident f queued c.ready_keys apart q.queue.all_queued;
        all_running =
            update-All c.jobs key.ident f running held q.queue.distinct_held.0
              q.queue.all_running.1;
        distinct = q.queue.distinct;
        distinct_held = q.queue.distinct_held.1;
        unique = Unique-update key.ident f c.jobs q.queue.unique;
      };
      counted = omega (arith, q.counted, q.queue.bounded);
    }
