-- ===== src/Jobs.antt =====
-- The indexing job coordinator of crates/zmem-svc/src/main.rs: `JobQueue`, `JobCoordinator::new`,
-- `admit`, `status`, `retry`, `refine_identity` and the steps of `worker`, each under the queue's
-- lock. A method takes the coordinator and gives the new one beside its result, so a mutation
-- before an early return stays. What a canonical write answers is the function `write`; the job id's
-- random bytes are the argument `random`; `now` is the clock in milliseconds. A `HashMap` is an
-- association list, which stands for its iteration order. States are stored as text: `other` is any
-- text that the code does not name.
pub mod Queue
pub mod Finish
pub mod Admission
pub mod Refine
pub mod Runs
pub mod Ids
pub mod Tests
use Prim.Native.String.{String}
use zmem_cache.Common.{
  ◌^◌, some, ◌-◌, refl, ◌++◌, update, ◌*◌, insert, arith, text_eq_iff, Text, if◌then◌else◌, none,
  if◌then◌else◌, leb, ◌/◌, ℕ, text_eq, ◌≡◌, ◌&&◌, Bool, ltb, length, ◌%◌, [], ℤ, false, Eq, ◌+◌,
  List, ◌↔◌, remove, min, Option, if◌then◌else◌, ◌∷◌, true, eq_ℤ, lookup, codes, text_Eq,
}

-- What `PartialEq` and `Hash` of `JobKey` look at.
pub record Ident : Type 0 where
  pub path : Text
  pub reference : Option Text
  pub observed_oid : Text
  pub commit_limit : Option ℤ
  pub node_limit : Option ℤ
  pub generation : Text

-- `route` is not part of the identity.
pub record JobKey : Type 0 where
  pub ident : Ident
  pub open ident use *
  pub route : Text

pub data JobState : Type 0 where
  queued running ready failed obsolete : JobState
  other : Text → JobState

pub record IndexJob : Type 0 where
  pub id : Text
  pub state : JobState
  pub failure : Option Text
  pub stage_started : ℕ
  pub queue_wait_ms : Option ℕ
  pub work_ms : Option ℕ
  pub indexed_commits : Option ℕ

pub record PersistedIndexJob : Type 0 where
  pub id : Text
  pub job_key : JobKey
  pub state : JobState
  pub failure : Option Text

pub data CanonicalMutation : Type 0 where
  insert_index_job : Text → Ident → CanonicalMutation
  set_index_job_state : Text → JobState → Option Text → CanonicalMutation
  update_index_job_key : Text → Ident → CanonicalMutation
  remove_index_job : Text → CanonicalMutation

-- A `ServiceFailure`, a failed write, or a failed `expect`.
pub data Failure : Type 0 where
  service_failure : String → String → Bool → Failure
  write_failed : Text → Failure
  panic : String → Failure

pub data Outcome (A : Type 0) : Type 0 where
  done : A → Outcome A
  fail : Failure → Outcome A

-- `?` on a canonical write: the state when it fails, and what follows when it does not.
abbrev pub on_write {ℓ} :
    {S : Type ℓ} {A : Type 0} → Outcome (Unit {0}) → S → S × Outcome A → S × Outcome A
on_write (fail e) s next = (s, fail e)
on_write (done _) s next = next

-- The fields of `queue`, the two counters, and the equality of the map's keys.
pub record Coordinator : Type 0 where
  pub jobs : List (Ident × IndexJob)
  pub by_id : List (Text × JobKey)
  pub ready_keys : List JobKey
  pub demand_jobs : ℕ
  pub completed_foreground : ℕ

abbrev pub option_eq {ℓ} : {A : Type ℓ} → (A → A → Bool) → Option A → Option A → Bool
option_eq f none none = true
option_eq f none (some b) = false
option_eq f (some a) none = false
option_eq f (some a) (some b) = f a b

unfoldable pub ident_eq : Ident → Ident → Bool
ident_eq a b =
    text_eq a.path b.path
    && (option_eq text_eq a.reference b.reference
        && (text_eq a.observed_oid b.observed_oid
            && (option_eq eq_ℤ a.commit_limit b.commit_limit
                && (option_eq eq_ℤ a.node_limit b.node_limit
                    && text_eq a.generation b.generation))))

option_text_iff : (a b : Option Text) → (option_eq text_eq a b ≡ true) ↔ (a ≡ b)
option_text_iff none none = (λ h. refl, λ h. refl)
option_text_iff none (some b) = (λ h. ground arith, λ h. ground arith)
option_text_iff (some a) none = (λ h. ground arith, λ h. ground arith)
option_text_iff (some a) (some b) = ground (arith, text_eq_iff a b)

option_int_iff : (a b : Option ℤ) → (option_eq eq_ℤ a b ≡ true) ↔ (a ≡ b)
option_int_iff none none = (λ h. refl, λ h. refl)
option_int_iff none (some b) = (λ h. ground arith, λ h. ground arith)
option_int_iff (some a) none = (λ h. ground arith, λ h. ground arith)
option_int_iff (some a) (some b) = ground arith

pub ident_eq_iff : (a b : Ident) → (ident_eq a b ≡ true) ↔ (a ≡ b)
unfolding ident_eq
ident_eq_iff a b = ground (
  arith,
  text_eq_iff a.path b.path,
  option_text_iff a.reference b.reference,
  text_eq_iff a.observed_oid b.observed_oid,
  option_int_iff a.commit_limit b.commit_limit,
  option_int_iff a.node_limit b.node_limit,
  text_eq_iff a.generation b.generation,
)

instance abbrev pub ident_Eq : Eq Ident
ident_Eq = record { beq = ident_eq; beq_iff = ident_eq_iff }

abbrev pub u64_max : ℕ
u64_max = 2 ^ 64 - 1

unfoldable pub elapsed_ms : ℕ → ℕ → ℕ
elapsed_ms now since = min (now - since) u64_max

unfoldable pub hex_digit : ℕ → ℕ
hex_digit d = if ltb d 10 then b'0' + d else b'a' + (d - 10)

-- `format!("{byte:02x}")` of each byte.
unfoldable pub hex : List ℕ → Text
unfolding hex_digit
hex [] = []
hex (b ∷ bs) = hex_digit (b / 16) ∷ hex_digit (b % 16) ∷ hex bs

abbrev pub queue_limit : ℕ
queue_limit = 32

abbrev pub job_limit : ℕ
job_limit = 256

abbrev pub is_done : JobState → Bool
is_done ready = true
is_done obsolete = true
is_done _ = false

-- `find_map` for a job that is `ready` or `obsolete`.
unfoldable pub find_done : List (Ident × IndexJob) → Option (Ident × IndexJob)
find_done [] = none
find_done ((k, job) ∷ rest) = if is_done job.state then some (k, job) else find_done rest

unfoldable pub new_job : Text → ℕ → IndexJob
new_job id now = record {
  id = id;
  state = queued;
  failure = none;
  stage_started = now;
  queue_wait_ms = none;
  work_ms = none;
  indexed_commits = none;
}

module _ (write : CanonicalMutation → Outcome (Unit {0})) (random : Outcome (List ℕ))
    (now : ℕ) where
  -- The end of `admit`: the id, the write, and the three insertions.
  unfoldable pub enqueue : Coordinator → JobKey → List ℕ → Coordinator × Outcome IndexJob
  enqueue c key bytes =
      let job = new_job (codes "job-" ++ hex bytes) now in
      on_write (write (insert_index_job job.id key.ident)) c (
        record c {
          jobs = insert key.ident job c.jobs;
          by_id = insert job.id key c.by_id;
          ready_keys = c.ready_keys ++ key ∷ [];
          demand_jobs = c.demand_jobs + 1;
        },
        done job,
      )

  unfoldable pub create : Coordinator → JobKey → Outcome (List ℕ) → Coordinator × Outcome IndexJob
  create c key (fail e) = (c, fail e)
  create c key (done bytes) = enqueue c key bytes

  -- At capacity one finished job is dropped from the map before its row is removed.
  unfoldable pub evict_one :
      Coordinator → JobKey → Option (Ident × IndexJob) → Coordinator × Outcome IndexJob
  evict_one c key none = (c, fail (service_failure "busy" "indexing job capacity is full" true))
  evict_one c key (some (old, job)) =
      let dropped = record c { jobs = remove old c.jobs } in
      on_write (write (remove_index_job job.id)) dropped
        (create (record dropped { by_id = remove job.id c.by_id }) key random)

  unfoldable pub admit_new : Coordinator → JobKey → Coordinator × Outcome IndexJob
  admit_new c key =
      if leb queue_limit (length c.ready_keys)
      then (c, fail (service_failure "busy" "indexing queue is full" true))
      else if leb job_limit (length c.jobs)
      then evict_one c key (find_done c.jobs)
      else create c key random

  -- A ready job is replaced; any other one answers for the key.
  unfoldable pub admit_existing :
      Coordinator → JobKey → IndexJob → JobState → Coordinator × Outcome IndexJob
  admit_existing c key job ready =
      on_write (write (remove_index_job job.id)) c
        (admit_new (record c { jobs = remove key.ident c.jobs; by_id = remove job.id c.by_id }) key)
  admit_existing c key job _ = (c, done job)

  unfoldable pub admit : Coordinator → JobKey → Coordinator × Outcome IndexJob
  admit c key = elim (lookup key.ident c.jobs) [
    | none ↦ admit_new c key
    | some job ↦ admit_existing c key job job.state
  ]

  abbrev pub requeued : IndexJob → IndexJob
  requeued job = record job {
    state = queued;
    failure = none;
    stage_started = now;
    queue_wait_ms = none;
    work_ms = none;
    indexed_commits = none;
  }

  unfoldable pub retry_job :
      Coordinator → Text → JobKey → IndexJob → JobState → Coordinator × Outcome IndexJob
  retry_job c id key job failed =
      if leb queue_limit (length c.ready_keys)
      then (c, fail (service_failure "busy" "indexing queue is full" true))
      else on_write (write (set_index_job_state id queued none)) c (
        record c {
          jobs = update key.ident requeued c.jobs;
          ready_keys = c.ready_keys ++ key ∷ [];
          demand_jobs = c.demand_jobs + 1;
        },
        done (requeued job),
      )
  retry_job c id key job _ =
      (c, fail (service_failure "request" "only failed indexing jobs can be retried" false))

  unfoldable pub retry : Coordinator → Text → Coordinator × Outcome IndexJob
  retry c id = elim (lookup id c.by_id) [
    | none ↦ (c, fail (service_failure "request" "unknown indexing job" false))
    | some key ↦ elim (lookup key.ident c.jobs) [
      | none ↦ (c, fail (panic "indexed job exists"))
      | some job ↦ retry_job c id key job job.state
    ]
  ]

unfoldable pub status : Coordinator → Text → Option IndexJob
status c id = elim (lookup id c.by_id) [ none ↦ none | some key ↦ lookup key.ident c.jobs ]

unfoldable pub status_for_key : Coordinator → JobKey → Option IndexJob
status_for_key c key = lookup key.ident c.jobs

unfoldable pub queue_depth : Coordinator → ℕ
queue_depth c = length c.ready_keys

abbrev pub started : ℕ → IndexJob → IndexJob
started now job = record job {
  state = running;
  stage_started = now;
  queue_wait_ms = some (elapsed_ms now job.stage_started);
}

-- The worker's start under the lock: `none` is a wait, a failed `expect` a panic.
unfoldable pub take_first : ℕ → Coordinator → List JobKey → Coordinator × Outcome (Option JobKey)
take_first now c [] = (c, done none)
take_first now c (key ∷ rest) = elim (lookup key.ident c.jobs) [
  | none ↦ (record c { ready_keys = rest }, fail (panic "queued job exists"))
  | some _ ↦ (
    record c { ready_keys = rest; jobs = update key.ident (started now) c.jobs },
    done (some key),
  )
]

unfoldable pub take_job : ℕ → Coordinator → Coordinator × Outcome (Option JobKey)
take_job now c = take_first now c c.ready_keys

abbrev pub stopped : ℕ → JobState → Option Text → Option ℕ → IndexJob → IndexJob
stopped now state failure indexed job = record job {
  state = state;
  failure = failure;
  stage_started = now;
  work_ms = some (elapsed_ms now job.stage_started);
  indexed_commits = indexed;
}

-- The worker's end: `ok` carries the indexed commits, `err` the failure's text.
pub data SyncResult : Type 0 where
  synced : ℕ → SyncResult
  sync_failed : Text → SyncResult

abbrev pub finished : ℕ → SyncResult → IndexJob → IndexJob
finished now (synced n) job = stopped now ready job.failure (some n) job
finished now (sync_failed e) job = stopped now failed (some e) job.indexed_commits job

-- `fetch_sub` on the counter wraps around at zero.
unfoldable pub finish_job : ℕ → JobKey → SyncResult → Coordinator → Coordinator
finish_job now key result c = record c {
  jobs = update key.ident (finished now result) c.jobs;
  demand_jobs = (c.demand_jobs + u64_max) % 2 ^ 64;
  completed_foreground = c.completed_foreground + 1;
}

-- `refine_identity` once the store has answered whether the repository is trusted: the generation,
-- and the running job, which moves to the refined key.
unfoldable pub refined_generation : Text → Bool → Text
refined_generation identity true = identity ++ codes ":trusted=true"
refined_generation identity false = identity ++ codes ":trusted=false"

module _ (write : CanonicalMutation → Outcome (Unit {0})) where
  unfoldable pub move_job : JobKey → JobKey → Coordinator → IndexJob → Coordinator × Outcome JobKey
  move_job old refined c job = on_write (write (update_index_job_key job.id refined.ident)) c (
    record c {
      jobs = insert refined.ident job (remove old.ident c.jobs);
      by_id = insert job.id refined c.by_id;
    },
    done refined,
  )

  unfoldable pub refine_to : JobKey → JobKey → Coordinator → Coordinator × Outcome JobKey
  refine_to old refined c = elim (lookup refined.ident c.jobs) [
    | some _ ↦ (c, done old)
    | none ↦ elim (lookup old.ident c.jobs) [
      | none ↦ (c, fail (panic "running job exists"))
      | some job ↦ move_job old refined c job
    ]
  ]

  unfoldable pub refine_identity : JobKey → Text → Bool → Coordinator → Coordinator × Outcome JobKey
  refine_identity old identity trusted c =
      let generation = refined_generation identity trusted in
      let refined = record old { ident = record (old.ident) { generation = generation } } in
      if text_eq old.ident.generation generation then (c, done old) else refine_to old refined c

-- `recover_index_jobs`: what was queued or running has failed.
unfoldable pub recovered : PersistedIndexJob → PersistedIndexJob
recovered p = elim p.state [
  | queued ↦ record p { state = failed; failure = some (codes interrupted) }
  | running ↦ record p { state = failed; failure = some (codes interrupted) }
  | _ ↦ p
]
  where
    interrupted : String
    interrupted = "indexing was interrupted; hook execution may be uncertain"

unfoldable pub loaded_job : PersistedIndexJob → ℕ → IndexJob
unfolding recovered
loaded_job p now = record (new_job p.id now) {
  state = (recovered p).state;
  failure = (recovered p).failure;
}

unfoldable pub load : ℕ → List PersistedIndexJob → Coordinator → Coordinator
load now [] c = c
load now (p ∷ ps) c = load now ps (record c {
  jobs = insert p.job_key.ident (loaded_job p now) c.jobs;
  by_id = insert p.id p.job_key c.by_id;
})

-- `JobCoordinator::new`.
unfoldable pub start : ℕ → List PersistedIndexJob → Coordinator
start now rows =
    load now rows
      (record { jobs = []; by_id = []; ready_keys = []; demand_jobs = 0; completed_foreground = 0 })
