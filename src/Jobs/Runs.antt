-- ===== src/Jobs/Runs.antt =====
-- Runs of the coordinator: requests admit and retry in any order, between the steps of the one
-- worker.
use zmem_cache.Jobs.Queue.{IsSound, IsQueue}
use zmem_cache.Jobs.Admission.{admit-IsSound, retry-IsSound}
use zmem_cache.Jobs.Finish.{IsTaken, take_job_lem, finish_job-IsSound}
use zmem_cache.Jobs.Refine.{key_after, refine_identity-IsSound}
use zmem_cache.Common.{
  Bool, List, arith, ◌≡◌, Option, some, refl, none, subst, ℕ, [], Text, ◌∷◌, sym, ap, Unique,
  Unique-insert, length,
}
use zmem_cache.Jobs.{
  retry, start, CanonicalMutation, load, admit, take_job, Outcome, JobKey, finish_job,
  refine_identity, Coordinator, done, PersistedIndexJob, SyncResult, Ident, loaded_job, IndexJob,
  ident_Eq,
}

-- The coordinator, and the key that the worker holds.
pub record System : Type 0 where
  pub coordinator : Coordinator
  pub held : Option JobKey

abbrev pub held_keys : Option JobKey → List JobKey
held_keys none = []
held_keys (some key) = key ∷ []

-- A step under the queue's lock; what the writes and the random source answer is the environment's.
pub data Step (s : System) : System → Type 0 where
  admits :
      (write : CanonicalMutation → Outcome (Unit {0})) (random : Outcome (List ℕ)) (now : ℕ)
      (key : JobKey)
      → Step s (record s { coordinator = (admit write random now s.coordinator key).0 })
  retries :
      (write : CanonicalMutation → Outcome (Unit {0})) (random : Outcome (List ℕ)) (now : ℕ)
      (id : Text)
      → Step s (record s { coordinator = (retry write random now s.coordinator id).0 })
  takes :
      (now : ℕ) (key : JobKey)
      → s.held ≡ none
      → (take_job now s.coordinator).1 ≡ done (some key)
      → Step s (record { coordinator = (take_job now s.coordinator).0; held = some key })
  refines :
      (write : CanonicalMutation → Outcome (Unit {0})) (old : JobKey) (identity : Text)
      (trusted : Bool)
      → s.held ≡ some old
      → Step s (record {
        coordinator = (refine_identity write old identity trusted s.coordinator).0;
        held = some (key_after old (refine_identity write old identity trusted s.coordinator).1);
      })
  finishes :
      (now : ℕ) (key : JobKey) (result : SyncResult)
      → s.held ≡ some key
      → Step s (record { coordinator = finish_job now key result s.coordinator; held = none })

pub data Reach (s : System) : System → Type 0 where
  here : Reach s s
  next : {t u : System} → Reach s t → Step t u → Reach s u

abbrev pub IsSystem : System → Type 0
IsSystem s = IsSound s.coordinator (held_keys s.held)

taken_key :
    (now : ℕ) (c : Coordinator) (key : JobKey) (keys : List JobKey)
    → c.ready_keys ≡ keys
    → IsTaken now c [] keys
    → (take_job now c).1 ≡ done (some key)
    → IsSound (take_job now c).0 (key ∷ [])
taken_key now c key [] e t h = absurd (ground arith)
taken_key now c key (k ∷ rest) e t h =
    let same : k ≡ key = ground arith in subst (λ x. IsSound (take_job now c).0 (x ∷ [])) same t.2

Step-IsSystem : {s t : System} → Step s t → IsSystem s → IsSystem t
Step-IsSystem {s} (admits write random now key) q =
    admit-IsSound write random now (held_keys s.held) s.coordinator key q
Step-IsSystem {s} (retries write random now id) q =
    retry-IsSound write random now (held_keys s.held) s.coordinator id q
Step-IsSystem {s} (takes now key e h) q =
    let q' : IsSound s.coordinator [] = subst (λ x. IsSound s.coordinator (held_keys x)) e q in
    taken_key now s.coordinator key s.coordinator.ready_keys refl
      (take_job_lem now s.coordinator [] q') h
Step-IsSystem {s} (refines write old identity trusted e) q =
    refine_identity-IsSound write old identity trusted s.coordinator []
      (subst (λ x. IsSound s.coordinator (held_keys x)) e q)
Step-IsSystem {s} (finishes now key result e) q =
    finish_job-IsSound now key result s.coordinator [] (omega arith)
      (subst (λ x. IsSound s.coordinator (held_keys x)) e q)

resting : (jobs : List (Ident × IndexJob)) → Unique jobs → IsQueue jobs [] []
resting jobs u = record {
  bounded = omega arith;
  all_queued = tt;
  all_running = tt;
  distinct = tt;
  distinct_held = tt;
  unique = u;
}

load-IsSound :
    (now : ℕ) (rows : List PersistedIndexJob) (c : Coordinator)
    → Unique c.jobs
    → c.ready_keys ≡ []
    → c.demand_jobs ≡ 0
    → IsSound (load now rows c) []
unfolding load
load-IsSound now [] c u e d = record {
  queue = subst (λ x. IsQueue c.jobs x []) (sym e) (resting c.jobs u);
  counted = omega (arith, ap length e);
}
load-IsSound now (p ∷ ps) c u e d =
    load-IsSound now ps _ (Unique-insert p.job_key.ident (loaded_job p now) c.jobs u) e d

abbrev pub start_system : ℕ → List PersistedIndexJob → System
start_system now rows = record { coordinator = start now rows; held = none }

Reach-IsSystem : {s t : System} → IsSystem s → Reach s t → IsSystem t
Reach-IsSystem q here = q
Reach-IsSystem q (next r st) = Step-IsSystem st (Reach-IsSystem q r)

start-IsSystem : (now : ℕ) (rows : List PersistedIndexJob) → IsSystem (start_system now rows)
unfolding start
start-IsSystem now rows = load-IsSound now rows _ tt refl refl

-- In every run from a restart, whatever is admitted, retried and written: at most thirty-two keys
-- wait, each once and with a queued job; the worker's key has a running job and does not wait; and
-- the demand counter is the number of both.
pub runs-IsSystem :
    (now : ℕ) (rows : List PersistedIndexJob) {s : System}
    → Reach (start_system now rows) s
    → IsSystem s
runs-IsSystem now rows r = Reach-IsSystem (start-IsSystem now rows) r
