-- ===== src/Jobs/Tests.antt =====
-- The coordinator's theorems at concrete states.
use zmem_cache.Jobs.Queue.{IsSound}
use zmem_cache.Jobs.Runs.{
  System, admits, takes, Reach, here, next, IsSystem, start_system, runs-IsSystem,
}
use zmem_cache.Jobs.Ids.{failed_eviction-retry}
use zmem_cache.Common.{
  List, arith, ◌≡◌, text_eq, refl, ◌∷◌, codes, none, ℕ, [], Text, suc, insert, zero, some, lookup,
}
use zmem_cache.Jobs.{
  ident_eq, admit, new_job, queued, Outcome, retry, Coordinator, failed, ready, JobKey, JobState,
  done, running, IndexJob, CanonicalMutation, fail, insert_index_job, Ident, remove_index_job, load,
  admit_new, set_index_job_state, create, find_done, take_job, start, update_index_job_key,
  write_failed, enqueue, take_first, panic, ident_Eq,
}

abbrev writes : CanonicalMutation → Outcome (Unit {0})
writes m = done tt

abbrev random_bytes : Outcome (List ℕ)
random_bytes = done (18 ∷ 171 ∷ [])

-- A key, by its path.
abbrev key_of : ℕ → JobKey
key_of n = record {
  ident = record {
    path = n ∷ [];
    reference = none;
    observed_oid = codes "a1";
    commit_limit = none;
    node_limit = none;
    generation = codes "g";
  };
  route = codes "refs/heads/main";
}

abbrev job_in : JobState → ℕ → IndexJob
job_in st n = record (new_job (n ∷ []) 0) { state = st }

-- One waiting, one running, one failed and one finished job.
abbrev busy : Coordinator
busy = record {
  jobs =
      ((key_of 1).ident, job_in queued 1)
      ∷ ((key_of 2).ident, job_in running 2)
      ∷ ((key_of 3).ident, job_in failed 3)
      ∷ ((key_of 4).ident, job_in ready 4)
      ∷ [];
  by_id = (1 ∷ [], key_of 1) ∷ (2 ∷ [], key_of 2) ∷ (3 ∷ [], key_of 3) ∷ (4 ∷ [], key_of 4) ∷ [];
  ready_keys = key_of 1 ∷ [];
  demand_jobs = 2;
  completed_foreground = 0;
}

busy-IsSound : IsSound busy (key_of 2 ∷ [])
unfolding lookup ident_eq text_eq
busy-IsSound = record {
  queue = record {
    bounded = omega arith;
    all_queued = ((job_in queued 1, refl, refl), tt);
    all_running = ((job_in running 2, refl, refl), tt);
    distinct = (tt, tt);
    distinct_held = (tt, tt);
    unique = (refl, (refl, (refl, (refl, tt))));
  };
  counted = refl;
}

abbrev after_admit : System
after_admit = record {
  coordinator = (admit writes random_bytes 7 (start_system 0 []).coordinator (key_of 5)).0;
  held = none;
}

abbrev after_take : System
after_take = record { coordinator = (take_job 8 after_admit.coordinator).0; held = some (key_of 5) }

after_take-Reach : Reach (start_system 0 []) after_take
unfolding admit admit_new create enqueue start load take_job take_first lookup insert ident_eq
    text_eq
after_take-Reach =
    next (next here (admits writes random_bytes 7 (key_of 5))) (takes 8 (key_of 5) refl refl)

runs-IsSystem_example : IsSystem after_take
runs-IsSystem_example = runs-IsSystem 0 [] after_take-Reach

-- A map of `n` finished jobs, the ids of which lead to their keys.
abbrev finished_jobs : ℕ → List (Ident × IndexJob)
finished_jobs zero = []
finished_jobs (suc n) = ((key_of n).ident, job_in ready n) ∷ finished_jobs n

abbrev finished_ids : ℕ → List (Text × JobKey)
finished_ids zero = []
finished_ids (suc n) = (n ∷ [], key_of n) ∷ finished_ids n

abbrev full : Coordinator
full = record {
  jobs = finished_jobs 256;
  by_id = finished_ids 256;
  ready_keys = [];
  demand_jobs = 0;
  completed_foreground = 0;
}

-- A database that refuses to remove a row.
abbrev refuses : CanonicalMutation → Outcome (Unit {0})
refuses (remove_index_job id) = fail (write_failed (codes "database is locked"))
refuses (insert_index_job id k) = done tt
refuses (set_index_job_state id st e) = done tt
refuses (update_index_job_key id k) = done tt

failed_eviction-retry_example :
    (retry refuses random_bytes 7 (admit refuses random_bytes 7 full (key_of 300)).0 (255 ∷ [])).1
    ≡ fail (panic "indexed job exists")
unfolding lookup ident_eq text_eq find_done new_job
failed_eviction-retry_example =
    failed_eviction-retry refuses random_bytes 7 full (key_of 300) (key_of 255) (job_in ready 255)
      (write_failed (codes "database is locked")) refl (omega arith) (omega arith) refl refl refl
