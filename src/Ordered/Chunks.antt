-- ===== src/Ordered/Chunks.antt =====
-- `run_ordered` ends, and answers for every job in the order of the jobs.
use zmem_cache.Common.{
  ℕ, arith, leb, ◌++◌, List, true, ◌<◌, SortedBy, zero, ◌≡◌, length, refl, [], ap, append-nil, ◌∷◌,
  some, ◌∷◌, suc, sym, ◌≤◌, le→leb, map, All, drop, sort_by_of_SortedBy, take-append-drop,
  append_assoc, ◌∙◌, length-drop, take,
}
use zmem_cache.Ordered.{chunk_loop, enumerate_from, join_chunk, by_index, run_ordered, in_order}

module _ {T R : Type 0} (worker : T → R) where
  join_chunk-append :
      (xs ys : List (ℕ × T))
      → join_chunk worker (xs ++ ys) ≡ join_chunk worker xs ++ join_chunk worker ys
  join_chunk-append [] ys = refl
  join_chunk-append ((index, job) ∷ xs) ys = ap (◌∷◌ (index, worker job)) (join_chunk-append xs ys)

  -- Fuel over the number of pending jobs is enough.
  chunk_loop_lem :
      (fuel limit : ℕ) (pending : List (ℕ × T)) (completed : List (ℕ × R))
      → length pending < fuel
      → chunk_loop worker fuel (suc limit) pending completed
        ≡ some (completed ++ join_chunk worker pending)
  unfolding chunk_loop
  chunk_loop_lem zero limit pending completed h = absurd (omega (arith, h))
  chunk_loop_lem (suc fuel) limit [] completed h = ap some (sym (append-nil completed))
  chunk_loop_lem (suc fuel) limit (p ∷ ps) completed h =
      let done = completed ++ join_chunk worker (take (suc limit) (p ∷ ps)) in
      let left = drop limit ps in
      let parts = join_chunk-append (p ∷ take limit ps) left in
      chunk_loop_lem fuel limit left done (omega (arith, length-drop limit ps, h))
      ∙ ap some (
          append_assoc completed (join_chunk worker (p ∷ take limit ps)) (join_chunk worker left)
          ∙ ap (λ x. completed ++ x)
              (sym parts ∙ ap (λ x. join_chunk worker (p ∷ x)) (take-append-drop limit ps)))

  length-enumerate_from : (n : ℕ) (jobs : List T) → length (enumerate_from n jobs) ≡ length jobs
  length-enumerate_from n [] = refl
  length-enumerate_from n (job ∷ jobs) = ap suc (length-enumerate_from (suc n) jobs)

  All-joined :
      (m n : ℕ) (jobs : List T)
      → m ≤ n
      → All (λ r. leb m r.0 ≡ true) (join_chunk worker (enumerate_from n jobs))
  All-joined m n [] h = tt
  All-joined m n (job ∷ jobs) h = (le→leb m n h, All-joined m (suc n) jobs (omega (arith, h)))

  joined-SortedBy :
      (n : ℕ) (jobs : List T)
      → SortedBy (by_index worker) (join_chunk worker (enumerate_from n jobs))
  joined-SortedBy n [] = tt
  joined-SortedBy n (job ∷ jobs) =
      (All-joined n (suc n) jobs (omega arith), joined-SortedBy (suc n) jobs)

  map-joined :
      (n : ℕ) (jobs : List T)
      → map (λ (c : ℕ × R). c.1) (join_chunk worker (enumerate_from n jobs)) ≡ map worker jobs
  map-joined n [] = refl
  map-joined n (job ∷ jobs) = ap (◌∷◌ (worker job)) (map-joined (suc n) jobs)

  -- Under a limit that is not zero the jobs all end, in chunks of any size, and the answers are those
  -- of the worker, one for each job and in the order of the jobs.
  pub run_ordered-map :
      (limit : ℕ) (jobs : List T)
      → 0 < limit
      → run_ordered worker limit jobs ≡ some (map worker jobs)
  unfolding run_ordered
  run_ordered-map zero jobs h = absurd (omega (arith, h))
  run_ordered-map (suc limit) jobs h =
      let pending = enumerate_from 0 jobs in
      let enough : length pending < suc (length jobs) =
        omega (arith, length-enumerate_from 0 jobs) in
      ap (in_order worker) (chunk_loop_lem (suc (length jobs)) limit pending [] enough)
      ∙ ap (λ x. some (map (λ (c : ℕ × R). c.1) x))
          (sort_by_of_SortedBy (by_index worker) (join_chunk worker pending)
            (joined-SortedBy 0 jobs))
      ∙ ap some (map-joined 0 jobs)
