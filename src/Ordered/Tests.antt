-- ===== src/Ordered/Tests.antt =====
-- The threads at three jobs, two at a time.
use zmem_cache.Common.{◌+◌, arith, ◌≡◌, ◌∷◌, some, []}
use zmem_cache.Ordered.{run_ordered}
use zmem_cache.Ordered.Chunks.{run_ordered-map}

run_ordered-map_example : run_ordered (λ n. n + 1) 2 (5 ∷ 6 ∷ 7 ∷ []) ≡ some (6 ∷ 7 ∷ 8 ∷ [])
run_ordered-map_example = run_ordered-map (λ n. n + 1) 2 (5 ∷ 6 ∷ 7 ∷ []) (omega arith)
