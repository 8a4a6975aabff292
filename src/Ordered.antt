-- ===== src/Ordered.antt =====
-- Jobs on threads, a chunk at a time: `run_ordered` of crates/zmem-core/src/lib.rs. A thread is the
-- call of its worker; the threads of a chunk are joined in the order in which they were started.
pub mod Chunks
pub mod Tests
use zmem_cache.Common.{
  is_empty, ℕ, take, if◌then◌else◌, leb, ◌++◌, drop, List, zero, sort_by, length, [], if◌then◌else◌,
  ◌∷◌, Bool, some, none, if◌then◌else◌, suc, Option, map,
}

-- `enumerate`.
abbrev pub enumerate_from {ℓ} : {A : Type ℓ} → ℕ → List A → List (ℕ × A)
enumerate_from n [] = []
enumerate_from n (x ∷ xs) = (n, x) ∷ enumerate_from (suc n) xs

module _ {T R : Type 0} (worker : T → R) where
  -- The answers of a chunk, each with the index of its job.
  abbrev pub join_chunk : List (ℕ × T) → List (ℕ × R)
  join_chunk [] = []
  join_chunk ((index, job) ∷ rest) = (index, worker job) ∷ join_chunk rest

  -- The loop, on fuel; none when the fuel is not enough.
  unfoldable pub chunk_loop : ℕ → ℕ → List (ℕ × T) → List (ℕ × R) → Option (List (ℕ × R))
  chunk_loop zero limit pending completed = none
  chunk_loop (suc fuel) limit pending completed =
      let chunk = take limit pending in
      let rest = chunk_loop fuel limit (drop limit pending) (completed ++ join_chunk chunk) in
      if is_empty chunk then some completed else rest

  abbrev pub by_index : ℕ × R → ℕ × R → Bool
  by_index a b = leb a.0 b.0

  abbrev pub in_order : Option (List (ℕ × R)) → Option (List R)
  in_order none = none
  in_order (some completed) = some (map (λ c. c.1) (sort_by by_index completed))

  -- None where the assertion on the limit fails.
  unfoldable pub run_ordered : ℕ → List T → Option (List R)
  run_ordered zero jobs = none
  run_ordered (suc limit) jobs =
      in_order (chunk_loop (suc (length jobs)) (suc limit) (enumerate_from 0 jobs) [])
