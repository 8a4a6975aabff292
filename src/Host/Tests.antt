-- ===== src/Host/Tests.antt =====
-- The theorems on the extension host at concrete requests.
use zmem_cache.Host.Permits.{acquires, then_step, stays, IsBalanced}
use zmem_cache.Common.{
  if◌then◌else◌, codes, ok, ◌*◌, if◌then◌else◌, leb, some, err, false, arith, [], ◌≡◌,
  if◌then◌else◌, refl, Result, ◌+◌, ◌∷◌, ℕ, ◌≤◌, zero, List, true, suc,
}
use zmem_cache.Host.{
  admitted_limit, acquire, budget, request_remaining, acquire_turn, run_attempt, identity,
  check_request_deadline, Attempt, run_attempts, default_config, Moment,
}
use zmem_cache.Host.Permits.{
  Steps, IsAcquired, then_step, Steps-IsBalanced, acquire-IsAcquired, stays,
}
use zmem_cache.Git.{Output}
use zmem_cache.Host.Attempts.{Decides, run_attempt_allowed, run_attempts-Decides}

abbrev moment_at : ℕ → Moment
moment_at now = record { cancelled = false; deadline = some 5000; now = now }

-- Two permits, and a third thread that must leave the last one.
one_taken :
    Steps 2 (record { active = 0; holders = [] }) (record { active = 1; holders = false ∷ [] })
unfolding acquire_turn admitted_limit check_request_deadline request_remaining
one_taken = then_step _ _ _ (stays _) (acquires _ false (moment_at 10) 1 refl)

two_taken :
    Steps 2
      (record { active = 0; holders = [] })
      (record { active = 2; holders = true ∷ false ∷ [] })
unfolding acquire_turn admitted_limit check_request_deadline request_remaining
two_taken = then_step _ _ _ one_taken (acquires _ true (moment_at 20) 2 refl)

Steps-IsBalanced_example : IsBalanced 2 (record { active = 2; holders = true ∷ false ∷ [] })
Steps-IsBalanced_example =
    Steps-IsBalanced 2 (record { active = 2; holders = true ∷ false ∷ [] }) (omega arith) two_taken

-- Full at first, then with room.
abbrev wakes : List (Moment × ℕ)
wakes = (moment_at 10, 2) ∷ (moment_at 20, 1) ∷ (moment_at 30, 0) ∷ []

acquire-IsAcquired_example : IsAcquired 2 false wakes (acquire 2 false wakes)
acquire-IsAcquired_example = acquire-IsAcquired 2 false wakes

abbrev failing : ℕ → Result Output
failing budget = err "no process"

abbrev answering : ℕ → Result Output
answering budget = ok (record { success = true; stdout = codes "out" })

-- The first attempt fails and the second one answers.
abbrev attempt_at : ℕ → Attempt
attempt_at zero = record { before = moment_at 10; run = failing; after = moment_at 20 }
attempt_at (suc index) = record { before = moment_at 30; run = answering; after = moment_at 40 }

run_attempts-Decides_example :
    Decides
      (30 * 1000000000)
      attempt_at
      0
      2
      (run_attempts default_config identity (ok tt) attempt_at)
unfolding default_config
run_attempts-Decides_example = run_attempts-Decides default_config identity attempt_at

-- A process that fails over its budget only.
abbrev strict : ℕ → Result Output
strict b = if leb b 4990 then answering b else failing b

strict_lem : (b : ℕ) → 10 + b ≤ 5000 → answering b ≡ strict b
strict_lem b h = let small : leb b 4990 ≡ true = ground arith in rw small refl

run_attempt_allowed_example :
    run_attempt 10000 (record (attempt_at 1) { before = moment_at 10 })
    ≡ run_attempt 10000 (record (attempt_at 1) { before = moment_at 10; run = strict })
run_attempt_allowed_example =
    run_attempt_allowed 10000 (record (attempt_at 1) { before = moment_at 10 }) strict
      (λ b h. strict_lem b (h.1 5000 refl))
