-- ===== src/Host/Attempts.antt =====
-- The attempts at a request of the extension host: which of them decides, and how long each may run.
use Prim.Native.String.{String}
use zmem_cache.Host.{
  Moment, inspection, expansion, lookup_identity, identity, Ending, Config, run_attempt, budget,
  run_attempts, HostOperation, execution_policy, returns, Attempt, attempts_of, fails, attempt_loop,
  request_remaining,
}
use zmem_cache.Common.{
  inr, ◌≡◌, Result, ◌*◌, ℕ, ◌⊎◌, err, some, suc, inl, Text, ◌≤◌, ok, refl, zero, Option, none, ◌+◌,
  arith, Bool-cases, false, ltb, Bool, true, ◌-◌, subst,
}
use zmem_cache.Git.{Output}

-- The answer of the loop: an attempt that returns, all before it having failed, or the error of the
-- last of all.
pub data Decides (deadline : ℕ) (world : ℕ → Attempt) : ℕ → ℕ → Result Text → Type 0 where
  at_once :
      (index left : ℕ) (result : Result Text)
      → run_attempt deadline (world index) ≡ returns result
      → Decides deadline world index (suc left) result
  at_last :
      (index : ℕ) (reason : String)
      → run_attempt deadline (world index) ≡ fails reason
      → Decides deadline world index 1 (err reason)
  after_failure :
      (index left : ℕ) (reason : String) (result : Result Text)
      → run_attempt deadline (world index) ≡ fails reason
      → Decides deadline world (suc index) left result
      → Decides deadline world index (suc left) result

Ending-cases :
    (e : Ending)
    → ((result : Result Text) × (e ≡ returns result)) ⊎ ((reason : String) × (e ≡ fails reason))
Ending-cases (returns result) = inl (result, refl)
Ending-cases (fails reason) = inr (reason, refl)

attempt_loop-Decides :
    (deadline : ℕ) (world : ℕ → Attempt) (index left : ℕ) (last : Option String)
    → Decides deadline world index (suc left) (attempt_loop deadline world index (suc left) last)
unfolding attempt_loop
attempt_loop-Decides deadline world index zero last =
    elim (Ending-cases (run_attempt deadline (world index))) [
      | inl (result, e) ↦ rw e (at_once index 0 result e)
      | inr (reason, e) ↦ rw e (at_last index reason e)
    ]
attempt_loop-Decides deadline world index (suc left) last =
    elim (Ending-cases (run_attempt deadline (world index))) [
      | inl (result, e) ↦ rw e (at_once index (suc left) result e)
      | inr (reason, e) ↦ rw e (
          after_failure index (suc left) reason _ e
            (attempt_loop-Decides deadline world (suc index) left (some reason)))
    ]

attempts_of-cases : (operation : HostOperation) → (left : ℕ) × (attempts_of operation ≡ suc left)
attempts_of-cases identity = (1, refl)
attempts_of-cases lookup_identity = (1, refl)
attempts_of-cases inspection = (1, refl)
attempts_of-cases expansion = (0, refl)

-- A request whose JSON is there is decided, by at most as many attempts as its operation has: by the
-- first one that returns, or by the error of the last when all fail.
pub run_attempts-Decides :
    (config : Config) (operation : HostOperation) (world : ℕ → Attempt)
    → Decides
        (config.extension_host_timeout_seconds * 1000000000)
        world
        0
        (attempts_of operation)
        (run_attempts config operation (ok tt) world)
unfolding run_attempts execution_policy
run_attempts-Decides config operation world =
    let (left, e) = attempts_of-cases operation in
    rw e
      (attempt_loop-Decides (config.extension_host_timeout_seconds * 1000000000) world 0 left none)

-- A budget that the policy and the request allow.
abbrev pub Allows : ℕ → Moment → ℕ → Type 0
Allows deadline m budget =
    (budget ≤ deadline) × ((d : ℕ) → m.deadline ≡ some d → m.now + budget ≤ d)

budget_Allows :
    (limit : ℕ) (cancelled : Bool) (deadline : Option ℕ) (now : ℕ) (o : Option ℕ)
    → request_remaining (record { cancelled = cancelled; deadline = deadline; now = now }) ≡ ok o
    → Allows limit
        (record { cancelled = cancelled; deadline = deadline; now = now })
        (budget limit o)
unfolding request_remaining
budget_Allows limit true deadline now o h = absurd (ground (arith, h))
budget_Allows limit false none now none h = (omega arith, λ d e. absurd (ground (arith, e)))
budget_Allows limit false none now (some b) h = absurd (ground (arith, h))
budget_Allows limit false (some d) now o h = elim (Bool-cases (ltb now d)) [
  | inr over ↦ absurd (ground (arith, h, over))
  | inl more ↦
      let left : some (d - now) ≡ o = ground (arith, h, more) in
      let m : Moment = record { cancelled = false; deadline = some d; now = now } in
      let allowed : Allows limit m (budget limit (some (d - now))) =
        (omega arith, λ k e. ground (arith, e, more)) in
      subst (λ x. Allows limit m (budget limit x)) left allowed
]

Result-cases {ℓ} :
    {A : Type ℓ} (r : Result A) → ((a : A) × (r ≡ ok a)) ⊎ ((reason : String) × (r ≡ err reason))
Result-cases (ok a) = inl (a, refl)
Result-cases (err reason) = inr (reason, refl)

-- An attempt is a matter of allowed budgets only: processes that answer alike for these give the
-- same end.
pub run_attempt_allowed :
    (deadline : ℕ) (a : Attempt) (run : ℕ → Result Output)
    → ((b : ℕ) → Allows deadline a.before b → a.run b ≡ run b)
    → run_attempt deadline a ≡ run_attempt deadline (record a { run = run })
unfolding run_attempt
run_attempt_allowed deadline a run h = elim (Result-cases (request_remaining a.before)) [
  | inl (o, e) ↦
      let m = a.before in
      let allowed = budget_Allows deadline m.cancelled m.deadline m.now o e in
      rw (e, h (budget deadline o) allowed) refl
  | inr (reason, e) ↦ rw e refl
]
