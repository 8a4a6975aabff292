-- ===== src/Host.antt =====
-- Running the extension host: `Config`, `HostPermit`, `HostOperation`, `request_remaining` and
-- `execute_host_output_supervised` of crates/zmem-svc/src/lib.rs. Durations and instants are numbers
-- of nanoseconds. An error holds the text of its outermost context, without the names in it.
pub mod Permits
pub mod Attempts
pub mod Tests
use Prim.Native.String.{String}
use zmem_cache.Common.{
  ◌==◌, [], ◌∷◌, true, if◌then◌else◌, ensure, if◌then◌else◌, zero, Bool, ltb, ◌||◌, min, none, ◌-◌,
  leb, if◌then◌else◌, false, suc, ok, not, ◌>>=◌, Option, some, List, err, ℕ, ◌+◌, ◌*◌, Result,
  Text, ◌>>◌,
}
use zmem_cache.Git.{Output}

-- A `NonZeroUsize` or `NonZeroU64` is a number that is not 0.
pub record Config : Type 0 where
  pub max_concurrency : ℕ
  pub lookup_capacity : ℕ
  pub lookup_queue_capacity : ℕ
  pub heavy_capacity : ℕ
  pub connection_capacity : ℕ
  pub extension_host_timeout_seconds : ℕ
  pub max_entries : ℕ
  pub protect_recent_days : ℕ
  pub extension_host : Option Text
  pub extension_host_args : List Text
  pub background_commit_limit : ℕ
  pub staging_max_bytes : ℕ

unfoldable pub default_config : Config
default_config = record {
  max_concurrency = 8;
  lookup_capacity = 2;
  lookup_queue_capacity = 64;
  heavy_capacity = 32;
  connection_capacity = 128;
  extension_host_timeout_seconds = 30;
  max_entries = 3000000;
  protect_recent_days = 14;
  extension_host = none;
  extension_host_args = [];
  background_commit_limit = 10000;
  staging_max_bytes = 256 * 1024 * 1024;
}

unfoldable pub validate : Config → Result (Unit {0})
validate c = do
  ensure (leb c.lookup_capacity 64) "lookup_capacity exceeds 64"
  ensure (leb c.lookup_queue_capacity c.connection_capacity)
      "lookup_queue_capacity exceeds connection_capacity"
  ensure (leb c.heavy_capacity 256) "heavy_capacity exceeds 256"
  ensure (leb c.connection_capacity 1024) "connection_capacity exceeds 1024"
  ensure (ltb (c.lookup_capacity + c.heavy_capacity) c.connection_capacity)
      "connection_capacity must exceed lookup_capacity plus heavy_capacity"

-- `load`: a file that is there is read and parsed, and what comes of it is the argument.
unfoldable pub load_config : Option (Result Config) → Result Config
load_config file = do
  config ← elim file [ some parsed ↦ parsed | none ↦ ok default_config ]
  validate config
  ok config

pub data HostOperation : Type 0 where
  identity lookup_identity inspection expansion : HostOperation

abbrev pub is_lookup_identity : HostOperation → Bool
is_lookup_identity lookup_identity = true
is_lookup_identity _ = false

pub record HostExecutionPolicy : Type 0 where
  pub attempts : ℕ
  pub deadline : ℕ

abbrev pub attempts_of : HostOperation → ℕ
attempts_of identity = 2
attempts_of lookup_identity = 2
attempts_of inspection = 2
attempts_of expansion = 1

unfoldable pub execution_policy : HostOperation → Config → HostExecutionPolicy
execution_policy operation config = record {
  attempts = attempts_of operation;
  deadline = config.extension_host_timeout_seconds * 1000000000;
}

-- The request at a moment: its token, its deadline and the clock.
pub record Moment : Type 0 where
  pub cancelled : Bool
  pub deadline : Option ℕ
  pub now : ℕ

abbrev pub time_left : ℕ → Option ℕ → Result (Option ℕ)
time_left now none = ok none
time_left now (some deadline) =
    if ltb now deadline then ok (some (deadline - now)) else err "service request deadline expired"

unfoldable pub request_remaining : Moment → Result (Option ℕ)
request_remaining m = do
  ensure (not m.cancelled) "service request cancelled"
  time_left m.now m.deadline

unfoldable pub check_request_deadline : Moment → Result (Unit {0})
check_request_deadline m = request_remaining m >>= λ remaining. ok tt

-- The permits that an operation may take: one is kept for looking up an identity.
unfoldable pub admitted_limit : ℕ → Bool → ℕ
admitted_limit limit for_lookup = if for_lookup || limit == 1 then limit else limit - 1

-- A turn of the loop in `acquire`, under the lock: a wait, an error, or a permit and the new count.
pub data Turn : Type 0 where
  waits : ℕ → Turn
  refused : String → Turn
  permitted : ℕ → Turn

abbrev pub poll : ℕ
poll = 10000000

abbrev pub interval_of : Option ℕ → ℕ
interval_of none = poll
interval_of (some remaining) = min remaining poll

abbrev pub wait_turn : Result (Option ℕ) → Turn
wait_turn (err reason) = refused reason
wait_turn (ok remaining) = waits (interval_of remaining)

abbrev pub give_turn : ℕ → Result (Unit {0}) → Turn
give_turn active (err reason) = refused reason
give_turn active (ok u) = permitted (active + 1)

unfoldable pub acquire_turn : ℕ → Bool → Moment → ℕ → Turn
acquire_turn limit for_lookup m active =
    if leb (admitted_limit limit for_lookup) active
    then wait_turn (request_remaining m)
    else give_turn active (check_request_deadline m)

abbrev pub after_turn : Turn → Option (Result ℕ) → Option (Result ℕ)
after_turn (waits interval) later = later
after_turn (refused reason) later = some (err reason)
after_turn (permitted count) later = some (ok count)

-- `acquire` over the moments at which it wakes, each with the count it finds: the first turn that
-- does not wait, if there is one.
unfoldable pub acquire : ℕ → Bool → List (Moment × ℕ) → Option (Result ℕ)
acquire limit for_lookup [] = none
acquire limit for_lookup ((m, active) ∷ wakes) =
    after_turn (acquire_turn limit for_lookup m active) (acquire limit for_lookup wakes)

-- `Drop for HostPermit`.
unfoldable pub release : ℕ → ℕ
release active = active - 1

-- What an attempt meets: the request before it, the supervised process by its budget, and the
-- request after it.
pub record Attempt : Type 0 where
  pub before : Moment
  pub run : ℕ → Result Output
  pub after : Moment

abbrev pub budget : ℕ → Option ℕ → ℕ
budget deadline none = deadline
budget deadline (some remaining) = min remaining deadline

-- How an attempt ends: the loop returns, or keeps the error and goes on.
pub data Ending : Type 0 where
  returns : Result Text → Ending
  fails : String → Ending

abbrev pub failed_run : Result (Option ℕ) → Ending
failed_run (err stopped) = returns (err stopped)
failed_run (ok remaining) = fails "could not run extension host"

abbrev pub end_of : Moment → Result Output → Ending
end_of after (ok output) =
    if output.success then returns (ok output.stdout) else fails "extension host failed"
end_of after (err reason) = failed_run (request_remaining after)

abbrev pub start_attempt : ℕ → Attempt → Result (Option ℕ) → Ending
start_attempt deadline a (err stopped) = returns (err stopped)
start_attempt deadline a (ok remaining) = end_of a.after (a.run (budget deadline remaining))

unfoldable pub run_attempt : ℕ → Attempt → Ending
run_attempt deadline a = start_attempt deadline a (request_remaining a.before)

-- The error at the end of the loop; `expect` fails without one.
abbrev pub last_error : Option String → Result Text
last_error none = err "host execution policy has at least one attempt"
last_error (some reason) = err reason

abbrev pub after_attempt : Ending → (String → Result Text) → Result Text
after_attempt (returns result) next = result
after_attempt (fails reason) next = next reason

-- The loop over `attempts`, from the attempt of this index on.
unfoldable pub attempt_loop : ℕ → (ℕ → Attempt) → ℕ → ℕ → Option String → Result Text
attempt_loop deadline world index zero last = last_error last
attempt_loop deadline world index (suc left) last =
    after_attempt (run_attempt deadline (world index))
      (λ reason. attempt_loop deadline world (suc index) left (some reason))

-- What follows once the permit is there: the request as JSON may fail.
unfoldable pub run_attempts :
    Config → HostOperation → Result (Unit {0}) → (ℕ → Attempt) → Result Text
run_attempts config operation input world =
    let policy = execution_policy operation config in
    input >> attempt_loop policy.deadline world 0 policy.attempts none

abbrev pub with_permit : Option (Result ℕ) → Result Text → Option (Result Text)
with_permit none result = none
with_permit (some (err reason)) result = some (err reason)
with_permit (some (ok count)) result = some result

-- `execute_host_output_supervised`: nothing while it waits for a permit.
unfoldable pub execute_host :
    Config
    → HostOperation
    → List (Moment × ℕ)
    → Result (Unit {0})
    → (ℕ → Attempt)
    → Option (Result Text)
execute_host config operation wakes input world =
    with_permit (acquire config.max_concurrency (is_lookup_identity operation) wakes)
      (run_attempts config operation input world)
