-- ===== src/Lanes.antt =====
-- The lanes of the service's requests: `try_admit`, `ActiveConnection`, `shares_real_history` and
-- the parts of `frame_connection` of crates/zmem-svc/src/main.rs, from a request that was read on. The
-- route, the guard, the load of the count, the note of the highest one and the end are separate
-- steps, since other connections go on in between. What the shared history answers and whether the
-- lane's queue takes the item are arguments.
pub mod Guards
pub mod Framed
pub mod Routes
pub mod Served
pub mod Tests
use Prim.Native.String.{String}
use zmem_cache.Common.{
  some, if◌then◌else◌, is_some, ◌-◌, codes, if◌then◌else◌, ltb, ◌||◌, Option, ◌∷◌, not, ℕ, Text,
  max, true, ◌^◌, [], ◌%◌, if◌then◌else◌, Bool, has_text, ◌&&◌, none, text_eq, lookup, Result,
  false, ◌+◌, err, ok,
}

-- The parts of a `ServiceRequest` that are read.
pub record ServiceRequest : Type 0 where
  pub token : Text
  pub command : Text
  pub deep : Bool
  pub message : Option Text
  pub reference : Option Text

-- The lanes with a counter.
pub data Lane : Type 0 where
  lookup_lane heavy_lane : Lane

-- Handled at once, or sent to a queue: its lane, if it has one, and the message when it is full.
pub data Route : Type 0 where
  at_once : Route
  to_queue : Option Lane → String → Route

unfoldable pub route_of : Text → ServiceRequest → Route
route_of token r =
    if not (text_eq r.token token)
    then at_once
    else if text_eq r.command (codes "query")
    then to_queue (some lookup_lane) "lookup queue is full"
    else if text_eq r.command (codes "add") || text_eq r.command (codes "check")
    then to_queue (some heavy_lane) "service work queue is full"
    else if has_text r.command
        (codes "ping" ∷ codes "stop" ∷ codes "job-status" ∷ codes "job-retry" ∷ [])
    then to_queue none "control queue is full"
    else at_once

-- The count after `try_admit`, if it admits.
unfoldable pub try_admit : ℕ → ℕ → Option ℕ
try_admit count limit = if ltb count limit then some (count + 1) else none

pub record Lanes : Type 0 where
  pub lookup_admitted : ℕ
  pub heavy_admitted : ℕ
  pub peak : ℕ

pub record Limits : Type 0 where
  pub lookup_limit : ℕ
  pub heavy_limit : ℕ

abbrev pub with_lookup : Lanes → Option ℕ → Option Lanes
with_lookup lanes none = none
with_lookup lanes (some count) = some (record lanes { lookup_admitted = count })

abbrev pub with_heavy : Lanes → Option ℕ → Option Lanes
with_heavy lanes none = none
with_heavy lanes (some count) = some (record lanes { heavy_admitted = count })

-- A guard of a lane is taken.
unfoldable pub enter : Limits → Lane → Lanes → Option Lanes
enter limits lookup_lane lanes =
    with_lookup lanes (try_admit lanes.lookup_admitted limits.lookup_limit)
enter limits heavy_lane lanes = with_heavy lanes (try_admit lanes.heavy_admitted limits.heavy_limit)

-- `fetch_max` of the highest count of lookups, with a count that was loaded before.
unfoldable pub note_peak : ℕ → Lanes → Lanes
note_peak loaded lanes = record lanes { peak = max lanes.peak loaded }

-- `Drop for ActiveConnection`; the counters are of 64 bits.
unfoldable pub leave : Lane → Lanes → Lanes
leave lookup_lane lanes = record lanes {
  lookup_admitted = (lanes.lookup_admitted + (2 ^ 64 - 1)) % 2 ^ 64;
}
leave heavy_lane lanes = record lanes {
  heavy_admitted = (lanes.heavy_admitted + (2 ^ 64 - 1)) % 2 ^ 64;
}

unfoldable pub shares_real_history : ServiceRequest → Bool
shares_real_history r =
    text_eq r.command (codes "add")
    || (text_eq r.command (codes "check")
        && not r.deep
        && is_some r.message
        && not (is_some r.reference))

-- How a connection ends here: handled at once, answered, or given to a worker with its guard and the
-- number of commits of the shared history.
pub data Ending : Type 0 where
  handled : Ending
  busy : String → Ending
  failed_with : String → Ending
  queued_with : Option Lane → Option ℕ → Ending

abbrev pub send_item : Option Lane → String → Bool → Option ℕ → Ending
send_item lane message true shared = queued_with lane shared
send_item lane message false shared = busy message

abbrev pub after_history : Option Lane → String → Bool → Result (Option ℕ) → Ending
after_history lane message accepts (err reason) = failed_with reason
after_history lane message accepts (ok shared) = send_item lane message accepts shared

-- The part of `frame_connection` after the guard, whatever the counters are by then.
unfoldable pub finish : Option Lane → String → ServiceRequest → Result (Option ℕ) → Bool → Ending
finish lane message r history accepts =
    if shares_real_history r
    then after_history lane message accepts history
    else send_item lane message accepts none

-- The guard of a connection or of an item is dropped with it, if it has one.
unfoldable pub drop_guard : Option Lane → Lanes → Lanes
drop_guard none lanes = lanes
drop_guard (some lane) lanes = leave lane lanes
