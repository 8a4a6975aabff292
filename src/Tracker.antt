-- ===== src/Tracker.antt =====
-- The tracker of recent lookups: crates/zmem-svc/src/demand.rs. An `Instant` is a number of
-- nanoseconds, and each function reads the clock once. What the allocator decides, the capacity of a
-- route's samples after a lookup, is an argument, as are the outcomes of `try_lock` and of
-- `try_advisory_write`. Maps are association lists, sorted by key where they are listed.
pub mod Bounds
pub mod Flush
pub mod Tests
use zmem_cache.Common.{
  is_empty, pair_Eq, text_Eq, length, false, max, ℕ, if◌then◌else◌, List, leb, ltb, ◌-◌,
  if◌then◌else◌, ◌&&◌, ◌/◌, some, ◌*◌, text_eq, ◌+◌, insert, Text, Bool, none, Option, ◌||◌, true,
  [], if◌then◌else◌, ◌∷◌, ◌==◌, is_some, text_le, keep, sort_by, weigh, lookup, ◌%◌, ◌^◌, not, map,
}
use zmem_cache.Demand.{RouteDemand, max_metadata_bytes, expire, max_routes, observe, target}

-- The parts of a `SyncSummary` that are read.
pub record SyncSummary : Type 0 where
  pub repository : Text
  pub route : Text
  pub head : Text
  pub extension_identity : Text
  pub trail_id : Text
  pub selected_commits : ℕ

-- A route with the capacity of its `observations`.
pub record Stored : Type 0 where
  pub demand : RouteDemand
  pub capacity : ℕ

abbrev pub RouteKey : Type 0
RouteKey = Text × Text

pub record Tracker : Type 0 where
  pub routes : List (RouteKey × Stored)
  pub uses : List (Text × ℕ)
  pub credited : List (RouteKey × ℕ)
  pub bytes : ℕ
  pub origin : ℕ
  pub epoch : ℕ
  pub flushed : ℕ

pub record DemandUse : Type 0 where
  pub trail : Text
  pub at : ℕ

pub record AdvisoryBatch : Type 0 where
  pub routes : List RouteDemand
  pub uses : List DemandUse
  pub now : ℕ

abbrev pub half : ℕ
half = max_metadata_bytes / 2

abbrev pub elapsed_seconds : ℕ → ℕ → ℕ
elapsed_seconds instant at = (instant - at) / 1000000000

unfoldable pub size : Stored → ℕ
size s =
    512
    + 3 * (length s.demand.repository + length s.demand.route)
    + length s.demand.oid
    + length s.demand.generation
    + max s.capacity 60 * 32

abbrev pub stored_size : Option Stored → ℕ
stored_size none = 0
stored_size (some s) = size s

-- The loop of `initialize` over the loaded routes.
unfoldable pub load_routes : ℕ → Tracker → List Stored → Tracker
load_routes now t [] = t
load_routes now t (s ∷ rest) =
    let live : Stored = record s { demand = expire now s.demand } in
    let bytes = size live in
    let skips =
      is_empty live.demand.observations
      || leb max_routes (length t.routes)
      || ltb half (t.bytes + bytes) in
    load_routes now
      (if skips then t else record t {
        bytes = t.bytes + bytes;
        routes = insert (live.demand.repository, live.demand.route) live t.routes;
      })
      rest

unfoldable pub initialize : ℕ → ℕ → List Stored → Tracker
initialize now instant routes =
    load_routes now
      (record {
        routes = [];
        uses = [];
        credited = [];
        bytes = 0;
        origin = instant;
        epoch = now;
        flushed = instant;
      })
      routes

abbrev new_route : SyncSummary → Stored
new_route summary = record {
  demand = record {
    repository = summary.repository;
    route = summary.route;
    oid = summary.head;
    generation = summary.extension_identity;
    observations = [];
  };
  capacity = 0;
}

abbrev or_new : SyncSummary → Option Stored → RouteDemand
or_new summary none = (new_route summary).demand
or_new summary (some s) = s.demand

-- A route is credited again a minute after its last credit.
abbrev has_credit : ℕ → Option ℕ → Bool
has_credit instant none = true
has_credit instant (some at) = leb 60 (elapsed_seconds instant at)

-- The last part of `record`: the use of the trail, and whether it was skipped.
unfoldable pub use_trail : ℕ → Text → Tracker → Tracker × Bool
use_trail now trail t =
    if is_some (lookup trail t.uses)
    then (record t { uses = insert trail now t.uses }, false)
    else if ltb (length t.uses) max_routes && leb (t.bytes + length trail + 128) half
    then (record t { bytes = t.bytes + length trail + 128; uses = insert trail now t.uses }, false)
    else (t, true)

-- The route as `record` changes it, and whether a sample was credited.
unfoldable pub credit_route : ℕ → ℕ → SyncSummary → Tracker → RouteDemand × Bool
credit_route now instant summary t =
    let key : RouteKey = (summary.repository, summary.route) in
    let found = or_new summary (lookup key t.routes) in
    let route : RouteDemand = record found {
      oid = summary.head;
      generation = summary.extension_identity;
    } in
    if has_credit instant (lookup key t.credited)
    then observe now summary.selected_commits route
    else (route, false)

-- `record` under the lock. `capacity` is that of the changed route's samples.
unfoldable pub record_lookup : ℕ → ℕ → SyncSummary → Tracker → Tracker × Bool
record_lookup instant capacity summary t =
    let now = t.epoch + elapsed_seconds instant t.origin in
    let key : RouteKey = (summary.repository, summary.route) in
    let previous_size = stored_size (lookup key t.routes) in
    let credited = credit_route now instant summary t in
    let route : Stored = record { demand = credited.0; capacity = capacity } in
    let bytes = t.bytes - previous_size + size route in
    if (previous_size == 0 && leb max_routes (length t.routes)) || ltb half bytes
    then (t, true)
    else use_trail now summary.trail_id (record t {
      bytes = bytes;
      credited = if credited.1 then insert key instant t.credited else t.credited;
      routes = insert key route t.routes;
    })

-- The static state: the tracker once it is initialized, and the count of skipped lookups.
pub record Statics : Type 0 where
  pub tracker : Option Tracker
  pub skipped : ℕ

unfoldable pub skip_if : Bool → ℕ → ℕ
skip_if skips skipped = if skips then (skipped + 1) % 2 ^ 64 else skipped

abbrev recorded : ℕ → Tracker × Bool → Statics
recorded skipped (t, skips) = record { tracker = some t; skipped = skip_if skips skipped }

-- `record`: nothing waits for the lock.
unfoldable pub try_record : Bool → ℕ → ℕ → SyncSummary → Statics → Statics
try_record locked instant capacity summary s = elim s.tracker [
  | none ↦ s
  | some t ↦
      if locked
      then record s { skipped = skip_if true s.skipped }
      else recorded s.skipped (record_lookup instant capacity summary t)
]

-- The order of a `BTreeMap` with pairs as keys.
abbrev key_le : RouteKey → RouteKey → Bool
key_le a b = if text_eq a.0 b.0 then text_le a.1 b.1 else text_le a.0 b.0

unfoldable pub listed : List (RouteKey × Stored) → List RouteDemand
listed routes = map (λ r. r.1.demand) (sort_by (λ a b. key_le a.0 b.0) routes)

-- `retain` after the routes have expired.
unfoldable pub retained : ℕ → List (RouteKey × Stored) → List (RouteKey × Stored)
retained now [] = []
retained now ((key, s) ∷ rest) =
    let live : Stored = record s { demand = expire now s.demand } in
    if is_empty live.demand.observations then retained now rest else (key, live) ∷ retained now rest

-- The sums of sizes.
abbrev pub route_bytes : List (RouteKey × Stored) → ℕ
route_bytes = weigh (λ key s. size s)

abbrev pub use_bytes : List (Text × ℕ) → ℕ
use_bytes = weigh (λ trail at. length trail + 128)

-- `filter_map` over the listed routes.
abbrev pub with_target : RouteDemand → Option ℕ → List (RouteDemand × ℕ) → List (RouteDemand × ℕ)
with_target r none rest = rest
with_target r (some depth) rest = (r, depth) ∷ rest

abbrev pub targets_of : ℕ → ℕ → List RouteDemand → List (RouteDemand × ℕ)
targets_of now ceiling [] = []
targets_of now ceiling (r ∷ rs) = with_target r (target r now ceiling) (targets_of now ceiling rs)

unfoldable pub snapshot : ℕ → Tracker → AdvisoryBatch
snapshot now t = record {
  routes = listed t.routes;
  uses = map (λ u. record { trail = u.0; at = u.1 }) t.uses;
  now = now;
}

-- The flush in `targets`: `accepts` tells whether the writer takes a batch.
unfoldable pub flush : ℕ → ℕ → Bool → Tracker → Tracker × Option AdvisoryBatch
flush now instant accepts t =
    if not (leb 5 (elapsed_seconds instant t.flushed))
    then (t, none)
    else if accepts
    then (
      record t { flushed = instant; uses = []; bytes = route_bytes t.routes },
      some (snapshot now t),
    )
    else (record t { flushed = instant }, none)

unfoldable pub prune : ℕ → Tracker → Tracker
prune now t =
    let routes = retained now t.routes in
    record t {
      routes = routes;
      credited = keep (λ c. is_some (lookup c.0 routes)) t.credited;
      bytes = route_bytes routes + use_bytes t.uses;
    }

-- `targets` under the lock: the tracker, the batch that was accepted, and the answer.
unfoldable pub targets :
    ℕ → ℕ → Bool → Tracker → Tracker × Option AdvisoryBatch × List (RouteDemand × ℕ)
targets instant ceiling accepts t =
    let now = t.epoch + elapsed_seconds instant t.origin in
    let flushed = flush now instant accepts (prune now t) in
    (flushed.0, flushed.1, targets_of now ceiling (listed flushed.0.routes))
