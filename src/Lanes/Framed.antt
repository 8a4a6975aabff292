-- ===== src/Lanes/Framed.antt =====
-- Connections that are framed and items that are worked on, in any order.
use Prim.Native.String.{String}
use zmem_cache.Lanes.{
  handled, busy, failed_with, queued_with, to_queue, lookup_lane, heavy_lane, Lanes, drop_guard,
  Lane, note_peak, Ending, finish, route_of, ServiceRequest, enter, Limits,
}
use zmem_cache.Common.{
  true, ◌++◌, [], ◌∷◌, ◌≢◌, Option, Bool, ◌⊎◌, ◌≡◌, Result, All, none, Text, ℕ, codes, is_some,
  false, Any, List, some,
}
use zmem_cache.Lanes.Guards.{IsCounted}

-- A connection after its guard is taken and before its end, and an item of a worker.
pub record Frame : Type 0 where
  pub request : ServiceRequest
  pub message : String
  pub guard : Option Lane

pub record Item : Type 0 where
  pub request : ServiceRequest
  pub guard : Option Lane
  pub shared : Option ℕ

pub record Service : Type 0 where
  pub lanes : Lanes
  pub loaded : List ℕ
  pub framing : List Frame
  pub items : List Item

abbrev pub IsQueued : Ending → Type 0
IsQueued (queued_with given shared) = Unit
IsQueued handled = ⊥
IsQueued (busy message) = ⊥
IsQueued (failed_with reason) = ⊥

-- A step of one connection or worker. A connection that finds no room, or is handled at once, holds no
-- guard and leaves the counters.
-- The count of lookups may be loaded at any time, which covers the load after a query has its guard.
pub data FrameStep (limits : Limits) (token : Text) : Service → Service → Type 0 where
  enters :
      (v : Service) (r : ServiceRequest) (message : String) (lane : Lane) (lanes : Lanes)
      → route_of token r ≡ to_queue (some lane) message
      → enter limits lane v.lanes ≡ some lanes
      → FrameStep limits token v (record v {
        lanes = lanes;
        framing = record { request = r; message = message; guard = some lane } ∷ v.framing;
      })
  passes :
      (v : Service) (r : ServiceRequest) (message : String)
      → route_of token r ≡ to_queue none message
      → FrameStep limits token v (record v {
        framing = record { request = r; message = message; guard = none } ∷ v.framing;
      })
  loads :
      (v : Service)
      → FrameStep limits token v (record v { loaded = v.lanes.lookup_admitted ∷ v.loaded })
  notes :
      (lanes : Lanes) (before after : List ℕ) (count : ℕ) (framing : List Frame) (items : List Item)
      → FrameStep limits token
          (record {
            lanes = lanes;
            loaded = before ++ (count ∷ after);
            framing = framing;
            items = items;
          })
          (record {
            lanes = note_peak count lanes;
            loaded = before ++ after;
            framing = framing;
            items = items;
          })
  sends :
      (lanes : Lanes) (loaded : List ℕ) (before after : List Frame) (f : Frame) (items : List Item)
      (history : Result (Option ℕ)) (accepts : Bool) (given : Option Lane) (shared : Option ℕ)
      → finish f.guard f.message f.request history accepts ≡ queued_with given shared
      → FrameStep limits token
          (record {
            lanes = lanes;
            loaded = loaded;
            framing = before ++ (f ∷ after);
            items = items;
          })
          (record {
            lanes = lanes;
            loaded = loaded;
            framing = before ++ after;
            items = record { request = f.request; guard = given; shared = shared } ∷ items;
          })
  ends :
      (lanes : Lanes) (loaded : List ℕ) (before after : List Frame) (f : Frame) (items : List Item)
      (history : Result (Option ℕ)) (accepts : Bool)
      → ¬ IsQueued (finish f.guard f.message f.request history accepts)
      → FrameStep limits token
          (record {
            lanes = lanes;
            loaded = loaded;
            framing = before ++ (f ∷ after);
            items = items;
          })
          (record {
            lanes = drop_guard f.guard lanes;
            loaded = loaded;
            framing = before ++ after;
            items = items;
          })
  works_off :
      (lanes : Lanes) (loaded : List ℕ) (framing : List Frame) (before after : List Item) (i : Item)
      → FrameStep limits token
          (record {
            lanes = lanes;
            loaded = loaded;
            framing = framing;
            items = before ++ (i ∷ after);
          })
          (record {
            lanes = drop_guard i.guard lanes;
            loaded = loaded;
            framing = framing;
            items = before ++ after;
          })

pub data FrameSteps (limits : Limits) (token : Text) : Service → Service → Type 0 where
  no_step : (v : Service) → FrameSteps limits token v v
  one_more :
      (u v w : Service)
      → FrameSteps limits token u v
      → FrameStep limits token v w
      → FrameSteps limits token u w

abbrev pub of_option : Option Lane → List Lane
of_option none = []
of_option (some lane) = lane ∷ []

abbrev pub frame_guards : List Frame → List Lane
frame_guards [] = []
frame_guards (f ∷ fs) = of_option f.guard ++ frame_guards fs

abbrev pub item_guards : List Item → List Lane
item_guards [] = []
item_guards (i ∷ items) = of_option i.guard ++ item_guards items

-- Which requests may hold a guard, and which go to the control queue.
abbrev pub IsRouted : Text → ServiceRequest → Option Lane → Type 0
IsRouted token r (some lookup_lane) = (r.token ≡ token) × (r.command ≡ codes "query")
IsRouted token r (some heavy_lane) =
    (r.token ≡ token) × ((r.command ≡ codes "add") ⊎ (r.command ≡ codes "check"))
IsRouted token r none =
    (r.token ≡ token)
    × Any (λ command. r.command ≡ command)
        (codes "ping" ∷ codes "stop" ∷ codes "job-status" ∷ codes "job-retry" ∷ [])

-- A write, or a check of a message against the current history that is not deep.
abbrev pub WaitsForHistory : ServiceRequest → Type 0
WaitsForHistory r =
    (r.command ≡ codes "add")
    ⊎ ((r.command ≡ codes "check")
        × (r.deep ≡ false)
        × (is_some r.message ≡ true)
        × (is_some r.reference ≡ false))

-- The counters are those of the guards that connections and items hold, within the limits; each of
-- these stands in the lane of its command; and an item has a count of the shared history only if its
-- request waits for one.
pub record IsService (limits : Limits) (token : Text) (v : Service) : Type 0 where
  pub counted : IsCounted limits (record {
    lanes = v.lanes;
    guards = frame_guards v.framing ++ item_guards v.items;
    loaded = v.loaded;
  })
  pub frames_routed : All (λ f. IsRouted token f.request f.guard) v.framing
  pub items_routed : All (λ i. IsRouted token i.request i.guard) v.items
  pub items_shared : All (λ i. i.shared ≢ none → WaitsForHistory i.request) v.items
