-- ===== src/Lanes/Tests.antt =====
-- The lanes with one lookup and one write.
use zmem_cache.Common.{[], ◌∷◌, refl, arith, ok, codes, text_eq, none, err, true, false, some, Text}
use zmem_cache.Lanes.{
  try_admit, enter, leave, Limits, lookup_lane, heavy_lane, note_peak, finish, shares_real_history,
  ServiceRequest, drop_guard, route_of,
}
use zmem_cache.Lanes.Guards.{
  Held, Steps, IsCounted, and_then, Steps-IsCounted, rests, admits_one, ends_one, loads_count,
  notes_peak,
}
use zmem_cache.Lanes.Framed.{
  Service, Frame, FrameSteps, IsService, one_more, no_step, ends, enters, sends,
}
use zmem_cache.Lanes.Served.{no_service, FrameSteps-IsService}

abbrev limits : Limits
limits = record { lookup_limit = 2; heavy_limit = 1 }

abbrev empty : Held
empty = record {
  lanes = record { lookup_admitted = 0; heavy_admitted = 0; peak = 0 };
  guards = [];
  loaded = [];
}

abbrev both : Held
both = record {
  lanes = record { lookup_admitted = 1; heavy_admitted = 1; peak = 0 };
  guards = heavy_lane ∷ lookup_lane ∷ [];
  loaded = 1 ∷ [];
}

abbrev one_left : Held
one_left = record {
  lanes = record { lookup_admitted = 0; heavy_admitted = 1; peak = 1 };
  guards = heavy_lane ∷ [];
  loaded = [];
}

both-Steps : Steps limits empty both
unfolding enter try_admit
both-Steps =
    and_then _ _ _
      (and_then _ _ _ (and_then _ _ _ (rests empty) (admits_one empty lookup_lane _ refl))
        (loads_count _))
      (admits_one _ heavy_lane _ refl)

-- The count is noted when its lookup has ended.
one_left-Steps : Steps limits empty one_left
unfolding leave note_peak
one_left-Steps =
    and_then _ _ _
      (and_then _ _ _ both-Steps (ends_one both.lanes (heavy_lane ∷ []) [] lookup_lane (1 ∷ [])))
      (notes_peak _ (heavy_lane ∷ []) [] [] 1)

Steps-IsCounted_example : IsCounted limits one_left
Steps-IsCounted_example = Steps-IsCounted limits one_left (omega arith) (omega arith) one_left-Steps

abbrev request_for : Text → ServiceRequest
request_for command = record {
  token = codes "t";
  command = command;
  deep = false;
  message = some (codes "m");
  reference = none;
}

abbrev lookup_one : Service
lookup_one = record {
  lanes = record { lookup_admitted = 1; heavy_admitted = 0; peak = 0 };
  loaded = [];
  framing =
      record {
        request = request_for (codes "query");
        message = "lookup queue is full";
        guard = some lookup_lane;
      }
      ∷ [];
  items = [];
}

abbrev check_frame : Frame
check_frame = record {
  request = request_for (codes "check");
  message = "service work queue is full";
  guard = some heavy_lane;
}

abbrev both_framed : Service
both_framed = record lookup_one {
  lanes = record { lookup_admitted = 1; heavy_admitted = 1; peak = 0 };
  framing = check_frame ∷ lookup_one.framing;
}

abbrev check_failed : Service
check_failed = record lookup_one {
  lanes = record { lookup_admitted = 1; heavy_admitted = 0; peak = 0 };
}

abbrev lookup_sent : Service
lookup_sent = record check_failed {
  framing = [];
  items =
      record { request = request_for (codes "query"); guard = some lookup_lane; shared = none }
      ∷ [];
}

both_framed-FrameSteps : FrameSteps limits (codes "t") no_service both_framed
unfolding enter try_admit route_of text_eq
both_framed-FrameSteps =
    one_more _ lookup_one _
      (one_more _ no_service _ (no_step no_service)
        (enters no_service (request_for (codes "query")) _ lookup_lane _ refl refl))
      (enters lookup_one (request_for (codes "check")) _ heavy_lane _ refl refl)

-- The check finds its history failed, then the lookup is given to a worker.
lookup_sent-FrameSteps : FrameSteps limits (codes "t") no_service lookup_sent
unfolding leave drop_guard finish shares_real_history text_eq
lookup_sent-FrameSteps =
    one_more _ check_failed _
      (one_more _ both_framed _ both_framed-FrameSteps (
        ends both_framed.lanes [] [] lookup_one.framing check_frame [] (err "failed") true
          (λ k. k)))
      (sends check_failed.lanes [] [] []
        (record {
          request = request_for (codes "query");
          message = "lookup queue is full";
          guard = some lookup_lane;
        })
        [] (ok none) true (some lookup_lane) none refl)

FrameSteps-IsService_example : IsService limits (codes "t") lookup_sent
FrameSteps-IsService_example =
    FrameSteps-IsService limits (codes "t") lookup_sent (omega arith) (omega arith)
      lookup_sent-FrameSteps
