-- ===== src/Tracker/Tests.antt =====
-- The theorems on the tracker at a concrete start.
use zmem_cache.Common.{Text, true, ◌+◌, codes, [], List, All, ◌∷◌}
use zmem_cache.Tracker.{elapsed_seconds, initialize, Tracker, targets, SyncSummary, Stored}
use zmem_cache.Tracker.Bounds.{Call, IsWithin, looked_up, after_all, asked, initialize-IsWithin}
use zmem_cache.Tracker.Flush.{IsAnswer, KeepsUses, targets-IsAnswer}

abbrev summary_of : Text → SyncSummary
summary_of route = record {
  repository = codes "repo";
  route = route;
  head = codes "c3";
  extension_identity = codes "ext";
  trail_id = codes "trail";
  selected_commits = 1000;
}

abbrev loaded : List Stored
loaded =
    record {
      demand = record {
        repository = codes "repo";
        route = codes "old";
        oid = codes "a1";
        generation = codes "ext";
        observations = record { at = 70; depth = 600 } ∷ record { at = 200; depth = 700 } ∷ [];
      };
      capacity = 64;
    }
    ∷ []

-- Two lookups, a flush that the writer takes, and one more lookup.
abbrev calls : List Call
calls =
    looked_up 1000000000 4 (summary_of (codes "main"))
    ∷ looked_up 2000000000 4 (summary_of (codes "main"))
    ∷ asked 9000000000 1500 true
    ∷ looked_up 10000000000 8 (summary_of (codes "side"))
    ∷ []

initialize-IsWithin_example : IsWithin (after_all calls (initialize 300 0 loaded))
initialize-IsWithin_example = initialize-IsWithin 300 0 loaded calls

abbrev busy : Tracker
busy = record {
  routes =
      (
        (codes "repo", codes "old"),
        record {
          demand = record {
            repository = codes "repo";
            route = codes "old";
            oid = codes "a1";
            generation = codes "ext";
            observations = record { at = 70; depth = 600 } ∷ record { at = 200; depth = 700 } ∷ [];
          };
          capacity = 64;
        },
      )
      ∷ [];
  uses = (codes "trail", 301) ∷ [];
  credited = [];
  bytes = 4000;
  origin = 0;
  epoch = 300;
  flushed = 0;
}

targets-IsAnswer_example :
    All (IsAnswer (300 + elapsed_seconds 6000000000 0) 1500) (targets 6000000000 1500 true busy).2
    × KeepsUses busy (targets 6000000000 1500 true busy).0 (targets 6000000000 1500 true busy).1
targets-IsAnswer_example = targets-IsAnswer 6000000000 1500 true busy
