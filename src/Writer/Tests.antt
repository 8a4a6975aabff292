-- ===== src/Writer/Tests.antt =====
-- The theorems on the writer with a store that counts its commands.

use zmem_cache.Writer.{publish, canonical_write, WriterState, Command, StoreOps}
use zmem_cache.Writer.Serial.{
  sent, turned, advised, closed, stopping, after, after_all, Event, IsSerial, start_writer,
  runs-IsSerial,
}
use zmem_cache.Common.{
  err, ◌⊎◌, ℕ, [], ◌∷◌, false, List, refl, ◌==◌, if◌then◌else◌, ok, if◌then◌else◌, ◌≡◌, some,
  Result, true, if◌then◌else◌, none, Text, codes,
}
use zmem_cache.Writer.Advisory.{IsWritten, after_keeps}
use zmem_cache.Writer.Drain.{turns, tickets, turns-answer}
use zmem_cache.Host.{Moment}
use zmem_cache.Writer.Submit.{set_prefetch_state}

-- A store is the list of what was written to it; it refuses to write 13.
abbrev write : ℕ → List ℕ → List ℕ × Result (Unit {0})
write n s = if n == 13 then (s, err "refused") else (n ∷ s, ok tt)

abbrev Ops : Type 0
Ops = StoreOps (List ℕ) ℕ ℕ ℕ ℕ ℕ ℕ

abbrev count_ops : Ops
count_ops = record {
  set_request = λ deadline cancelled s. (s, ok tt);
  publish_trail = write;
  finalize_store = λ n s. (s, ok true);
  apply_prefetch_write = λ n s. (s, ok false);
  set_prefetch_state = λ repo_id head state s. (s, ok tt);
  apply_canonical_mutation = λ n s. (n ∷ s, ok n);
  persist_advisory = write;
  trail_id = λ n. n ∷ [];
}

abbrev Sent : Type 0
Sent = Command ℕ ℕ ℕ ℕ

abbrev first_write : Sent
first_write = publish 4 none none 100

abbrev second_write : Sent
second_write = canonical_write 5 9000 none 101

-- Two commands and a batch, their turns, the end, and a command that is too late.
abbrev events : List (Event count_ops)
events =
    sent first_write
    ∷ advised false 6
    ∷ sent second_write
    ∷ turned false 10
    ∷ turned false 20
    ∷ turned false 30
    ∷ closed
    ∷ stopping
    ∷ turned false 40
    ∷ sent first_write
    ∷ []

runs-IsSerial_example :
    IsSerial count_ops [] (after_all count_ops events (start_writer count_ops [], []))
runs-IsSerial_example = runs-IsSerial count_ops [] events

abbrev waiting : WriterState count_ops
waiting = record {
  is_open = true;
  is_running = true;
  queue = first_write ∷ second_write ∷ [];
  advisory = some 13;
  failures = 0;
  last_publication = none;
  store = [];
  answers = [];
}

after_keeps_example :
    ((after count_ops (advised false 6) (waiting, [])).0.advisory ≡ some 13)
    ⊎ IsWritten count_ops 13 waiting (advised false 6)
after_keeps_example = after_keeps count_ops 13 (advised false 6) waiting [] refl

turns-answer_example :
    ((turns count_ops (10 ∷ 20 ∷ []) waiting).queue ≡ [])
    × (tickets count_ops (turns count_ops (10 ∷ 20 ∷ []) waiting).answers ≡ 100 ∷ 101 ∷ [])
turns-answer_example = turns-answer count_ops waiting (10 ∷ 20 ∷ []) refl (refl, (refl, tt)) refl

abbrev request_at : Moment
request_at = record { cancelled = false; deadline = some 5000; now = 10 }

abbrev paused : Text
paused = codes "paused_shutdown"

abbrev three_times : List ℕ
three_times = 10 ∷ 20 ∷ 30 ∷ []
