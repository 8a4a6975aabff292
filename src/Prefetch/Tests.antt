-- ===== src/Prefetch/Tests.antt =====
-- The prefetch queue at a concrete state.
use zmem_cache.Prefetch.Queue.{IsFair, admit_turn-IsFair, prefetch_key_eq_iff}
use zmem_cache.Common.{arith, List, codes, [], Text, ◌∷◌}
use zmem_cache.Prefetch.{admit_turn, PrefetchKey, PrefetchQueue}

abbrev key_of : Text → PrefetchKey
key_of head = record { path = codes "/repo"; head = head }

-- One key waits and one has its turn.
abbrev waiting : PrefetchQueue
waiting = record {
  ready_turns = key_of (codes "a") ∷ [];
  known = key_of (codes "b") ∷ key_of (codes "a") ∷ [];
}

abbrev held : List PrefetchKey
held = key_of (codes "b") ∷ []

waiting-IsFair : IsFair waiting held
waiting-IsFair = record {
  counted = λ k. ground arith;
  once = λ k. ground (
    arith,
    prefetch_key_eq_iff k (key_of (codes "a")),
    prefetch_key_eq_iff k (key_of (codes "b")),
  );
  bounded = omega arith;
}

admit_turn-IsFair_example : IsFair (admit_turn (key_of (codes "c")) waiting) held
admit_turn-IsFair_example = admit_turn-IsFair (key_of (codes "c")) waiting held waiting-IsFair
