-- ===== src/Prefetch.antt =====
-- The queue of the prefetch coordinator: crates/zmem-svc/src/main.rs (`PrefetchQueue`,
-- `PrefetchCoordinator::admit`, `finish_turn` and the `pop_front` of `worker`), each under the
-- queue's lock. A key is the path and the head.
pub mod Queue
pub mod Tests
use zmem_cache.Common.{
  ◌∷◌, ◌++◌, if◌then◌else◌, not, length, [], if◌then◌else◌, text_eq, if◌then◌else◌, Text, List, any,
  ◌&&◌, Option, keep, some, ℕ, none, Bool, ltb,
}

pub record PrefetchKey : Type 0 where
  pub path : Text
  pub head : Text

unfoldable pub prefetch_key_eq : PrefetchKey → PrefetchKey → Bool
prefetch_key_eq a b = text_eq a.path b.path && text_eq a.head b.head

pub record PrefetchQueue : Type 0 where
  pub ready_turns : List PrefetchKey
  pub known : List PrefetchKey

abbrev pub known_limit : ℕ
known_limit = 32

-- `contains` of the set, and `remove`.
abbrev pub is_known : PrefetchKey → List PrefetchKey → Bool
is_known key = any (prefetch_key_eq key)

abbrev pub forget : PrefetchKey → List PrefetchKey → List PrefetchKey
forget key = keep (λ k. not (prefetch_key_eq key k))

unfoldable pub admit_turn : PrefetchKey → PrefetchQueue → PrefetchQueue
admit_turn key q =
    if ltb (length q.known) known_limit && not (is_known key q.known)
    then record { ready_turns = q.ready_turns ++ key ∷ []; known = key ∷ q.known }
    else q

unfoldable pub next_turn : PrefetchQueue → Option PrefetchKey × PrefetchQueue
next_turn q = elim q.ready_turns [
  | [] ↦ (none, q)
  | key ∷ rest ↦ (some key, record q { ready_turns = rest })
]

unfoldable pub finish_turn : PrefetchKey → Bool → PrefetchQueue → PrefetchQueue
finish_turn key more q =
    if more
    then record q { ready_turns = q.ready_turns ++ key ∷ [] }
    else record q { known = forget key q.known }
