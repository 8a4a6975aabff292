-- ===== src/Demand.antt =====
-- The advisory demand policy of one route: crates/zmem-core/src/demand.rs. `Observation` and
-- `RouteDemand` are the structs, `expire`, `observe`, `target` and `revision` the methods; a method
-- with `&mut self` returns the new value. Seconds, depths and sizes are native numbers; a u64
-- subtraction stands only behind the test that makes it exact.
pub mod Expire
pub mod Observe
pub mod Target
pub mod Tests
use zmem_cache.Common.{
  ℕ, ◌+◌, ◌-◌, ◌*◌, ◌^◌, min, max, Bool, true, false, not, ◌&&◌, List, [], ◌∷◌, ◌++◌, Option, none,
  some, ltb, leb, if◌then◌else◌, length, drop, keep, get_last?, Text, sort_by, ◌≤◌, ◌<◌, All,
  is_some,
}

abbrev pub window : ℕ
window = 500

abbrev pub sample_seconds : ℕ
sample_seconds = 60

abbrev pub expiry_seconds : ℕ
expiry_seconds = 3600

abbrev pub max_routes : ℕ
max_routes = 4096

abbrev pub max_metadata_bytes : ℕ
max_metadata_bytes = 8 * 1024 * 1024

abbrev pub usize_max : ℕ
usize_max = 2 ^ 64 - 1

pub record Observation : Type 0 where
  pub at : ℕ
  pub depth : ℕ

pub record RouteDemand : Type 0 where
  pub repository : Text
  pub route : Text
  pub oid : Text
  pub generation : Text
  pub observations : List Observation

-- The first `retain`: not from the future, and younger than an hour.
unfoldable pub is_live : ℕ → Observation → Bool
is_live now sample = leb sample.at now && ltb (now - sample.at) expiry_seconds

abbrev pub by_time : Observation → Observation → Bool
by_time a b = leb a.at b.at

-- `last.is_some_and(|at| sample.at - at < SAMPLE_SECONDS)`.
unfoldable pub is_close : Option ℕ → Observation → Bool
is_close none sample = false
is_close (some at) sample = ltb (sample.at - at) sample_seconds

-- The second `retain`, with the captured `last`.
unfoldable pub thin : Option ℕ → List Observation → List Observation
thin last [] = []
thin last (sample ∷ rest) = elim (is_close last sample) [
  | true ↦ thin last rest
  | false ↦ sample ∷ thin (some sample.at) rest
]

-- `drain(..len - 60)` when there are more than sixty.
unfoldable pub newest_sixty : List Observation → List Observation
newest_sixty xs = if ltb 60 (length xs) then drop (length xs - 60) xs else xs

unfoldable pub expire_observations : ℕ → List Observation → List Observation
expire_observations now xs = newest_sixty (thin none (sort_by by_time (keep (is_live now) xs)))

unfoldable pub expire : ℕ → RouteDemand → RouteDemand
expire now r = record r { observations = expire_observations now r.observations }

-- The test in `observe` on the last sample that survived.
unfoldable pub is_recent : ℕ → Option Observation → Bool
is_recent now none = false
is_recent now (some sample) = ltb (now - sample.at) sample_seconds

-- The new value, and whether the sample was credited.
unfoldable pub observe : ℕ → ℕ → RouteDemand → RouteDemand × Bool
observe now depth r =
    let e = expire now r in
    if is_recent now (get_last? e.observations) then (e, false) else (
      record e { observations = e.observations ++ record { at = now; depth = depth } ∷ [] },
      true,
    )

-- The samples that count towards a deeper target.
unfoldable pub is_deeper : ℕ → Observation → Bool
unfolding is_live
is_deeper now sample = is_live now sample && ltb window sample.depth

unfoldable pub saturating_add : ℕ → ℕ → ℕ
saturating_add a b = min (a + b) usize_max

-- The fold over the remaining deeper samples.
unfoldable pub deepest : ℕ → List Observation → ℕ
deepest depth [] = depth
deepest depth (sample ∷ rest) = deepest (max depth sample.depth) rest

unfoldable pub lead : ℕ → ℕ → Option ℕ
unfolding saturating_add
lead depth ceiling =
    let target = min (saturating_add depth window) ceiling in
    if ltb depth target then some target else none

unfoldable pub target_of : List Observation → ℕ → Option ℕ
unfolding lead deepest
target_of [] ceiling = none
target_of (first ∷ []) ceiling = none
target_of (first ∷ second ∷ rest) ceiling =
    lead (deepest (max first.depth second.depth) rest) ceiling

unfoldable pub target : RouteDemand → ℕ → ℕ → Option ℕ
unfolding target_of is_deeper
target r now ceiling = target_of (keep (is_deeper now) r.observations) ceiling

unfoldable pub revision_of : Option Observation → ℕ
revision_of none = 0
revision_of (some sample) = sample.at

unfoldable pub revision : RouteDemand → ℕ
unfolding revision_of
revision r = revision_of (get_last? r.observations)

-- A sample is at most an hour old, and not from the future.
abbrev pub IsLive : ℕ → Observation → Type 0
IsLive now sample = (sample.at ≤ now) × (now < sample.at + expiry_seconds)

-- Any two samples are at least a minute apart, in order.
abbrev pub IsSpaced : List Observation → Type 0
IsSpaced [] = Unit
IsSpaced (x ∷ xs) = All (λ y. x.at + sample_seconds ≤ y.at) xs × IsSpaced xs

-- What `expire` leaves behind.
pub record IsCompact (now : ℕ) (xs : List Observation) : Type 0 where
  pub live : All (IsLive now) xs
  pub spaced : IsSpaced xs
  pub bounded : length xs ≤ 60
