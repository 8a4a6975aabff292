-- ===== src/Common.antt =====
-- The names that the other modules share: the library's, passed on, and those of the children
-- (Boolean tests, lists, signed integers, results, texts and their words, maps, the stable sort).
mod Tests
mod Lists
mod Int
mod Results
mod Texts
mod Sort
mod Decimal
mod Maps
mod Words
mod Parts
unfoldable pub use Tests.*
unfoldable pub use Lists.*
unfoldable pub use Int.*
unfoldable pub use Results.*
unfoldable pub use Texts.*
unfoldable pub use Sort.*
unfoldable pub use Decimal.*
unfoldable pub use Maps.*
unfoldable pub use Words.*
unfoldable pub use Parts.*
pub use Prim.Native.Nat.{ℕ, zero, suc, ◌+◌, ◌-◌, ◌*◌, ◌/◌, ◌%◌, ◌^◌, ◌≤◌, ◌<◌, min, max}
pub use mathlib.Core.Path.{◌≡◌, refl, sym, ap, ◌∙◌, subst}
pub use mathlib.Core.Logic.{◌≢◌, ◌↔◌, ◌⊎◌, inl, inr}
pub use mathlib.Core.Bool.{Bool, true, false, not, ◌&&◌, ◌||◌}
pub use mathlib.Core.Option.{Option, none, some}
pub use mathlib.Core.List.{
  List, [], ◌∷◌, ◌++◌, map, reverse, append-nil, append_assoc, reverse-append, reverse-reverse,
  Perm,
}
pub use native.Mathlib.Omega.{arith}
