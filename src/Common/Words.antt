-- ===== src/Common/Words.antt =====
-- `str` methods that look at white space and line ends. A text is here the list of its characters.
use Prim.Native.Nat.{ℕ, zero, suc}
use mathlib.Core.Bool.{Bool, true, false, ◌&&◌, ◌||◌}
use mathlib.Core.List.{List, [], ◌∷◌, reverse}
use zmem_cache.Common.Tests.{leb, ◌==◌, if◌then◌else◌}
use zmem_cache.Common.Lists.{keep}
use zmem_cache.Common.Texts.{Text, push_head, split, join}

-- `char::is_whitespace`: the property White_Space of Unicode.
unfoldable pub is_whitespace : ℕ → Bool
is_whitespace c =
    (leb 9 c && leb c 13)
    || (c == 32 || c == 0x85 || c == 0xA0 || c == 0x1680)
    || (leb 0x2000 c && leb c 0x200A)
    || (c == 0x2028 || c == 0x2029 || c == 0x202F || c == 0x205F || c == 0x3000)

unfoldable pub trim_start : Text → Text
trim_start [] = []
trim_start (c ∷ s) = if is_whitespace c then trim_start s else c ∷ s

unfoldable pub trim_end : Text → Text
trim_end s = reverse (trim_start (reverse s))

unfoldable pub trim : Text → Text
trim s = trim_end (trim_start s)

abbrev pub is_full : Text → Bool
is_full [] = false
is_full (c ∷ s) = true

-- `split_whitespace`: the parts between white space that are not empty.
unfoldable pub split_space : Text → List Text
split_space [] = [] ∷ []
split_space (c ∷ s) =
    let rest = split_space s in if is_whitespace c then [] ∷ rest else push_head c rest

unfoldable pub split_whitespace : Text → List Text
unfolding split_space
split_whitespace s = keep is_full (split_space s)

-- A carriage return before a line end goes with it.
unfoldable pub strip_return : Text → Text
strip_return [] = []
strip_return (c ∷ []) = if c == 13 then [] else c ∷ []
strip_return (c ∷ d ∷ s) = c ∷ strip_return (d ∷ s)

abbrev pub ended_lines : List Text → List Text
ended_lines [] = []
ended_lines (p ∷ []) = if is_full p then p ∷ [] else []
ended_lines (p ∷ q ∷ ps) = strip_return p ∷ ended_lines (q ∷ ps)

-- `lines`: the parts between line ends, the last one if it is not empty.
unfoldable pub lines : Text → List Text
unfolding strip_return
lines s = ended_lines (split 10 s)

-- `splitn(n, sep)`: the last part holds all that is left.
abbrev pub rejoin : ℕ → ℕ → List Text → List Text
rejoin sep zero ps = []
rejoin sep (suc n) [] = []
rejoin sep (suc zero) (p ∷ ps) = join sep (p ∷ ps) ∷ []
rejoin sep (suc (suc n)) (p ∷ ps) = p ∷ rejoin sep (suc n) ps

unfoldable pub splitn : ℕ → ℕ → Text → List Text
splitn n sep s = rejoin sep n (split sep s)
