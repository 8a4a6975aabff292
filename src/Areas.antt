-- ===== src/Areas.antt =====
-- The areas that a change affects: `derive_affected_areas` of crates/zmem-core/src/lib.rs. The groups
-- of the `BTreeMap` are an association list in the order of their first paths; the areas are sorted
-- at the end.
pub mod Accepted
pub mod Covers
pub mod Within
pub mod Tests
use zmem_cache.Common.{
  get_elem?, length, zero, Option, sort_by, text_le, List, ℕ, true, false, take, ◌++◌,
  if◌then◌else◌, ◌∷◌, [], Bool, all, join, some, map, none, Text, leb, split, text_eq,
  if◌then◌else◌, suc, max, if◌then◌else◌,
}
use zmem_cache.Journal.{root_area}
use zmem_cache.History.{ChangedPath, endpoints}

-- A path's parts, and those of the directory that it is in.
abbrev pub init : List Text → List Text
init [] = []
init (p ∷ []) = []
init (p ∷ q ∷ ps) = p ∷ init (q ∷ ps)

abbrev pub head_part : List Text → Text
head_part [] = []
head_part (p ∷ ps) = p

abbrev pub slash : ℕ
slash = 47

-- `entry(key).or_default().push(parent)`.
unfoldable pub push_group :
    Text → List Text → List (Text × List (List Text)) → List (Text × List (List Text))
push_group key parent [] = (key, parent ∷ []) ∷ []
push_group key parent ((k, parents) ∷ groups) =
    if text_eq k key
    then (k, parents ++ parent ∷ []) ∷ groups
    else (k, parents) ∷ push_group key parent groups

abbrev pub is_single : List Text → Bool
is_single (p ∷ []) = true
is_single _ = false

-- The loop over the paths: whether one is in the root, and the groups of the others.
abbrev pub Groups : Type 0
Groups = Bool × List (Text × List (List Text))

unfoldable pub group_path : Text → Groups → Groups
group_path path (root, groups) =
    let parts = split slash path in
    if is_single parts
    then (true, groups)
    else (root, push_group (head_part parts) (init parts) groups)

unfoldable pub group_paths : List Text → Groups → Groups
group_paths [] g = g
group_paths (path ∷ paths) g = group_paths paths (group_path path g)

abbrev pub option_text_eq : Option Text → Option Text → Bool
option_text_eq none none = true
option_text_eq (some s) (some t) = text_eq s t
option_text_eq none (some t) = false
option_text_eq (some s) none = false

-- The common length of the group's directories, from an index of the first one on.
unfoldable pub common_len : List Text → List (List Text) → ℕ → ℕ → ℕ
common_len first parents index zero = 0
common_len first parents index (suc left) =
    let rest = common_len first parents (suc index) left in
    if all (λ parent. option_text_eq (get_elem? parent index) (get_elem? first index)) parents
    then suc rest
    else 0

abbrev pub first_parent : List (List Text) → List Text
first_parent [] = []
first_parent (p ∷ ps) = p

unfoldable pub group_area : List (List Text) → Text
group_area parents =
    let first = first_parent parents in
    join slash (take (max (common_len first parents 0 (length first)) 1) first)

-- The comparison of the sort: `<root>` comes first.
abbrev pub area_le : Text → Text → Bool
area_le left right =
    if text_eq left root_area
    then true
    else if text_eq right root_area
    then false
    else text_le left right

-- `dedup`.
unfoldable pub dedup : List Text → List Text
dedup [] = []
dedup (a ∷ []) = a ∷ []
dedup (a ∷ b ∷ rest) = let later = dedup (b ∷ rest) in if text_eq a b then later else a ∷ later

abbrev pub root_areas : Bool → List Text
root_areas root = if root then root_area ∷ [] else []

abbrev pub paths_of : List ChangedPath → List Text
paths_of [] = []
paths_of (c ∷ cs) = endpoints c ++ paths_of cs

unfoldable pub all_areas : List ChangedPath → List Text
all_areas changes =
    let g = group_paths (paths_of changes) (false, []) in
    dedup (sort_by area_le (root_areas g.0 ++ map (λ group. group_area group.1) g.1))

unfoldable pub derive_affected_areas : List ChangedPath → Option (List Text)
derive_affected_areas changes =
    let areas = all_areas changes in if leb (length areas) 3 then some areas else none
