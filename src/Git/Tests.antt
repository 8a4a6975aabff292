-- ===== src/Git/Tests.antt =====
-- The theorems on selectors and walks at concrete answers of git.
use zmem_cache.Git.{
  GitWalk, Process, walk_newest, ResolvedSelector, git, walk_trail, newline, resolve_observed,
  resolve_reference, parse_parents, oid_lines, walk_of, is_cut, parent_map, cut,
}
use zmem_cache.Common.{
  true, ◌∷◌, ◌≡◌, codes, ok, List, some, Text, [], if◌then◌else◌, if◌then◌else◌, has_text,
  is_whitespace, lookup, length, Unique, refl, err, ◌≤◌, if◌then◌else◌, ◌++◌, All, text_Eq,
  starts_with, strip_return, lines, split_space, split_whitespace, text_eq, trim, trim_start,
  trim_end, join, split, insert, remove, take, parse_usize, ap, none, Option, drop, ℕ, arith,
  parse_usize-print,
}
use zmem_cache.Git.Printed.{print_rows, IsRow, IsWord}
use zmem_cache.Git.Walk.{IsWalk, IsHistory, walk_newest-Fits, walk_newest-IsWalk}
use zmem_cache.Attention.{limited, maximum}
use zmem_cache.Git.Selector.{IsSelected, resolve_observed-IsSelected}

abbrev hash_c : Text
hash_c = codes "c3"

abbrev rows : List (Text × List Text)
rows =
    (codes "c3", codes "b2" ∷ codes "a1" ∷ [])
    ∷ (codes "b2", codes "a1" ∷ [])
    ∷ (codes "a1", [])
    ∷ []

-- A repository that answers every command with one text.
abbrev answers : Text → Process
answers text = record {
  run_git = λ arguments. ok (record { success = true; stdout = text });
  run_git_input = λ arguments input. ok (record { success = true; stdout = text });
  from_utf8 = ok;
}

rows-IsRow : All IsRow rows
unfolding is_whitespace
rows-IsRow =
    let c : IsWord (codes "c3") = (refl, (refl, (refl, tt))) in
    let b : IsWord (codes "b2") = (refl, (refl, (refl, tt))) in
    let a : IsWord (codes "a1") = (refl, (refl, (refl, tt))) in
    ((c, (b, (a, tt))), ((b, (a, tt)), ((a, tt), tt)))

rows-Unique : Unique rows
unfolding lookup text_eq
rows-Unique = (refl, (refl, (refl, tt)))

-- A repository that prints the rows, or the first of them where it is given a maximum count.
abbrev rows_within : Option ℕ → List (Text × List Text)
rows_within none = rows
rows_within (some n) = take n rows

abbrev rows_for : List Text → List (Text × List Text)
rows_for (command ∷ order ∷ parents ∷ count ∷ head ∷ []) = rows_within (parse_usize (drop 12 count))
rows_for _ = rows

abbrev history : Process
history = record {
  run_git = λ arguments. ok (record { success = true; stdout = print_rows (rows_for arguments) });
  run_git_input = λ arguments input. err "not used";
  from_utf8 = ok;
}

history-IsHistory : IsHistory history hash_c rows
unfolding git
history-IsHistory = record {
  whole = refl;
  capped = λ n few. ap (λ o. ok (print_rows (rows_within o))) (parse_usize-print n few);
}

walk_newest-IsWalk_example :
    (w : GitWalk) × (walk_newest history hash_c (limited 2) ≡ ok w) × IsWalk rows (some 2) w
unfolding maximum
walk_newest-IsWalk_example =
    walk_newest-IsWalk history hash_c (limited 2) rows rows-IsRow rows-Unique (omega arith)
      history-IsHistory

abbrev short_walk : GitWalk
short_walk = record {
  shas = codes "c3" ∷ codes "b2" ∷ [];
  parents = (codes "b2", codes "a1" ∷ []) ∷ (codes "c3", codes "b2" ∷ codes "a1" ∷ []) ∷ [];
  truncated = true;
}

walk_newest-Fits_example :
    ((length (codes "c3" ∷ codes "b2" ∷ []) ≤ 2)
      × (short_walk.truncated ≡ true → length short_walk.shas ≡ 2))
    × (walk_trail (answers (print_rows rows)) hash_c (limited 2)
        ≡ ok (record short_walk { shas = codes "b2" ∷ codes "c3" ∷ [] }))
unfolding maximum
walk_newest-Fits_example =
    walk_newest-Fits (answers (print_rows rows)) hash_c (limited 2) {w = short_walk} (
      unfold walk_newest git walk_of print_rows oid_lines parse_parents split_whitespace split_space
        is_whitespace lines strip_return split join cut parent_map is_cut insert has_text text_eq
        remove in
      refl)

-- A repository that answers with an oid, or with a full name when asked for one.
abbrev named_repository : Process
named_repository = record {
  run_git = λ arguments. ok (record {
    success = true;
    stdout =
        if has_text (codes "--symbolic-full-name") arguments
        then codes "refs/heads/main" ++ newline ∷ []
        else codes "c3" ++ newline ∷ [];
  });
  run_git_input = λ arguments input. err "not used";
  from_utf8 = ok;
}

abbrev main_selector : ResolvedSelector
main_selector = record {
  selector = codes "main";
  oid = hash_c;
  local_branch = true;
  route = codes "refs/heads/main";
}

resolve_observed-IsSelected_example : IsSelected (codes "main") hash_c main_selector
resolve_observed-IsSelected_example =
    resolve_observed-IsSelected named_repository (codes "main") hash_c main_selector (
      unfold resolve_observed resolve_reference git has_text starts_with trim trim_start trim_end
        text_eq is_whitespace in
      refl)
