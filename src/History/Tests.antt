-- ===== src/History/Tests.antt =====
-- The theorems on commits and changed paths at concrete answers of git.
use zmem_cache.Common.{
  is_whitespace, codes, [], ◌≡◌, pos, has_text, ok, map, starts_with, List, negsuc, ◌∷◌, text_eq,
  true, Text, All, refl, ◌++◌, is_full, any-Lacks, any, ◌==◌, false, arith,
}
use zmem_cache.History.{
  is_rename, deleted, changed_paths, diff_batch, changed, path_change, is_status, commits_batch,
  nul,
}
use zmem_cache.History.Changes.{
  Entry, IsEntry, print_entries, touched, moved, changed_paths-print, IsToken,
}
use zmem_cache.History.Printed.{Fact, AreFacts, commit_of}
use zmem_cache.Git.{Process, newline, git}
use zmem_cache.History.Recovered.{IsPrinted, print_shown, commits_batch-print, print_diffs}
use zmem_cache.History.Batch.{shas_of, commits_batch-shas}

abbrev hash_a : Text
hash_a = codes "a1"

abbrev hash_b : Text
hash_b = codes "b2"

abbrev hash_c : Text
hash_c = codes "c3"

-- An edit and a deletion; a move.
abbrev edits : List Entry
edits = touched (codes "M") (codes "src/a") ∷ touched (codes "D") (codes "b") ∷ []

abbrev moves : List Entry
moves = moved (codes "R100") (codes "b") (codes "src/c") ∷ []

-- The middle commit is a merge, without entries.
abbrev first_fact : Fact
first_fact = record {
  oid = hash_a;
  time = pos 7;
  raw_message = codes "one" ++ newline ∷ [];
  entries = edits;
}

abbrev facts : List Fact
facts =
    record { oid = hash_b; time = negsuc 4; raw_message = codes "two"; entries = [] }
    ∷ record { oid = hash_c; time = pos 9; raw_message = codes "three"; entries = moves }
    ∷ []

-- Git with one answer to `show` and one to `diff-tree`.
abbrev answers : Text → Text → Process
answers shown changed = record {
  run_git = λ arguments. ok (record { success = true; stdout = shown });
  run_git_input = λ arguments input. ok (record { success = true; stdout = changed });
  from_utf8 = ok;
}

-- A token, by the two tests on it.
token : (t : Text) → is_full t ≡ true → any (λ c. c == nul) t ≡ false → IsToken t
token t h k = (h, any-Lacks nul t k)

edits-IsEntry : All IsEntry edits
unfolding is_rename starts_with
edits-IsEntry = (
  (token (codes "M") refl refl, token (codes "src/a") refl refl, refl),
  ((token (codes "D") refl refl, token (codes "b") refl refl, refl), tt),
)

changed_paths-print_example :
    changed_paths (answers (print_entries edits) []) hash_a
    ≡ ok (changed (codes "src/a") ∷ deleted (codes "b") ∷ [])
unfolding path_change starts_with
changed_paths-print_example =
    changed_paths-print (answers (print_entries edits) []) hash_a edits edits-IsEntry
      (unfold git in refl)

abbrev batch : Process
batch = answers (print_shown (first_fact ∷ facts)) (print_diffs (first_fact ∷ facts))

facts-AreFacts : AreFacts (first_fact ∷ facts)
unfolding is_status has_text text_eq is_whitespace is_rename starts_with
facts-AreFacts =
    let edit = edits-IsEntry in
    (
      ((refl, (refl, (refl, tt))), refl, ((edit.0, refl, refl), ((edit.1.0, refl, refl), tt))),
      (
        ((refl, (refl, (refl, tt))), refl, tt),
        (
          (
            (refl, (refl, (refl, tt))),
            refl,
            (
              (
                (
                  token (codes "R100") refl refl,
                  token (codes "b") refl refl,
                  token (codes "src/c") refl refl,
                  refl,
                ),
                tt,
                refl,
              ),
              tt,
            ),
          ),
          tt,
        ),
      ),
    )

facts-IsPrinted : All IsPrinted (first_fact ∷ facts)
facts-IsPrinted = (
  (any-Lacks nul (hash_a) refl, any-Lacks nul (codes "one" ++ newline ∷ []) refl, omega arith),
  (
    (any-Lacks nul (hash_b) refl, any-Lacks nul (codes "two") refl, omega arith),
    ((any-Lacks nul (hash_c) refl, any-Lacks nul (codes "three") refl, omega arith), tt),
  ),
)

commits_batch-print_example :
    commits_batch batch (hash_a ∷ hash_b ∷ hash_c ∷ []) ≡ ok (map commit_of (first_fact ∷ facts))
commits_batch-print_example =
    commits_batch-print batch first_fact facts facts-AreFacts facts-IsPrinted (unfold git in refl)
      (unfold diff_batch in refl)

commits_batch-shas_example :
    shas_of (map commit_of (first_fact ∷ facts)) ≡ hash_a ∷ hash_b ∷ hash_c ∷ []
commits_batch-shas_example =
    commits_batch-shas batch (hash_a ∷ hash_b ∷ hash_c ∷ []) commits_batch-print_example
