-- ===== src/History/Changes.antt =====
-- The changed paths that git prints are read back.
use zmem_cache.Common.{
  ◌∷◌, Text, is_full, All, ◌>>=◌, All-append, join, ◌≡◌, false, List, ◌≢◌, ◌++◌, arith, Lacks, ok,
  refl, keep, map, Result, [], split-join, true,
}
use zmem_cache.History.{
  read_changes, changed_arguments, ChangedPath, is_rename, path_change, nul, renamed, changed_paths,
}
use zmem_cache.Git.{Process, git}

-- A line of `--name-status`: a status and a path, or a status and two paths.
pub data Entry : Type 0 where
  touched : (status path : Text) → Entry
  moved : (status old_path new_path : Text) → Entry

-- What a token may be.
abbrev pub IsToken : Text → Type 0
IsToken t = (is_full t ≡ true) × Lacks nul t

abbrev pub IsEntry : Entry → Type 0
IsEntry (touched status path) = IsToken status × IsToken path × (is_rename status ≡ false)
IsEntry (moved status old_path new_path) =
    IsToken status × IsToken old_path × IsToken new_path × (is_rename status ≡ true)

abbrev pub change_of : Entry → ChangedPath
change_of (touched status path) = path_change status path
change_of (moved status old_path new_path) = renamed old_path new_path

abbrev pub tokens_of : List Entry → List Text
tokens_of [] = []
tokens_of (touched status path ∷ es) = status ∷ path ∷ tokens_of es
tokens_of (moved status old_path new_path ∷ es) = status ∷ old_path ∷ new_path ∷ tokens_of es

-- Each token ends with a nul.
unfoldable pub print_entries : List Entry → Text
print_entries es = join nul (tokens_of es ++ [] ∷ [])

abbrev then_change : ChangedPath → List ChangedPath → Result (List ChangedPath)
then_change c cs = ok (c ∷ cs)

read_changes_path :
    (status path : Text) (rest : List Text)
    → is_rename status ≡ false
    → read_changes (status ∷ path ∷ rest)
      ≡ (read_changes rest >>= λ cs. ok (path_change status path ∷ cs))
unfolding read_changes
read_changes_path status path [] h = rw h refl
read_changes_path status path (next ∷ rest) h = rw h refl

read_changes_move :
    (status old_path new_path : Text) (rest : List Text)
    → is_rename status ≡ true
    → read_changes (status ∷ old_path ∷ new_path ∷ rest)
      ≡ (read_changes rest >>= λ cs. ok (renamed old_path new_path ∷ cs))
unfolding read_changes
read_changes_move status old_path new_path rest h = rw h refl

read_changes-tokens :
    (es : List Entry) → All IsEntry es → read_changes (tokens_of es) ≡ ok (map change_of es)
read_changes-tokens [] h = unfold read_changes in refl
read_changes-tokens (touched status path ∷ es) h =
    rw (read_changes_path status path (tokens_of es) h.0.2, read_changes-tokens es h.1) refl
read_changes-tokens (moved status old_path new_path ∷ es) h =
    rw (read_changes_move status old_path new_path (tokens_of es) h.0.3, read_changes-tokens es h.1)
      refl

pub All-tokens :
    (P : Text → Type 0)
    → ((t : Text) → IsToken t → P t)
    → (es : List Entry) → All IsEntry es
    → All P (tokens_of es)
All-tokens P f [] h = tt
All-tokens P f (touched status path ∷ es) h =
    (f status h.0.0, (f path h.0.1, All-tokens P f es h.1))
All-tokens P f (moved status old_path new_path ∷ es) h =
    (f status h.0.0, (f old_path h.0.1, (f new_path h.0.2, All-tokens P f es h.1)))

append-ne-nil : (ps : List Text) → ps ++ [] ∷ [] ≢ []
append-ne-nil [] h = absurd (ground (arith, h))
append-ne-nil (p ∷ ps) h = absurd (ground (arith, h))

keep-append_nil :
    (ps : List Text) → All (λ p. is_full p ≡ true) ps → keep is_full (ps ++ [] ∷ []) ≡ ps
keep-append_nil [] h = refl
keep-append_nil (p ∷ ps) h = rw (h.0, keep-append_nil ps h.1) refl

-- `changed_paths` reads back what git prints: for entries of a status and a path, or of a status of
-- a rename or copy and two paths, each token not empty and without a nul, it answers their changes
-- in order, a deletion without a new path, a rename with both.
pub changed_paths-print :
    (process : Process) (sha : Text) (es : List Entry)
    → All IsEntry es
    → git process (changed_arguments sha) ≡ ok (print_entries es)
    → changed_paths process sha ≡ ok (map change_of es)
unfolding changed_paths print_entries
changed_paths-print process sha es h g =
    let lacks =
      All-append (Lacks nul) (tokens_of es) ([] ∷ []) (All-tokens (Lacks nul) (λ t k. k.1) es h)
        (tt, tt) in
    let full = All-tokens (λ t. is_full t ≡ true) (λ t k. k.0) es h in
    rw
      (
        g,
        split-join nul (tokens_of es ++ [] ∷ []) (append-ne-nil (tokens_of es)) lacks,
        keep-append_nil (tokens_of es) full,
      )
      (read_changes-tokens es h)
