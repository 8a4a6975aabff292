-- ===== src/History.antt =====
-- Commits and their changed paths, as git prints them: `ChangedPath`, `GitCommit`, `commit`,
-- `commits_batch` and `changed_paths` of crates/zmem-core/src/lib.rs. A loop with a position in the
-- tokens is a recursion on the tokens from that position on.
pub mod Changes
pub mod Batch
pub mod Printed
pub mod Recovered
pub mod Tests
use Prim.Native.String.{String}
use zmem_cache.Common.{
  false, if◌then◌else◌, ◌>>=◌, ◌==◌, some, err, codes, ℤ, if◌then◌else◌, has_text, Result, Bool,
  Text, ensure, ◌||◌, drop, ◌∷◌, text_eq, is_full, ◌++◌, ok, starts_with, Option, any, ℕ, ◌>>◌, [],
  not, none, if◌then◌else◌, map, List, splitn, keep, ok_or, trim_end, parse_i64, trim, join, split,
  all,
}
use zmem_cache.Git.{Process, newline, git}

pub record ChangedPath : Type 0 where
  pub old_path : Option Text
  pub new_path : Option Text

abbrev pub changed : Text → ChangedPath
changed path = record { old_path = none; new_path = some path }

abbrev pub deleted : Text → ChangedPath
deleted path = record { old_path = some path; new_path = none }

abbrev pub renamed : Text → Text → ChangedPath
renamed old_path new_path = record { old_path = some old_path; new_path = some new_path }

abbrev pub option_list : Option Text → List Text
option_list none = []
option_list (some p) = p ∷ []

abbrev pub endpoints : ChangedPath → List Text
endpoints c = option_list c.old_path ++ option_list c.new_path

pub record GitCommit : Type 0 where
  pub sha : Text
  pub commit_time : ℤ
  pub message : Text
  pub changes : List ChangedPath

abbrev pub nul : ℕ
nul = 0

-- The first character of a status decides.
unfoldable pub is_rename : Text → Bool
is_rename status = starts_with (codes "R") status || starts_with (codes "C") status

unfoldable pub is_status : Text → Bool
is_status [] = false
is_status (c ∷ s) = any (λ k. k == c) (codes "AMDTUXB")

unfoldable pub path_change : Text → Text → ChangedPath
path_change status path = if starts_with (codes "D") status then deleted path else changed path

-- The loop of `changed_paths` over the fields that are not empty.
unfoldable pub read_changes : List Text → Result (List ChangedPath)
read_changes [] = ok []
read_changes (status ∷ []) =
    if is_rename status then err "missing old rename path" else err "missing changed path"
read_changes (status ∷ path ∷ []) =
    if is_rename status then err "missing new rename path" else ok (path_change status path ∷ [])
read_changes (status ∷ path ∷ next ∷ rest) =
    let after_two = read_changes rest in
    let after_one = read_changes (next ∷ rest) in
    if is_rename status
    then (after_two >>= λ changes. ok (renamed path next ∷ changes))
    else after_one >>= λ changes. ok (path_change status path ∷ changes)

-- The inner loop of `commits_batch`: the changes of a commit, and the tokens from there on. It ends
-- at an empty token or the oid of a later commit.
unfoldable pub batch_changes : List Text → List Text → Result (List ChangedPath × List Text)
batch_changes later_shas [] = ok ([], [])
batch_changes later_shas (status ∷ []) =
    if not (is_full status) || has_text status later_shas
    then ok ([], status ∷ [])
    else if is_rename status
    then err "missing rename source"
    else if is_status status
    then err "missing changed path"
    else err "invalid batched path status"
batch_changes later_shas (status ∷ path ∷ []) =
    if not (is_full status) || has_text status later_shas
    then ok ([], status ∷ path ∷ [])
    else if is_rename status
    then err "missing rename destination"
    else if is_status status
    then ok (path_change status path ∷ [], [])
    else err "invalid batched path status"
batch_changes later_shas (status ∷ path ∷ next ∷ rest) =
    let after_two = batch_changes later_shas rest in
    let after_one = batch_changes later_shas (next ∷ rest) in
    if not (is_full status) || has_text status later_shas
    then ok ([], status ∷ path ∷ next ∷ rest)
    else if is_rename status
    then (after_two >>= λ r. ok (renamed path next ∷ r.0, r.1))
    else if is_status status
    then (after_one >>= λ r. ok (path_change status path ∷ r.0, r.1))
    else err "invalid batched path status"

-- The next token, or the empty text past the end.
abbrev pub next_token : List Text → Text
next_token [] = []
next_token (t ∷ ts) = t

-- The outer loop: the changes of each commit in turn. Git leaves out commits without any.
unfoldable pub batch_diffs : List GitCommit → List Text → Result (List GitCommit × List Text)
batch_diffs [] tokens = ok ([], tokens)
batch_diffs (commit ∷ rest) tokens =
    let later_shas = map (λ c. c.sha) rest in
    let next = next_token tokens in
    if text_eq next commit.sha
    then (batch_changes later_shas (drop 1 tokens) >>= λ (changes, left).
        batch_diffs rest left >>= λ (commits, end).
        ok (record commit { changes = commit.changes ++ changes } ∷ commits, end))
    else (ensure (not (is_full next) || has_text next later_shas) "batched diff header changed"
        >> (batch_diffs rest tokens >>= λ (commits, end). ok (commit ∷ commits, end)))

abbrev pub take_field : List Text → String → Result (Text × List Text)
take_field [] reason = err reason
take_field (f ∷ fs) reason = ok (f, fs)

-- The loop over the printed commits: an oid, a time and a message for each.
unfoldable pub read_shown : List Text → List Text → Result (List GitCommit × List Text)
read_shown [] fields = ok ([], fields)
read_shown (expected ∷ rest) fields =
    take_field fields "missing batched commit OID" >>= λ (oid, fields1).
    ensure (text_eq (trim oid) expected) "batched commit order changed" >>= λ _.
    take_field fields1 "missing batched commit time" >>= λ (time, fields2).
    ok_or (parse_i64 time) "invalid digit found in string" >>= λ commit_time.
    take_field fields2 "missing batched commit message" >>= λ (message, fields3).
    read_shown rest fields3 >>= λ (commits, left). ok (
      record { sha = trim oid; commit_time = commit_time; message = trim_end message; changes = [] }
          ∷ commits,
      left,
    )

unfoldable pub show_arguments : List Text → List Text
show_arguments shas = codes "show" ∷ codes "-s" ∷ codes "--format=%H%x00%ct%x00%B%x00" ∷ shas

unfoldable pub changed_arguments : Text → List Text
changed_arguments sha =
    codes "diff-tree"
    ∷ codes "--root"
    ∷ codes "--no-commit-id"
    ∷ codes "--name-status"
    ∷ codes "-r"
    ∷ codes "-M"
    ∷ codes "-z"
    ∷ sha
    ∷ []

unfoldable pub diff_arguments : List Text
diff_arguments =
    codes "diff-tree"
    ∷ codes "--stdin"
    ∷ codes "--root"
    ∷ codes "--name-status"
    ∷ codes "-r"
    ∷ codes "-M"
    ∷ codes "-z"
    ∷ []

-- What is done with the two outputs.
unfoldable pub read_batch : List Text → Text → Result Text → Result (List GitCommit)
read_batch shas show diff = read_shown shas (split nul show) >>= λ (commits, fields).
    ensure (all (λ f. not (is_full (trim f))) fields) "extra batched commit output" >>= λ _.
    diff >>= λ changed. batch_diffs commits (split nul changed) >>= λ (complete, tokens).
    ensure (all (λ t. not (is_full t)) tokens) "extra batched diff output" >>= λ _. ok complete

abbrev pub first_field : List Text → Text
first_field [] = []
first_field (f ∷ fs) = f

module _ (process : Process) where
  unfoldable pub diff_batch : List Text → Result Text
  diff_batch shas = do
    output ← process.run_git_input diff_arguments (join newline shas ++ newline ∷ [])
    ensure output.success "batched git diff-tree failed"
    process.from_utf8 output.stdout

  unfoldable pub commits_batch : List Text → Result (List GitCommit)
  commits_batch [] = ok []
  commits_batch (sha ∷ shas) = do
    show ← git process (show_arguments (sha ∷ shas))
    read_batch (sha ∷ shas) show (diff_batch (sha ∷ shas))

  unfoldable pub changed_paths : Text → Result (List ChangedPath)
  changed_paths sha = do
    output ← git process (changed_arguments sha)
    read_changes (keep is_full (split nul output))

  -- The parts that are missing are empty.
  unfoldable pub commit_at : Text → Result GitCommit
  commit_at sha = do
    output ← git process (codes "show" ∷ codes "-s" ∷ codes "--format=%H%x00%ct%x00%B" ∷ sha ∷ [])
    let parts = splitn 3 nul output
    commit_time ←
        ok_or (parse_i64 (trim (first_field (drop 1 parts)))) "invalid digit found in string"
    changes ← changed_paths sha
    ok (record {
      sha = trim (first_field parts);
      commit_time = commit_time;
      message = trim_end (first_field (drop 2 parts));
      changes = changes;
    })
