-- ===== src/History/Printed.antt =====
-- A batch reads back what git prints for it.
use zmem_cache.History.Changes.{Entry, touched, moved, IsEntry, change_of, tokens_of}
use zmem_cache.History.{
  is_rename, renamed, path_change, is_status, batch_changes, ChangedPath, GitCommit, batch_diffs,
}
use zmem_cache.Common.{
  ◌||◌, true, ◌>>=◌, Result, ◌++◌, ℤ, false, trim_end, refl, ◌∷◌, [], has_text, print_ℤ, arith, All,
  Text, is_full, not, ok, ◌≡◌, List, map, text_eq_sound, inr, ap, text_eq_self, text_eq, Bool-cases,
  subst, inl,
}
use zmem_cache.Git.{newline}
use zmem_cache.Git.Printed.{IsWord}

-- A commit as git prints it: its message with white space at the end, and its entries.
pub record Fact : Type 0 where
  pub oid : Text
  pub time : ℤ
  pub raw_message : Text
  pub entries : List Entry

abbrev pub oids : List Fact → List Text
oids = map (λ f. f.oid)

-- The fields of `git show`: after the first commit an oid stands behind a line end.
abbrev pub shown_fields : Text → List Fact → List Text
shown_fields before [] = before ∷ []
shown_fields before (f ∷ fs) =
    (before ++ f.oid) ∷ print_ℤ f.time ∷ f.raw_message ∷ shown_fields (newline ∷ []) fs

-- The tokens of `git diff-tree`: nothing for a commit without entries.
abbrev pub commit_tokens : Text → List Entry → List Text → List Text
commit_tokens oid [] rest = rest
commit_tokens oid (e ∷ es) rest = oid ∷ (tokens_of (e ∷ es) ++ rest)

abbrev pub diff_tokens : List Fact → List Text
diff_tokens [] = [] ∷ []
diff_tokens (f ∷ fs) = commit_tokens f.oid f.entries (diff_tokens fs)

abbrev pub IsStatus : Entry → Type 0
IsStatus (touched status path) = is_status status ≡ true
IsStatus (moved status old_path new_path) = Unit

abbrev pub status_of : Entry → Text
status_of (touched status path) = status
status_of (moved status old_path new_path) = status

-- An oid is a word; statuses are known and no oid of a later commit.
abbrev pub IsEntryBefore : List Text → Entry → Type 0
IsEntryBefore later_shas e = IsEntry e × IsStatus e × (has_text (status_of e) later_shas ≡ false)

abbrev pub commit_of : Fact → GitCommit
commit_of f = record {
  sha = f.oid;
  commit_time = f.time;
  message = trim_end f.raw_message;
  changes = map change_of f.entries;
}

batch_changes_stop :
    (later_shas : List Text) (t : Text) (rest : List Text)
    → (not (is_full t) || has_text t later_shas) ≡ true
    → batch_changes later_shas (t ∷ rest) ≡ ok ([], t ∷ rest)
unfolding batch_changes
batch_changes_stop ls t [] h = rw h refl
batch_changes_stop ls t (a ∷ []) h = rw h refl
batch_changes_stop ls t (a ∷ b ∷ rest) h = rw h refl

abbrev with_change :
    ChangedPath → List ChangedPath × List Text → Result (List ChangedPath × List Text)
with_change c r = ok (c ∷ r.0, r.1)

batch_changes_path :
    (later_shas : List Text) (status path : Text) (rest : List Text)
    → (not (is_full status) || has_text status later_shas) ≡ false
    → is_rename status ≡ false
    → is_status status ≡ true
    → batch_changes later_shas (status ∷ path ∷ rest)
      ≡ (batch_changes later_shas rest >>= with_change (path_change status path))
unfolding batch_changes
batch_changes_path ls status path [] h k l = rw (h, k, l) refl
batch_changes_path ls status path (next ∷ rest) h k l = rw (h, k, l) refl

batch_changes_move :
    (later_shas : List Text) (status old_path new_path : Text) (rest : List Text)
    → (not (is_full status) || has_text status later_shas) ≡ false
    → is_rename status ≡ true
    → batch_changes later_shas (status ∷ old_path ∷ new_path ∷ rest)
      ≡ (batch_changes later_shas rest >>= with_change (renamed old_path new_path))
unfolding batch_changes
batch_changes_move ls status old_path new_path rest h k = rw (h, k) refl

batch_changes-tokens :
    (later_shas : List Text) (es : List Entry) (t : Text) (rest : List Text)
    → All (IsEntryBefore later_shas) es
    → (not (is_full t) || has_text t later_shas) ≡ true
    → batch_changes later_shas (tokens_of es ++ (t ∷ rest)) ≡ ok (map change_of es, t ∷ rest)
batch_changes-tokens ls [] t rest h k = batch_changes_stop ls t rest k
batch_changes-tokens ls (touched status path ∷ es) t rest h k =
    rw
      (
        batch_changes_path ls status path (tokens_of es ++ (t ∷ rest))
            (ground (arith, h.0.0.0.0, h.0.2)) h.0.0.2 h.0.1,
        batch_changes-tokens ls es t rest h.1 k,
      )
      refl
batch_changes-tokens ls (moved status old_path new_path ∷ es) t rest h k =
    rw
      (
        batch_changes_move ls status old_path new_path (tokens_of es ++ (t ∷ rest))
            (ground (arith, h.0.0.0.0, h.0.2)) h.0.0.3,
        batch_changes-tokens ls es t rest h.1 k,
      )
      refl

-- Some token is next: the empty one, or the oid of one of the commits.
abbrev StartsAt : List Text → List Text → Type 0
StartsAt shas ts =
    (t : Text) × (rest : List Text) × (ts ≡ t ∷ rest)
    × ((not (is_full t) || has_text t shas) ≡ true)

commit_tokens-StartsAt :
    (sha : Text) (es : List Entry) (shas rest : List Text)
    → StartsAt shas rest
    → StartsAt (sha ∷ shas) (commit_tokens sha es rest)
unfolding has_text
commit_tokens-StartsAt sha [] shas rest (t, left, e, h) = (t, left, e, ground (arith, h))
commit_tokens-StartsAt sha (x ∷ es) shas rest h =
    (sha, tokens_of (x ∷ es) ++ rest, refl, ground (arith, text_eq_self sha))

diff_tokens-StartsAt : (fs : List Fact) → StartsAt (oids fs) (diff_tokens fs)
diff_tokens-StartsAt [] = ([], [], refl, refl)
diff_tokens-StartsAt (f ∷ fs) =
    commit_tokens-StartsAt f.oid f.entries (oids fs) (diff_tokens fs) (diff_tokens-StartsAt fs)

-- The commit before its changes are read.
abbrev pub bare_of : Fact → GitCommit
bare_of f = record (commit_of f) { changes = [] }

-- Oids are words and no oid twice; entries are as above.
abbrev pub AreFacts : List Fact → Type 0
AreFacts [] = Unit
AreFacts (f ∷ fs) =
    (IsWord f.oid × (has_text f.oid (oids fs) ≡ false) × All (IsEntryBefore (oids fs)) f.entries)
    × AreFacts fs

not_next :
    (t sha : Text) (shas : List Text)
    → (not (is_full t) || has_text t shas) ≡ true
    → is_full sha ≡ true
    → has_text sha shas ≡ false
    → text_eq t sha ≡ false
not_next t sha shas h f n = elim (Bool-cases (text_eq t sha)) [
  | inr e ↦ e
  | inl e ↦
      let same : t ≡ sha = text_eq_sound t sha e in
      let other = subst (λ x. (not (is_full x) || has_text x shas) ≡ true) same h in
      absurd (ground (arith, other, f, n))
]

abbrev with_commit : GitCommit → List GitCommit × List Text → Result (List GitCommit × List Text)
with_commit c r = ok (c ∷ r.0, r.1)

batch_diffs_commit :
    (f : Fact) (es : List Entry) (fs : List Fact)
    → IsWord f.oid
    → has_text f.oid (oids fs) ≡ false
    → All (IsEntryBefore (oids fs)) es
    → map (λ (c : GitCommit). c.sha) (map bare_of fs) ≡ oids fs
    → batch_diffs (bare_of f ∷ map bare_of fs) (commit_tokens f.oid es (diff_tokens fs)) ≡ (
        batch_diffs (map bare_of fs) (diff_tokens fs)
        >>= with_commit (record (bare_of f) { changes = map change_of es }))
unfolding batch_diffs
batch_diffs_commit f [] fs w n h m =
    let (t, rest, e, s) = diff_tokens-StartsAt fs in
    rw (e, not_next t f.oid (oids fs) s w.0 n, m, s) refl
batch_diffs_commit f (x ∷ es) fs w n h m =
    let (t, rest, e, s) = diff_tokens-StartsAt fs in
    rw (text_eq_self f.oid, m, e, batch_changes-tokens (oids fs) (x ∷ es) t rest h s) refl

sha-bare : (fs : List Fact) → map (λ (c : GitCommit). c.sha) (map bare_of fs) ≡ oids fs
sha-bare [] = refl
sha-bare (f ∷ fs) = ap (◌∷◌ f.oid) (sha-bare fs)

pub batch_diffs-tokens :
    (fs : List Fact)
    → AreFacts fs
    → batch_diffs (map bare_of fs) (diff_tokens fs) ≡ ok (map commit_of fs, [] ∷ [])
batch_diffs-tokens [] h = unfold batch_diffs in refl
batch_diffs-tokens (f ∷ fs) h =
    rw
      (batch_diffs_commit f f.entries fs h.0.0 h.0.1 h.0.2 (sha-bare fs), batch_diffs-tokens fs h.1)
      refl
