-- ===== src/History/Batch.antt =====
-- A batch answers for the commits that were asked for, in their order, whatever git prints.
use zmem_cache.Common.{
  inl, ◌∷◌, inr, Returns-ensure, parse_i64, ok, ◌≡◌, drop, Returns-of, ap, List, [], Bool-cases,
  refl, ok_or, map, ◌∷◌, Text, text_eq_sound, Returns-bind, trim, text_eq, Returns, ◌||◌, ◌>>=◌,
  Result, ◌∙◌, has_text, split, is_full, not, sym, all,
}
use zmem_cache.History.{
  take_field, batch_changes, next_token, GitCommit, batch_diffs, read_shown, nul, show_arguments,
  commits_batch, read_batch, diff_batch,
}
use zmem_cache.Git.{Process, git}

abbrev pub shas_of : List GitCommit → List Text
shas_of = map (λ c. c.sha)

-- The commits of a result are these.
abbrev Holds : List Text → List GitCommit × List Text → Type 0
Holds shas out = shas_of out.0 ≡ shas

read_shown-Holds : (shas fields : List Text) → Returns (Holds shas) (read_shown shas fields)
unfolding read_shown
read_shown-Holds [] fields = refl
read_shown-Holds (expected ∷ rest) fields =
    let P = Holds (expected ∷ rest) in
    Returns-bind P (take_field fields "missing batched commit OID") _ λ f1 e1.
      Returns-ensure P (text_eq (trim f1.0) expected) _ _ λ same.
        Returns-bind P (take_field f1.1 "missing batched commit time") _ λ f2 e2.
          Returns-bind P (ok_or (parse_i64 f2.0) _) _ λ commit_time e3.
            Returns-bind P (take_field f2.1 "missing batched commit message") _ λ f3 e4.
              Returns-bind P (read_shown rest f3.1) _ λ out e5.
                rw
                  (
                    text_eq_sound (trim f1.0) expected same,
                    Returns-of (Holds rest) (read_shown rest f3.1) out e5
                        (read_shown-Holds rest f3.1),
                  )
                  refl

batch_diffs-Holds :
    (commits : List GitCommit) (tokens : List Text)
    → Returns (Holds (shas_of commits)) (batch_diffs commits tokens)
unfolding batch_diffs
batch_diffs-Holds [] tokens = refl
batch_diffs-Holds (commit ∷ rest) tokens =
    let P = Holds (shas_of (commit ∷ rest)) in
    let ih : (ts : List Text) (out : List GitCommit × List Text)
        → batch_diffs rest ts ≡ ok out
        → Holds (shas_of rest) out =
      λ ts out e.
        Returns-of (Holds (shas_of rest)) (batch_diffs rest ts) out e (batch_diffs-Holds rest ts) in
    elim (Bool-cases (text_eq (next_token tokens) commit.sha)) [
      | inl e ↦ rw e (
          Returns-bind P (batch_changes (shas_of rest) (drop 1 tokens)) _ λ r e1.
            Returns-bind P (batch_diffs rest r.1) _ λ s e2. ap (◌∷◌ commit.sha) (ih r.1 s e2))
      | inr e ↦
          let next = next_token tokens in
          rw e (
            Returns-ensure P (not (is_full next) || has_text next (shas_of rest))
              "batched diff header changed"
              (batch_diffs rest tokens >>= λ s. ok (commit ∷ s.0, s.1))
              λ k.
                Returns-bind P (batch_diffs rest tokens) (λ s. ok (commit ∷ s.0, s.1))
                  λ s e2. ap (◌∷◌ commit.sha) (ih tokens s e2))
    ]

read_batch-shas :
    (shas : List Text) (show : Text) (diff : Result Text)
    → Returns (λ commits. shas_of commits ≡ shas) (read_batch shas show diff)
unfolding read_batch
read_batch-shas shas show diff =
    let P : List GitCommit → Type 0 = λ commits. shas_of commits ≡ shas in
    Returns-bind P (read_shown shas (split nul show)) _ λ out e1.
      Returns-ensure P (all (λ f. not (is_full (trim f))) out.1) _ _ λ k1.
        Returns-bind P diff _ λ changes e2.
          Returns-bind P (batch_diffs out.0 (split nul changes)) _ λ complete e3.
            Returns-ensure P (all (λ t. not (is_full t)) complete.1) _ _ λ k2.
              Returns-of (Holds (shas_of out.0)) _ complete e3
                (batch_diffs-Holds out.0 (split nul changes))
              ∙ Returns-of (Holds shas) _ out e1 (read_shown-Holds shas (split nul show))

-- Whatever git prints, a batch that is read holds exactly the commits that were asked for, each
-- once for each request and in their order.
pub commits_batch-shas :
    (process : Process) (shas : List Text) {commits : List GitCommit}
    → commits_batch process shas ≡ ok commits
    → shas_of commits ≡ shas
unfolding commits_batch
commits_batch-shas process [] {commits} h = let e : [] ≡ commits = cc in rw (sym e) refl
commits_batch-shas process (sha ∷ shas) {commits} h =
    Returns-of (λ cs. shas_of cs ≡ sha ∷ shas) _ commits h
      (Returns-bind (λ cs. shas_of cs ≡ sha ∷ shas) (git process (show_arguments (sha ∷ shas)))
        (λ show. read_batch (sha ∷ shas) show (diff_batch process (sha ∷ shas)))
        λ show e. read_batch-shas (sha ∷ shas) show (diff_batch process (sha ∷ shas)))
