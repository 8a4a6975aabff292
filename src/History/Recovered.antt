-- ===== src/History/Recovered.antt =====
-- `commits_batch` as a whole: what git prints for a batch is read back.
use mathlib.Core.List.{reverse_aux}
use zmem_cache.Common.{
  Lacks, refl, ◌++◌, reverse, ◌∙◌, text_eq_self, Text, [], ap, is_whitespace, trim_start, ok, true,
  All, trim, All-append, trim_end, arith, ◌≡◌, List, reverse-reverse, IsI64, false, parse_i64-print,
  map, ◌∷◌, split-join, join, print_ℤ-Lacks, ◌≢◌, All-imp,
}
use zmem_cache.History.{nul, read_shown, read_batch, commits_batch, show_arguments, diff_batch}
use zmem_cache.Git.Printed.{IsWord}
use zmem_cache.History.Printed.{
  Fact, AreFacts, oids, shown_fields, bare_of, diff_tokens, IsEntryBefore, commit_tokens, commit_of,
  batch_diffs-tokens,
}
use zmem_cache.Git.{newline, Process, git}
use zmem_cache.History.Changes.{Entry, tokens_of, All-tokens}

trim_start_plain : (w : Text) → All (λ c. is_whitespace c ≡ false) w → trim_start w ≡ w
unfolding trim_start
trim_start_plain [] h = refl
trim_start_plain (c ∷ w) h = ground (arith, h.0)

trim_start_space :
    (before w : Text)
    → All (λ c. is_whitespace c ≡ true) before
    → All (λ c. is_whitespace c ≡ false) w
    → trim_start (before ++ w) ≡ w
unfolding trim_start
trim_start_space [] w h k = trim_start_plain w k
trim_start_space (c ∷ before) w h k = ground (arith, h.0, trim_start_space before w h.1 k)

All-reverse_aux {ℓ} :
    {A : Type ℓ} (P : A → Type 0) (xs ys : List A) → All P xs → All P ys → All P (reverse_aux xs ys)
All-reverse_aux P [] ys h k = k
All-reverse_aux P (x ∷ xs) ys h k = All-reverse_aux P xs (x ∷ ys) h.1 (h.0, k)

-- A word loses the white space before it, and nothing of its own.
trim_word :
    (before w : Text) → All (λ c. is_whitespace c ≡ true) before → IsWord w → trim (before ++ w) ≡ w
unfolding trim trim_end
trim_word before w h k =
    ap (λ x. reverse (trim_start (reverse x))) (trim_start_space before w h k.1)
    ∙ ap reverse (trim_start_plain (reverse w) (All-reverse_aux _ w [] k.1 tt))
    ∙ reverse-reverse w

-- No field holds a nul, and times are of an `i64`.
abbrev pub IsPrinted : Fact → Type 0
IsPrinted f = Lacks nul f.oid × Lacks nul f.raw_message × IsI64 f.time

abbrev rest_of : Text → List Fact → Text
rest_of before [] = before
rest_of before (f ∷ fs) = newline ∷ []

rest_of-newline : (fs : List Fact) → rest_of (newline ∷ []) fs ≡ newline ∷ []
rest_of-newline [] = refl
rest_of-newline (f ∷ fs) = refl

read_shown-fields :
    (before : Text) (fs : List Fact)
    → All (λ c. is_whitespace c ≡ true) before
    → AreFacts fs
    → All IsPrinted fs
    → read_shown (oids fs) (shown_fields before fs) ≡ ok (map bare_of fs, rest_of before fs ∷ [])
unfolding read_shown
read_shown-fields before [] b h p = refl
read_shown-fields before (f ∷ fs) b h p =
    let ends : is_whitespace newline ≡ true = unfold is_whitespace in refl in
    rw
      (
        trim_word before f.oid b h.0.0,
        text_eq_self f.oid,
        parse_i64-print f.time p.0.2,
        read_shown-fields (newline ∷ []) fs (ends, tt) h.1 p.1,
        rest_of-newline fs,
      )
      refl

shown_fields-Lacks :
    (before : Text) (fs : List Fact)
    → Lacks nul before
    → All IsPrinted fs
    → All (Lacks nul) (shown_fields before fs)
shown_fields-Lacks before [] b p = (b, tt)
shown_fields-Lacks before (f ∷ fs) b p = (
  All-append (λ c. c ≢ nul) before f.oid b p.0.0,
  (
    print_ℤ-Lacks f.time nul refl (omega arith),
    (p.0.1, shown_fields-Lacks (newline ∷ []) fs (omega arith, tt) p.1),
  ),
)

commit_tokens-Lacks :
    (shas : List Text) (oid : Text) (es : List Entry) (rest : List Text)
    → Lacks nul oid
    → All (IsEntryBefore shas) es
    → All (Lacks nul) rest
    → All (Lacks nul) (commit_tokens oid es rest)
commit_tokens-Lacks shas oid [] rest o h k = k
commit_tokens-Lacks shas oid (e ∷ es) rest o h k = (
  o,
  All-append (Lacks nul) (tokens_of (e ∷ es)) rest
      (All-tokens (Lacks nul) (λ t l. l.1) (e ∷ es) (All-imp _ _ (λ x l. l.0) (e ∷ es) h)) k,
)

diff_tokens-Lacks :
    (fs : List Fact) → AreFacts fs → All IsPrinted fs → All (Lacks nul) (diff_tokens fs)
diff_tokens-Lacks [] h p = (tt, tt)
diff_tokens-Lacks (f ∷ fs) h p =
    commit_tokens-Lacks (oids fs) f.oid f.entries (diff_tokens fs) p.0.0 h.0.2
      (diff_tokens-Lacks fs h.1 p.1)

commit_tokens-ne-nil :
    (oid : Text) (es : List Entry) (rest : List Text) → rest ≢ [] → commit_tokens oid es rest ≢ []
commit_tokens-ne-nil oid [] rest h = h
commit_tokens-ne-nil oid (e ∷ es) rest h = ground arith

diff_tokens-ne-nil : (fs : List Fact) → diff_tokens fs ≢ []
diff_tokens-ne-nil [] = ground arith
diff_tokens-ne-nil (f ∷ fs) =
    commit_tokens-ne-nil f.oid f.entries (diff_tokens fs) (diff_tokens-ne-nil fs)

-- The outputs of `git show` and `git diff-tree` for these commits.
unfoldable pub print_shown : List Fact → Text
print_shown fs = join nul (shown_fields [] fs)

unfoldable pub print_diffs : List Fact → Text
print_diffs fs = join nul (diff_tokens fs)

-- `commits_batch` reads back what git prints, for commits with distinct oids: each commit's time,
-- its message without white space at the end, and its changes in order, also where a commit has no
-- changes and git leaves it out. A status may be no oid of a later commit.
pub commits_batch-print :
    (process : Process) (f : Fact) (fs : List Fact)
    → AreFacts (f ∷ fs)
    → All IsPrinted (f ∷ fs)
    → git process (show_arguments (oids (f ∷ fs))) ≡ ok (print_shown (f ∷ fs))
    → diff_batch process (oids (f ∷ fs)) ≡ ok (print_diffs (f ∷ fs))
    → commits_batch process (oids (f ∷ fs)) ≡ ok (map commit_of (f ∷ fs))
unfolding commits_batch read_batch print_shown print_diffs
commits_batch-print process f fs h p g d =
    let blank : trim (newline ∷ []) ≡ [] = unfold trim trim_start trim_end is_whitespace in refl in
    rw
      (
        g,
        d,
        split-join nul (shown_fields [] (f ∷ fs)) (ground arith)
            (shown_fields-Lacks [] (f ∷ fs) tt p),
        read_shown-fields [] (f ∷ fs) tt h p,
        blank,
        split-join nul (diff_tokens (f ∷ fs)) (diff_tokens-ne-nil (f ∷ fs))
            (diff_tokens-Lacks (f ∷ fs) h p),
        batch_diffs-tokens (f ∷ fs) h,
      )
      refl
