-- ===== src/Git/Printed.antt =====
-- The output of a walk of git, one line for each commit, is read back.
use zmem_cache.Common.{
  map, All, true, ◌∷◌, ◌++◌, Text, List, [], is_whitespace, join, false, split_space, ◌≡◌, is_full,
  map_ok, Lacks-join, ℕ, keep, keep_of_All, split-join, All-append, ended_lines, arith,
  split_whitespace, ◌≢◌, ◌∙◌, strip_return, lines, Lacks, refl, ap, All-imp, ok, text_Eq,
}
use zmem_cache.Git.{newline, parse_parents, oid_lines}

-- A word has characters, and none of them is white space.
abbrev pub IsWord : Text → Type 0
IsWord w = (is_full w ≡ true) × All (λ c. is_whitespace c ≡ false) w

abbrev pub IsRow : Text × List Text → Type 0
IsRow r = IsWord r.0 × All IsWord r.1

-- The line of a row, and the output of all rows.
abbrev pub print_row : Text × List Text → Text
print_row r = join 32 (r.0 ∷ r.1)

unfoldable pub print_rows : List (Text × List Text) → Text
print_rows rows = join newline (map print_row rows ++ [] ∷ [])

split_space_plain : (w : Text) → All (λ c. is_whitespace c ≡ false) w → split_space w ≡ w ∷ []
unfolding split_space
split_space_plain [] h = refl
split_space_plain (c ∷ w) h = ground (arith, split_space_plain w h.1)

split_space_part :
    (w rest : Text)
    → All (λ c. is_whitespace c ≡ false) w
    → split_space (w ++ (32 ∷ rest)) ≡ w ∷ split_space rest
unfolding split_space is_whitespace
split_space_part [] rest h = refl
split_space_part (c ∷ w) rest h = rw (h.0, split_space_part w rest h.1) refl

split_space-join :
    (w : Text) (ws : List Text) → IsWord w → All IsWord ws → split_space (join 32 (w ∷ ws)) ≡ w ∷ ws
unfolding join
split_space-join w [] h k = split_space_plain w h.1
split_space-join w (v ∷ vs) h k =
    split_space_part w (join 32 (v ∷ vs)) h.1 ∙ ap (◌∷◌ w) (split_space-join v vs k.0 k.1)

split_whitespace-print :
    (r : Text × List Text) → IsRow r → split_whitespace (print_row r) ≡ r.0 ∷ r.1
unfolding split_whitespace
split_whitespace-print r h =
    ap (keep is_full) (split_space-join r.0 r.1 h.0 h.1)
    ∙ keep_of_All is_full (r.0 ∷ r.1) (h.0.0, All-imp _ _ (λ w k. k.0) r.1 h.1)

parse_parents-print : (r : Text × List Text) → IsRow r → parse_parents (print_row r) ≡ ok r
unfolding parse_parents
parse_parents-print r h = rw (split_whitespace-print r h, parse_parents) refl

pub map_ok-print :
    (rows : List (Text × List Text))
    → All IsRow rows
    → map_ok parse_parents (map print_row rows) ≡ ok rows
map_ok-print [] h = refl
map_ok-print (r ∷ rows) h = rw (parse_parents-print r h.0, map_ok-print rows h.1) refl

strip_return_self : (s : Text) → Lacks 13 s → strip_return s ≡ s
unfolding strip_return
strip_return_self [] h = refl
strip_return_self (c ∷ []) h = ground arith
strip_return_self (c ∷ d ∷ s) h = ap (◌∷◌ c) (strip_return_self (d ∷ s) h.1)

ended_lines-append : (ps : List Text) → All (Lacks 13) ps → ended_lines (ps ++ [] ∷ []) ≡ ps
unfolding strip_return
ended_lines-append [] h = refl
ended_lines-append (p ∷ []) h = ap (λ x. x ∷ []) (strip_return_self p h.0)
ended_lines-append (p ∷ q ∷ ps) h =
    rw (strip_return_self p h.0, ended_lines-append (q ∷ ps) h.1) refl

append-ne-nil : (ps : List Text) → ps ++ [] ∷ [] ≢ []
append-ne-nil [] h = absurd (ground (arith, h))
append-ne-nil (p ∷ ps) h = absurd (ground (arith, h))

-- Lines without line ends and carriage returns are read back.
lines-join :
    (ps : List Text)
    → All (Lacks newline) ps
    → All (Lacks 13) ps
    → lines (join newline (ps ++ [] ∷ [])) ≡ ps
unfolding lines
lines-join ps h k =
    rw
      (split-join newline (ps ++ [] ∷ []) (append-ne-nil ps)
        (All-append (Lacks newline) ps ([] ∷ []) h (tt, tt)))
      (ended_lines-append ps k)

IsWord-Lacks : (b : ℕ) (w : Text) → is_whitespace b ≡ true → IsWord w → Lacks b w
IsWord-Lacks b w e h =
    All-imp _ _ (λ c k i. absurd (ground (arith, k, e, ap is_whitespace i))) w h.1

print_row-Lacks :
    (b : ℕ) (r : Text × List Text)
    → is_whitespace b ≡ true
    → 32 ≢ b
    → IsRow r
    → Lacks b (print_row r)
print_row-Lacks b r e n h =
    Lacks-join b 32 (r.0 ∷ r.1) n
      (IsWord-Lacks b r.0 e h.0, All-imp _ _ (λ w k. IsWord-Lacks b w e k) r.1 h.1)

is_full-join : (w : Text) (ws : List Text) → is_full w ≡ true → is_full (join 32 (w ∷ ws)) ≡ true
unfolding join
is_full-join w [] h = h
is_full-join [] (v ∷ vs) h = absurd (ground (arith, h))
is_full-join (c ∷ w) (v ∷ vs) h = refl

All-print_row :
    (P : Text → Type 0)
    → ((r : Text × List Text) → IsRow r → P (print_row r))
    → (rows : List (Text × List Text)) → All IsRow rows
    → All P (map print_row rows)
All-print_row P f [] h = tt
All-print_row P f (r ∷ rows) h = (f r h.0, All-print_row P f rows h.1)

pub oid_lines-print :
    (rows : List (Text × List Text))
    → All IsRow rows
    → oid_lines (print_rows rows) ≡ map print_row rows
unfolding oid_lines print_rows
oid_lines-print rows h =
    let ends : is_whitespace newline ≡ true = unfold is_whitespace in refl in
    let returns : is_whitespace 13 ≡ true = unfold is_whitespace in refl in
    let l =
      All-print_row (Lacks newline) (λ r k. print_row-Lacks newline r ends (omega arith) k) rows
        h in
    let c = All-print_row (Lacks 13) (λ r k. print_row-Lacks 13 r returns (omega arith) k) rows h in
    let f = All-print_row (λ p. is_full p ≡ true) (λ r k. is_full-join r.0 r.1 k.0.0) rows h in
    ap (keep is_full) (lines-join (map print_row rows) l c) ∙ keep_of_All is_full _ f
