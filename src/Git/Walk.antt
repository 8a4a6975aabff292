-- ===== src/Git/Walk.antt =====
-- A walk reads the newest commits of a history, within the limit.
use zmem_cache.Common.{
  map, All, true, ◌∷◌, ◌++◌, Text, List, [], false, ◌≡◌, map_ok, ℕ, keep, arith, ◌≢◌, ◌∙◌, refl, ap,
  ok, some, insert, Bool-cases, text_eq_iff, sym, lookup-insert, text_eq, if◌then◌else◌, has_text,
  none, text_eq_sound, Option, inr, if◌then◌else◌, inl, if◌then◌else◌, lookup, Unique, text_Eq,
  length, bind_parts, subst, reverse, ◌≤◌, length-take, ◌^◌, ◌<◌, min, Bool, drop, suc,
  take-append-drop, codes, append-nil, ◌⊎◌, take, ◌↔◌, zero, print_ℕ, ltb, ◌-◌,
}
use zmem_cache.Git.{
  parse_parents, parent_map, walk_of, is_cut, cut, GitWalk, git, walk_arguments, oid_lines,
  walk_newest, Process, walk_trail, sentinel,
}
use zmem_cache.Attention.{AttentionLimit, maximum}
use zmem_cache.Git.Printed.{print_rows, IsRow, oid_lines-print, map_ok-print}

abbrev later : Option (List Text) → Option (List Text) → Option (List Text)
later none o = o
later (some v) o = some v

lookup-parent_map :
    (k : Text) (found rows : List (Text × List Text))
    → Unique rows
    → lookup k (parent_map found rows) ≡ later (lookup k rows) (lookup k found)
unfolding parent_map lookup
lookup-parent_map k found [] u = refl
lookup-parent_map k found ((sha, fields) ∷ rest) u = elim (Bool-cases (text_eq sha k)) [
  | inl e ↦
      let same : sha ≡ k = text_eq_sound sha k e in
      let none_left : lookup k rest ≡ none = ap (λ x. lookup x rest) (sym same) ∙ u.0 in
      rw
        (
          e,
          lookup-parent_map k (insert sha fields found) rest u.1,
          none_left,
          lookup-insert sha k fields found,
          e,
        )
        refl
  | inr e ↦
      rw
        (
          e,
          lookup-parent_map k (insert sha fields found) rest u.1,
          lookup-insert sha k fields found,
          e,
        )
        refl
]

later-none : (o : Option (List Text)) → later o none ≡ o
later-none none = refl
later-none (some v) = refl

lookup-parent_map_nil :
    (k : Text) (rows : List (Text × List Text))
    → Unique rows
    → lookup k (parent_map [] rows) ≡ lookup k rows
unfolding lookup
lookup-parent_map_nil k rows u = lookup-parent_map k [] rows u ∙ later-none (lookup k rows)

lookup-keep :
    (k : Text) (shas : List Text) (m : List (Text × List Text))
    → lookup k (keep (λ r. has_text r.0 shas) m) ≡ (if has_text k shas then lookup k m else none)
unfolding lookup
lookup-keep k shas [] = ground arith
lookup-keep k shas ((j, v) ∷ m) = ground (arith, text_eq_iff j k, lookup-keep k shas m)

-- What git documents of a history: without a maximum, all its rows are printed, newest first; with a
-- maximum count, the first rows, as many as that.
pub record IsHistory (process : Process) (head : Text) (rows : List (Text × List Text))
    : Type 0 where
  pub whole :
      git process (codes "rev-list" ∷ codes "--topo-order" ∷ codes "--parents" ∷ head ∷ [])
      ≡ ok (print_rows rows)
  pub capped :
      (n : ℕ)
      → n < 2 ^ 64
      → git process (
          codes "rev-list"
          ∷ codes "--topo-order"
          ∷ codes "--parents"
          ∷ (codes "--max-count=" ++ print_ℕ n)
          ∷ head
          ∷ [])
        ≡ ok (print_rows (take n rows))

-- How much of the history a walk holds, and whether it says that commits are left out.
abbrev pub Extent : ℕ → Option ℕ → GitWalk → List Text → Type 0
Extent total none w left_out = left_out ≡ []
Extent total (some most) w left_out = length w.shas ≡ min most total

-- The walk of this history under this maximum: the newest oids, and those that are left out.
pub record IsWalk (rows : List (Text × List Text)) (most : Option ℕ) (w : GitWalk) : Type 0 where
  pub left_out : List Text
  pub newest : w.shas ++ left_out ≡ map (λ r. r.0) rows
  pub extent : Extent (length rows) most w left_out
  pub known : (k : Text) → lookup k w.parents ≡ (if has_text k w.shas then lookup k rows else none)
  pub reports : (w.truncated ≡ true) ↔ (left_out ≢ [])

-- The rows that git prints for the arguments of a walk.
abbrev printed : Option ℕ → List (Text × List Text) → List (Text × List Text)
printed none rows = rows
printed (some most) rows = take (sentinel most) rows

git-printed :
    (process : Process) (head : Text) (rows : List (Text × List Text)) (most : Option ℕ)
    → IsHistory process head rows
    → git process (walk_arguments most head) ≡ ok (print_rows (printed most rows))
unfolding walk_arguments
git-printed process head rows none h = h.whole
git-printed process head rows (some most) h =
    h.capped (sentinel most) (unfold sentinel in omega arith)

take-take :
    {A : Type 0} (m n : ℕ) (xs : List A)
    → (m ≤ n) ⊎ (length xs ≤ n)
    → take m (take n xs) ≡ take m xs
take-take zero n xs h = refl
take-take (suc m) zero [] h = refl
take-take (suc m) zero (x ∷ xs) h = absurd (ground (arith, h))
take-take (suc m) (suc n) [] h = refl
take-take (suc m) (suc n) (x ∷ xs) h = ap (◌∷◌ x) (take-take m n xs (ground (arith, h)))

map-take :
    (n : ℕ) (rows : List (Text × List Text))
    → map (λ (r : Text × List Text). r.0) (take n rows) ≡ take n (map (λ r. r.0) rows)
map-take zero rows = refl
map-take (suc n) [] = refl
map-take (suc n) (r ∷ rows) = ap (◌∷◌ r.0) (map-take n rows)

length-oids :
    (rows : List (Text × List Text))
    → length (map (λ (r : Text × List Text). r.0) rows) ≡ length rows
length-oids [] = refl
length-oids (r ∷ rows) = ap (λ n. suc n) (length-oids rows)

lookup-take-none :
    (k : Text) (n : ℕ) (rows : List (Text × List Text))
    → lookup k rows ≡ none
    → lookup k (take n rows) ≡ none
unfolding lookup
lookup-take-none k zero rows h = refl
lookup-take-none k (suc n) [] h = refl
lookup-take-none k (suc n) ((j, v) ∷ rows) h = ground (arith, lookup-take-none k n rows)

Unique-take : (n : ℕ) (rows : List (Text × List Text)) → Unique rows → Unique (take n rows)
Unique-take zero rows u = tt
Unique-take (suc n) [] u = tt
Unique-take (suc n) ((k, v) ∷ rows) u = (lookup-take-none k n rows u.0, Unique-take n rows u.1)

All-take : (n : ℕ) (rows : List (Text × List Text)) → All IsRow rows → All IsRow (take n rows)
All-take zero rows h = tt
All-take (suc n) [] h = tt
All-take (suc n) (r ∷ rows) h = (h.0, All-take n rows h.1)

lookup-take :
    (k : Text) (n : ℕ) (rows : List (Text × List Text))
    → has_text k (map (λ (r : Text × List Text). r.0) (take n rows)) ≡ true
    → lookup k (take n rows) ≡ lookup k rows
unfolding lookup has_text
lookup-take k zero rows h = absurd (ground (arith, h))
lookup-take k (suc n) [] h = refl
lookup-take k (suc n) ((j, v) ∷ rows) h = elim (Bool-cases (text_eq j k)) [
  | inl e ↦ rw e refl
  | inr e ↦
      let other : text_eq k j ≡ false = ground (arith, e, text_eq_iff j k, text_eq_iff k j) in
      let h' : has_text k (map (λ (r : Text × List Text). r.0) (take n rows)) ≡ true =
        rw other at h in
      rw e (lookup-take k n rows h')
]

has_text-take :
    (k : Text) (n : ℕ) (ts : List Text) → has_text k (take n ts) ≡ true → has_text k ts ≡ true
unfolding has_text
has_text-take k zero ts h = absurd (ground (arith, h))
has_text-take k (suc n) [] h = h
has_text-take k (suc n) (t ∷ ts) h = ground (arith, has_text-take k n ts)

-- Rows beyond those that are printed do not matter for the oids of the walk.
known_of :
    (k : Text) (b : Bool) (some_rows rows : List (Text × List Text))
    → (b ≡ true → lookup k some_rows ≡ lookup k rows)
    → (if b then lookup k some_rows else none) ≡ (if b then lookup k rows else none)
known_of k true some_rows rows h = h refl
known_of k false some_rows rows h = refl

lookup-walk_of :
    (k : Text) (most : Option ℕ) (rows : List (Text × List Text))
    → Unique rows
    → lookup k (walk_of most rows).parents
      ≡ (if has_text k (cut most (map (λ r. r.0) rows)) then lookup k rows else none)
unfolding walk_of
lookup-walk_of k most rows u =
    lookup-keep k (cut most (map (λ r. r.0) rows)) (parent_map [] rows)
    ∙ rw (lookup-parent_map_nil k rows u) refl

drop-nil_iff : (n : ℕ) (ts : List Text) → (drop n ts ≢ []) ↔ (n < length ts)
drop-nil_iff zero [] = (λ h. absurd (h refl), λ h. absurd (omega (arith, h)))
drop-nil_iff zero (t ∷ ts) = (λ h. omega arith, λ h k. absurd (ground (arith, k)))
drop-nil_iff (suc n) [] = (λ h. absurd (h refl), λ h. absurd (omega (arith, h)))
drop-nil_iff (suc n) (t ∷ ts) =
    (λ h. omega (arith, (drop-nil_iff n ts).0 h), λ h. (drop-nil_iff n ts).1 (omega (arith, h)))

enough_of : (most total : ℕ) → total < 2 ^ 64 → (most ≤ sentinel most) ⊎ (total ≤ sentinel most)
unfolding sentinel
enough_of most total few = elim (Bool-cases (ltb most (2 ^ 64 - 1))) [
  | inl h ↦ inl (ground (arith, h))
  | inr h ↦ inr (ground (arith, h, few))
]

cut_iff : (most total : ℕ) → total < 2 ^ 64 → (most < min (sentinel most) total) ↔ (most < total)
unfolding sentinel
cut_iff most total few = (λ h. omega (arith, h), λ h. omega (arith, h, few))

capped-IsWalk :
    (most : ℕ) (rows : List (Text × List Text))
    → length rows < 2 ^ 64
    → Unique rows
    → IsWalk rows (some most) (walk_of (some most) (take (sentinel most) rows))
unfolding cut is_cut walk_of
capped-IsWalk most rows few u =
    let oids = map (λ (r : Text × List Text). r.0) rows in
    let n = sentinel most in
    let same : length oids ≡ length rows = length-oids rows in
    let enough : (most ≤ n) ⊎ (length oids ≤ n) =
      enough_of most (length oids) (omega (arith, same, few)) in
    let shas : take most (map (λ (r : Text × List Text). r.0) (take n rows)) ≡ take most oids =
      ap (take most) (map-take n rows) ∙ take-take most n oids enough in
    let printed_length = length-take n rows in
    record {
      left_out = drop most oids;
      newest = ap (λ x. x ++ drop most oids) shas ∙ take-append-drop most oids;
      extent = ap length shas ∙ length-take most oids ∙ ap (min most) same;
      known = λ k.
          lookup-walk_of k (some most) (take n rows) (Unique-take n rows u)
          ∙ known_of k _ (take n rows) rows (λ h. lookup-take k n rows (has_text-take k most _ h));
      reports =
          let all_printed = length-oids (take n rows) in
          let less = cut_iff most (length rows) few in
          let rest = drop-nil_iff most oids in
          (
            λ h.
                rest.1
                  (omega (arith, same, less.0 (ground (arith, h, all_printed, printed_length)))),
            λ h.
                let more = less.1 (omega (arith, same, rest.0 h)) in
                ground (arith, more, all_printed, printed_length),
          );
    }

whole-IsWalk : (rows : List (Text × List Text)) → Unique rows → IsWalk rows none (walk_of none rows)
unfolding cut is_cut walk_of
whole-IsWalk rows u = record {
  left_out = [];
  newest = append-nil (map (λ r. r.0) rows);
  extent = refl;
  known = λ k. lookup-walk_of k none rows u;
  reports = (λ h. absurd (ground (arith, h)), λ h. absurd (h refl));
}

printed-IsWalk :
    (most : Option ℕ) (rows : List (Text × List Text))
    → length rows < 2 ^ 64
    → Unique rows
    → IsWalk rows most (walk_of most (printed most rows))
printed-IsWalk none rows few u = whole-IsWalk rows u
printed-IsWalk (some most) rows few u = capped-IsWalk most rows few u

printed-IsRow :
    (most : Option ℕ) (rows : List (Text × List Text))
    → All IsRow rows
    → All IsRow (printed most rows)
printed-IsRow none rows h = h
printed-IsRow (some most) rows h = All-take (sentinel most) rows h

walk_newest_printed :
    (process : Process) (head : Text) (limit : AttentionLimit) (rows : List (Text × List Text))
    → All IsRow rows
    → git process (walk_arguments (maximum limit) head) ≡ ok (print_rows rows)
    → walk_newest process head limit ≡ ok (walk_of (maximum limit) rows)
unfolding walk_newest
walk_newest_printed process head limit rows h g =
    rw (g, oid_lines-print rows h, map_ok-print rows h) refl

-- When git gives a history of fewer than 2^64 commits as it documents, each a row of an oid and the
-- oids of its parents, no oid twice, `walk_newest` answers with the newest oids, all of them or as
-- many as the limit allows; its parents are those of exactly these oids in the whole history; and it
-- is truncated exactly when oids of the history are left out.
pub walk_newest-IsWalk :
    (process : Process) (head : Text) (limit : AttentionLimit) (rows : List (Text × List Text))
    → All IsRow rows
    → Unique rows
    → length rows < 2 ^ 64
    → IsHistory process head rows
    → (w : GitWalk) × (walk_newest process head limit ≡ ok w) × IsWalk rows (maximum limit) w
walk_newest-IsWalk process head limit rows h u few g =
    let most = maximum limit in
    (
      walk_of most (printed most rows),
      walk_newest_printed process head limit (printed most rows) (printed-IsRow most rows h)
          (git-printed process head rows most g),
      printed-IsWalk most rows few u,
    )

abbrev pub Fits : Option ℕ → GitWalk → Type 0
Fits none w = w.truncated ≡ false
Fits (some most) w = (length w.shas ≤ most) × (w.truncated ≡ true → length w.shas ≡ most)

walk_of-Fits : (most : Option ℕ) (rows : List (Text × List Text)) → Fits most (walk_of most rows)
unfolding walk_of cut is_cut
walk_of-Fits none rows = refl
walk_of-Fits (some most) rows =
    let l = length-take most (map (λ (r : Text × List Text). r.0) rows) in
    (omega (arith, l), λ h. ground (arith, l, h))

-- Whatever git prints, a walk is no longer than its limit, exactly as long when it is truncated, and
-- never truncated without a limit; so is the same walk, oldest first.
pub walk_newest-Fits :
    (process : Process) (head : Text) (limit : AttentionLimit) {w : GitWalk}
    → walk_newest process head limit ≡ ok w
    → Fits (maximum limit) w
      × (walk_trail process head limit ≡ ok (record w { shas = reverse w.shas }))
unfolding walk_newest walk_trail
walk_newest-Fits process head limit {w} h =
    let (output, e, h1) = bind_parts (git process _) _ h in
    let (rows, f, h2) = bind_parts (map_ok parse_parents (oid_lines output)) _ h1 in
    let same : walk_of (maximum limit) rows ≡ w = cc in
    (subst (Fits (maximum limit)) same (walk_of-Fits (maximum limit) rows), rw h refl)
