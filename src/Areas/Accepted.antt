-- ===== src/Areas/Accepted.antt =====
-- Which affected areas the journal's validation accepts.
use zmem_cache.Common.{
  split-ne-nil, refl, All-imp, arith, ◌≢◌, ◌∙◌, map, All-append, Text, suc, ℕ, Bool, length,
  text_eq, ◌⊎◌, List, inr, ◌≤◌, split, Bool-cases, subst, All, [], ◌++◌, false, take, ◌∷◌, sym,
  zero, split-join, inl, some, true, max, Lacks, ap, ◌≡◌, ok, All-sort_by, leb, split-Lacks_other,
  Lacks-join, codes, ◌↔◌, join, All-zip, any-Lacks,
}
use zmem_cache.Areas.{
  common_len, group_paths, derive_affected_areas, push_group, root_areas, slash, is_single, Groups,
  group_area, paths_of, group_path, init, dedup, all_areas, area_le,
}
use zmem_cache.Journal.Area.{IsPart, IsNormalPath, validate_area_iff}
use zmem_cache.Journal.{root_area, validate_area}
use zmem_cache.History.{ChangedPath}

-- A part of a path of git, which may hold a backslash, and a path of such parts.
abbrev pub IsGitPart : Text → Type 0
IsGitPart part = (part ≢ []) × (part ≢ codes ".") × (part ≢ codes "..") × Lacks slash part

pub record IsGitPath (path : Text) : Type 0 where
  pub parts : List Text
  pub some_part : parts ≢ []
  pub each_part : All IsGitPart parts
  pub joined : path ≡ join slash parts

-- A directory of parts, and a group of some of them.
abbrev IsDirectory : List Text → Type 0
IsDirectory parts = (parts ≢ []) × All IsGitPart parts

abbrev IsGroup : Text × List (List Text) → Type 0
IsGroup group = (group.1 ≢ []) × All IsDirectory group.1

append-ne-nil : {A : Type 0} (xs : List A) (x : A) → xs ++ x ∷ [] ≢ []
append-ne-nil [] x h = absurd (ground (arith, h))
append-ne-nil (y ∷ xs) x h = absurd (ground (arith, h))

push_group-IsGroup :
    (key : Text) (parent : List Text) (groups : List (Text × List (List Text)))
    → IsDirectory parent
    → All IsGroup groups
    → All IsGroup (push_group key parent groups)
unfolding push_group
push_group-IsGroup key parent [] d h = (((λ e. absurd (ground (arith, e))), (d, tt)), tt)
push_group-IsGroup key parent ((k, parents) ∷ groups) d h = elim (Bool-cases (text_eq k key)) [
  | inl e ↦ rw e (
    (append-ne-nil parents parent, All-append IsDirectory parents (parent ∷ []) h.0.1 (d, tt)),
    h.1,
  )
  | inr e ↦ rw e (h.0, push_group-IsGroup key parent groups d h.1)
]

All-init : (parts : List Text) → All IsGitPart parts → All IsGitPart (init parts)
All-init [] h = tt
All-init (p ∷ []) h = tt
All-init (p ∷ q ∷ ps) h = (h.0, All-init (q ∷ ps) h.1)

init-IsDirectory :
    (parts : List Text)
    → parts ≢ []
    → All IsGitPart parts
    → is_single parts ≡ false
    → IsDirectory (init parts)
init-IsDirectory [] n h s = absurd (n refl)
init-IsDirectory (p ∷ []) n h s = absurd (ground (arith, s))
init-IsDirectory (p ∷ q ∷ ps) n h s = ((λ e. absurd (ground (arith, e))), All-init (p ∷ q ∷ ps) h)

split-IsGitPart : (path : Text) → IsGitPath path → All IsGitPart (split slash path)
split-IsGitPart path n =
    let lack : All (Lacks slash) n.parts = All-imp _ _ (λ p k. k.3) n.parts n.each_part in
    let parts : split slash path ≡ n.parts =
      ap (split slash) n.joined ∙ split-join slash n.parts n.some_part lack in
    subst (All IsGitPart) (sym parts) n.each_part

group_path-IsGroup :
    (path : Text) (root : Bool) (groups : List (Text × List (List Text)))
    → IsGitPath path
    → All IsGroup groups
    → All IsGroup (group_path path (root, groups)).1
unfolding group_path
group_path-IsGroup path root groups n h = elim (Bool-cases (is_single (split slash path))) [
  | inl e ↦ rw e h
  | inr e ↦ rw e (
      push_group-IsGroup _ _ groups
        (init-IsDirectory (split slash path) (split-ne-nil slash path) (split-IsGitPart path n) e)
        h)
]

group_paths-IsGroup :
    (paths : List Text) (g : Groups)
    → All IsGitPath paths
    → All IsGroup g.1
    → All IsGroup (group_paths paths g).1
unfolding group_paths
group_paths-IsGroup [] g n h = h
group_paths-IsGroup (path ∷ paths) g n h =
    group_paths-IsGroup paths (group_path path g) n.1 (group_path-IsGroup path g.0 g.1 n.0 h)

All-take : (P : Text → Type 0) (n : ℕ) (xs : List Text) → All P xs → All P (take n xs)
All-take P zero xs h = tt
All-take P (suc n) [] h = tt
All-take P (suc n) (x ∷ xs) h = (h.0, All-take P n xs h.1)

take-ne-nil : (n : ℕ) (xs : List Text) → 1 ≤ n → xs ≢ [] → take n xs ≢ []
take-ne-nil zero xs h k = absurd (omega (arith, h))
take-ne-nil (suc n) [] h k = absurd (k refl)
take-ne-nil (suc n) (x ∷ xs) h k = ground arith

group_area-IsGitPath :
    (group : Text × List (List Text)) → IsGroup group → IsGitPath (group_area group.1)
unfolding group_area
group_area-IsGitPath (key, []) h = absurd (h.0 refl)
group_area-IsGitPath (key, first ∷ parents) h =
    let n = max (common_len first (first ∷ parents) 0 (length first)) 1 in
    record {
      parts = take n first;
      some_part = take-ne-nil n first (omega arith) h.1.0.0;
      each_part = All-take IsGitPart n first h.1.0.1;
      joined = refl;
    }

abbrev IsArea : Text → Type 0
IsArea area = (area ≡ root_area) ⊎ IsGitPath area

All-group_area :
    (groups : List (Text × List (List Text)))
    → All IsGroup groups
    → All IsArea (map (λ group. group_area group.1) groups)
All-group_area [] h = tt
All-group_area (group ∷ groups) h =
    (inr (group_area-IsGitPath group h.0), All-group_area groups h.1)

All-root_areas : (root : Bool) → All IsArea (root_areas root)
All-root_areas true = (inl refl, tt)
All-root_areas false = tt

All-dedup : (P : Text → Type 0) (areas : List Text) → All P areas → All P (dedup areas)
unfolding dedup
All-dedup P [] h = tt
All-dedup P (a ∷ []) h = h
All-dedup P (a ∷ b ∷ rest) h = elim (Bool-cases (text_eq a b)) [
  | inl e ↦ rw e (All-dedup P (b ∷ rest) h.1)
  | inr e ↦ rw e (h.0, All-dedup P (b ∷ rest) h.1)
]

-- What is left of a path of git between normalized and not is its backslashes.
IsNormalPath-of_git : (path : Text) → IsGitPath path → Lacks 92 path → IsNormalPath path
IsNormalPath-of_git path n l =
    let lack : All (Lacks slash) n.parts = All-imp _ _ (λ p k. k.3) n.parts n.each_part in
    let parts : split slash path ≡ n.parts =
      ap (split slash) n.joined ∙ split-join slash n.parts n.some_part lack in
    let plain : All (Lacks 92) n.parts =
      subst (All (Lacks 92)) parts (split-Lacks_other 92 slash path l) in
    record {
      parts = n.parts;
      some_part = n.some_part;
      each_part =
          All-zip IsGitPart (Lacks 92) IsPart (λ p k q. (k.0, k.1, k.2, k.3, q)) n.parts n.each_part
            plain;
      joined = n.joined;
    }

IsNormalPath-Lacks : (path : Text) → IsNormalPath path → Lacks 92 path
IsNormalPath-Lacks path n =
    subst (Lacks 92) (sym n.joined)
      (Lacks-join 92 slash n.parts (omega arith) (All-imp _ _ (λ p k. k.4) n.parts n.each_part))

root_area-Lacks : Lacks 92 root_area
root_area-Lacks = any-Lacks 92 root_area refl

validate_area_of : (area : Text) → IsArea area → (validate_area area ≡ ok tt) ↔ Lacks 92 area
validate_area_of area k = (
  λ h. elim ((validate_area_iff area).0 h) [
    | inl e ↦ subst (Lacks 92) (sym e) root_area-Lacks
    | inr n ↦ IsNormalPath-Lacks area n
  ],
  λ l.
      (validate_area_iff area).1
        (elim k [ inl e ↦ inl e | inr n ↦ inr (IsNormalPath-of_git area n l) ]),
)

-- Where the paths of a change are as git gives them, that is, one part or more joined by slashes,
-- none of them empty, `.` or `..`, the areas derived from it are at most three, and the validation of
-- the journal accepts an area exactly when it holds no backslash.
pub derive_affected_areas-validate_area :
    (changes : List ChangedPath) {areas : List Text}
    → All IsGitPath (paths_of changes)
    → derive_affected_areas changes ≡ some areas
    → (length areas ≤ 3) × All (λ area. (validate_area area ≡ ok tt) ↔ Lacks 92 area) areas
unfolding derive_affected_areas all_areas
derive_affected_areas-validate_area changes {areas} n h =
    let g = group_paths (paths_of changes) (false, []) in
    let all_of : All IsArea (all_areas changes) = All-dedup IsArea _ (
      All-sort_by area_le IsArea _ (
        All-append IsArea (root_areas g.0) _ (All-root_areas g.0)
          (All-group_area g.1 (group_paths-IsGroup (paths_of changes) (false, []) n tt)))) in
    let accepted = All-imp _ _ (λ area k. validate_area_of area k) (all_areas changes) all_of in
    elim (Bool-cases (leb (length (all_areas changes)) 3)) [
      | inr many ↦ absurd (ground (arith, rw many at h))
      | inl few ↦
          let same : some (all_areas changes) ≡ some areas = rw few at h in
          let equal : all_areas changes ≡ areas = cc in
          subst (λ x. (length x ≤ 3) × All (λ area. (validate_area area ≡ ok tt) ↔ Lacks 92 area) x)
            equal (ground (arith, few), accepted)
    ]
