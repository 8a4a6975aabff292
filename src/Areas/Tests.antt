-- ===== src/Areas/Tests.antt =====
-- The areas of a change of two directories and a file in the root.
use zmem_cache.Common.{
  join, ◌≤◌, [], text_eq, All, refl, split, text_le, Text, ◌∷◌, ◌≡◌, codes, List, sort_by, ok, Any,
  some, split-ne-nil, ℕ, sym, Lacks, ◌↔◌, join-split, arith,
}
use zmem_cache.Areas.{
  dedup, group_path, common_len, all_areas, group_paths, push_group, paths_of,
  derive_affected_areas, group_area,
}
use zmem_cache.History.{ChangedPath, changed, renamed, deleted}
use zmem_cache.Journal.{root_area, validate_area}
use zmem_cache.Areas.Accepted.{derive_affected_areas-validate_area, IsGitPart, IsGitPath}
use zmem_cache.Areas.Within.{IsWithin, derive_affected_areas-IsWithin}

abbrev changes : List ChangedPath
changes =
    changed (codes "src/a/x")
    ∷ renamed (codes "src/a/y") (codes "src/b/y")
    ∷ deleted (codes "do\\c/z")
    ∷ changed (codes "k")
    ∷ []

abbrev areas : List Text
areas = root_area ∷ codes "do\\c" ∷ codes "src" ∷ []

IsGitPath-of : (path : Text) → All IsGitPart (split 47 path) → IsGitPath path
IsGitPath-of path h = record {
  parts = split 47 path;
  some_part = split-ne-nil 47 path;
  each_part = h;
  joined = sym (join-split 47 path);
}

changes-IsGitPath : All IsGitPath (paths_of changes)
unfolding split
changes-IsGitPath =
    let p : (c : ℕ) → 97 ≤ c → IsGitPart (c ∷ []) =
      λ c h. (ground arith, ground (arith, h), ground arith, (omega (arith, h), tt)) in
    let src : IsGitPart (codes "src") = ground arith in
    let dir : IsGitPart (codes "do\\c") = ground arith in
    (
      IsGitPath-of (codes "src/a/x") (src, (p 97 (omega arith), (p 120 (omega arith), tt))),
      (
        IsGitPath-of (codes "src/a/y") (src, (p 97 (omega arith), (p 121 (omega arith), tt))),
        (
          IsGitPath-of (codes "src/b/y") (src, (p 98 (omega arith), (p 121 (omega arith), tt))),
          (
            IsGitPath-of (codes "do\\c/z") (dir, (p 122 (omega arith), tt)),
            (IsGitPath-of (codes "k") (p 107 (omega arith), tt), tt),
          ),
        ),
      ),
    )

changes-areas : derive_affected_areas changes ≡ some areas
unfolding derive_affected_areas all_areas group_paths group_path push_group group_area common_len
    dedup text_eq split join sort_by text_le
changes-areas = refl

derive_affected_areas-validate_area_example :
    (3 ≤ 3) × All (λ area. (validate_area area ≡ ok tt) ↔ Lacks 92 area) areas
derive_affected_areas-validate_area_example =
    derive_affected_areas-validate_area changes {areas = areas} changes-IsGitPath changes-areas

derive_affected_areas-IsWithin_example : All (λ path. Any (IsWithin path) areas) (paths_of changes)
derive_affected_areas-IsWithin_example =
    derive_affected_areas-IsWithin changes {areas = areas} changes-areas
