-- ===== src/Areas/Covers.antt =====
-- Every path of a change is in one of the groups that its areas come from.
use zmem_cache.Areas.{
  group_paths, push_group, Groups, slash, group_path, head_part, is_single, init,
}
use zmem_cache.Common.{
  false, ◌≡◌, ◌∙◌, Bool-cases, ◌⊎◌, split-ne-nil, List, ◌∷◌, text_eq_sound, sym, All, text_eq,
  arith, take, Any, ◌≢◌, inr, Text, ◌++◌, ap, true, [], inl, refl, split, All-append,
}

-- The directory is in the group.
abbrev pub InGroup : List Text → Text × List (List Text) → Type 0
InGroup d group = Any (λ parent. parent ≡ d) group.1

-- All directories of a group begin with its key.
abbrev pub IsHeaded : Text × List (List Text) → Type 0
IsHeaded group = All (λ parent. take 1 parent ≡ group.0 ∷ []) group.1

pub Any-append_left : {A : Type 0} (P : A → Type 0) (xs ys : List A) → Any P xs → Any P (xs ++ ys)
Any-append_left P [] ys h = absurd h
Any-append_left P (x ∷ xs) ys (inl p) = inl p
Any-append_left P (x ∷ xs) ys (inr r) = inr (Any-append_left P xs ys r)

pub Any-append_right : {A : Type 0} (P : A → Type 0) (xs ys : List A) → Any P ys → Any P (xs ++ ys)
Any-append_right P [] ys h = h
Any-append_right P (x ∷ xs) ys h = inr (Any-append_right P xs ys h)

push_group-IsHeaded :
    (key : Text) (d : List Text) (groups : List (Text × List (List Text)))
    → take 1 d ≡ key ∷ []
    → All IsHeaded groups
    → All IsHeaded (push_group key d groups)
unfolding push_group
push_group-IsHeaded key d [] e h = ((e, tt), tt)
push_group-IsHeaded key d ((k, parents) ∷ groups) e h = elim (Bool-cases (text_eq k key)) [
  | inl q ↦
      let same : k ≡ key = text_eq_sound k key q in
      rw q (
        All-append (λ p. take 1 p ≡ k ∷ []) parents (d ∷ []) h.0
            (e ∙ ap (λ x. x ∷ []) (sym same), tt),
        h.1,
      )
  | inr q ↦ rw q (h.0, push_group-IsHeaded key d groups e h.1)
]

push_group-adds :
    (key : Text) (d : List Text) (groups : List (Text × List (List Text)))
    → Any (InGroup d) (push_group key d groups)
unfolding push_group
push_group-adds key d [] = inl (inl refl)
push_group-adds key d ((k, parents) ∷ groups) = elim (Bool-cases (text_eq k key)) [
  | inl q ↦ rw q (inl (Any-append_right (λ p. p ≡ d) parents (d ∷ []) (inl refl)))
  | inr q ↦ rw q (inr (push_group-adds key d groups))
]

push_group-keeps :
    (key : Text) (d e : List Text) (groups : List (Text × List (List Text)))
    → Any (InGroup e) groups
    → Any (InGroup e) (push_group key d groups)
unfolding push_group
push_group-keeps key d e [] h = absurd h
push_group-keeps key d e ((k, parents) ∷ groups) h = elim (Bool-cases (text_eq k key)) [
  | inl q ↦ rw q (elim h [
    | inl here ↦ inl (Any-append_left (λ p. p ≡ e) parents (d ∷ []) here)
    | inr there ↦ inr there
  ])
  | inr q ↦
      rw q
        (elim h [ inl here ↦ inl here | inr there ↦ inr (push_group-keeps key d e groups there) ])
]

-- The path has been seen.
abbrev pub IsSeen : Groups → Text → Type 0
IsSeen g path =
    ((g.0 ≡ true) × (is_single (split slash path) ≡ true))
    ⊎ Any (InGroup (init (split slash path))) g.1

group_path-keeps :
    (path other : Text) (g : Groups) → IsSeen g other → IsSeen (group_path path g) other
unfolding group_path
group_path-keeps path other (root, groups) h = elim (Bool-cases (is_single (split slash path))) [
  | inl s ↦ rw s (elim h [ inl k ↦ inl (refl, k.1) | inr k ↦ inr k ])
  | inr s ↦ rw s (elim h [ inl k ↦ inl k | inr k ↦ inr (push_group-keeps _ _ _ groups k) ])
]

group_path-IsSeen : (path : Text) (g : Groups) → IsSeen (group_path path g) path
unfolding group_path
group_path-IsSeen path (root, groups) = elim (Bool-cases (is_single (split slash path))) [
  | inl s ↦ rw s (inl (refl, refl))
  | inr s ↦ rw s (inr (push_group-adds _ _ groups))
]

head-init :
    (parts : List Text)
    → parts ≢ []
    → is_single parts ≡ false
    → take 1 (init parts) ≡ head_part parts ∷ []
head-init [] n s = absurd (n refl)
head-init (p ∷ []) n s = absurd (ground (arith, s))
head-init (p ∷ q ∷ ps) n s = refl

group_path-IsHeaded :
    (path : Text) (g : Groups) → All IsHeaded g.1 → All IsHeaded (group_path path g).1
unfolding group_path
group_path-IsHeaded path (root, groups) h = elim (Bool-cases (is_single (split slash path))) [
  | inl s ↦ rw s h
  | inr s ↦
      rw s (
        push_group-IsHeaded _ _ groups (head-init (split slash path) (split-ne-nil slash path) s) h)
]

group_paths-keeps :
    (paths : List Text) (other : Text) (g : Groups)
    → IsSeen g other
    → IsSeen (group_paths paths g) other
unfolding group_paths
group_paths-keeps [] other g h = h
group_paths-keeps (path ∷ paths) other g h =
    group_paths-keeps paths other (group_path path g) (group_path-keeps path other g h)

pub group_paths-IsSeen : (paths : List Text) (g : Groups) → All (IsSeen (group_paths paths g)) paths
unfolding group_paths
group_paths-IsSeen [] g = tt
group_paths-IsSeen (path ∷ paths) g = (
  group_paths-keeps paths path (group_path path g) (group_path-IsSeen path g),
  group_paths-IsSeen paths (group_path path g),
)

pub group_paths-IsHeaded :
    (paths : List Text) (g : Groups) → All IsHeaded g.1 → All IsHeaded (group_paths paths g).1
unfolding group_paths
group_paths-IsHeaded [] g h = h
group_paths-IsHeaded (path ∷ paths) g h =
    group_paths-IsHeaded paths (group_path path g) (group_path-IsHeaded path g h)
