-- ===== src/Identity/View.antt =====
-- View identities are read back, and incremental reuse is decided by the limits and truncation.
use zmem_cache.Attention.{
  AttentionBound, commit_bound, node_bound, AttentionUsage, AttentionPolicy, AttentionLimit,
  zero_limit, limited, unlimited, as_i64,
}
use zmem_cache.Common.{
  print_ℕ, Option, ◌<◌, parse_usize-print, ◌↔◌, print_ℤ-Lacks, text_eq_self, false, text_eq_sound,
  ap, not, arith, refl, ◌≢◌, Bool, parse_i64-print, some, map, print_ℕ-Lacks, All-append, ℕ, IsI64,
  print_ℤ, text_eq, ◌^◌, ◌∙◌, Lacks, ◌≡◌, All, split-join, parse_i64, Text, [], ◌∷◌, codes, ℤ, List,
  join, true, split,
}
use zmem_cache.Identity.{
  from_view_identity, parse_bound, view_identity, parts_allow,
  attention_identity_allows_incremental, parse_reached, parse_bounds, from_parts, bound_name,
  or_empty, print_bool, parse_bool,
}

parse_bound-name : (b : AttentionBound) → parse_bound (bound_name b) ≡ some b
unfolding parse_bound bound_name text_eq
parse_bound-name commit_bound = refl
parse_bound-name node_bound = refl

parse_bounds-names : (bs : List AttentionBound) → parse_bounds (map bound_name bs) ≡ some bs
unfolding parse_bounds
parse_bounds-names [] = refl
parse_bounds-names (b ∷ bs) = rw (parse_bound-name b, parse_bounds-names bs)

bound_name-Lacks : (b : AttentionBound) (c : ℕ) → c < b'a' → Lacks c (bound_name b)
unfolding bound_name
bound_name-Lacks commit_bound c h = omega arith
bound_name-Lacks node_bound c h = omega arith

names-Lacks : (bs : List AttentionBound) (c : ℕ) → c < b'a' → All (Lacks c) (map bound_name bs)
names-Lacks [] c h = tt
names-Lacks (b ∷ bs) c h = (bound_name-Lacks b c h, names-Lacks bs c h)

join-Lacks : (sep c : ℕ) (ps : List Text) → sep ≢ c → All (Lacks c) ps → Lacks c (join sep ps)
unfolding join
join-Lacks sep c [] h l = tt
join-Lacks sep c (p ∷ []) h l = l.0
join-Lacks sep c (p ∷ q ∷ ps) h l =
    All-append _ p (sep ∷ join sep (q ∷ ps)) l.0 (h, join-Lacks sep c (q ∷ ps) h l.1)

parse_reached_lem : (s : Text) → s ≢ [] → parse_reached s ≡ parse_bounds (split b',' s)
unfolding parse_reached
parse_reached_lem [] h = absurd (h refl)
parse_reached_lem (c ∷ s) h = refl

join-ne-nil :
    (b : AttentionBound) (bs : List AttentionBound) → join b',' (map bound_name (b ∷ bs)) ≢ []
unfolding join bound_name
join-ne-nil commit_bound [] = ground arith
join-ne-nil node_bound [] = ground arith
join-ne-nil commit_bound (c ∷ bs) = ground arith
join-ne-nil node_bound (c ∷ bs) = ground arith

parse_reached-join :
    (bs : List AttentionBound) → parse_reached (join b',' (map bound_name bs)) ≡ some bs
parse_reached-join [] = unfold parse_reached join in refl
parse_reached-join (b ∷ bs) =
    parse_reached_lem (join b',' (map bound_name (b ∷ bs))) (join-ne-nil b bs)
    ∙ (ap parse_bounds (
          split-join b',' (map bound_name (b ∷ bs)) (ground arith)
            (names-Lacks (b ∷ bs) b',' (omega arith)))
        ∙ parse_bounds-names (b ∷ bs))

parse_bool-print : (b : Bool) → parse_bool (print_bool b) ≡ some b
unfolding parse_bool print_bool text_eq
parse_bool-print true = refl
parse_bool-print false = refl

print_bool-Lacks : (b : Bool) → Lacks b':' (print_bool b)
unfolding print_bool
print_bool-Lacks true = omega arith
print_bool-Lacks false = omega arith

-- The numbers of a usage record, as the machine holds them.
pub record IsUsage (u : AttentionUsage) : Type 0 where
  pub commit : IsI64 u.commit_limit
  pub node : IsI64 u.node_limit
  pub commits : u.selected_commits < 2 ^ 64
  pub nodes : u.selected_nodes < 2 ^ 64

fields : AttentionUsage → Text → List Text
fields u lower =
    codes "v1"
    ∷ print_ℤ u.commit_limit
    ∷ print_ℤ u.node_limit
    ∷ print_ℕ u.selected_commits
    ∷ print_ℕ u.selected_nodes
    ∷ print_bool u.truncated
    ∷ join b',' (map bound_name u.reached)
    ∷ lower
    ∷ []

fields-Lacks :
    (u : AttentionUsage) (lower : Text) → Lacks b':' lower → All (Lacks b':') (fields u lower)
unfolding fields
fields-Lacks u lower h = (
  omega arith,
  (
    print_ℤ-Lacks u.commit_limit b':' refl (omega arith),
    (
      print_ℤ-Lacks u.node_limit b':' refl (omega arith),
      (
        print_ℕ-Lacks u.selected_commits b':' refl,
        (
          print_ℕ-Lacks u.selected_nodes b':' refl,
          (
            print_bool-Lacks u.truncated,
            (
              join-Lacks b',' b':' (map bound_name u.reached) (omega arith)
                  (names-Lacks u.reached b':' (omega arith)),
              (h, tt),
            ),
          ),
        ),
      ),
    ),
  ),
)

split-view_identity :
    (u : AttentionUsage) (lower : Option Text)
    → Lacks b':' (or_empty lower)
    → split b':' (view_identity u lower) ≡ fields u (or_empty lower)
unfolding view_identity fields
split-view_identity u lower h =
    split-join b':' (fields u (or_empty lower)) (unfold fields in ground arith)
      (fields-Lacks u (or_empty lower) h)

-- A usage record, its limits within i64 and its counts below 2^64, is read back from its view
-- identity, for every lower boundary without a colon.
pub from_view_identity-view_identity :
    (u : AttentionUsage) (lower : Option Text)
    → IsUsage u
    → Lacks b':' (or_empty lower)
    → from_view_identity (view_identity u lower) ≡ some u
unfolding from_view_identity from_parts fields
from_view_identity-view_identity u lower i h = rw (
  split-view_identity u lower h,
  text_eq_self,
  parse_reached-join u.reached,
  parse_i64-print u.commit_limit i.commit,
  parse_i64-print u.node_limit i.node,
  parse_usize-print u.selected_commits i.commits,
  parse_usize-print u.selected_nodes i.nodes,
  parse_bool-print u.truncated,
)

pub as_i64-IsI64 : (l : AttentionLimit) → IsI64 (as_i64 l)
unfolding as_i64
as_i64-IsI64 zero_limit = omega arith
as_i64-IsI64 (limited n) = ground arith
as_i64-IsI64 unlimited = omega arith

pub print_ℤ-injective : (a b : ℤ) → IsI64 a → IsI64 b → print_ℤ a ≡ print_ℤ b → a ≡ b
print_ℤ-injective a b i j e =
    let pa = parse_i64-print a i in let pb = parse_i64-print b j in cc (ap parse_i64 e)

print_ℤ_eq : (a b : ℤ) → IsI64 a → IsI64 b → (text_eq (print_ℤ a) (print_ℤ b) ≡ true) ↔ (a ≡ b)
print_ℤ_eq a b i j =
    (λ h. print_ℤ-injective a b i j (text_eq_sound _ _ h), λ h. rw h (text_eq_self (print_ℤ b)))

print_bool_false : (b : Bool) → text_eq (print_bool b) (codes "false") ≡ not b
unfolding print_bool text_eq
print_bool_false true = refl
print_bool_false false = refl

-- A stored view, its numbers within 64 bits and its lower boundary without a colon, may be extended
-- incrementally exactly when it was selected under the very limits of the policy and nothing was
-- cut off.
allows_incremental_iff :
    (u : AttentionUsage) (lower : Option Text) (policy : AttentionPolicy)
    → IsUsage u
    → Lacks b':' (or_empty lower)
    → (attention_identity_allows_incremental (view_identity u lower) policy ≡ true) ↔ (
        (u.commit_limit ≡ as_i64 policy.commit_limit)
        × (u.node_limit ≡ as_i64 policy.node_limit)
        × (u.truncated ≡ false))
unfolding attention_identity_allows_incremental parts_allow fields
allows_incremental_iff u lower policy i h =
    let c = print_ℤ_eq u.commit_limit (as_i64 policy.commit_limit) i.commit (as_i64-IsI64 _) in
    let n = print_ℤ_eq u.node_limit (as_i64 policy.node_limit) i.node (as_i64-IsI64 _) in
    rw (split-view_identity u lower h, text_eq_self, print_bool_false) (ground (arith, c, n))
