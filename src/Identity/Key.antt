-- ===== src/Identity/Key.antt =====
-- Trail keys tell identities apart.
use zmem_cache.Attention.{AttentionLimit, zero_limit, as_i64, IsParsed}
use zmem_cache.Identity.View.{print_ℤ-injective, as_i64-IsI64}
use zmem_cache.Common.{
  print_ℕ, sym, print_ℤ-Lacks, ap, arith, read_digits-print, refl, ◌⊎◌, print_ℕ-Lacks, ℕ, IsI64,
  print_ℤ, read_digits, ◌∙◌, Lacks, ◌≡◌, split-join, Text, [], ◌∷◌, codes, List, split,
}
use zmem_cache.Identity.{key, TrailIdentity}

-- The printed fields of a trail key.
key_fields : TrailIdentity → List Text
key_fields t =
    codes "trail"
    ∷ print_ℤ t.repository_id
    ∷ t.head_oid
    ∷ print_ℤ (as_i64 t.attention.commit_limit)
    ∷ print_ℤ (as_i64 t.attention.node_limit)
    ∷ t.extension_identity
    ∷ print_ℕ t.protocol_version
    ∷ print_ℕ t.schema_version
    ∷ []

-- What a key is made of, as the machine and Git write it: no colon in the two texts.
pub record IsIdentity (t : TrailIdentity) : Type 0 where
  pub repository : IsI64 t.repository_id
  pub head : Lacks b':' t.head_oid
  pub extension : Lacks b':' t.extension_identity
  pub commit : (t.attention.commit_limit ≡ zero_limit) ⊎ IsParsed t.attention.commit_limit
  pub node : (t.attention.node_limit ≡ zero_limit) ⊎ IsParsed t.attention.node_limit

split-key : (t : TrailIdentity) → IsIdentity t → split b':' (key t) ≡ key_fields t
unfolding key key_fields
split-key t i = split-join b':' (key_fields t) (unfold key_fields in ground arith) (
    unfold key_fields in
    (
      omega arith,
      (
        print_ℤ-Lacks t.repository_id b':' refl (omega arith),
        (
          i.head,
          (
            print_ℤ-Lacks _ b':' refl (omega arith),
            (
              print_ℤ-Lacks _ b':' refl (omega arith),
              (i.extension, (print_ℕ-Lacks _ b':' refl, (print_ℕ-Lacks _ b':' refl, tt))),
            ),
          ),
        ),
      ),
    ))

as_i64-injective :
    (a b : AttentionLimit)
    → (a ≡ zero_limit) ⊎ IsParsed a
    → (b ≡ zero_limit) ⊎ IsParsed b
    → as_i64 a ≡ as_i64 b
    → a ≡ b
unfolding as_i64
as_i64-injective a b i j e = ground arith

print_ℕ-injective : (a b : ℕ) → print_ℕ a ≡ print_ℕ b → a ≡ b
print_ℕ-injective a b e = cc (ap read_digits e, read_digits-print a, read_digits-print b)

-- Two trails of one key are one trail, when their ids and limits are within i64 and their texts hold
-- no colon: nothing is lost or confused when a key is built.
pub key-injective : (t u : TrailIdentity) → IsIdentity t → IsIdentity u → key t ≡ key u → t ≡ u
unfolding key_fields
key-injective t u i j e =
    let same : key_fields t ≡ key_fields u =
      sym (split-key t i) ∙ (ap (split b':') e ∙ split-key u j) in
    let r : print_ℤ t.repository_id ≡ print_ℤ u.repository_id = cc in
    let h : t.head_oid ≡ u.head_oid = cc in
    let c : print_ℤ (as_i64 t.attention.commit_limit) ≡ print_ℤ (as_i64 u.attention.commit_limit) =
      cc in
    let n : print_ℤ (as_i64 t.attention.node_limit) ≡ print_ℤ (as_i64 u.attention.node_limit) =
      cc in
    let x : t.extension_identity ≡ u.extension_identity = cc in
    let p : print_ℕ t.protocol_version ≡ print_ℕ u.protocol_version = cc in
    let s : print_ℕ t.schema_version ≡ print_ℕ u.schema_version = cc in
    let repository =
      print_ℤ-injective t.repository_id u.repository_id i.repository j.repository r in
    let commit =
      as_i64-injective t.attention.commit_limit u.attention.commit_limit i.commit j.commit
        (print_ℤ-injective _ _ (as_i64-IsI64 _) (as_i64-IsI64 _) c) in
    let node =
      as_i64-injective t.attention.node_limit u.attention.node_limit i.node j.node
        (print_ℤ-injective _ _ (as_i64-IsI64 _) (as_i64-IsI64 _) n) in
    let protocol = print_ℕ-injective t.protocol_version u.protocol_version p in
    let schema = print_ℕ-injective t.schema_version u.schema_version s in
    λ k. record {
      repository_id = repository k;
      head_oid = h k;
      attention = record { commit_limit = commit k; node_limit = node k };
      extension_identity = x k;
      protocol_version = protocol k;
      schema_version = schema k;
    }
