-- ===== src/Attention/Limits.antt =====
-- Which numbers are limits, and what `parse` and `as_i64` make of each other; `resolve`.
use Prim.Native.String.{String}
use zmem_cache.Common.{
  ℤ, Option, within, parse_i64, ℕ, some, Text, ◌≡◌, IsI64, ◌≤◌, negated, ok, ◌^◌, ◌↔◌, pos, negsuc,
  arith, ◌⊎◌, suc, ◌≤ℤ◌, inr, inl, ◌∷◌, refl, [], zero, none, Option-cases, read_digits, ◌==◌, sym,
  if◌then◌else◌, Bool-cases, ap, ◌∙◌, bind_parts, ◌-◌, if◌then◌else◌, if◌then◌else◌, unsigned,
}
use zmem_cache.Attention.{
  IsParsed, i64_max, parse_limit, unlimited, resolved, AttentionPolicy, zero_limit, resolve, as_i64,
  AttentionLimit, limited,
}

-- A limit is -1 or positive: exactly these parse.
parse_limit_iff :
    (value : ℤ) (name : String)
    → ((l : AttentionLimit) × (parse_limit value name ≡ ok l))
      ↔ ((value ≡ negsuc 0) ⊎ (pos 1 ≤ℤ value))
parse_limit_iff value name = (parsed value, accepted value)
  where
    parsed :
        (v : ℤ)
        → ((l : AttentionLimit) × (parse_limit v name ≡ ok l))
        → (v ≡ negsuc 0) ⊎ (pos 1 ≤ℤ v)
    parsed (pos zero) (l, h) = unfold parse_limit in ground arith
    parsed (pos (suc n)) (l, h) = inr (omega arith)
    parsed (negsuc zero) (l, h) = inl refl
    parsed (negsuc (suc n)) (l, h) = unfold parse_limit in ground arith

    accepted :
        (v : ℤ) → (v ≡ negsuc 0) ⊎ (pos 1 ≤ℤ v) → (l : AttentionLimit) × (parse_limit v name ≡ ok l)
    accepted (pos zero) h = ground arith
    accepted (pos (suc n)) h = (limited (suc n), unfold parse_limit in ground arith)
    accepted (negsuc zero) h = (unlimited, unfold parse_limit in refl)
    accepted (negsuc (suc n)) h = ground arith

-- A limit that was parsed from an i64 is well formed, and `as_i64` gives the number back.
as_i64-parse_limit :
    (value : ℤ) (name : String) {l : AttentionLimit}
    → IsI64 value
    → parse_limit value name ≡ ok l
    → (as_i64 l ≡ value) × IsParsed l
unfolding as_i64 parse_limit
as_i64-parse_limit (pos zero) name i h = absurd (ground arith)
as_i64-parse_limit (pos (suc n)) name i h = ground arith
as_i64-parse_limit (negsuc zero) name i h = ground arith
as_i64-parse_limit (negsuc (suc n)) name i h = absurd (ground arith)

-- Every well formed limit is parsed back from its `as_i64`.
parse_limit-as_i64 :
    (l : AttentionLimit) (name : String) → IsParsed l → parse_limit (as_i64 l) name ≡ ok l
unfolding as_i64 parse_limit
parse_limit-as_i64 zero_limit name h = absurd h
parse_limit-as_i64 (limited zero) name h = absurd (omega arith)
parse_limit-as_i64 (limited (suc n)) name h = ground arith
parse_limit-as_i64 unlimited name h = refl

abbrev pub WithinI64 : Option ℕ → Type 0
WithinI64 none = Unit
WithinI64 (some m) = m ≤ i64_max

within-le : (k : ℕ) (o : Option ℕ) {n : ℕ} → within k o ≡ some n → n ≤ k
unfolding within
within-le k none h = absurd (ground arith)
within-le k (some m) h = ground arith

negated-IsI64 : (o : Option ℕ) (z : ℤ) → negated (within (2 ^ 63) o) ≡ some z → IsI64 z
unfolding negated within
negated-IsI64 none z h = absurd (ground arith)
negated-IsI64 (some zero) z h = ground arith
negated-IsI64 (some (suc n)) z h = ground arith

unsigned-IsI64 : (o : Option ℕ) (z : ℤ) → unsigned (within (2 ^ 63 - 1) o) ≡ some z → IsI64 z
unfolding unsigned within
unsigned-IsI64 none z h = absurd (ground arith)
unsigned-IsI64 (some n) z h = ground arith

parse_i64-IsI64 : (s : Text) (z : ℤ) → parse_i64 s ≡ some z → IsI64 z
unfolding parse_i64
parse_i64-IsI64 [] z h = absurd (ground arith)
parse_i64-IsI64 (c ∷ s) z h = elim (Bool-cases (c == b'-')) [
  | inl e ↦ negated-IsI64 (read_digits s) z (rw e at h)
  | inr e ↦ unsigned-IsI64 (if c == b'+' then read_digits s else read_digits (c ∷ s)) z (rw e at h)
]

abbrev IsI64? : Option ℤ → Type 0
IsI64? none = Unit
IsI64? (some z) = IsI64 z

resolved-IsI64 :
    (request : Option ℤ) (environment : Option Text) (fallback : ℤ) (name : String) {z : ℤ}
    → IsI64? request
    → IsI64 fallback
    → resolved request environment fallback name ≡ ok z
    → IsI64 z
unfolding resolved
resolved-IsI64 (some z') environment fallback name i f h = ground arith
resolved-IsI64 none (some t) fallback name i f h = elim (Option-cases (parse_i64 t)) [
  | inl e ↦ absurd (ground arith)
  | inr (z', e) ↦ ground (arith, parse_i64-IsI64 t z' e)
]
resolved-IsI64 none none fallback name i f h = ground arith

-- For requests within i64, what `resolve` accepts is well formed, and each limit stands for the
-- request where it is given, else for the environment's text, else for the default.
resolve_sound :
    (request_commit request_node : Option ℤ) (environment_commit environment_node : Option Text)
    {p : AttentionPolicy}
    → IsI64? request_commit
    → IsI64? request_node
    → resolve request_commit request_node environment_commit environment_node ≡ ok p
    → IsParsed p.commit_limit
      × IsParsed p.node_limit
      × (resolved request_commit environment_commit (pos 500) "commit" ≡ ok (as_i64 p.commit_limit))
      × (resolved request_node environment_node (pos 400) "node" ≡ ok (as_i64 p.node_limit))
unfolding resolve
resolve_sound rc rn ec en {p} i j h =
    let (commit, hc, h₁) = bind_parts (resolved rc ec (pos 500) "commit") _ h in
    let (commit_limit, hl, h₂) = bind_parts (parse_limit commit "commit") _ h₁ in
    let (node, hn, h₃) = bind_parts (resolved rn en (pos 400) "node") _ h₂ in
    let (node_limit, hm, h₄) = bind_parts (parse_limit node "node") _ h₃ in
    let ic : IsI64 commit = resolved-IsI64 rc ec (pos 500) "commit" i (omega arith) hc in
    let iN : IsI64 node = resolved-IsI64 rn en (pos 400) "node" j (omega arith) hn in
    let (c_eq, c_ok) = as_i64-parse_limit commit "commit" ic hl in
    let (n_eq, n_ok) = as_i64-parse_limit node "node" iN hm in
    let e : record { commit_limit = commit_limit; node_limit = node_limit } ≡ p = ground arith in
    rw (← e) (c_ok, n_ok, hc ∙ ap ok (sym c_eq), hn ∙ ap ok (sym n_eq))
