-- ===== src/Git/Selector.antt =====
-- A selector names the observed commit: `resolve_observed`.
use zmem_cache.Common.{
  ◌==◌, ◌&&◌, true, subst, ◌↔◌, false, ok, not, if◌then◌else◌, trim, ensure_then, refl, any,
  Bool-cases, inr, if◌then◌else◌, bind_parts, codes, ◌++◌, Text, text_eq_sound, if◌then◌else◌, inl,
  arith, Bool, starts_with, Lacks, ◌⊎◌, ◌≡◌, text_eq, any-Lacks,
}
use zmem_cache.Git.{Process, newline, git, resolve_reference, ResolvedSelector, resolve_observed}

-- What a resolved selector says.
pub record IsSelected (reference observed : Text) (r : ResolvedSelector) : Type 0 where
  pub named : r.selector ≡ reference
  pub observed_oid : r.oid ≡ observed
  pub routed :
      ((starts_with (codes "refs/") r.route ≡ true) × Lacks newline r.route)
      ⊎ (r.route ≡ codes "oid:" ++ observed)
  pub branch :
      (r.local_branch ≡ true)
      ↔ ((starts_with (codes "refs/heads/") r.route ≡ true) × Lacks newline r.route)

oid_route : (oid : Text) → starts_with (codes "refs/heads/") (codes "oid:" ++ oid) ≡ false
unfolding starts_with
oid_route oid = refl

-- The route and the branch flag of an oid and a full name.
abbrev is_ref : Text → Bool
is_ref name = starts_with (codes "refs/") name && not (any (λ c. c == newline) name)

abbrev selected : Text → Text → Text → ResolvedSelector
selected reference oid name =
    let route = if is_ref name then name else codes "oid:" ++ oid in
    record {
      selector = reference;
      oid = oid;
      local_branch = starts_with (codes "refs/heads/") route;
      route = route;
    }

selected-IsSelected :
    (reference oid name : Text) → IsSelected reference oid (selected reference oid name)
selected-IsSelected reference oid name = elim (Bool-cases (is_ref name)) [
  | inl e ↦
      let l : Lacks newline name = any-Lacks newline name (ground (arith, e)) in
      rw e (record {
        named = refl;
        observed_oid = refl;
        routed = inl (ground (arith, e), l);
        branch = (λ h. (h, l), λ h. h.0);
      })
  | inr e ↦ rw e (record {
    named = refl;
    observed_oid = refl;
    routed = inr refl;
    branch = (λ h. absurd (ground (arith, h, oid_route oid)), λ h. h.0);
  })
]

-- A selector that `resolve_observed` resolves is of the observed commit, whatever git answers: its
-- route is a full name under `refs/`, on one line, or the commit's own route, and it counts as a
-- local branch exactly when the route is a name under `refs/heads/`.
pub resolve_observed-IsSelected :
    (process : Process) (reference observed_oid : Text) (r : ResolvedSelector)
    → resolve_observed process reference observed_oid ≡ ok r
    → IsSelected reference observed_oid r
unfolding resolve_observed
resolve_observed-IsSelected process reference observed r h =
    let (oid, e, h1) = bind_parts (resolve_reference process reference) _ h in
    let (same, h2) = ensure_then (text_eq oid observed) _ _ h1 in
    let (named, f, h3) = bind_parts (git process _) _ h2 in
    let s : selected reference oid (trim named) ≡ r = cc in
    let o : oid ≡ observed = text_eq_sound oid observed same in
    subst (IsSelected reference observed) s (
      subst (λ x. IsSelected reference x (selected reference oid (trim named))) o
        (selected-IsSelected reference oid (trim named)))
