-- ===== src/Retention/Picked.antt =====
-- Which trails `finalize_store` has evicted: never the active one, and no more than it takes.
use zmem_cache.Common.{
  inl, not, ◌∷◌, length, none, inr, take, Bool-cases, text_eq, some, ap, Text, All-sort_by, All,
  arith, All-keep, [], lookup-insert_self, keep, true, ◌⊎◌, ◌-◌, List, insert, lookup-insert, ◌∷◌,
  ok, ◌^◌, map, ◌∙◌, Option, ◌≤◌, ℕ, lookup, ◌≡◌, false, Result, ◌%◌, refl, leb, err, is_some,
  text_Eq, if◌then◌else◌, ◌+◌, subst, ◌<◌, if◌then◌else◌, sym, if◌then◌else◌,
}
use zmem_cache.Retention.{select_trail_evictions, is_free, trail_le, TrailCohort, free_trails}
use zmem_cache.Retention.Finalize.{
  with_trail, pick_trails, collect_sizes, FinalOps, Finalization, evict_step, trail_step,
  aliased_step, alias_step, finalize_store, trail_sum, sized,
}

-- The entries of a trail: those of its last row, where several have its id.
abbrev pub last_entries : Option ℕ → Text → List TrailCohort → Option ℕ
last_entries found trail [] = found
last_entries found trail (row ∷ rows) =
    last_entries (if text_eq row.trail_id trail then some row.entries else found) trail rows

abbrev pub or_zero : Option ℕ → ℕ
or_zero none = 0
or_zero (some n) = n

abbrev pub size_in : List TrailCohort → Text → ℕ
size_in rows trail = or_zero (last_entries none trail rows)

abbrev pub freed : (Text → ℕ) → List Text → ℕ
freed size [] = 0
freed size (trail ∷ trails) = size trail + freed size trails

-- Before each of these trails went, there was still too much.
abbrev pub AllNeeded : (Text → ℕ) → ℕ → ℕ → List Text → Type 0
AllNeeded size max_entries total [] = Unit
AllNeeded size max_entries total (trail ∷ trails) =
    (max_entries < total) × AllNeeded size max_entries (total - size trail) trails

-- The trails that are picked: none is the active one; they are the first of the others, each was
-- still needed, and either enough has gone or all of the others have.
pub record IsPicked (size : Text → ℕ) (max_entries : ℕ) (active : Text) (total : ℕ)
    (trails : List Text) (out : List Text × ℕ) : Type 0 where
  pub keeps_active : All (λ trail. text_eq trail active ≡ false) out.0
  pub oldest : out.0 ≡ take (length out.0) (keep (λ trail. not (text_eq trail active)) trails)
  pub enough : (out.1 ≤ max_entries) ⊎ (out.0 ≡ keep (λ trail. not (text_eq trail active)) trails)
  pub left : out.1 ≡ total - freed size out.0
  pub needed : AllNeeded size max_entries total out.0

module _ (size : Text → ℕ) (max_entries : ℕ) (active : Text) where
  -- Whatever is picked is so picked, and something is.
  abbrev Picks : ℕ → List Text → Option (List Text × ℕ) → Type 0
  Picks total trails none = ⊥
  Picks total trails (some out) = IsPicked size max_entries active total trails out

  with_trail-Picks :
      (total : ℕ) (trail : Text) (trails : List Text) (o : Option (List Text × ℕ))
      → text_eq trail active ≡ false
      → max_entries < total
      → Picks (total - size trail) trails o
      → Picks total (trail ∷ trails) (with_trail trail o)
  with_trail-Picks total trail trails none e more p = p
  with_trail-Picks total trail trails (some out) e more p = record {
    keeps_active = (e, p.keeps_active);
    oldest = rw e (ap (◌∷◌ trail) p.oldest);
    enough = rw e (elim p.enough [ inl l ↦ inl l | inr every ↦ inr (ap (◌∷◌ trail) every) ]);
    left = omega (arith, p.left);
    needed = (more, p.needed);
  }

  skipped-Picks :
      (total : ℕ) (trail : Text) (trails : List Text) (o : Option (List Text × ℕ))
      → text_eq trail active ≡ true
      → Picks total trails o
      → Picks total (trail ∷ trails) o
  skipped-Picks total trail trails none e p = p
  skipped-Picks total trail trails (some out) e p = record {
    keeps_active = p.keeps_active;
    oldest = rw e p.oldest;
    enough = rw e p.enough;
    left = p.left;
    needed = p.needed;
  }

  sized-Picks :
      (total : ℕ) (trail : Text) (trails : List Text) (o : Option ℕ)
      (next : ℕ → Option (List Text × ℕ))
      → is_some o ≡ true
      → size trail ≡ or_zero o
      → text_eq trail active ≡ false
      → max_entries < total
      → ((entries : ℕ) → size trail ≡ entries → Picks (total - entries) trails (next entries))
      → Picks total (trail ∷ trails) (sized o λ entries. with_trail trail (next entries))
  sized-Picks total trail trails none next there same e more p = absurd (ground (arith, there))
  sized-Picks total trail trails (some entries) next there same e more p =
      with_trail-Picks total trail trails (next entries) e more
        (subst (λ n. Picks (total - n) trails (next entries)) (sym same) (p entries same))

  pick_trails-Picks :
      (sizes : List (Text × ℕ)) (total : ℕ) (trails : List Text)
      → ((trail : Text) → size trail ≡ or_zero (lookup trail sizes))
      → All (λ trail. is_some (lookup trail sizes) ≡ true) trails
      → Picks total trails (pick_trails max_entries active sizes total trails)
  unfolding pick_trails
  pick_trails-Picks sizes total [] same h = record {
    keeps_active = tt;
    oldest = refl;
    enough = inr refl;
    left = omega arith;
    needed = tt;
  }
  pick_trails-Picks sizes total (trail ∷ rest) same h = elim (Bool-cases (leb total max_entries)) [
    | inl enough ↦ rw enough (record {
      keeps_active = tt;
      oldest = refl;
      enough = inl (ground (arith, enough));
      left = omega arith;
      needed = tt;
    })
    | inr more ↦ elim (Bool-cases (text_eq trail active)) [
      | inl active_one ↦
          rw (more, active_one)
            (skipped-Picks total trail rest _ active_one
              (pick_trails-Picks sizes total rest same h.1))
      | inr other ↦
          rw (more, other)
            (sized-Picks total trail rest (lookup trail sizes)
              (λ entries. pick_trails max_entries active sizes (total - entries) rest) h.0
              (same trail) other (ground (arith, more))
              (λ entries k. pick_trails-Picks sizes (total - entries) rest same h.1))
    ]
  ]

  Picks-some :
      (total : ℕ) (trails : List Text) (o : Option (List Text × ℕ))
      → Picks total trails o
      → (out : List Text × ℕ) × (o ≡ some out) × IsPicked size max_entries active total trails out
  Picks-some total trails none p = absurd p
  Picks-some total trails (some out) p = (out, refl, p)

lookup-collect_sizes :
    (trail : Text) (found : List (Text × ℕ)) (rows : List TrailCohort)
    → lookup trail (collect_sizes found rows) ≡ last_entries (lookup trail found) trail rows
unfolding collect_sizes
lookup-collect_sizes trail found [] = refl
lookup-collect_sizes trail found (row ∷ rows) =
    lookup-collect_sizes trail (insert row.trail_id row.entries found) rows
    ∙ ap (λ o. last_entries o trail rows) (lookup-insert row.trail_id trail row.entries found)

lookup-nil :
    (trail : Text) (rows : List TrailCohort)
    → size_in rows trail ≡ or_zero (lookup trail (collect_sizes [] rows))
unfolding lookup
lookup-nil trail rows = ap or_zero (sym (lookup-collect_sizes trail [] rows))

collect_keeps :
    (trail : Text) (found : List (Text × ℕ)) (rows : List TrailCohort)
    → is_some (lookup trail found) ≡ true
    → is_some (lookup trail (collect_sizes found rows)) ≡ true
unfolding collect_sizes
collect_keeps trail found [] h = h
collect_keeps trail found (row ∷ rows) h =
    collect_keeps trail (insert row.trail_id row.entries found) rows
      (elim (Bool-cases (text_eq row.trail_id trail)) [
        | inl e ↦ rw (lookup-insert row.trail_id trail row.entries found, e) refl
        | inr e ↦ rw (lookup-insert row.trail_id trail row.entries found, e) h
      ])

All-collected :
    (found : List (Text × ℕ)) (rows : List TrailCohort)
    → All (λ row. is_some (lookup row.trail_id (collect_sizes found rows)) ≡ true) rows
unfolding collect_sizes
All-collected found [] = tt
All-collected found (row ∷ rows) =
    let there = lookup-insert_self row.trail_id row.entries found in
    (
      collect_keeps row.trail_id (insert row.trail_id row.entries found) rows (ap is_some there),
      All-collected (insert row.trail_id row.entries found) rows,
    )

All-map_id :
    (P : Text → Type 0) (rows : List TrailCohort)
    → All (λ row. P row.trail_id) rows
    → All P (map (λ row. row.trail_id) rows)
All-map_id P [] h = tt
All-map_id P (row ∷ rows) h = (h.0, All-map_id P rows h.1)

-- What the loop of `finalize_store` picks from the store's rows: no index panics, the active trail is
-- never evicted, the trails go in the order of the plan, and either enough has gone or all others.
-- The total that is left is what is there less the entries of the picked trails, each counted by its
-- last row, and stops at 0; and no trail goes in vain: before each one, the total left by those before
-- it was over the maximum.
pub pick_trails-IsPicked :
    (max_entries : ℕ) (active : Text) (total : ℕ) (rows : List TrailCohort)
    → (out : List Text × ℕ) × (pick_trails max_entries active
          (collect_sizes [] rows)
          total
          (select_trail_evictions rows)
        ≡ some out)
      × IsPicked (size_in rows) max_entries active total (select_trail_evictions rows) out
unfolding select_trail_evictions free_trails
pick_trails-IsPicked max_entries active total rows =
    let sizes = collect_sizes [] rows in
    let sizes_there =
      All-map_id (λ trail. is_some (lookup trail sizes) ≡ true) (free_trails rows)
        (All-sort_by trail_le _ _ (All-keep _ is_free rows (All-collected [] rows))) in
    Picks-some (size_in rows) max_entries active total (select_trail_evictions rows) _ (
      pick_trails-Picks (size_in rows) max_entries active sizes total (select_trail_evictions rows)
        (λ trail. lookup-nil trail rows) sizes_there)

module _ {S : Type 0} (ops : FinalOps S) (request : Finalization)
    (evict_trails : List Text → S → S × Result (Unit {0}))
    (same : (trails : List Text)
      → All (λ trail. text_eq trail request.active_trail_id ≡ false) trails
      → (t : S) → ops.evict_trails trails t ≡ evict_trails trails t) where
  abbrev pub other : FinalOps S
  other = record ops { evict_trails = evict_trails }

  evict_step_same :
      (total : ℕ) (r : S × Result (Unit {0}))
      → evict_step ops request total r ≡ evict_step other request total r
  evict_step_same total (s, err reason) = refl
  evict_step_same total (s, ok u) = refl

  trail_step_same :
      (s : S) (r : Result (List TrailCohort))
      → trail_step ops request s r ≡ trail_step other request s r
  trail_step_same s (err reason) = refl
  trail_step_same s (ok rows) =
      let (out, e, p) =
        pick_trails-IsPicked request.max_entries request.active_trail_id (trail_sum rows % 2 ^ 64)
          rows in
      rw e (
        evict_step_same out.1 (ops.evict_trails out.0 s)
        ∙ ap (evict_step other request out.1) (same out.0 p.keeps_active s))

  aliased_step_same :
      (r : S × Result (Unit {0})) → aliased_step ops request r ≡ aliased_step other request r
  aliased_step_same (s, err reason) = refl
  aliased_step_same (s, ok u) =
      trail_step_same s (ops.trail_cohorts request.now request.protect_recent_seconds s)

  alias_step_same :
      (o : Option Text) (s : S) → alias_step ops request o s ≡ alias_step other request o s
  alias_step_same none s = refl
  alias_step_same (some selector) s = refl

  -- Whatever the store answers, the active trail is not evicted: stores that differ only in what they
  -- do with lists that hold it cannot be told apart by `finalize_store`.
  pub finalize_store_active :
      (s : S) → finalize_store ops request s ≡ finalize_store other request s
  unfolding finalize_store
  finalize_store_active s =
      aliased_step_same (alias_step ops request request.alias s)
      ∙ ap (aliased_step other request) (alias_step_same request.alias s)
