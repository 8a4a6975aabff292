-- ===== src/Lanes/Guards.antt =====
-- The counters of the lanes are the guards that are held.
use zmem_cache.Common.{
  some, ◌≤◌, suc, ◌-◌, ◌++◌, ltb, ap, ◌∷◌, ℕ, Bool-cases, refl, ◌^◌, [], ◌%◌, List, ◌<◌, inr, inl,
  arith, ◌≡◌, subst, ◌+◌, ◌∙◌, All,
}
use zmem_cache.Lanes.{
  Lane, enter, Lanes, Limits, leave, try_admit, heavy_lane, lookup_lane, note_peak,
}

-- The counters, the guards that are held, and the counts of lookups that were loaded and are still to
-- be noted.
pub record Held : Type 0 where
  pub lanes : Lanes
  pub guards : List Lane
  pub loaded : List ℕ

pub data Step (limits : Limits) : Held → Held → Type 0 where
  admits_one :
      (h : Held) (lane : Lane) (lanes : Lanes)
      → enter limits lane h.lanes ≡ some lanes
      → Step limits h (record h { lanes = lanes; guards = lane ∷ h.guards })
  ends_one :
      (lanes : Lanes) (before after : List Lane) (lane : Lane) (loaded : List ℕ)
      → Step limits
          (record { lanes = lanes; guards = before ++ (lane ∷ after); loaded = loaded })
          (record { lanes = leave lane lanes; guards = before ++ after; loaded = loaded })
  loads_count :
      (h : Held) → Step limits h (record h { loaded = h.lanes.lookup_admitted ∷ h.loaded })
  notes_peak :
      (lanes : Lanes) (guards : List Lane) (before after : List ℕ) (count : ℕ)
      → Step limits
          (record { lanes = lanes; guards = guards; loaded = before ++ (count ∷ after) })
          (record { lanes = note_peak count lanes; guards = guards; loaded = before ++ after })

pub data Steps (limits : Limits) : Held → Held → Type 0 where
  rests : (h : Held) → Steps limits h h
  and_then : (h k l : Held) → Steps limits h k → Step limits k l → Steps limits h l

abbrev pub lookups_in : List Lane → ℕ
lookups_in [] = 0
lookups_in (lookup_lane ∷ gs) = suc (lookups_in gs)
lookups_in (heavy_lane ∷ gs) = lookups_in gs

abbrev pub heavy_in : List Lane → ℕ
heavy_in [] = 0
heavy_in (lookup_lane ∷ gs) = heavy_in gs
heavy_in (heavy_lane ∷ gs) = suc (heavy_in gs)

-- Each counter is the number of guards of its lane, within its limit, as are the highest count and
-- the counts that are to be noted.
pub record IsCounted (limits : Limits) (h : Held) : Type 0 where
  pub lookups : h.lanes.lookup_admitted ≡ lookups_in h.guards
  pub heavy : h.lanes.heavy_admitted ≡ heavy_in h.guards
  pub lookups_bounded : h.lanes.lookup_admitted ≤ limits.lookup_limit
  pub heavy_bounded : h.lanes.heavy_admitted ≤ limits.heavy_limit
  pub peak_bounded : h.lanes.peak ≤ limits.lookup_limit
  pub loaded_bounded : All (λ count. count ≤ limits.lookup_limit) h.loaded

without_lookup :
    (before after : List Lane)
    → (lookups_in (before ++ (lookup_lane ∷ after)) ≡ suc (lookups_in (before ++ after)))
      × (heavy_in (before ++ (lookup_lane ∷ after)) ≡ heavy_in (before ++ after))
without_lookup [] after = (refl, refl)
without_lookup (lookup_lane ∷ before) after =
    let ih = without_lookup before after in (ap suc ih.0, ih.1)
without_lookup (heavy_lane ∷ before) after =
    let ih = without_lookup before after in (ih.0, ap suc ih.1)

without_heavy :
    (before after : List Lane)
    → (lookups_in (before ++ (heavy_lane ∷ after)) ≡ lookups_in (before ++ after))
      × (heavy_in (before ++ (heavy_lane ∷ after)) ≡ suc (heavy_in (before ++ after)))
without_heavy [] after = (refl, refl)
without_heavy (lookup_lane ∷ before) after =
    let ih = without_heavy before after in (ap suc ih.0, ih.1)
without_heavy (heavy_lane ∷ before) after =
    let ih = without_heavy before after in (ih.0, ap suc ih.1)

wrap_lem : (n : ℕ) → suc n < 2 ^ 64 → (suc n + (2 ^ 64 - 1)) % 2 ^ 64 ≡ n
wrap_lem n h = omega (arith, h)

pub enter-IsCounted :
    (limits : Limits) (h : Held) (lane : Lane) (lanes : Lanes)
    → enter limits lane h.lanes ≡ some lanes
    → IsCounted limits h
    → IsCounted limits (record h { lanes = lanes; guards = lane ∷ h.guards })
unfolding enter try_admit
enter-IsCounted limits h lookup_lane lanes e c =
    elim (Bool-cases (ltb h.lanes.lookup_admitted limits.lookup_limit)) [
      | inr full ↦ absurd (ground (arith, rw full at e))
      | inl room ↦
          let l = h.lanes in
          let next : Lanes = record l { lookup_admitted = l.lookup_admitted + 1 } in
          let same : some next ≡ some lanes = rw room at e in
          let equal : next ≡ lanes = cc in
          let counted : IsCounted limits
              (record h { lanes = next; guards = lookup_lane ∷ h.guards }) =
            record {
              lookups = omega (arith, c.lookups);
              heavy = c.heavy;
              lookups_bounded = ground (arith, room);
              heavy_bounded = c.heavy_bounded;
              peak_bounded = c.peak_bounded;
              loaded_bounded = c.loaded_bounded;
            } in
          subst (λ x. IsCounted limits (record h { lanes = x; guards = lookup_lane ∷ h.guards }))
            equal counted
    ]
enter-IsCounted limits h heavy_lane lanes e c =
    elim (Bool-cases (ltb h.lanes.heavy_admitted limits.heavy_limit)) [
      | inr full ↦ absurd (ground (arith, rw full at e))
      | inl room ↦
          let l = h.lanes in
          let next : Lanes = record l { heavy_admitted = l.heavy_admitted + 1 } in
          let same : some next ≡ some lanes = rw room at e in
          let equal : next ≡ lanes = cc in
          let counted : IsCounted limits
              (record h { lanes = next; guards = heavy_lane ∷ h.guards }) =
            record {
              lookups = c.lookups;
              heavy = omega (arith, c.heavy);
              lookups_bounded = c.lookups_bounded;
              heavy_bounded = ground (arith, room);
              peak_bounded = c.peak_bounded;
              loaded_bounded = c.loaded_bounded;
            } in
          subst (λ x. IsCounted limits (record h { lanes = x; guards = heavy_lane ∷ h.guards }))
            equal counted
    ]

pub leave-IsCounted :
    (limits : Limits) (lanes : Lanes) (before after : List Lane) (lane : Lane) (loaded : List ℕ)
    → limits.lookup_limit < 2 ^ 64
    → limits.heavy_limit < 2 ^ 64
    → IsCounted limits
        (record { lanes = lanes; guards = before ++ (lane ∷ after); loaded = loaded })
    → IsCounted limits
        (record { lanes = leave lane lanes; guards = before ++ after; loaded = loaded })
unfolding leave
leave-IsCounted limits lanes before after lookup_lane loaded a b c =
    let (fewer, same) = without_lookup before after in
    let n = lookups_in (before ++ after) in
    let count : lanes.lookup_admitted ≡ suc n = c.lookups ∙ fewer in
    let wrapped : (lanes.lookup_admitted + (2 ^ 64 - 1)) % 2 ^ 64 ≡ n =
      ap (λ x. (x + (2 ^ 64 - 1)) % 2 ^ 64) count
      ∙ wrap_lem n (omega (arith, count, c.lookups_bounded, a)) in
    record {
      lookups = wrapped;
      heavy = c.heavy ∙ same;
      lookups_bounded = omega (arith, wrapped, count, c.lookups_bounded);
      heavy_bounded = c.heavy_bounded;
      peak_bounded = c.peak_bounded;
      loaded_bounded = c.loaded_bounded;
    }
leave-IsCounted limits lanes before after heavy_lane loaded a b c =
    let (same, fewer) = without_heavy before after in
    let n = heavy_in (before ++ after) in
    let count : lanes.heavy_admitted ≡ suc n = c.heavy ∙ fewer in
    let wrapped : (lanes.heavy_admitted + (2 ^ 64 - 1)) % 2 ^ 64 ≡ n =
      ap (λ x. (x + (2 ^ 64 - 1)) % 2 ^ 64) count
      ∙ wrap_lem n (omega (arith, count, c.heavy_bounded, b)) in
    record {
      lookups = c.lookups ∙ same;
      heavy = wrapped;
      lookups_bounded = c.lookups_bounded;
      heavy_bounded = omega (arith, wrapped, count, c.heavy_bounded);
      peak_bounded = c.peak_bounded;
      loaded_bounded = c.loaded_bounded;
    }

All-without :
    (P : ℕ → Type 0) (before after : List ℕ) (n : ℕ)
    → All P (before ++ (n ∷ after))
    → P n × All P (before ++ after)
All-without P [] after n h = h
All-without P (x ∷ before) after n h =
    let ih = All-without P before after n h.1 in (ih.0, (h.0, ih.1))

pub note_peak-IsCounted :
    (limits : Limits) (lanes : Lanes) (guards : List Lane) (before after : List ℕ) (count : ℕ)
    → IsCounted limits
        (record { lanes = lanes; guards = guards; loaded = before ++ (count ∷ after) })
    → IsCounted limits
        (record { lanes = note_peak count lanes; guards = guards; loaded = before ++ after })
unfolding note_peak
note_peak-IsCounted limits lanes guards before after count c =
    let (small, rest) = All-without _ before after count c.loaded_bounded in
    record {
      lookups = c.lookups;
      heavy = c.heavy;
      lookups_bounded = c.lookups_bounded;
      heavy_bounded = c.heavy_bounded;
      peak_bounded = omega (arith, c.peak_bounded, small);
      loaded_bounded = rest;
    }

Steps-of_IsCounted :
    {limits : Limits} {h k : Held}
    → Steps limits h k
    → limits.lookup_limit < 2 ^ 64
    → limits.heavy_limit < 2 ^ 64
    → IsCounted limits h
    → IsCounted limits k
Steps-of_IsCounted (rests h) a b c = c
Steps-of_IsCounted {limits} (and_then h k l s (admits_one k' lane lanes e)) a b c =
    enter-IsCounted limits k lane lanes e (Steps-of_IsCounted s a b c)
Steps-of_IsCounted {limits} (and_then h k l s (ends_one lanes before after lane loaded)) a b c =
    leave-IsCounted limits lanes before after lane loaded a b (Steps-of_IsCounted s a b c)
Steps-of_IsCounted {limits} (and_then h k l s (loads_count k')) a b c =
    let d = Steps-of_IsCounted s a b c in
    record {
      lookups = d.lookups;
      heavy = d.heavy;
      lookups_bounded = d.lookups_bounded;
      heavy_bounded = d.heavy_bounded;
      peak_bounded = d.peak_bounded;
      loaded_bounded = (d.lookups_bounded, d.loaded_bounded);
    }
Steps-of_IsCounted {limits} (and_then h k l s (notes_peak lanes guards before after count)) a b c =
    note_peak-IsCounted limits lanes guards before after count (Steps-of_IsCounted s a b c)

-- However connections enter the lanes, load and note the count of lookups and drop their guards, in
-- any order, each counter is the number of the guards
-- that are held in its lane and within its limit, no drop wraps around, and the highest count of
-- lookups is within their limit. The limits are below two to the sixty-fourth.
pub Steps-IsCounted :
    (limits : Limits) (h : Held)
    → limits.lookup_limit < 2 ^ 64
    → limits.heavy_limit < 2 ^ 64
    → Steps limits
        (record {
          lanes = record { lookup_admitted = 0; heavy_admitted = 0; peak = 0 };
          guards = [];
          loaded = [];
        })
        h
    → IsCounted limits h
Steps-IsCounted limits h a b s = Steps-of_IsCounted s a b (record {
  lookups = refl;
  heavy = refl;
  lookups_bounded = omega arith;
  heavy_bounded = omega arith;
  peak_bounded = omega arith;
  loaded_bounded = tt;
})
