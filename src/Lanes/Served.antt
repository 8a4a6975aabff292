-- ===== src/Lanes/Served.antt =====
-- The counters of the lanes over whole connections.
use zmem_cache.Common.{
  subst, ℕ, some, none, All, Option, ◌^◌, ◌∙◌, ◌∷◌, ◌+◌, sym, ◌++◌, List, [], arith, Text, ◌<◌, ◌≡◌,
}
use zmem_cache.Lanes.{queued_with, lookup_lane, Lanes, Limits, drop_guard, Lane, heavy_lane}
use zmem_cache.Lanes.Framed.{
  Frame, Item, Service, frame_guards, item_guards, of_option, FrameStep, FrameSteps, IsService,
  enters, no_step, one_more, passes, loads, notes, sends, IsRouted, ends, works_off,
}
use zmem_cache.Lanes.Guards.{
  lookups_in, heavy_in, IsCounted, leave-IsCounted, Steps-IsCounted, enter-IsCounted, rests,
  note_peak-IsCounted,
}
use zmem_cache.Lanes.Routes.{finish-EndsAs, RouteIs, route_of-IsRouted, EndsAs, finish-EndsAs}

-- What is added up over guards.
module _ (count : List Lane → ℕ)
    (count-append : (gs hs : List Lane) → count (gs ++ hs) ≡ count gs + count hs) where
  frames_moved :
      (before after : List Frame) (f : Frame)
      → count (frame_guards (before ++ (f ∷ after)))
        ≡ count (of_option f.guard) + count (frame_guards (before ++ after))
  frames_moved [] after f = count-append (of_option f.guard) (frame_guards after)
  frames_moved (b ∷ before) after f = omega (
    arith,
    frames_moved before after f,
    count-append (of_option b.guard) (frame_guards (before ++ (f ∷ after))),
    count-append (of_option b.guard) (frame_guards (before ++ after)),
  )

  items_moved :
      (before after : List Item) (i : Item)
      → count (item_guards (before ++ (i ∷ after)))
        ≡ count (of_option i.guard) + count (item_guards (before ++ after))
  items_moved [] after i = count-append (of_option i.guard) (item_guards after)
  items_moved (b ∷ before) after i = omega (
    arith,
    items_moved before after i,
    count-append (of_option b.guard) (item_guards (before ++ (i ∷ after))),
    count-append (of_option b.guard) (item_guards (before ++ after)),
  )

  -- A guard of a connection or of an item, taken to the front.
  frame_first :
      (before after : List Frame) (f : Frame) (gs : List Lane)
      → count (of_option f.guard ++ (frame_guards (before ++ after) ++ gs))
        ≡ count (frame_guards (before ++ (f ∷ after)) ++ gs)
  frame_first before after f gs = omega (
    arith,
    frames_moved before after f,
    count-append (frame_guards (before ++ (f ∷ after))) gs,
    count-append (of_option f.guard) (frame_guards (before ++ after) ++ gs),
    count-append (frame_guards (before ++ after)) gs,
  )

  item_first :
      (before after : List Item) (i : Item) (gs : List Lane)
      → count (of_option i.guard ++ (gs ++ item_guards (before ++ after)))
        ≡ count (gs ++ item_guards (before ++ (i ∷ after)))
  item_first before after i gs = omega (
    arith,
    items_moved before after i,
    count-append gs (item_guards (before ++ (i ∷ after))),
    count-append (of_option i.guard) (gs ++ item_guards (before ++ after)),
    count-append gs (item_guards (before ++ after)),
  )

  sent_first :
      (before after : List Frame) (f : Frame) (gs : List Lane)
      → count (frame_guards (before ++ after) ++ (of_option f.guard ++ gs))
        ≡ count (frame_guards (before ++ (f ∷ after)) ++ gs)
  sent_first before after f gs = omega (
    arith,
    frames_moved before after f,
    count-append (frame_guards (before ++ (f ∷ after))) gs,
    count-append (frame_guards (before ++ after)) (of_option f.guard ++ gs),
    count-append (of_option f.guard) gs,
  )

lookups_in-append : (gs hs : List Lane) → lookups_in (gs ++ hs) ≡ lookups_in gs + lookups_in hs
lookups_in-append [] hs = omega arith
lookups_in-append (lookup_lane ∷ gs) hs = omega (arith, lookups_in-append gs hs)
lookups_in-append (heavy_lane ∷ gs) hs = lookups_in-append gs hs

heavy_in-append : (gs hs : List Lane) → heavy_in (gs ++ hs) ≡ heavy_in gs + heavy_in hs
heavy_in-append [] hs = omega arith
heavy_in-append (lookup_lane ∷ gs) hs = heavy_in-append gs hs
heavy_in-append (heavy_lane ∷ gs) hs = omega (arith, heavy_in-append gs hs)

-- Guards in another order are counted alike.
reordered-IsCounted :
    (limits : Limits) (lanes : Lanes) (loaded : List ℕ) (gs hs : List Lane)
    → lookups_in hs ≡ lookups_in gs
    → heavy_in hs ≡ heavy_in gs
    → IsCounted limits (record { lanes = lanes; guards = gs; loaded = loaded })
    → IsCounted limits (record { lanes = lanes; guards = hs; loaded = loaded })
reordered-IsCounted limits lanes loaded gs hs a b c = record {
  lookups = c.lookups ∙ sym a;
  heavy = c.heavy ∙ sym b;
  lookups_bounded = c.lookups_bounded;
  heavy_bounded = c.heavy_bounded;
  peak_bounded = c.peak_bounded;
  loaded_bounded = c.loaded_bounded;
}

module _ {A : Type 0} (P : A → Type 0) where
  All-one_out :
      (before after : List A) (x : A)
      → All P (before ++ (x ∷ after))
      → P x × All P (before ++ after)
  All-one_out [] after x h = h
  All-one_out (b ∷ before) after x h =
      let ih = All-one_out before after x h.1 in (ih.0, (h.0, ih.1))

module _ (limits : Limits) (token : Text) (small_lookup : limits.lookup_limit < 2 ^ 64)
    (small_heavy : limits.heavy_limit < 2 ^ 64) where
  drop_guard-IsCounted :
      (guard : Option Lane) (lanes : Lanes) (loaded : List ℕ) (gs : List Lane)
      → IsCounted limits (record { lanes = lanes; guards = of_option guard ++ gs; loaded = loaded })
      → IsCounted limits (record { lanes = drop_guard guard lanes; guards = gs; loaded = loaded })
  unfolding drop_guard
  drop_guard-IsCounted none lanes loaded gs c = c
  drop_guard-IsCounted (some lane) lanes loaded gs c =
      leave-IsCounted limits lanes [] gs lane loaded small_lookup small_heavy c

  FrameStep-IsService :
      {v w : Service}
      → FrameStep limits token v w
      → IsService limits token v
      → IsService limits token w
  FrameStep-IsService (enters v r message lane lanes e admitted) s = record {
    counted = enter-IsCounted limits _ lane lanes admitted s.counted;
    frames_routed = (subst (RouteIs token r) e (route_of-IsRouted token r), s.frames_routed);
    items_routed = s.items_routed;
    items_shared = s.items_shared;
  }
  FrameStep-IsService (passes v r message e) s = record {
    counted = s.counted;
    frames_routed = (subst (RouteIs token r) e (route_of-IsRouted token r), s.frames_routed);
    items_routed = s.items_routed;
    items_shared = s.items_shared;
  }
  FrameStep-IsService (loads v) s =
      let c = s.counted in
      record {
        counted = record {
          lookups = c.lookups;
          heavy = c.heavy;
          lookups_bounded = c.lookups_bounded;
          heavy_bounded = c.heavy_bounded;
          peak_bounded = c.peak_bounded;
          loaded_bounded = (c.lookups_bounded, c.loaded_bounded);
        };
        frames_routed = s.frames_routed;
        items_routed = s.items_routed;
        items_shared = s.items_shared;
      }
  FrameStep-IsService (notes lanes before after count framing items) s = record {
    counted =
        note_peak-IsCounted limits lanes (frame_guards framing ++ item_guards items) before after
          count s.counted;
    frames_routed = s.frames_routed;
    items_routed = s.items_routed;
    items_shared = s.items_shared;
  }
  FrameStep-IsService (sends lanes loaded before after f items history accepts given shared e) s =
      let ending : EndsAs f.guard f.request (queued_with given shared) =
        subst (EndsAs f.guard f.request) e
          (finish-EndsAs f.guard f.message f.request history accepts) in
      let frames = All-one_out _ before after f s.frames_routed in
      let same : f.guard ≡ given = sym ending.0 in
      let counted =
        reordered-IsCounted limits lanes loaded _
          (frame_guards (before ++ after) ++ (of_option f.guard ++ item_guards items))
          (sent_first lookups_in lookups_in-append before after f (item_guards items))
          (sent_first heavy_in heavy_in-append before after f (item_guards items)) s.counted in
      record {
        counted =
            subst
              (λ g. IsCounted limits (record {
                lanes = lanes;
                guards = frame_guards (before ++ after) ++ (of_option g ++ item_guards items);
                loaded = loaded;
              }))
              same counted;
        frames_routed = frames.1;
        items_routed = (subst (IsRouted token f.request) same frames.0, s.items_routed);
        items_shared = (ending.1, s.items_shared);
      }
  FrameStep-IsService (ends lanes loaded before after f items history accepts e) s = record {
    counted = drop_guard-IsCounted f.guard lanes loaded _ (
        reordered-IsCounted limits lanes loaded _ _
          (frame_first lookups_in lookups_in-append before after f (item_guards items))
          (frame_first heavy_in heavy_in-append before after f (item_guards items)) s.counted);
    frames_routed = (All-one_out _ before after f s.frames_routed).1;
    items_routed = s.items_routed;
    items_shared = s.items_shared;
  }
  FrameStep-IsService (works_off lanes loaded framing before after i) s = record {
    counted = drop_guard-IsCounted i.guard lanes loaded _ (
        reordered-IsCounted limits lanes loaded _ _
          (item_first lookups_in lookups_in-append before after i (frame_guards framing))
          (item_first heavy_in heavy_in-append before after i (frame_guards framing)) s.counted);
    frames_routed = s.frames_routed;
    items_routed = (All-one_out _ before after i s.items_routed).1;
    items_shared = (All-one_out _ before after i s.items_shared).1;
  }

  FrameSteps-of_IsService :
      {v w : Service}
      → FrameSteps limits token v w
      → IsService limits token v
      → IsService limits token w
  FrameSteps-of_IsService (no_step v) s = s
  FrameSteps-of_IsService (one_more u v w steps step) s =
      FrameStep-IsService step (FrameSteps-of_IsService steps s)

abbrev pub no_service : Service
no_service = record {
  lanes = record { lookup_admitted = 0; heavy_admitted = 0; peak = 0 };
  loaded = [];
  framing = [];
  items = [];
}

-- However connections take their guards, wait for the shared history, are sent to a worker or end, and
-- workers end their items, in any order from the start on: each counter is the number of the guards
-- that connections and items hold in its lane and within its limit, so that no guard is lost or
-- counted twice when a connection ends or gives it to an item; a guard of the lookup lane is held for
-- a query with the token, one of the heavy lane for an `add` or a `check` with it, and what has none is
-- a control command; and an item has a count of the shared history only for an `add`, or a `check` of
-- a message that is not deep and names no reference. The limits are below two to the sixty-fourth.
pub FrameSteps-IsService :
    (limits : Limits) (token : Text) (v : Service)
    → limits.lookup_limit < 2 ^ 64
    → limits.heavy_limit < 2 ^ 64
    → FrameSteps limits token no_service v
    → IsService limits token v
FrameSteps-IsService limits token v a b steps =
    FrameSteps-of_IsService limits token a b steps (record {
      counted = Steps-IsCounted limits _ a b (rests _);
      frames_routed = tt;
      items_routed = tt;
      items_shared = tt;
    })
