-- ===== src/Host/Permits.antt =====
-- The permits of the extension host: their count, the one that is kept, and the end of a wait.
use Prim.Native.String.{String}
use zmem_cache.Host.{
  release, admitted_limit, acquire_turn, permitted, check_request_deadline, Moment,
  request_remaining, wait_turn, acquire, give_turn,
}
use zmem_cache.Common.{
  ◌++◌, Bool, ℕ, refl, ◌<◌, List, ◌≡◌, arith, ok, [], suc, ◌∷◌, true, length, ◌≤◌, ◌+◌, false, leb,
  some, err, inl, Option, ◌==◌, ◌⊎◌, Bool-cases, inr, ◌-◌, none, ◌≢◌, All, Result, ltb,
}

-- The count that the threads share, and the permits that are held: whether each is for looking up an
-- identity.
pub record Pool : Type 0 where
  pub active : ℕ
  pub holders : List Bool

-- One thread acquires a permit, or one releases its own.
pub data Step (limit : ℕ) : Pool → Pool → Type 0 where
  acquires :
      (p : Pool) (for_lookup : Bool) (m : Moment) (count : ℕ)
      → acquire_turn limit for_lookup m p.active ≡ permitted count
      → Step limit p (record { active = count; holders = for_lookup ∷ p.holders })
  releases :
      (active : ℕ) (before after : List Bool) (for_lookup : Bool)
      → Step limit
          (record { active = active; holders = before ++ (for_lookup ∷ after) })
          (record { active = release active; holders = before ++ after })

pub data Steps (limit : ℕ) : Pool → Pool → Type 0 where
  stays : (p : Pool) → Steps limit p p
  then_step : (p q r : Pool) → Steps limit p q → Step limit q r → Steps limit p r

abbrev pub count_others : List Bool → ℕ
count_others [] = 0
count_others (true ∷ hs) = count_others hs
count_others (false ∷ hs) = suc (count_others hs)

-- The count is that of the permits held, within the limit; those for other operations leave one.
pub record IsBalanced (limit : ℕ) (p : Pool) : Type 0 where
  pub counted : p.active ≡ length p.holders
  pub within : p.active ≤ limit
  pub leaves_one : 1 < limit → count_others p.holders < limit

count_others-le : (hs : List Bool) → count_others hs ≤ length hs
count_others-le [] = omega arith
count_others-le (true ∷ hs) = omega (arith, count_others-le hs)
count_others-le (false ∷ hs) = omega (arith, count_others-le hs)

wait_turn-ne-permitted : (r : Result (Option ℕ)) (count : ℕ) → wait_turn r ≢ permitted count
wait_turn-ne-permitted (ok o) count h = absurd (ground (arith, h))
wait_turn-ne-permitted (err reason) count h = absurd (ground (arith, h))

give_turn_inv :
    (active : ℕ) (r : Result (Unit {0})) (count : ℕ)
    → give_turn active r ≡ permitted count
    → (count ≡ active + 1) × (r ≡ ok tt)
give_turn_inv active (ok u) count h = (ground (arith, h), refl)
give_turn_inv active (err reason) count h = absurd (ground (arith, h))

acquire_turn_lt :
    (limit : ℕ) (for_lookup : Bool) (m : Moment) (active count : ℕ)
    → acquire_turn limit for_lookup m active ≡ permitted count
    → (active < admitted_limit limit for_lookup)
      × (count ≡ active + 1)
      × (check_request_deadline m ≡ ok tt)
unfolding acquire_turn
acquire_turn_lt limit for_lookup m active count h =
    elim (Bool-cases (leb (admitted_limit limit for_lookup) active)) [
      | inl full ↦ absurd (wait_turn-ne-permitted (request_remaining m) count (rw full at h))
      | inr free ↦
          let (e, k) = give_turn_inv active (check_request_deadline m) count (rw free at h) in
          (ground (arith, free), e, k)
    ]

without :
    (before after : List Bool) (for_lookup : Bool)
    → (length (before ++ (for_lookup ∷ after)) ≡ suc (length (before ++ after)))
      × (count_others (before ++ after) ≤ count_others (before ++ (for_lookup ∷ after)))
without [] after true = (refl, omega arith)
without [] after false = (refl, omega arith)
without (true ∷ before) after b = let ih = without before after b in (omega (arith, ih.0), ih.1)
without (false ∷ before) after b =
    let ih = without before after b in (omega (arith, ih.0), omega (arith, ih.1))

acquires-IsBalanced :
    (limit active count : ℕ) (for_lookup : Bool) (holders : List Bool)
    → active < admitted_limit limit for_lookup
    → count ≡ active + 1
    → 1 ≤ limit
    → IsBalanced limit (record { active = active; holders = holders })
    → IsBalanced limit (record { active = count; holders = for_lookup ∷ holders })
unfolding admitted_limit
acquires-IsBalanced limit active count true holders h e l f = record {
  counted = omega (arith, e, f.counted);
  within = ground (arith, h, e);
  leaves_one = f.leaves_one;
}
acquires-IsBalanced limit active count false holders h e l f =
    let few = count_others-le holders in
    elim (Bool-cases (limit == 1)) [
      | inl one ↦
          let h1 : active < limit = rw one at h in
          record {
            counted = omega (arith, e, f.counted);
            within = omega (arith, h1, e);
            leaves_one = λ k. absurd (ground (arith, one, k));
          }
      | inr more ↦
          let h1 : active < limit - 1 = rw more at h in
          record {
            counted = omega (arith, e, f.counted);
            within = omega (arith, h1, e);
            leaves_one = λ k. omega (arith, h1, few, f.counted);
          }
    ]

Step-IsBalanced :
    {limit : ℕ} {p q : Pool} → Step limit p q → 1 ≤ limit → IsBalanced limit p → IsBalanced limit q
unfolding release
Step-IsBalanced {limit} (acquires p for_lookup m count h) l f =
    let (free, e, k) = acquire_turn_lt limit for_lookup m p.active count h in
    acquires-IsBalanced limit p.active count for_lookup p.holders free e l f
Step-IsBalanced {limit} (releases active before after for_lookup) l f =
    let (shorter, fewer) = without before after for_lookup in
    record {
      counted = omega (arith, shorter, f.counted);
      within = omega (arith, f.within);
      leaves_one = λ k. omega (arith, fewer, f.leaves_one k);
    }

Steps-of_IsBalanced :
    {limit : ℕ} {p q : Pool} → Steps limit p q → 1 ≤ limit → IsBalanced limit p → IsBalanced limit q
Steps-of_IsBalanced (stays p) l f = f
Steps-of_IsBalanced (then_step p q r s t) l f = Step-IsBalanced t l (Steps-of_IsBalanced s l f)

-- Whatever threads take and drop permits from the start on, in any order, the count is that of the
-- permits held, and no more than the limit; under a limit over one, the permits for other operations
-- are fewer than the limit, so that these alone never keep an identity from being looked up.
pub Steps-IsBalanced :
    (limit : ℕ) (p : Pool)
    → 1 ≤ limit
    → Steps limit (record { active = 0; holders = [] }) p
    → IsBalanced limit p
Steps-IsBalanced limit p l s =
    Steps-of_IsBalanced s l
      (record { counted = refl; within = omega arith; leaves_one = λ k. omega (arith, k) })

-- The request has been cancelled, or its deadline is over.
abbrev pub IsOver : Moment → Type 0
IsOver m = (m.cancelled ≡ true) ⊎ ((d : ℕ) × (m.deadline ≡ some d) × (d ≤ m.now))

-- Whether a permit may be given: one more always stays below the limit, except for looking up an
-- identity and under a limit of one.
abbrev pub HasRoom : ℕ → Bool → ℕ → Type 0
HasRoom limit for_lookup active =
    (active + 1 < limit) ⊎ ((active < limit) × ((for_lookup ≡ true) ⊎ (limit ≡ 1)))

-- A turn of the wait that can only go on.
abbrev pub IsStuck : ℕ → Bool → Moment × ℕ → Type 0
IsStuck limit for_lookup wake = (¬ IsOver wake.0) × (¬ HasRoom limit for_lookup wake.1)

-- One of these has `Q`, and all before it have `P`.
abbrev pub First : (Moment × ℕ → Type 0) → (Moment × ℕ → Type 0) → List (Moment × ℕ) → Type 0
First P Q [] = ⊥
First P Q (wake ∷ wakes) = Q wake ⊎ (P wake × First P Q wakes)

-- What `acquire` answers.
abbrev pub IsAcquired : ℕ → Bool → List (Moment × ℕ) → Option (Result ℕ) → Type 0
IsAcquired limit for_lookup wakes none = All (IsStuck limit for_lookup) wakes
IsAcquired limit for_lookup wakes (some (err reason)) =
    First (IsStuck limit for_lookup) (λ wake. IsOver wake.0) wakes
IsAcquired limit for_lookup wakes (some (ok count)) =
    First (IsStuck limit for_lookup)
      (λ wake. (¬ IsOver wake.0) × HasRoom limit for_lookup wake.1 × (count ≡ wake.1 + 1)) wakes

HasRoom-of :
    (limit : ℕ) (for_lookup : Bool) (active : ℕ)
    → active < admitted_limit limit for_lookup
    → HasRoom limit for_lookup active
unfolding admitted_limit
HasRoom-of limit true active h = inr (h, inl refl)
HasRoom-of limit false active h = elim (Bool-cases (limit == 1)) [
  | inl one ↦ let h' : active < limit = rw one at h in inr (h', inr (ground (arith, one)))
  | inr more ↦ let h' : active < limit - 1 = rw more at h in inl (omega (arith, h'))
]

not-HasRoom :
    (limit : ℕ) (for_lookup : Bool) (active : ℕ)
    → admitted_limit limit for_lookup ≤ active
    → ¬ HasRoom limit for_lookup active
unfolding admitted_limit
not-HasRoom limit true active h k = ground (arith, h, k)
not-HasRoom limit false active h k = ground (arith, h, k)

-- How the request stands at a moment.
abbrev Standing : Moment → Type 0
Standing m =
    ((o : Option ℕ) × (request_remaining m ≡ ok o) × (¬ IsOver m))
    ⊎ ((reason : String) × (request_remaining m ≡ err reason) × IsOver m)

Standing-of :
    (cancelled : Bool) (deadline : Option ℕ) (now : ℕ)
    → Standing (record { cancelled = cancelled; deadline = deadline; now = now })
unfolding request_remaining
Standing-of true deadline now = inr ("service request cancelled", refl, inl refl)
Standing-of false none now = inl (none, refl, λ h. ground (arith, h))
Standing-of false (some d) now = elim (Bool-cases (ltb now d)) [
  | inl more ↦ inl (some (d - now), rw more refl, λ h. ground (arith, h, more))
  | inr over ↦
      inr ("service request deadline expired", rw over refl, inr (d, refl, ground (arith, over)))
]

standing : (m : Moment) → Standing m
standing m = Standing-of m.cancelled m.deadline m.now

on_waiting :
    (limit : ℕ) (for_lookup : Bool) (m : Moment) (active : ℕ) (wakes : List (Moment × ℕ))
    (answer : Option (Result ℕ))
    → IsStuck limit for_lookup (m, active)
    → IsAcquired limit for_lookup wakes answer
    → IsAcquired limit for_lookup ((m, active) ∷ wakes) answer
on_waiting limit for_lookup m active wakes none on h = (on, h)
on_waiting limit for_lookup m active wakes (some (err reason)) on h = inr (on, h)
on_waiting limit for_lookup m active wakes (some (ok count)) on h = inr (on, h)

-- A wait for a permit ends in the first turn in which there is room or the request is over, and in
-- no later one: where it goes on, there was no room and the request was not over at any turn; with
-- an error, the request is over at a turn and every turn before had no room and a request that was
-- not over; a permit is given at a turn that has room when the request is not over, as the next of
-- the count, after turns that had no room and a request that was not over. There is room for one
-- that is not the last below the limit, and for the last one when it is for looking up an identity
-- or the limit is one.
pub acquire-IsAcquired :
    (limit : ℕ) (for_lookup : Bool) (wakes : List (Moment × ℕ))
    → IsAcquired limit for_lookup wakes (acquire limit for_lookup wakes)
unfolding acquire acquire_turn check_request_deadline
acquire-IsAcquired limit for_lookup [] = tt
acquire-IsAcquired limit for_lookup ((m, active) ∷ wakes) =
    elim (Bool-cases (leb (admitted_limit limit for_lookup) active)) [
      | inl full ↦ elim (standing m) [
        | inl (o, e, on) ↦
            rw (full, e)
              (on_waiting limit for_lookup m active wakes _
                (on, not-HasRoom limit for_lookup active (ground (arith, full)))
                (acquire-IsAcquired limit for_lookup wakes))
        | inr (reason, e, over) ↦ rw (full, e) (inl over)
      ]
      | inr free ↦ elim (standing m) [
        | inl (o, e, on) ↦
            rw (free, e) (inl (on, HasRoom-of limit for_lookup active (ground (arith, free)), refl))
        | inr (reason, e, over) ↦ rw (free, e) (inl over)
      ]
    ]
