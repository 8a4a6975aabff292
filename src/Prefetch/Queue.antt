-- ===== src/Prefetch/Queue.antt =====
-- The set of known keys is what waits for a turn or holds one, each once.
use zmem_cache.Common.{
  ◌++◌, false, length, [], some, ltb, text_eq_iff, if◌then◌else◌, refl, if◌then◌else◌, ◌↔◌, keep, ℕ,
  Bool, Bool-cases, ◌+◌, List, ◌&&◌, arith, ◌≤◌, inr, ◌≡◌, if◌then◌else◌, ◌∷◌, not, true, inl,
  length-keep-le, ap, ◌∙◌,
}
use zmem_cache.Prefetch.{
  known_limit, next_turn, forget, finish_turn, is_known, prefetch_key_eq, admit_turn, PrefetchQueue,
  PrefetchKey,
}

pub prefetch_key_eq_iff : (a b : PrefetchKey) → (prefetch_key_eq a b ≡ true) ↔ (a ≡ b)
unfolding prefetch_key_eq
prefetch_key_eq_iff a b = ground (arith, text_eq_iff a.path b.path, text_eq_iff a.head b.head)

-- The number of times that a key stands in a list.
abbrev pub times : PrefetchKey → List PrefetchKey → ℕ
times key xs = length (keep (prefetch_key_eq key) xs)

-- The keys that wait, and those that workers hold, are known, each once, and at most thirty-two.
pub record IsFair (q : PrefetchQueue) (held : List PrefetchKey) : Type 0 where
  pub counted : (k : PrefetchKey) → times k q.known ≡ times k q.ready_turns + times k held
  pub once : (k : PrefetchKey) → times k q.known ≤ 1
  pub bounded : length q.known ≤ known_limit

times-append :
    (k : PrefetchKey) (xs ys : List PrefetchKey) → times k (xs ++ ys) ≡ times k xs + times k ys
times-append k [] ys = omega arith
times-append k (x ∷ xs) ys = ground (arith, times-append k xs ys)

times_unknown : (k : PrefetchKey) (xs : List PrefetchKey) → is_known k xs ≡ false → times k xs ≡ 0
times_unknown k [] h = refl
times_unknown k (x ∷ xs) h = ground (arith, times_unknown k xs)

once_more :
    (k key : PrefetchKey) (known : List PrefetchKey)
    → times k known ≤ 1
    → times key known ≡ 0
    → times k (key ∷ known) ≤ 1
once_more k key known h new = elim (Bool-cases (prefetch_key_eq k key)) [
  | inl e ↦
      let same : k ≡ key = (prefetch_key_eq_iff k key).0 e in
      let none_yet : times k known ≡ 0 = ap (λ x. times x known) same ∙ new in
      ground (arith, e, none_yet)
  | inr e ↦ ground (arith, e, h)
]

-- Admission keeps the queue fair: the known keys are those that wait or have a turn, each once and
-- at most thirty-two.
pub admit_turn-IsFair :
    (key : PrefetchKey) (q : PrefetchQueue) (held : List PrefetchKey)
    → IsFair q held
    → IsFair (admit_turn key q) held
unfolding admit_turn
admit_turn-IsFair key q held f =
    elim (Bool-cases (ltb (length q.known) known_limit && not (is_known key q.known))) [
      | inl e ↦
          let new : times key q.known ≡ 0 = times_unknown key q.known (ground (arith, e)) in
          rw e (record {
            counted = λ k. ground (arith, f.counted k, times-append k q.ready_turns (key ∷ []));
            once = λ k. once_more k key q.known (f.once k) new;
            bounded = ground (arith, e);
          })
      | inr e ↦ rw e f
    ]

-- The first waiting key gets its turn, and the queue stays fair with the key held.
next_turn-IsFair :
    (key : PrefetchKey) (rest : List PrefetchKey) (q : PrefetchQueue) (held : List PrefetchKey)
    → q.ready_turns ≡ key ∷ rest
    → IsFair q held
    → ((next_turn q).0 ≡ some key) × IsFair (next_turn q).1 (key ∷ held)
unfolding next_turn
next_turn-IsFair key rest q held e f =
    let moved : (k : PrefetchKey) → times k q.known ≡ times k rest + times k (key ∷ held) =
      λ k. ground (arith, f.counted k, ap (times k) e) in
    rw e (refl, record { counted = moved; once = f.once; bounded = f.bounded })

times-forget :
    (key k : PrefetchKey) (xs : List PrefetchKey)
    → times k (forget key xs) ≡ (if prefetch_key_eq k key then 0 else times k xs)
times-forget key k [] = ground arith
times-forget key k (x ∷ xs) = ground (
  arith,
  times-forget key k xs,
  prefetch_key_eq_iff key x,
  prefetch_key_eq_iff k x,
  prefetch_key_eq_iff k key,
)

-- The end of a turn keeps the queue fair: the key waits again, or it is forgotten.
finish_turn-IsFair :
    (key : PrefetchKey) (more : Bool) (q : PrefetchQueue) (held : List PrefetchKey)
    → IsFair q (key ∷ held)
    → IsFair (finish_turn key more q) held
unfolding finish_turn
finish_turn-IsFair key true q held f = record {
  counted = λ k. ground (arith, f.counted k, times-append k q.ready_turns (key ∷ []));
  once = f.once;
  bounded = f.bounded;
}
finish_turn-IsFair key false q held f = record {
  counted = λ k. ground (arith, f.counted k, f.once k, times-forget key k q.known);
  once = λ k. ground (arith, f.once k, times-forget key k q.known);
  bounded = omega (arith, f.bounded, length-keep-le (λ k. not (prefetch_key_eq key k)) q.known);
}
