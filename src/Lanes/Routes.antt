-- ===== src/Lanes/Routes.antt =====
-- The lane of a request, and how its connection ends.
use Prim.Native.String.{String}
use zmem_cache.Lanes.{
  handled, busy, failed_with, queued_with, at_once, to_queue, Route, after_history,
  shares_real_history, Ending, send_item, ServiceRequest, route_of, Lane, finish,
}
use zmem_cache.Common.{
  refl, ℕ, err, ◌≢◌, inr, none, true, ok, Bool-cases, false, Option, codes, Any, has_text, ◌∷◌,
  Result, text_eq_sound, text_eq, Bool, [], arith, Text, ◌≡◌, inl,
}
use zmem_cache.Lanes.Framed.{IsRouted, WaitsForHistory}

abbrev pub RouteIs : Text → ServiceRequest → Route → Type 0
RouteIs token r at_once = Unit
RouteIs token r (to_queue guard message) = IsRouted token r guard

control_command :
    (command : Text)
    → has_text command (codes "ping" ∷ codes "stop" ∷ codes "job-status" ∷ codes "job-retry" ∷ [])
      ≡ true
    → Any
        (λ c. command ≡ c)
        (codes "ping" ∷ codes "stop" ∷ codes "job-status" ∷ codes "job-retry" ∷ [])
unfolding has_text
control_command command h = elim (Bool-cases (text_eq command (codes "ping"))) [
  | inl e ↦ inl (text_eq_sound command _ e)
  | inr e ↦ elim (Bool-cases (text_eq command (codes "stop"))) [
    | inl f ↦ inr (inl (text_eq_sound command _ f))
    | inr f ↦ elim (Bool-cases (text_eq command (codes "job-status"))) [
      | inl g ↦ inr (inr (inl (text_eq_sound command _ g)))
      | inr g ↦ elim (Bool-cases (text_eq command (codes "job-retry"))) [
        | inl k ↦ inr (inr (inr (inl (text_eq_sound command _ k))))
        | inr k ↦ absurd (ground (arith, h, e, f, g, k))
      ]
    ]
  ]
]

pub route_of-IsRouted : (token : Text) (r : ServiceRequest) → RouteIs token r (route_of token r)
unfolding route_of
route_of-IsRouted token r = elim (Bool-cases (text_eq r.token token)) [
  | inr other ↦ rw other tt
  | inl same ↦
      let t : r.token ≡ token = text_eq_sound r.token token same in
      elim (Bool-cases (text_eq r.command (codes "query"))) [
        | inl q ↦ rw (same, q) (t, text_eq_sound r.command _ q)
        | inr q ↦ elim (Bool-cases (text_eq r.command (codes "add"))) [
          | inl a ↦ rw (same, q, a) (t, inl (text_eq_sound r.command _ a))
          | inr a ↦ elim (Bool-cases (text_eq r.command (codes "check"))) [
            | inl c ↦ rw (same, q, a, c) (t, inr (text_eq_sound r.command _ c))
            | inr c ↦
                elim (Bool-cases (
                  has_text r.command
                    (codes "ping" ∷ codes "stop" ∷ codes "job-status" ∷ codes "job-retry" ∷ []))) [
                      | inl k ↦ rw (same, q, a, c, k) (t, control_command r.command k)
                      | inr k ↦ rw (same, q, a, c, k) tt
                    ]
          ]
        ]
      ]
]

shares-WaitsForHistory : (r : ServiceRequest) → shares_real_history r ≡ true → WaitsForHistory r
unfolding shares_real_history
shares-WaitsForHistory r h = elim (Bool-cases (text_eq r.command (codes "add"))) [
  | inl a ↦ inl (text_eq_sound r.command _ a)
  | inr a ↦ inr (
    text_eq_sound r.command (codes "check") (ground (arith, h, a)),
    ground (arith, h, a),
    ground (arith, h, a),
    ground (arith, h, a),
  )
]

-- An item has the guard of its connection, and a shared count only when it waits for one.
abbrev pub EndsAs : Option Lane → ServiceRequest → Ending → Type 0
EndsAs guard r (queued_with given shared) = (given ≡ guard) × (shared ≢ none → WaitsForHistory r)
EndsAs guard r handled = Unit
EndsAs guard r (busy message) = Unit
EndsAs guard r (failed_with reason) = Unit

send_item-EndsAs :
    (guard : Option Lane) (message : String) (r : ServiceRequest) (accepts : Bool)
    (shared : Option ℕ)
    → (shared ≢ none → WaitsForHistory r)
    → EndsAs guard r (send_item guard message accepts shared)
send_item-EndsAs guard message r true shared h = (refl, h)
send_item-EndsAs guard message r false shared h = tt

after_history-EndsAs :
    (guard : Option Lane) (message : String) (r : ServiceRequest) (accepts : Bool)
    (history : Result (Option ℕ))
    → WaitsForHistory r
    → EndsAs guard r (after_history guard message accepts history)
after_history-EndsAs guard message r accepts (err reason) h = tt
after_history-EndsAs guard message r accepts (ok shared) h =
    send_item-EndsAs guard message r accepts shared (λ k. h)

pub finish-EndsAs :
    (guard : Option Lane) (message : String) (r : ServiceRequest) (history : Result (Option ℕ))
    (accepts : Bool)
    → EndsAs guard r (finish guard message r history accepts)
unfolding finish
finish-EndsAs guard message r history accepts = elim (Bool-cases (shares_real_history r)) [
  | inl e ↦ rw e (after_history-EndsAs guard message r accepts history (shares-WaitsForHistory r e))
  | inr e ↦ rw e (send_item-EndsAs guard message r accepts none (λ k. absurd (k refl)))
]
