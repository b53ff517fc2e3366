-- ===== src/Querier/Health/Breaker.antt =====
-- util/querier/health.go: the circuit breaker against the history of an endpoint's requests.
use mathlib.Core.Logic.{ite}
use rollytics.Prelude.{
  ℕ, suc, ◌+◌, ◌%◌, ◌^◌, ◌≤◌, ◌<◌, ◌≡◌, ◌↔◌, ◌⊎◌, inl, inr, refl, ap, sym, ◌∙◌, Bool, true, false,
  List, [], ◌∷◌, Option, none, some, arith, All, take, get_elem?, Bool-cases,
}
use rollytics.Querier.Health.{
  HealthState, recovery_timeout, failure_threshold, load, is_healthy_state, Tracker,
  get_endpoint_health, record_endpoint_success, record_endpoint_failure, is_endpoint_healthy,
  find_healthy_from, find_healthy_endpoint,
}
use rollytics.Querier.Health.Tracking.{
  state_of, state_of-nil, get-state_of, state_of-success, state_of-failure, state_of-is_healthy,
}

-- The end of one request: a failure has the time at which it was recorded.
pub data Outcome : Type 0 where
  success : Outcome
  failure : ℕ → Outcome

-- A history has the newest outcome first: the failures since the last success, and the time of
-- the last one.
unfoldable pub streak : List Outcome → ℕ
streak [] = 0
streak (success ∷ h) = 0
streak (failure t ∷ h) = suc (streak h)

unfoldable pub last_failure : List Outcome → Option ℕ
last_failure [] = none
last_failure (success ∷ h) = none
last_failure (failure t ∷ h) = some t

-- The breaker is open at `now`: three failures in a row, the last of them less than the recovery
-- timeout ago.
abbrev pub IsTripped : ℕ → List Outcome → Type 0
IsTripped now h =
    (failure_threshold ≤ streak h)
    × ((t : ℕ) × (last_failure h ≡ some t) × (now < t + recovery_timeout))

abbrev state_after : List Outcome → HealthState
state_after h = record { failures = streak h % 2 ^ 32; last_failure_at = last_failure h }

tripped_unhealthy :
    (now t u : ℕ) (h : List Outcome)
    → suc (streak h) < 2 ^ 31
    → failure_threshold ≤ suc (streak h)
    → some t ≡ some u
    → now < u + recovery_timeout
    → is_healthy_state now (state_after (failure t ∷ h)) ≡ false
unfolding is_healthy_state streak last_failure
tripped_unhealthy now t u h bound many e early = ground arith

IsTripped-iff :
    (now : ℕ) (h : List Outcome)
    → streak h < 2 ^ 31
    → (is_healthy_state now (state_after h) ≡ false) ↔ IsTripped now h
unfolding is_healthy_state streak last_failure
IsTripped-iff now [] bound = ground arith
IsTripped-iff now (success ∷ h) bound = ground arith
IsTripped-iff now (failure t ∷ h) bound = (
  λ e. (ground arith, (t, refl, ground arith)),
  λ p. tripped_unhealthy now t p.1.0 h bound p.0 p.1.1 p.1.2,
)

module _ {E : Type 0} (dec : Discrete E) where
  -- One recorded outcome, and the tracker after a whole history of them.
  unfoldable pub record_outcome : E × Outcome → Tracker dec → Tracker dec
  record_outcome (e, success) t = record_endpoint_success dec e t
  record_outcome (e, failure now) t = record_endpoint_failure dec now e t

  unfoldable pub run : List (E × Outcome) → Tracker dec
  run [] = []
  run (o ∷ h) = record_outcome o (run h)

  unfoldable pub outcomes_of : E → List (E × Outcome) → List Outcome
  outcomes_of e [] = []
  outcomes_of e ((k, o) ∷ h) = ite (dec k e) (o ∷ outcomes_of e h) (outcomes_of e h)

  state_of-run :
      (e : E) (h : List (E × Outcome)) → state_of dec e (run h) ≡ state_after (outcomes_of e h)
  unfolding run outcomes_of record_outcome streak last_failure
  state_of-run e [] = state_of-nil dec e
  state_of-run e ((k, success) ∷ h) =
      ground (arith, state_of-success dec k e (run h), state_of-run e h)
  state_of-run e ((k, failure now) ∷ h) =
      ground (arith, state_of-failure dec now k e (run h), state_of-run e h)

  -- After any history of recorded outcomes, an endpoint is refused exactly when its own last
  -- failures are three or more in a row and the last of them is less than the recovery timeout
  -- ago. The failures in a row are fewer than 2 ^ 31, where the int32 counter wraps.
  pub is_endpoint_healthy-run :
      (now : ℕ) (e : E) (h : List (E × Outcome))
      → streak (outcomes_of e h) < 2 ^ 31
      → ((is_endpoint_healthy dec now e (run h)).0 ≡ false) ↔ IsTripped now (outcomes_of e h)
  unfolding is_endpoint_healthy
  is_endpoint_healthy-run now e h bound =
      rw (get-state_of dec e (run h), state_of-run e h) (IsTripped-iff now (outcomes_of e h) bound)

  -- What the scan of `findHealthyEndpoint` has found, from the index `i` on, when `healthy` tells
  -- which endpoints are: the first healthy one, or 0 if there is none.
  abbrev pub IsFirst : (E → Bool) → ℕ → List E → ℕ → Type 0
  IsFirst healthy i es r =
      (All (λ e. healthy e ≡ false) es × (r ≡ 0))
      ⊎ ((j : ℕ) × (r ≡ i + j)
          × All (λ e. healthy e ≡ false) (take j es)
          × ((e : E) × (get_elem? es j ≡ some e) × (healthy e ≡ true)))

  find_healthy_from-IsFirst :
      (now : ℕ) (healthy : E → Bool) (i : ℕ) (es : List E) (t : Tracker dec)
      → ((e : E) → healthy e ≡ is_healthy_state now (state_of dec e t))
      → IsFirst healthy i es (find_healthy_from dec now i es t).0
  unfolding find_healthy_from
  find_healthy_from-IsFirst now healthy i [] t same = inl (tt, refl)
  find_healthy_from-IsFirst now healthy i (e ∷ es) t same =
      let test : is_healthy_state now (load (get_endpoint_health dec e t).0) ≡ healthy e =
        ap (is_healthy_state now) (get-state_of dec e t) ∙ sym (same e) in
      elim (Bool-cases (healthy e)) [
        | inl found ↦ rw (test ∙ found) (inr (0, omega arith, tt, (e, refl, found)))
        | inr skipped ↦
            rw (test ∙ skipped)
              (elim (find_healthy_from-IsFirst now healthy (i + 1) es
                (is_endpoint_healthy dec now e t).1
                (λ k.
                  same k ∙ sym (ap (is_healthy_state now) (state_of-is_healthy dec now e k t)))) [
                    | inl (none_left, z) ↦ inl ((skipped, none_left), z)
                    | inr (j, at, before, found) ↦
                        inr (suc j, omega arith, (skipped, before), found)
                  ])
      ]

  -- `findHealthyEndpoint` returns the index of the first endpoint that the breaker lets through,
  -- and 0 if it lets none through.
  pub find_healthy_endpoint-IsFirst :
      (now : ℕ) (es : List E) (t : Tracker dec)
      → IsFirst
          (λ e. (is_endpoint_healthy dec now e t).0)
          0
          es
          (find_healthy_endpoint dec now es t).0
  unfolding find_healthy_endpoint is_endpoint_healthy
  find_healthy_endpoint-IsFirst now es t =
      find_healthy_from-IsFirst now _ 0 es t (λ e. ap (is_healthy_state now) (get-state_of dec e t))
