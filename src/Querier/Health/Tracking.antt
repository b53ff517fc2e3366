-- ===== src/Querier/Health/Tracking.antt =====
-- util/querier/health.go: what the tracker holds for an endpoint after each operation.
use mathlib.Core.Logic.{ite}
use rollytics.Prelude.{ℕ, ◌+◌, ◌%◌, ◌^◌, ◌≡◌, refl, [], ◌∷◌, Option, none, some, arith}
use rollytics.Querier.Health.{
  HealthState, zero_state, load, increment, Tracker, find, store, get_endpoint_health,
  record_endpoint_success, record_endpoint_failure, is_endpoint_healthy,
}

module _ {E : Type 0} (dec : Discrete E) where
  -- What `load` of the endpoint's entry gives.
  unfoldable pub state_of : E → Tracker dec → HealthState
  unfolding find load
  state_of e t = elim (find dec e t) [ none ↦ zero_state | some h ↦ load h ]

  pub state_of-nil : (e : E) → state_of e [] ≡ zero_state
  unfolding state_of
  state_of-nil e = refl

  find-store :
      (e k : E) (h : Option HealthState) (t : Tracker dec)
      → find dec k (store dec e h t) ≡ ite (dec e k) (some h) (find dec k t)
  unfolding find store
  find-store e k h [] = refl
  find-store e k h ((j, g) ∷ t) = ground (arith, find-store e k h t)

  pub state_of-store :
      (e k : E) (h : Option HealthState) (t : Tracker dec)
      → state_of k (store dec e h t) ≡ ite (dec e k) (load h) (state_of k t)
  unfolding state_of
  state_of-store e k h t = ground (arith, find-store e k h t)

  -- Looking an endpoint up may add an empty entry, and changes what no endpoint reads.
  pub state_of-get :
      (e k : E) (t : Tracker dec) → state_of k (get_endpoint_health dec e t).1 ≡ state_of k t
  unfolding state_of get_endpoint_health
  state_of-get e k t = ground (arith, find-store e k none t)

  pub get-state_of : (e : E) (t : Tracker dec) → load (get_endpoint_health dec e t).0 ≡ state_of e t
  unfolding state_of get_endpoint_health
  get-state_of e t = ground arith

  pub state_of-success :
      (e k : E) (t : Tracker dec)
      → state_of k (record_endpoint_success dec e t) ≡ ite (dec e k) zero_state (state_of k t)
  unfolding record_endpoint_success load
  state_of-success e k t = ground (
    arith,
    state_of-store e k (some zero_state) (get_endpoint_health dec e t).1,
    state_of-get e k t,
  )

  pub state_of-failure :
      (now : ℕ) (e k : E) (t : Tracker dec)
      → state_of k (record_endpoint_failure dec now e t)
        ≡ ite
            (dec e k)
            (record {
              failures = ((state_of e t).failures + 1) % 2 ^ 32;
              last_failure_at = some now;
            })
            (state_of k t)
  unfolding record_endpoint_failure load
  state_of-failure now e k t = ground (
    arith,
    state_of-store e k (increment now (get_endpoint_health dec e t).0)
        (get_endpoint_health dec e t).1,
    state_of-get e k t,
    get-state_of e t,
  )

  pub state_of-is_healthy :
      (now : ℕ) (e k : E) (t : Tracker dec)
      → state_of k (is_endpoint_healthy dec now e t).1 ≡ state_of k t
  unfolding is_endpoint_healthy
  state_of-is_healthy now e k t = state_of-get e k t
