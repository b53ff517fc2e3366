-- ===== src/Querier/Health.antt =====
-- util/querier/health.go: the circuit breaker over endpoints.
-- The tracker is the global map `healthTracker`; an entry is `none` while nothing has been stored
-- in its atomic value. `failures` is the int32 as its bit pattern, below 2 ^ 32. Times are
-- nanoseconds, `none` is the zero `time.Time`, and `now` is the reading of the clock.
pub mod Tracking
pub mod Breaker
use mathlib.Core.Logic.{ite}
use rollytics.Prelude.{
  ℕ, ◌+◌, ◌-◌, ◌%◌, ◌^◌, Bool, true, false, ◌||◌, List, [], ◌∷◌, Option, none, some, leb, ltb,
  if◌then◌else◌,
}

abbrev pub failure_threshold : ℕ
failure_threshold = 3

-- 5 * time.Minute
abbrev pub recovery_timeout : ℕ
recovery_timeout = 300_000_000_000

pub record HealthState : Type 0 where
  pub failures : ℕ
  pub last_failure_at : Option ℕ

abbrev pub zero_state : HealthState
zero_state = record { failures = 0; last_failure_at = none }

-- `load`
unfoldable pub load : Option HealthState → HealthState
load none = zero_state
load (some s) = s

-- `failures < failureThreshold` on the signed reading of the bit pattern
unfoldable pub below_threshold : ℕ → Bool
below_threshold failures = leb (2 ^ 31) failures || ltb failures failure_threshold

-- `increment`, at the time `now`
unfoldable pub increment : ℕ → Option HealthState → Option HealthState
unfolding load
increment now h =
    some (record { failures = ((load h).failures + 1) % 2 ^ 32; last_failure_at = some now })

-- The test of `isEndpointHealthy`, on the loaded state.
unfoldable pub is_healthy_state : ℕ → HealthState → Bool
unfolding below_threshold
is_healthy_state now s =
    if below_threshold s.failures
    then true
    else elim s.last_failure_at [ none ↦ false | some t ↦ leb recovery_timeout (now - t) ]

module _ {E : Type 0} (dec : Discrete E) where
  abbrev pub Tracker : Type 0
  Tracker = List (E × Option HealthState)

  unfoldable pub find : E → Tracker → Option (Option HealthState)
  find e [] = none
  find e ((k, h) ∷ t) = ite (dec k e) (some h) (find e t)

  unfoldable pub store : E → Option HealthState → Tracker → Tracker
  store e h [] = (e, h) ∷ []
  store e h ((k, g) ∷ t) = ite (dec k e) ((k, h) ∷ t) ((k, g) ∷ store e h t)

  -- `getEndpointHealth`: the entry of the endpoint, made if it is missing
  unfoldable pub get_endpoint_health : E → Tracker → Option HealthState × Tracker
  unfolding find store
  get_endpoint_health e t = elim (find e t) [ some h ↦ (h, t) | none ↦ (none, store e none t) ]

  unfoldable pub record_endpoint_success : E → Tracker → Tracker
  unfolding get_endpoint_health
  record_endpoint_success e t = store e (some zero_state) (get_endpoint_health e t).1

  unfoldable pub record_endpoint_failure : ℕ → E → Tracker → Tracker
  unfolding get_endpoint_health increment
  record_endpoint_failure now e t =
      let (h, t') = get_endpoint_health e t in store e (increment now h) t'

  unfoldable pub is_endpoint_healthy : ℕ → E → Tracker → Bool × Tracker
  unfolding get_endpoint_health is_healthy_state load
  is_endpoint_healthy now e t =
      let (h, t') = get_endpoint_health e t in (is_healthy_state now (load h), t')

  -- The loop of `findHealthyEndpoint`; `i` is the index of the head of the list.
  unfoldable pub find_healthy_from : ℕ → ℕ → List E → Tracker → ℕ × Tracker
  unfolding is_endpoint_healthy
  find_healthy_from now i [] t = (0, t)
  find_healthy_from now i (e ∷ es) t =
      let (healthy, t') = is_endpoint_healthy now e t in
      let rest = find_healthy_from now (i + 1) es t' in if healthy then (i, t') else rest

  unfoldable pub find_healthy_endpoint : ℕ → List E → Tracker → ℕ × Tracker
  unfolding find_healthy_from
  find_healthy_endpoint now es t = find_healthy_from now 0 es t
