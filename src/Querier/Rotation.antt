-- ===== src/Querier/Rotation.antt =====
-- util/querier/querier.go: `executeWithEndpointRotation`.
-- The environment of one call is a record over the number of requests made so far: the answer to
-- the request, the backoff delay for a count of retries (jitter makes it random), the context at
-- each of the three polls of a round, and the clock.
mod Slots
pub mod Order
use rollytics.Prelude.{
  ℕ, zero, suc, ◌+◌, ◌%◌, Bool, List, [], ◌∷◌, ◌++◌, Option, none, some, leb, ltb, ◌==◌,
  if◌then◌else◌, length, get_elem?,
}
use rollytics.Querier.Health.{
  Tracker, find_healthy_endpoint, record_endpoint_success, record_endpoint_failure,
}

abbrev pub max_retries_per_url : ℕ
max_retries_per_url = 5

-- 5 * time.Minute
abbrev pub max_total_delay : ℕ
max_total_delay = 300_000_000_000

pub data Reply (R Err : Type 0) : Type 0 where
  response : R → Reply R Err
  failed : Err → Reply R Err

-- The three places where the loop looks at the context: at the top, in the wait before a rotation
-- and in the wait after a failure.
pub data Poll : Type 0 where
  at_top before_rotation after_failure : Poll

pub record Env (E R Err : Type 0) : Type 0 where
  pub request : ℕ → E → Reply R Err
  pub delay : ℕ → ℕ → ℕ
  pub cancelled : Poll → ℕ → Bool
  pub now : ℕ → ℕ

pub data Outcome (R Err : Type 0) : Type 0 where
  ok : R → Outcome R Err
  no_endpoints : Outcome R Err
  context_done : Outcome R Err
  exhausted : Option Err → Outcome R Err
  delay_exceeded : Err → Outcome R Err
  index_panic : Outcome R Err
  out_of_fuel : Outcome R Err

-- The variables of the loop. `requests` is the record of the calls made, oldest first.
pub record Loop (E Err : Type 0) (dec : Discrete E) : Type 0 where
  pub current : ℕ
  pub retries : ℕ
  pub total_retries : ℕ
  pub total_delay : ℕ
  pub last_err : Option Err
  pub tracker : Tracker dec
  pub requests : List ℕ

pub data Step (E R Err : Type 0) (dec : Discrete E) : Type 0 where
  done : Outcome R Err → Loop E Err dec → Step E R Err dec
  again : Loop E Err dec → Step E R Err dec

module _ {E R Err : Type 0} (dec : Discrete E) (env : Env E R Err) (endpoints : List E) where
  open env use {request, delay, cancelled, now}

  -- From the request on to the wait after a failure. An index out of range is a panic.
  attempt : Loop E Err dec → Step E R Err dec
  attempt s = elim (get_elem? endpoints s.current) [
    | none ↦ done index_panic s
    | some endpoint ↦ elim (request s.total_retries endpoint) [
      | response r ↦ done (ok r) (record s {
        tracker = record_endpoint_success dec endpoint s.tracker;
        requests = s.requests ++ s.current ∷ [];
      })
      | failed e ↦
          let t = record s {
            retries = s.retries + 1;
            total_retries = s.total_retries + 1;
            last_err = some e;
            tracker = record_endpoint_failure dec (now s.total_retries) endpoint s.tracker;
            requests = s.requests ++ s.current ∷ [];
          } in
          if ltb max_total_delay s.total_delay
          then done (delay_exceeded e) t
          else if cancelled after_failure s.total_retries
          then done context_done t
          else again t
    ]
  ]

  -- The branch `retriesPerEndpoint >= maxRetriesPerURL`, and the request on the next endpoint.
  rotate : ℕ → Loop E Err dec → Step E R Err dec
  rotate start s =
      let t = record s { total_delay = s.total_delay + delay s.total_retries s.retries } in
      if cancelled before_rotation s.total_retries
      then done context_done t
      else (let u = record t { current = (s.current + 1) % length endpoints; retries = 0 } in
          if u.current == start then done (exhausted s.last_err) u else attempt u)

  -- One round of the loop: the test of the context, the rotation, the request.
  unfoldable pub step : ℕ → Loop E Err dec → Step E R Err dec
  unfolding attempt rotate
  step start s =
      if cancelled at_top s.total_retries
      then done context_done s
      else if leb max_retries_per_url s.retries
      then rotate start s
      else attempt s

  unfoldable pub loop : ℕ → ℕ → Loop E Err dec → Outcome R Err × Loop E Err dec
  loop zero start s = (out_of_fuel, s)
  loop (suc fuel) start s = elim (step start s) [ done r t ↦ (r, t) | again t ↦ loop fuel start t ]

  -- The initial values, from the scan for a healthy endpoint.
  abbrev pub init : ℕ → Tracker dec → Loop E Err dec
  init start t = record {
    current = start;
    retries = 0;
    total_retries = 0;
    total_delay = 0;
    last_err = none;
    tracker = t;
    requests = [];
  }

  unfoldable pub execute_with_endpoint_rotation : ℕ → Tracker dec → Outcome R Err × Loop E Err dec
  execute_with_endpoint_rotation fuel t =
      let (start, t') = find_healthy_endpoint dec (now 0) endpoints t in
      if length endpoints == 0 then (no_endpoints, init 0 t) else loop fuel start (init start t')
