-- ===== src/Querier/Rotation/Order.antt =====
-- util/querier/querier.go: in which order `executeWithEndpointRotation` makes its requests, and
-- when it returns.
use native.Mathlib.Nat.{mod-lt, mod-eq_of_lt}
use rollytics.Prelude.{
  ℕ, zero, suc, ◌+◌, ◌*◌, ◌/◌, ◌%◌, ◌≤◌, ◌<◌, ◌≡◌, ◌≢◌, refl, sym, ap, ◌∙◌, inl, inr, false, List,
  [], ◌∷◌, ◌++◌, map, some, arith, leb, ltb, ◌==◌, length, get_elem?, upto, map-upto-suc,
  get_elem?-lt, get_elem?-eq-some, Bool-cases, ==_iff, ℕ_discrete,
}
use rollytics.Querier.Health.{Tracker, find_healthy_endpoint}
use rollytics.Querier.Health.Breaker.{find_healthy_endpoint-IsFirst}
use rollytics.Querier.Rotation.Slots.{slot_next, slot_turn, slot_ahead}
use rollytics.Querier.Rotation.{
  max_total_delay, Reply, response, failed, at_top, before_rotation, after_failure, Env, Outcome,
  ok, context_done, exhausted, delay_exceeded, Loop, Step, done, again, attempt, rotate, step, loop,
  execute_with_endpoint_rotation,
}

-- The endpoint of request `k`, five requests to each endpoint in turn.
abbrev pub slot : ℕ → ℕ → ℕ → ℕ
slot start n k = (start + k / 5) % n

abbrev pub schedule : ℕ → ℕ → ℕ → List ℕ
schedule start n k = map (slot start n) (upto 0 k)

module _ {E R Err : Type 0} (dec : Discrete E) (env : Env E R Err) (endpoints : List E) where
  open env use {request}

  -- Request `k`, made to the endpoint of its slot, ended in the reply.
  abbrev pub Replies : ℕ → ℕ → Reply R Err → Type 0
  Replies start k r =
      (e : E) × (get_elem? endpoints (slot start (length endpoints) k) ≡ some e) × (request k e ≡ r)

  abbrev pub AllFailed : ℕ → ℕ → Type 0
  AllFailed start k = (j : ℕ) → j < k → (x : Err) × Replies start j (failed x)

  -- What a call that started at `start` has done when it returns, for each way to return.
  abbrev pub Ends : ℕ → Outcome R Err → List ℕ → Type 0
  Ends start (ok r) requests =
      (k : ℕ) × (k < 5 * length endpoints)
      × (requests ≡ schedule start (length endpoints) (suc k))
      × AllFailed start k
      × Replies start k (response r)
  Ends start (exhausted x) requests =
      (requests ≡ schedule start (length endpoints) (5 * length endpoints))
      × AllFailed start (5 * length endpoints)
  Ends start context_done requests =
      (k : ℕ) × (k ≤ 5 * length endpoints)
      × (requests ≡ schedule start (length endpoints) k)
      × AllFailed start k
  Ends start (delay_exceeded x) requests =
      (k : ℕ) × (k ≤ 5 * length endpoints)
      × (requests ≡ schedule start (length endpoints) k)
      × AllFailed start k
  Ends start _ requests = ⊥

  -- At the top of a round: `turns` endpoints are used up.
  record Inv (start turns : ℕ) (s : Loop E Err dec) : Type 0 where
    count : s.total_retries ≡ 5 * turns + s.retries
    few : s.retries ≤ 5
    left : turns < length endpoints
    here : s.current ≡ (start + turns) % length endpoints
    made : s.requests ≡ schedule start (length endpoints) s.total_retries
    failing : AllFailed start s.total_retries

  -- What a round may lead to, from `k` requests made.
  abbrev Advances : ℕ → ℕ → Step E R Err dec → Type 0
  Advances start k (done r t) = Ends start r t.requests
  Advances start k (again t) = (turns : ℕ) × Inv start turns t × (t.total_retries ≡ suc k)

  module _ (start turns : ℕ) (s : Loop E Err dec) (inv : Inv start turns s)
      (room : s.retries < 5) where
    slot-current : slot start (length endpoints) s.total_retries ≡ s.current
    slot-current = let q : s.total_retries / 5 ≡ turns = omega arith in rw q (sym inv.here)

    requests-next :
        s.requests ++ s.current ∷ [] ≡ schedule start (length endpoints) (suc s.total_retries)
    requests-next =
        rw (inv.made, map-upto-suc (slot start (length endpoints)) 0 s.total_retries)
          (ap (λ c. schedule start (length endpoints) s.total_retries ++ c ∷ [])
            (sym slot-current ∙ ap (slot start (length endpoints)) (omega arith)))

    AllFailed-next :
        (x : Err) → Replies start s.total_retries (failed x) → AllFailed start (suc s.total_retries)
    AllFailed-next x last j lt = elim (ℕ_discrete j s.total_retries) [
      | yes e ↦ (x, rw e last)
      | no other ↦ inv.failing j (omega arith)
    ]

    attempt_reply :
        (e : E) (r : Reply R Err)
        → get_elem? endpoints s.current ≡ some e
        → request s.total_retries e ≡ r
        → Advances start s.total_retries (attempt dec env endpoints s)
    unfolding attempt
    attempt_reply e (response r) at reply =
        rw (at, attempt)
          (rw (reply, attempt)
            (
              s.total_retries,
              grind arith,
              requests-next,
              inv.failing,
              (e, rw slot-current at, reply),
            ))
    attempt_reply e (failed x) at reply =
        let failing = AllFailed-next x (e, rw slot-current at, reply) in
        let most : suc s.total_retries ≤ 5 * length endpoints = grind arith in
        let e1 : s.total_retries + 1 ≡ suc s.total_retries = omega arith in
        rw (at, attempt)
          (rw (reply, attempt)
            (elim (Bool-cases (ltb max_total_delay s.total_delay)) [
              | inl long ↦ rw long (suc s.total_retries, most, requests-next, failing)
              | inr short ↦
                  rw short (elim (Bool-cases (env.cancelled after_failure s.total_retries)) [
                    | inl stop ↦ rw stop (suc s.total_retries, most, requests-next, failing)
                    | inr go ↦ rw go (
                      turns,
                      record {
                        count = omega arith;
                        few = omega arith;
                        left = inv.left;
                        here = inv.here;
                        made = rw e1 requests-next;
                        failing = rw e1 failing;
                      },
                      omega arith,
                    )
                  ])
            ]))

    attempt-Advances : Advances start s.total_retries (attempt dec env endpoints s)
    attempt-Advances =
        let (e, at) =
          get_elem?-lt endpoints s.current (rw inv.here (mod-lt (start + turns) (omega arith))) in
        attempt_reply e (request s.total_retries e) at refl

  -- The branch of a round whose endpoint is used up.
  rotation-Advances :
      (start turns : ℕ) (s : Loop E Err dec)
      → start < length endpoints
      → Inv start turns s
      → s.retries ≡ 5
      → Advances start s.total_retries (rotate dec env endpoints start s)
  unfolding rotate
  rotation-Advances start turns s h inv full =
      let next : (s.current + 1) % length endpoints ≡ (start + (turns + 1)) % length endpoints =
        rw inv.here (slot_next start (length endpoints) turns) in
      let most : s.total_retries ≤ 5 * length endpoints = grind arith in
      elim (Bool-cases (env.cancelled before_rotation s.total_retries)) [
        | inl stop ↦ rw stop (s.total_retries, most, inv.made, inv.failing)
        | inr go ↦ rw go (elim (Bool-cases ((s.current + 1) % length endpoints == start)) [
          | inl back ↦
              let turn : turns + 1 ≡ length endpoints =
                slot_turn start (length endpoints) turns h inv.left
                  (sym next ∙ (==_iff _ start).0 back) in
              let all : s.total_retries ≡ 5 * length endpoints = omega arith in
              rw back (rw (← all) inv.made, rw (← all) inv.failing)
          | inr onward ↦
              let onward_ne : (start + (turns + 1)) % length endpoints ≢ start =
                λ e. cc (onward, (==_iff _ start).1 (next ∙ e)) in
              rw onward (
                attempt-Advances start (turns + 1)
                  (record s {
                    current = (s.current + 1) % length endpoints;
                    retries = 0;
                    total_delay = s.total_delay + env.delay s.total_retries s.retries;
                  })
                  (record {
                    count = omega arith;
                    few = omega arith;
                    left = slot_ahead start (length endpoints) turns h inv.left onward_ne;
                    here = next;
                    made = inv.made;
                    failing = inv.failing;
                  })
                  (omega arith))
        ])
      ]

  step-Advances :
      (start turns : ℕ) (s : Loop E Err dec)
      → start < length endpoints
      → Inv start turns s
      → Advances start s.total_retries (step dec env endpoints start s)
  unfolding step
  step-Advances start turns s h inv =
      let most : s.total_retries ≤ 5 * length endpoints = grind arith in
      elim (Bool-cases (env.cancelled at_top s.total_retries)) [
        | inl stop ↦ rw stop (s.total_retries, most, inv.made, inv.failing)
        | inr go ↦ rw go (elim (Bool-cases (leb 5 s.retries)) [
          | inr room ↦ rw room (attempt-Advances start turns s inv (ground arith))
          | inl used_up ↦ rw used_up (rotation-Advances start turns s h inv (ground arith))
        ])
      ]

  loop-Ends :
      (fuel start turns : ℕ) (s : Loop E Err dec)
      → start < length endpoints
      → Inv start turns s
      → 5 * length endpoints < fuel + s.total_retries
      → let (r, t) = loop dec env endpoints fuel start s in Ends start r t.requests
  unfolding loop
  loop-Ends zero start turns s h inv enough = absurd (grind arith)
  loop-Ends (suc fuel) start turns s h inv enough =
      follow (step dec env endpoints start s) (step-Advances start turns s h inv)
        (λ turns' t inv' more. loop-Ends fuel start turns' t h inv' (omega arith))
    where
      follow :
          (m : Step E R Err dec)
          → Advances start s.total_retries m
          → ((turns' : ℕ) (t : Loop E Err dec)
              → Inv start turns' t
              → t.total_retries ≡ suc s.total_retries
              → let (r, u) = loop dec env endpoints fuel start t in Ends start r u.requests)
          → let (r, t) = elim m as (λ _. Outcome R Err × Loop E Err dec) [
            | done r t ↦ (r, t)
            | again t ↦ loop dec env endpoints fuel start t
          ] in
            Ends start r t.requests
      follow (done r t) ends rest = ends
      follow (again t) (turns', inv', more) rest = rest turns' t inv' more

  start-lt :
      (now : ℕ) (t : Tracker dec)
      → 0 < length endpoints
      → (find_healthy_endpoint dec now endpoints t).0 < length endpoints
  start-lt now t some_endpoint = elim (find_healthy_endpoint-IsFirst dec now endpoints t) [
    | inl (_, z) ↦ omega arith
    | inr (j, at, _, (e, found, _)) ↦ omega (arith, get_elem?-eq-some endpoints j e found)
  ]

  -- With endpoints configured, the call returns within five requests to each of them. The requests
  -- go to the first healthy endpoint and its successors in cyclic order, five in a row to each.
  -- It succeeds with the first response that any request gives; it reports the endpoints as
  -- exhausted only when all five requests to every endpoint have failed; and when the context or
  -- the total delay stops it, all requests so far have failed.
  pub execute-Ends :
      (fuel : ℕ) (t : Tracker dec)
      → 0 < length endpoints
      → 5 * length endpoints < fuel
      → let (r, s) = execute_with_endpoint_rotation dec env endpoints fuel t in
        Ends (find_healthy_endpoint dec (env.now 0) endpoints t).0 r s.requests
  unfolding execute_with_endpoint_rotation
  execute-Ends fuel t some_endpoint enough =
      let start = (find_healthy_endpoint dec (env.now 0) endpoints t).0 in
      let ne : length endpoints == 0 ≡ false = ground arith in
      rw ne (
        loop-Ends fuel start 0 _ (start-lt (env.now 0) t some_endpoint)
          (record {
            count = omega arith;
            few = omega arith;
            left = some_endpoint;
            here = sym (
                ap (λ k. k % length endpoints) (omega arith)
                ∙ mod-eq_of_lt (start-lt (env.now 0) t some_endpoint));
            made = refl;
            failing = λ j lt. elim lt [ ];
          })
          (omega arith))
