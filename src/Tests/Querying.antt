-- ===== src/Tests/Querying.antt =====
-- util/querier: calls over two endpoints of which the first one fails.
use rollytics.Prelude.{
  ℕ, ◌+◌, ◌%◌, ◌^◌, ◌≤◌, ◌≡◌, ◌⊎◌, ◌↔◌, refl, true, false, ◌==◌, List, [], ◌∷◌, map, some, arith,
  length, upto, if◌then◌else◌, ℕ_discrete,
}
use rollytics.Text.{Text, codes}
use rollytics.Querier.Health.{is_endpoint_healthy, find_healthy_endpoint}
use rollytics.Querier.Health.Breaker.{
  Outcome, failure, run, streak, IsTripped, outcomes_of, is_endpoint_healthy-run, IsFirst,
  find_healthy_endpoint-IsFirst,
}
use rollytics.Querier.Rotation.{execute_with_endpoint_rotation, Env, response, failed}
use rollytics.Querier.Rotation.Order.{Ends, execute-Ends}
use rollytics.Querier.Rpc as Rpc
use rollytics.Querier.Rpc.{
  fetch_from_rpc, fetch_rpc_with_rotation, is_future_height_error, find_number, error, body,
  client_error, status,
}
use rollytics.Querier.Rpc.Laws as RpcLaws
use rollytics.Querier.Rpc.Laws.{fetch_from_rpc-is_future, fetch_rpc_with_rotation-Ends, node}

abbrev endpoints : List ℕ
endpoints = 10 ∷ 20 ∷ []

abbrev env : Env ℕ ℕ ℕ
env = record {
  request = λ i e. if e == 10 then failed i else response 7;
  delay = λ i r. r;
  cancelled = λ p i. false;
  now = λ i. i;
}

execute-Ends_example :
    let (r, s) = execute_with_endpoint_rotation ℕ_discrete env endpoints 11 [] in
    Ends ℕ_discrete env endpoints (find_healthy_endpoint ℕ_discrete 0 endpoints []).0 r s.requests
execute-Ends_example = execute-Ends ℕ_discrete env endpoints 11 [] (omega arith) (omega arith)

-- Three failures of the endpoint 10, and one of the endpoint 20 between them.
abbrev history : List (ℕ × Outcome)
history = (10, failure 9) ∷ (20, failure 8) ∷ (10, failure 7) ∷ (10, failure 6) ∷ []

is_endpoint_healthy-run_example :
    ((is_endpoint_healthy ℕ_discrete 12 10 (run ℕ_discrete history)).0 ≡ false)
    ↔ IsTripped 12 (outcomes_of ℕ_discrete 10 history)
unfolding streak outcomes_of ℕ_discrete
is_endpoint_healthy-run_example = is_endpoint_healthy-run ℕ_discrete 12 10 history (omega arith)

find_healthy_endpoint-IsFirst_example :
    IsFirst ℕ_discrete
      (λ e. (is_endpoint_healthy ℕ_discrete 12 e (run ℕ_discrete history)).0)
      0
      endpoints
      (find_healthy_endpoint ℕ_discrete 12 endpoints (run ℕ_discrete history)).0
find_healthy_endpoint-IsFirst_example =
    find_healthy_endpoint-IsFirst ℕ_discrete 12 endpoints (run ℕ_discrete history)

abbrev ahead : Text
ahead = codes "height 9 must be less than or equal to the current blockchain height 8"

abbrev rpc : Rpc.Env
rpc = record {
  get = λ i url. if i == 0 then client_error (codes "timeout") else status 500 (codes "body");
  error_data = λ b. body ahead;
  cancelled = λ i. false;
  context_error = codes "context canceled";
  http_message = λ code b. b;
}

abbrev urls : List Text
urls = codes "http://a" ∷ codes "http://b/" ∷ []

fetch_from_rpc-is_future_example :
    let code : ℕ = 500 in
    ((e : Text) × (fetch_from_rpc rpc 1 (codes "http://b/block") ≡ error e)
      × (is_future_height_error e ≡ true))
    ↔ ((code ≡ 500)
        × (((n : Text) × (find_number (codes "current blockchain height ") ahead ≡ some n))
            ⊎ ((n : Text) × (find_number (codes "could not find results for height #") ahead
                  ≡ some n))))
fetch_from_rpc-is_future_example =
    fetch_from_rpc-is_future rpc 1 (codes "http://b/block") (codes "body") 500 ahead refl refl

fetch_rpc_with_rotation-Ends_example :
    let ((r, asked), next) = fetch_rpc_with_rotation rpc 4 urls (codes "/block") in
    let start = 4 % length urls in
    ((k : ℕ) × (k ≤ length urls)
      × (asked ≡ map (node rpc urls (codes "/block") start) (upto 0 k))
      × RpcLaws.Ends rpc urls (codes "/block") start k r)
    × (next ≡ (4 + 1) % 2 ^ 32)
fetch_rpc_with_rotation-Ends_example =
    fetch_rpc_with_rotation-Ends rpc 4 urls (codes "/block") (omega arith) (omega arith)
