-- ===== src/Correlation/Examples.antt =====
-- Tests of the correlation of worker responses, and its theorems at concrete inputs.
use sthira.Prelude.{◌≡◌, refl, true, false, List, [], ◌∷◌, lookup, insert, remove}
use sthira.Prelude.Result.{ok, err}
use sthira.Correlation.{
  CorrelationMap, new_correlation_map, slot, check_and_consume, validate_worker_response,
  correlation_mismatch,
}
use sthira.Correlation.Consumed.{Step, claims, withdraws, marks, checks, steps, accepted_once}

abbrev in_flight : CorrelationMap
in_flight = record {
  entries = ("req-1", ("llm", 1) ∷ []) ∷ [];
  inflight = ("req-1", ("llm", 1) ∷ []) ∷ [];
}

dispatched :
    steps new_correlation_map (claims "req-1" "llm" ∷ marks "req-1" "llm" 1 ∷ []) ≡ in_flight
unfolding steps new_correlation_map slot lookup insert
dispatched = refl

accepts : (check_and_consume in_flight "req-1" "llm" 1).1 ≡ true
unfolding check_and_consume lookup
accepts = refl

echoes_other_request :
    (validate_worker_response in_flight "req-2" 1 "req-1" "llm" 1).1 ≡ err correlation_mismatch
unfolding validate_worker_response lookup
echoes_other_request = refl

-- A claim alone puts nothing in flight, and the response is refused.
claimed_only :
    (validate_worker_response
      (steps new_correlation_map (claims "req-1" "llm" ∷ []))
      "req-1"
      1
      "req-1"
      "llm"
      1).1
    ≡ err correlation_mismatch
unfolding validate_worker_response steps new_correlation_map slot lookup insert
claimed_only = refl

-- After a withdrawal the generations start again, and the response to the call before it is accepted.
restarts :
    (validate_worker_response
      (steps in_flight (withdraws "req-1" ∷ claims "req-1" "llm" ∷ marks "req-1" "llm" 1 ∷ []))
      "req-1"
      1
      "req-1"
      "llm"
      1).1
    ≡ ok tt
unfolding validate_worker_response steps slot lookup insert remove
restarts = refl

abbrev later_calls : List Step
later_calls = claims "req-1" "llm" ∷ marks "req-1" "llm" 2 ∷ checks "req-1" "llm" 2 ∷ []

accepted_once_example :
    (check_and_consume
      (steps (check_and_consume in_flight "req-1" "llm" 1).0 later_calls)
      "req-1"
      "llm"
      1).1
    ≡ false
accepted_once_example =
    accepted_once "req-1" "llm" 1 in_flight later_calls accepts (tt, (refl, (tt, tt)))
