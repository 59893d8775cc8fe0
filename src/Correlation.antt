-- ===== src/Correlation.antt =====
-- backend/internal/orchestration/correlation.go: which worker response a request still waits for. A
-- generation is a uint64. Each operation runs under the lock of the map.
pub mod Slots
pub mod Consumed
mod Examples
use sthira.Prelude.{
  ℕ, ◌+◌, ◌%◌, ◌^◌, String, Bool, true, false, not, Option, none, some, List, [], ◌∷◌, ◌==◌, str_eq,
  if◌then◌else◌, Map, lookup, insert, remove,
}
use sthira.Prelude.Result.{Result, ok, err, ◌>>=◌, ◌>>◌, reject_if}

-- A generation for each stage of each request.
abbrev pub Generations : Type 0
Generations = Map (Map ℕ)

pub record CorrelationMap : Type 0 where
  pub entries : Generations
  pub inflight : Generations

unfoldable pub new_correlation_map : CorrelationMap
new_correlation_map = record { entries = []; inflight = [] }

-- The map of a request, made where there is none.
abbrev pub or_empty : Option (Map ℕ) → Map ℕ
or_empty none = []
or_empty (some stages) = stages

abbrev pub or_zero : Option ℕ → ℕ
or_zero none = 0
or_zero (some n) = n

abbrev pub stage_of : String → Option (Map ℕ) → Option ℕ
stage_of stage none = none
stage_of stage (some stages) = lookup stage stages

-- The generation of a stage of a request, as the two maps hold it.
unfoldable pub slot : Generations → String → String → Option ℕ
slot m id stage = stage_of stage (lookup id m)

unfoldable pub put_slot : Generations → String → String → ℕ → Generations
put_slot m id stage gen = insert id (insert stage gen (or_empty (lookup id m))) m

unfoldable pub claim : CorrelationMap → String → String → CorrelationMap × ℕ
unfolding slot put_slot
claim m id stage =
    let gen = (or_zero (slot m.entries id stage) + 1) % 2 ^ 64 in
    (record m { entries = put_slot m.entries id stage gen }, gen)

unfoldable pub withdraw : CorrelationMap → String → CorrelationMap
withdraw m id = record { entries = remove id m.entries; inflight = remove id m.inflight }

unfoldable pub mark_inflight : CorrelationMap → String → String → ℕ → CorrelationMap
unfolding put_slot
mark_inflight m id stage gen = record m { inflight = put_slot m.inflight id stage gen }

abbrev pub owns : Option ℕ → ℕ → Bool
owns none gen = false
owns (some g) gen = g == gen

-- delete(inflight, stage); if len(inflight) == 0 { delete(m.inflight, id) }
abbrev pub without_stage : Generations → String → Map ℕ → Generations
without_stage m id [] = remove id m
without_stage m id (x ∷ rest) = insert id (x ∷ rest) m

-- CheckAndConsume. A request without a map is given an empty one also where the check fails.
unfoldable pub check_and_consume : CorrelationMap → String → String → ℕ → CorrelationMap × Bool
check_and_consume m id stage gen =
    let stages = or_empty (lookup id m.inflight) in
    let consumed = without_stage m.inflight id (remove stage stages) in
    if owns (lookup stage stages) gen
    then (record m { inflight = consumed }, true)
    else (record m { inflight = insert id stages m.inflight }, false)

unfoldable pub peek : CorrelationMap → String → String → Option ℕ
unfolding slot
peek m id stage = slot m.entries id stage

unfoldable pub track_worker_dispatch : CorrelationMap → String → String → CorrelationMap × ℕ
unfolding claim
track_worker_dispatch m id stage = claim m id stage

-- ErrCorrelationMismatch
pub data CorrelationError : Type 0 where
  correlation_mismatch : CorrelationError

-- ValidateWorkerResponse, with the map that it leaves.
unfoldable pub validate_worker_response :
    CorrelationMap
    → String
    → ℕ
    → String
    → String
    → ℕ
    → CorrelationMap × Result CorrelationError (Unit {0})
unfolding check_and_consume
validate_worker_response m worker_request_id worker_gen want stage expected =
    let (m', accepted) = check_and_consume m want stage expected in
    if not (str_eq worker_request_id want)
    then (m, err correlation_mismatch)
    else if not (worker_gen == expected)
    then (m, err correlation_mismatch)
    else (m', reject_if (not accepted) correlation_mismatch)
