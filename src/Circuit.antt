-- ===== src/Circuit.antt =====
-- backend/internal/orchestration/circuitbreaker.go. Times are nanoseconds on the injected clock;
-- each reading of the clock is an argument. `now.Sub(last) >= timeout` is written
-- `last + timeout <= now`, which also says what the source does when the clock runs backwards.
pub mod Laws
pub mod Runs
pub mod Threads
mod Examples
use sthira.Prelude.{
  ℕ, ◌+◌, ◌%◌, ◌^◌, String, Bool, true, false, Option, none, some, leb, if◌then◌else◌,
}
use sthira.Prelude.Int.{ℤ, positive_or}

pub data CircuitBreakerState : Type 0 where
  state_closed state_open state_half_open : CircuitBreakerState

-- The caller's configuration, before the defaults.
pub record RawConfig : Type 0 where
  pub failure_threshold : ℤ
  pub success_threshold : ℤ
  pub reset_timeout : ℤ

pub record CircuitBreakerConfig : Type 0 where
  pub failure_threshold : ℕ
  pub success_threshold : ℕ
  pub reset_timeout : ℕ

pub record CircuitBreaker : Type 0 where
  pub name : String
  pub cfg : CircuitBreakerConfig
  pub state : CircuitBreakerState
  pub consecutive_failures : ℕ
  pub consecutive_successes : ℕ
  pub tripped_count : ℕ  -- uint64
  pub last_state_change : ℕ
  pub half_open_in_flight : Bool

-- What `Execute` returns: nil, the context's error, ErrCircuitOpen, or the call's own error.
pub data ExecError {ℓ} (E : Type ℓ) : Type ℓ where
  ctx_error : E → ExecError E
  circuit_open : ExecError E
  call_error : E → ExecError E

unfoldable pub with_defaults : RawConfig → CircuitBreakerConfig
with_defaults raw = record {
  failure_threshold = positive_or 5 raw.failure_threshold;
  success_threshold = positive_or 2 raw.success_threshold;
  reset_timeout = positive_or 10_000_000_000 raw.reset_timeout;
}

unfoldable pub new_circuit_breaker : String → RawConfig → ℕ → CircuitBreaker
unfolding with_defaults
new_circuit_breaker name raw now = record {
  name = name;
  cfg = with_defaults raw;
  state = state_closed;
  consecutive_failures = 0;
  consecutive_successes = 0;
  tripped_count = 0;
  last_state_change = now;
  half_open_in_flight = false;
}

abbrev pub u64 : ℕ → ℕ
u64 n = n % 2 ^ 64

unfoldable pub cooled_down : CircuitBreaker → ℕ → Bool
cooled_down b now = leb (b.last_state_change + b.cfg.reset_timeout) now

-- The second test of the gate: a half-open breaker admits one probe.
abbrev admit : CircuitBreakerState → CircuitBreaker → CircuitBreaker × Bool
admit state_half_open b =
    if b.half_open_in_flight then (b, false) else (record b { half_open_in_flight = true }, true)
admit _ b = (b, true)

abbrev pre_check : CircuitBreakerState → CircuitBreaker → ℕ → CircuitBreaker × Bool
pre_check state_open b now =
    if cooled_down b now
    then admit state_half_open (record b {
      state = state_half_open;
      consecutive_successes = 0;
      half_open_in_flight = false;
      last_state_change = now;
    })
    else (b, false)
pre_check s b now = admit s b

-- The gate of `Execute`, under the lock: the breaker after it, and whether the call is made.
unfoldable pub gate : CircuitBreaker → ℕ → CircuitBreaker × Bool
unfolding cooled_down
gate b now = pre_check b.state b now

abbrev reconcile_half_open : CircuitBreaker → ℕ → Bool → CircuitBreaker
reconcile_half_open b now true = record b {
  state = state_open;
  consecutive_failures = b.consecutive_failures + 1;
  consecutive_successes = 0;
  tripped_count = u64 (b.tripped_count + 1);
  last_state_change = now;
  half_open_in_flight = false;
}
reconcile_half_open b now false =
    if leb b.cfg.success_threshold (b.consecutive_successes + 1)
    then record b {
      state = state_closed;
      consecutive_failures = 0;
      consecutive_successes = 0;
      last_state_change = now;
      half_open_in_flight = false;
    }
    else record b {
      consecutive_successes = b.consecutive_successes + 1;
      half_open_in_flight = false;
    }

abbrev reconcile_closed : CircuitBreaker → ℕ → Bool → CircuitBreaker
reconcile_closed b now true =
    if leb b.cfg.failure_threshold (b.consecutive_failures + 1)
    then record b {
      state = state_open;
      consecutive_failures = b.consecutive_failures + 1;
      tripped_count = u64 (b.tripped_count + 1);
      last_state_change = now;
    }
    else record b { consecutive_failures = b.consecutive_failures + 1 }
reconcile_closed b now false = record b { consecutive_failures = 0 }

abbrev reconcile_at : CircuitBreakerState → CircuitBreaker → ℕ → Bool → CircuitBreaker
reconcile_at state_half_open b now failed = reconcile_half_open b now failed
reconcile_at state_closed b now failed = reconcile_closed b now failed
reconcile_at state_open b now failed = b

-- The reconciliation of `Execute`, under the lock again; `failed` is `callErr != nil`.
unfoldable pub reconcile : CircuitBreaker → ℕ → Bool → CircuitBreaker
reconcile b now failed = reconcile_at b.state b now failed

abbrev is_error {ℓ} : {E : Type ℓ} → Option E → Bool
is_error none = false
is_error (some e) = true

abbrev call_result {ℓ} : {E : Type ℓ} → Option E → Option (ExecError E)
call_result none = none
call_result (some e) = some (call_error e)

abbrev execute_admitted {ℓ} :
    {E : Type ℓ} → CircuitBreaker × Bool → Option E → ℕ → CircuitBreaker × Option (ExecError E)
execute_admitted (b, false) call_err now' = (b, some circuit_open)
execute_admitted (b, true) call_err now' =
    (reconcile b now' (is_error call_err), call_result call_err)

-- One whole call with no other in between: the context's error, the clock at the gate, what `fn`
-- returns, and the clock at the reconciliation.
unfoldable pub execute {ℓ} :
    {E : Type ℓ}
    → CircuitBreaker
    → Option E
    → ℕ
    → Option E
    → ℕ
    → CircuitBreaker × Option (ExecError E)
unfolding gate reconcile
execute b (some e) now call_err now' = (b, some (ctx_error e))
execute b none now call_err now' = execute_admitted (gate b now) call_err now'

abbrev observed : CircuitBreakerState → Bool → CircuitBreakerState
observed state_open true = state_half_open
observed s _ = s

-- `State` and the state of `Stats`.
unfoldable pub state_at : CircuitBreaker → ℕ → CircuitBreakerState
unfolding cooled_down
state_at b now = observed b.state (cooled_down b now)

pub record CircuitBreakerStats : Type 0 where
  pub name : String
  pub state : CircuitBreakerState
  pub consecutive_failures : ℕ
  pub consecutive_successes : ℕ
  pub tripped_count : ℕ
  pub last_state_change : ℕ

unfoldable pub stats : CircuitBreaker → ℕ → CircuitBreakerStats
unfolding state_at
stats b now = record {
  name = b.name;
  state = state_at b now;
  consecutive_failures = b.consecutive_failures;
  consecutive_successes = b.consecutive_successes;
  tripped_count = b.tripped_count;
  last_state_change = b.last_state_change;
}

unfoldable pub reset : CircuitBreaker → ℕ → CircuitBreaker
reset b now = record b {
  state = state_closed;
  consecutive_failures = 0;
  consecutive_successes = 0;
  half_open_in_flight = false;
  last_state_change = now;
}
