-- ===== src/Circuit/Laws.antt =====
-- The branches of the breaker's gate and of its reconciliation, and its invariant.
use sthira.Prelude.{ℕ, ◌<◌, ◌≡◌, ◌⊎◌, ◌↔◌, Bool, true, false, arith, String}
use sthira.Circuit.{
  CircuitBreaker, state_closed, state_open, state_half_open, RawConfig, new_circuit_breaker,
  cooled_down, gate, reconcile, reset,
}

pub record IsValid (b : CircuitBreaker) : Type 0 where
  pub failure_pos : 0 < b.cfg.failure_threshold
  pub success_pos : 0 < b.cfg.success_threshold
  pub timeout_pos : 0 < b.cfg.reset_timeout
  pub closed_below : b.state ≡ state_closed → b.consecutive_failures < b.cfg.failure_threshold
  pub half_open_below :
      b.state ≡ state_half_open → b.consecutive_successes < b.cfg.success_threshold
  pub idle_unless_half_open : b.half_open_in_flight ≡ true → b.state ≡ state_half_open

pub new-IsValid :
    (name : String) (raw : RawConfig) (now : ℕ) → IsValid (new_circuit_breaker name raw now)
unfolding new_circuit_breaker
new-IsValid name raw now = ground arith

pub gate-IsValid : (b : CircuitBreaker) (now : ℕ) → IsValid b → IsValid (gate b now).0
unfolding gate
gate-IsValid b now v = ground arith

pub reconcile-IsValid :
    (b : CircuitBreaker) (now : ℕ) (failed : Bool) → IsValid b → IsValid (reconcile b now failed)
unfolding reconcile
reconcile-IsValid b now failed v = ground arith

pub reset-IsValid : (b : CircuitBreaker) (now : ℕ) → IsValid b → IsValid (reset b now)
unfolding reset
reset-IsValid b now v = ground arith

-- A call is refused exactly when the breaker is open and not yet cooled down, or half open with a
-- probe in flight.
pub gate_refuses :
    (b : CircuitBreaker) (now : ℕ)
    → ((gate b now).1 ≡ false) ↔ (
        ((b.state ≡ state_open) × (cooled_down b now ≡ false))
        ⊎ ((b.state ≡ state_half_open) × (b.half_open_in_flight ≡ true)))
unfolding gate
gate_refuses b now = (λ h. ground arith, λ h. ground arith)

pub gate_refused_unchanged :
    (b : CircuitBreaker) (now : ℕ) → (gate b now).1 ≡ false → (gate b now).0 ≡ b
unfolding gate
gate_refused_unchanged b now h = ground arith
