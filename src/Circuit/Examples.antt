-- ===== src/Circuit/Examples.antt =====
-- The theorems on the circuit breaker at concrete breakers and calls.
use sthira.Prelude.{ℕ, ◌+◌, ◌≤◌, ◌≡◌, refl, true, false, none, some, arith}
use sthira.Prelude.Int.{pos}
use sthira.Circuit.{
  CircuitBreaker, CircuitBreakerConfig, RawConfig, state_closed, state_open, state_half_open,
}
use sthira.Circuit.Runs.{Call}
use sthira.Circuit.Threads.{
  World, QuietReach, QuietStep, initial, enter, finish_ordinary, one_probe,
  late_success_admits_second_probe,
}

abbrev raw : RawConfig
raw = record { failure_threshold = pos 2; success_threshold = pos 3; reset_timeout = pos 100 }

abbrev two_three : CircuitBreakerConfig
two_three = record { failure_threshold = 2; success_threshold = 3; reset_timeout = 100 }

abbrev closed_breaker : CircuitBreaker
closed_breaker = record {
  name = "asr";
  cfg = two_three;
  state = state_closed;
  consecutive_failures = 0;
  consecutive_successes = 0;
  tripped_count = 0;
  last_state_change = 0;
  half_open_in_flight = false;
}

abbrev open_breaker : CircuitBreaker
open_breaker = record closed_breaker {
  state = state_open;
  tripped_count = 1;
  last_state_change = 12;
}

abbrev probed_breaker : CircuitBreaker
probed_breaker = record closed_breaker { state = state_half_open; half_open_in_flight = true }

abbrev failure : ℕ → Call
failure t = record { entered = t; returned = t + 1; result = some "timeout" }

abbrev success : ℕ → Call
success t = record { entered = t; returned = t + 1; result = none }

one_probe_example : (enter (initial "asr" raw 0) 1).probes ≤ 1
one_probe_example =
    one_probe "asr" raw 0 (enter (initial "asr" raw 0) 1)
      (QuietReach.next QuietReach.here (QuietStep.enters 1))

abbrev late_world : World
late_world = record { breaker = probed_breaker; ordinary = 1; probes = 1 }

late_success_admits_second_probe_example : (enter (finish_ordinary late_world 7 false) 8).probes ≡ 2
late_success_admits_second_probe_example =
    late_success_admits_second_probe late_world 7 8 refl refl refl (omega arith) (omega arith)
