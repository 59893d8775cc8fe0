-- ===== src/Circuit/Runs.antt =====
-- Sequences of calls through the circuit breaker, one after the other.
use sthira.Prelude.{
  ℕ, ◌+◌, ◌≤◌, ◌<◌, ◌≡◌, refl, true, false, Option, none, some, arith, List, [], ◌∷◌, ◌++◌, String,
  length, All,
}
use sthira.Circuit.{
  CircuitBreaker, state_closed, state_open, state_half_open, cooled_down, circuit_open, execute,
}

-- One call: the clock at its gate and at its reconciliation, and what `fn` returned.
pub record Call : Type 0 where
  pub entered : ℕ
  pub returned : ℕ
  pub result : Option String

unfoldable pub run : CircuitBreaker → List Call → CircuitBreaker
run b [] = b
run b (c ∷ cs) = run (execute b none c.entered c.result c.returned).0 cs

abbrev pub Fails : Call → Type 0
Fails c = (e : String) × (c.result ≡ some e)

abbrev pub Succeeds : Call → Type 0
Succeeds c = c.result ≡ none

fail_once :
    (b : CircuitBreaker) (c : Call)
    → b.state ≡ state_closed
    → Fails c
    → b.consecutive_failures + 1 < b.cfg.failure_threshold
    → ((execute b none c.entered c.result c.returned).0
        ≡ record b { consecutive_failures = b.consecutive_failures + 1 })
unfolding execute
fail_once b c s (e, f) h = rw f (ground arith)

trip_once :
    (b : CircuitBreaker) (c : Call)
    → b.state ≡ state_closed
    → Fails c
    → b.cfg.failure_threshold ≤ b.consecutive_failures + 1
    → (let b' = (execute b none c.entered c.result c.returned).0 in
        (b'.state ≡ state_open) × (b'.last_state_change ≡ c.returned))
unfolding execute
trip_once b c s (e, f) h = rw f (ground arith)

-- A closed breaker stays closed, counting, over fewer failures than its threshold leaves.
pub run_below_threshold :
    (b : CircuitBreaker) (cs : List Call)
    → b.state ≡ state_closed
    → All Fails cs
    → b.consecutive_failures + length cs < b.cfg.failure_threshold
    → ((run b cs).state ≡ state_closed)
      × ((run b cs).consecutive_failures ≡ b.consecutive_failures + length cs)
unfolding run
run_below_threshold b [] s f h = (s, omega arith)
run_below_threshold b (c ∷ cs) s (f, fs) h =
    let b' = record b { consecutive_failures = b.consecutive_failures + 1 } in
    let (st, n) = run_below_threshold b' cs s fs (omega arith) in
    rw (fail_once b c s f (omega arith), run) (st, omega arith)

-- The failure that reaches the threshold opens a closed breaker, at the clock of its return.
pub run_trips :
    (b : CircuitBreaker) (cs : List Call) (c : Call)
    → b.state ≡ state_closed
    → All Fails cs
    → Fails c
    → b.consecutive_failures + length cs + 1 ≡ b.cfg.failure_threshold
    → ((run b (cs ++ c ∷ [])).state ≡ state_open)
      × ((run b (cs ++ c ∷ [])).last_state_change ≡ c.returned)
unfolding run
run_trips b [] c s fs f h = trip_once b c s f (omega arith)
run_trips b (d ∷ cs) c s (g, fs) f h =
    let b' = record b { consecutive_failures = b.consecutive_failures + 1 } in
    rw (fail_once b d s g (omega arith), run) (run_trips b' cs c s fs f (omega arith))

-- A probe of a half-open breaker that succeeds and is not the last one wanted.
probe_once :
    (b : CircuitBreaker) (c : Call)
    → b.state ≡ state_half_open
    → b.half_open_in_flight ≡ false
    → Succeeds c
    → b.consecutive_successes + 1 < b.cfg.success_threshold
    → (execute b none c.entered c.result c.returned).0
      ≡ record b { consecutive_successes = b.consecutive_successes + 1 }
unfolding execute
probe_once b c s i f h = rw f (ground arith)

probe_last :
    (b : CircuitBreaker) (c : Call)
    → b.state ≡ state_half_open
    → b.half_open_in_flight ≡ false
    → Succeeds c
    → b.cfg.success_threshold ≤ b.consecutive_successes + 1
    → (let b' = (execute b none c.entered c.result c.returned).0 in
        (b'.state ≡ state_closed) × (b'.consecutive_failures ≡ 0) × (b'.consecutive_successes ≡ 0))
unfolding execute
probe_last b c s i f h = rw f (ground arith)

half_open_recovers :
    (b : CircuitBreaker) (cs : List Call) (c : Call)
    → b.state ≡ state_half_open
    → b.half_open_in_flight ≡ false
    → All Succeeds cs
    → Succeeds c
    → b.consecutive_successes + length cs + 1 ≡ b.cfg.success_threshold
    → (let b' = run b (cs ++ c ∷ []) in
        (b'.state ≡ state_closed) × (b'.consecutive_failures ≡ 0) × (b'.consecutive_successes ≡ 0))
unfolding run
half_open_recovers b [] c s i fs f h = probe_last b c s i f (omega arith)
half_open_recovers b (d ∷ cs) c s i (g, fs) f h =
    let b' = record b { consecutive_successes = b.consecutive_successes + 1 } in
    rw (probe_once b d s i g (omega arith), run) (half_open_recovers b' cs c s i fs f (omega arith))

-- The breaker as the gate leaves it when the cooldown is over, before the probe is admitted.
abbrev half_opened : CircuitBreaker → ℕ → CircuitBreaker
half_opened b now = record b {
  state = state_half_open;
  consecutive_successes = 0;
  half_open_in_flight = false;
  last_state_change = now;
}

execute-half_opened :
    (b : CircuitBreaker) (c : Call)
    → b.state ≡ state_open
    → cooled_down b c.entered ≡ true
    → execute b none c.entered c.result c.returned
      ≡ execute (half_opened b c.entered) none c.entered c.result c.returned
unfolding execute
execute-half_opened b c s cool = ground arith

run-half_opened :
    (b : CircuitBreaker) (c : Call) (cs : List Call)
    → b.state ≡ state_open
    → cooled_down b c.entered ≡ true
    → run b (c ∷ cs) ≡ run (half_opened b c.entered) (c ∷ cs)
unfolding run
run-half_opened b c cs s cool = rw (execute-half_opened b c s cool)

-- From an open breaker, the threshold's number of successful calls, the first after the cooldown,
-- closes the breaker and clears its counters.
pub run_recovers :
    (b : CircuitBreaker) (c : Call) (cs : List Call) (d : Call)
    → b.state ≡ state_open
    → cooled_down b c.entered ≡ true
    → All Succeeds (c ∷ cs)
    → Succeeds d
    → length (c ∷ cs) + 1 ≡ b.cfg.success_threshold
    → (let b' = run b (c ∷ (cs ++ d ∷ [])) in
        (b'.state ≡ state_closed) × (b'.consecutive_failures ≡ 0) × (b'.consecutive_successes ≡ 0))
run_recovers b c cs d s cool fs f h =
    rw (run-half_opened b c (cs ++ d ∷ []) s cool)
      (half_open_recovers (half_opened b c.entered) (c ∷ cs) d refl refl fs f (omega arith))

-- While an open breaker cools down every call is refused, whatever it would have returned, and the
-- breaker stays as it is.
pub run_fails_fast :
    (b : CircuitBreaker) (cs : List Call)
    → b.state ≡ state_open
    → All (λ c. c.entered < b.last_state_change + b.cfg.reset_timeout) cs
    → (run b cs ≡ b)
      × All (λ c. (execute b none c.entered c.result c.returned).1 ≡ some circuit_open) cs
unfolding run execute
run_fails_fast b [] s h = (refl, tt)
run_fails_fast b (c ∷ cs) s (e, h) =
    let (same, refused) = run_fails_fast b cs s h in (ground arith, (ground arith, refused))
