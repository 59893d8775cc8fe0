-- ===== src/Circuit/Threads.antt =====
-- Concurrent callers of one circuit breaker: the gate and the reconciliation of a call are two
-- critical sections, and other calls run between them.
use sthira.Prelude.{ℕ, ◌+◌, ◌-◌, ◌≤◌, ◌<◌, ◌≡◌, Bool, true, false, arith, String, if◌then◌else◌}
use sthira.Circuit.{
  CircuitBreaker, CircuitBreakerState, state_half_open, RawConfig, new_circuit_breaker, gate,
  reconcile, reset,
}
use sthira.Circuit.Laws.{IsValid, new-IsValid, gate-IsValid, reconcile-IsValid, reset-IsValid}

-- The breaker, with the calls that have passed the gate and have not yet reconciled: `probes` were
-- admitted half open, `ordinary` while closed.
pub record World : Type 0 where
  pub breaker : CircuitBreaker
  pub ordinary : ℕ
  pub probes : ℕ

abbrev is_half_open : CircuitBreakerState → Bool
is_half_open state_half_open = true
is_half_open _ = false

abbrev entered : CircuitBreaker × Bool → World → World
entered (b, false) w = record w { breaker = b }
entered (b, true) w =
    if is_half_open b.state
    then record w { breaker = b; probes = w.probes + 1 }
    else record w { breaker = b; ordinary = w.ordinary + 1 }

-- A caller at the gate.
unfoldable pub enter : World → ℕ → World
enter w now = entered (gate w.breaker now) w

-- A caller back from `fn`.
abbrev pub finish_probe : World → ℕ → Bool → World
finish_probe w now failed = record w {
  breaker = reconcile w.breaker now failed;
  probes = w.probes - 1;
}

abbrev pub finish_ordinary : World → ℕ → Bool → World
finish_ordinary w now failed = record w {
  breaker = reconcile w.breaker now failed;
  ordinary = w.ordinary - 1;
}

pub data Step (w : World) : World → Type 0 where
  enters : (now : ℕ) → Step w (enter w now)
  probe_returns : (now : ℕ) (failed : Bool) → 0 < w.probes → Step w (finish_probe w now failed)
  ordinary_returns :
      (now : ℕ) (failed : Bool) → 0 < w.ordinary → Step w (finish_ordinary w now failed)
  resets : (now : ℕ) → Step w (record w { breaker = reset w.breaker now })

pub data Reach (w : World) : World → Type 0 where
  here : Reach w w
  next : {u v : World} → Reach w u → Step u v → Reach w v

abbrev pub initial : String → RawConfig → ℕ → World
initial name raw now = record {
  breaker = new_circuit_breaker name raw now;
  ordinary = 0;
  probes = 0;
}

enter-IsValid : (w : World) (now : ℕ) → IsValid w.breaker → IsValid (enter w now).breaker
unfolding enter
enter-IsValid w now v = ground (arith, gate-IsValid w.breaker now v)

Step-IsValid : {w u : World} → Step w u → IsValid w.breaker → IsValid u.breaker
Step-IsValid {w} (enters now) v = enter-IsValid w now v
Step-IsValid {w} (probe_returns now failed h) v = reconcile-IsValid w.breaker now failed v
Step-IsValid {w} (ordinary_returns now failed h) v = reconcile-IsValid w.breaker now failed v
Step-IsValid {w} (resets now) v = reset-IsValid w.breaker now v

Reach-IsValid : {w u : World} → IsValid w.breaker → Reach w u → IsValid u.breaker
Reach-IsValid v here = v
Reach-IsValid v (next r s) = Step-IsValid s (Reach-IsValid v r)

-- Whatever the callers and their interleaving, and whatever the configuration was given, a breaker
-- reached from a new one satisfies its invariant: closed only below its failure threshold, half
-- open only below its success threshold, and a probe marked in flight only while half open.
pub reached-IsValid :
    (name : String) (raw : RawConfig) (now : ℕ) (u : World)
    → Reach (initial name raw now) u
    → IsValid u.breaker
reached-IsValid name raw now u r = Reach-IsValid (new-IsValid name raw now) r

-- The steps in which an ordinary call never comes back to a half-open breaker, and nobody resets.
pub data QuietStep (w : World) : World → Type 0 where
  enters : (now : ℕ) → QuietStep w (enter w now)
  probe_returns : (now : ℕ) (failed : Bool) → 0 < w.probes → QuietStep w (finish_probe w now failed)
  ordinary_returns :
      (now : ℕ) (failed : Bool)
      → 0 < w.ordinary
      → is_half_open w.breaker.state ≡ false
      → QuietStep w (finish_ordinary w now failed)

pub data QuietReach (w : World) : World → Type 0 where
  here : QuietReach w w
  next : {u v : World} → QuietReach w u → QuietStep u v → QuietReach w v

record Marked (w : World) : Type 0 where
  marked : w.probes ≡ (if w.breaker.half_open_in_flight then 1 else 0)
  half_open : w.breaker.half_open_in_flight ≡ true → w.breaker.state ≡ state_half_open

enter-Marked : (w : World) (now : ℕ) → Marked w → Marked (enter w now)
unfolding enter gate
enter-Marked w now m = ground arith

finish_probe-Marked :
    (w : World) (now : ℕ) (failed : Bool)
    → 0 < w.probes
    → Marked w
    → Marked (finish_probe w now failed)
unfolding reconcile
finish_probe-Marked w now failed h m = ground arith

finish_ordinary-Marked :
    (w : World) (now : ℕ) (failed : Bool)
    → is_half_open w.breaker.state ≡ false
    → Marked w
    → Marked (finish_ordinary w now failed)
unfolding reconcile
finish_ordinary-Marked w now failed h m = ground arith

QuietReach-Marked : {w u : World} → Marked w → QuietReach w u → Marked u
QuietReach-Marked m here = m
QuietReach-Marked m (next {u = u} r (enters now)) = enter-Marked u now (QuietReach-Marked m r)
QuietReach-Marked m (next {u = u} r (probe_returns now failed h)) =
    finish_probe-Marked u now failed h (QuietReach-Marked m r)
QuietReach-Marked m (next {u = u} r (ordinary_returns now failed h q)) =
    finish_ordinary-Marked u now failed q (QuietReach-Marked m r)

-- As long as no call admitted while closed comes back to a half-open breaker, and nobody resets it,
-- at most one probe is between its gate and its reconciliation.
pub one_probe :
    (name : String) (raw : RawConfig) (now : ℕ) (u : World)
    → QuietReach (initial name raw now) u
    → u.probes ≤ 1
unfolding new_circuit_breaker
one_probe name raw now u r =
    let m : Marked u = QuietReach-Marked (ground arith) r in ground (arith, m.marked)

-- A call admitted while closed that succeeds after the breaker has gone half open clears the mark
-- of the probe in flight: unless it was the last success wanted, the next caller is admitted as a
-- second probe while the first one is still out.
pub late_success_admits_second_probe :
    (w : World) (now now' : ℕ)
    → w.breaker.state ≡ state_half_open
    → w.breaker.half_open_in_flight ≡ true
    → w.probes ≡ 1
    → 0 < w.ordinary
    → w.breaker.consecutive_successes + 1 < w.breaker.cfg.success_threshold
    → (enter (finish_ordinary w now false) now').probes ≡ 2
unfolding enter gate reconcile
late_success_admits_second_probe w now now' s i p o h = ground arith
