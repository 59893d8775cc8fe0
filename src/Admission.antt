-- ===== src/Admission.antt =====
-- backend/internal/orchestration/admission.go: the bounded queue of one stage. Each function is what one
-- caller, or the watcher of one, does while it holds the lock; a waiter is a number.
pub mod Bounds
pub mod Abandoned
mod Examples
use sthira.Prelude.{
  ℕ, zero, suc, ◌+◌, ◌-◌, ◌%◌, ◌^◌, Bool, true, false, not, List, [], ◌∷◌, ◌==◌, ltb, leb,
  if◌then◌else◌, any,
}
use sthira.Prelude.Int.{ℤ, pos, negsuc}
use sthira.Prelude.Result.{Result, ok, err}

pub record BoundedQueue : Type 0 where
  pub max : ℕ
  pub queue_max : ℕ
  pub in_flight : ℕ
  pub waiters : ℕ
  pub current_waiters : List ℕ
  pub rejection_count : ℕ
  pub admission_count : ℕ

pub data AdmissionError : Type 0 where
  max_inflight_positive queue_depth_negative : AdmissionError

abbrev pub fresh_queue : ℕ → ℕ → BoundedQueue
fresh_queue max depth = record {
  max = max;
  queue_max = depth;
  in_flight = 0;
  waiters = 0;
  current_waiters = [];
  rejection_count = 0;
  admission_count = 0;
}

-- NewBoundedQueue
unfoldable pub new_bounded_queue : ℤ → ℤ → Result AdmissionError BoundedQueue
new_bounded_queue (negsuc n) depth = err max_inflight_positive
new_bounded_queue (pos zero) depth = err max_inflight_positive
new_bounded_queue (pos (suc n)) (negsuc d) = err queue_depth_negative
new_bounded_queue (pos (suc n)) (pos d) = ok (fresh_queue (suc n) d)

-- The counters are uint64.
abbrev next : ℕ → ℕ
next n = (n + 1) % 2 ^ 64

pub data Arrival : Type 0 where
  admitted saturated parked : Arrival

abbrev pub take_slot : BoundedQueue → BoundedQueue
take_slot q = record q { in_flight = q.in_flight + 1; admission_count = next q.admission_count }

abbrev pub reject : BoundedQueue → BoundedQueue
reject q = record q { rejection_count = next q.rejection_count }

abbrev pub enter : ℕ → BoundedQueue → BoundedQueue
enter w q = record q { waiters = q.waiters + 1; current_waiters = w ∷ q.current_waiters }

-- The first critical section of `Acquire`.
unfoldable pub acquire : BoundedQueue → ℕ → Arrival × BoundedQueue
acquire q w =
    if ltb q.in_flight q.max
    then (admitted, take_slot q)
    else if leb q.queue_max q.waiters
    then (saturated, reject q)
    else (parked, enter w q)

abbrev pub is_waiting : ℕ → List ℕ → Bool
is_waiting w ws = any (λ v. v == w) ws

unfoldable pub remove_waiter : ℕ → List ℕ → List ℕ
remove_waiter w [] = []
remove_waiter w (v ∷ vs) = let rest = remove_waiter w vs in if v == w then vs else v ∷ rest

-- delete(q.currentWaiters, w); if q.waiters > 0 { q.waiters-- }
unfoldable pub leave : ℕ → BoundedQueue → BoundedQueue
unfolding remove_waiter
leave w q = record q {
  waiters = q.waiters - 1;
  current_waiters = remove_waiter w q.current_waiters;
}

pub data Woken : Type 0 where
  gone entered dropped waits_on : Woken

-- The critical section in the loop of `Acquire`, up to the wait.
unfoldable pub recheck : BoundedQueue → ℕ → Woken × BoundedQueue
unfolding leave
recheck q w =
    if not (is_waiting w q.current_waiters)
    then (gone, q)
    else if ltb q.in_flight q.max
    then (entered, take_slot (leave w q))
    else if ltb q.queue_max q.waiters
    then (dropped, reject (leave w q))
    else (waits_on, q)

-- The watcher, once the context is done.
unfoldable pub watcher_cancel : BoundedQueue → ℕ → BoundedQueue
unfolding leave
watcher_cancel q w = if is_waiting w q.current_waiters then leave w q else q

-- What `makeRelease` returns, called once.
unfoldable pub release : BoundedQueue → BoundedQueue
release q = record q { in_flight = q.in_flight - 1 }

-- The queue with the callers that are in the loop of `Acquire`, and the number of the calls that run:
-- those whose Acquire returned a release function that was not called yet.
pub record System : Type 0 where
  pub queue : BoundedQueue
  pub callers : List ℕ
  pub running : ℕ

-- `abandons`: a caller sees ctx.Done at the top of the loop and returns; closing stopWatcher ends its
-- watcher, whose select may take that case although the context is done. `releases`: a call that runs
-- calls its release function, which does nothing a second time.
pub data Event : Type 0 where
  arrives wakes cancels abandons : ℕ → Event
  releases : Event

abbrev pub arrived : System → ℕ → Arrival × BoundedQueue → System
arrived s w (parked, q) = record s { queue = q; callers = w ∷ s.callers }
arrived s w (admitted, q) = record s { queue = q; running = s.running + 1 }
arrived s w (saturated, q) = record s { queue = q }

abbrev pub woken : System → ℕ → Woken × BoundedQueue → System
woken s w (waits_on, q) = record s { queue = q }
woken s w (gone, q) = record s { queue = q; callers = remove_waiter w s.callers }
woken s w (entered, q) = record s {
  queue = q;
  callers = remove_waiter w s.callers;
  running = s.running + 1;
}
woken s w (dropped, q) = record s { queue = q; callers = remove_waiter w s.callers }

-- A release by one of the calls that run.
abbrev pub released : System → ℕ → System
released s zero = s
released s (suc n) = record s { queue = release s.queue; running = n }

unfoldable pub step : System → Event → System
unfolding acquire recheck watcher_cancel release
step s (arrives w) = arrived s w (acquire s.queue w)
step s (wakes w) = woken s w (recheck s.queue w)
step s (cancels w) = record s { queue = watcher_cancel s.queue w }
step s (abandons w) = record s { callers = remove_waiter w s.callers }
step s releases = released s s.running

unfoldable pub run : System → List Event → System
unfolding step
run s [] = s
run s (e ∷ es) = run (step s e) es
