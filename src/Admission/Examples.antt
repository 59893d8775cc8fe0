-- ===== src/Admission/Examples.antt =====
-- The theorems on the bounded queue at one with a single slot and two places to wait.
use sthira.Prelude.{◌≡◌, ◌≤◌, refl, List, [], ◌∷◌, length}
use sthira.Prelude.Int.{pos}
use sthira.Admission.{
  BoundedQueue, System, Event, arrives, wakes, cancels, releases, saturated, new_bounded_queue,
  acquire, run,
}
use sthira.Admission.Bounds.{run-IsBounded}
use sthira.Admission.Abandoned.{come_and_go, abandoned_waiters_saturate}

abbrev small : BoundedQueue
small = record {
  max = 1;
  queue_max = 2;
  in_flight = 0;
  waiters = 0;
  current_waiters = [];
  rejection_count = 0;
  admission_count = 0;
}

abbrev traffic : List Event
traffic = arrives 1 ∷ arrives 2 ∷ arrives 3 ∷ arrives 4 ∷ cancels 2 ∷ releases ∷ wakes 3 ∷ []

run-IsBounded_example :
    (let s = run (record { queue = small; callers = []; running = 0 }) traffic in
      (s.running ≡ s.queue.in_flight)
      × (s.running ≤ 1)
      × (s.queue.waiters ≤ 2)
      × (s.queue.waiters ≡ length s.queue.current_waiters))
unfolding new_bounded_queue
run-IsBounded_example = run-IsBounded (pos 1) (pos 2) small traffic refl

abbrev busy : System
busy = record { queue = record small { in_flight = 1 }; callers = []; running = 1 }

abandoned_waiters_saturate_example :
    ((run busy (come_and_go (7 ∷ 8 ∷ []))).callers ≡ [])
    × ((acquire (run busy (come_and_go (7 ∷ 8 ∷ []))).queue 9).0 ≡ saturated)
abandoned_waiters_saturate_example = abandoned_waiters_saturate busy (7 ∷ 8 ∷ []) 9 refl refl
