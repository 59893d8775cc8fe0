-- ===== src/Admission/Bounds.antt =====
-- The bounds that the queue of backend/internal/orchestration/admission.go keeps.
use sthira.Prelude.{
  ℕ, zero, suc, ◌≤◌, ◌≡◌, refl, List, [], ◌∷◌, arith, length, true, subst, sym, ltb, leb,
  Bool-cases, inl, inr,
}
use sthira.Prelude.Int.{ℤ, pos, negsuc, pos_part}
use sthira.Prelude.Result.{ok}
use sthira.Admission.{
  BoundedQueue, System, Event, arrives, wakes, cancels, abandons, releases, new_bounded_queue,
  acquire, recheck, watcher_cancel, release, leave, is_waiting, remove_waiter, step, run, arrived,
  woken, released, fresh_queue,
}

-- The calls in flight and the waiters are within their limits, and the waiters are counted.
pub record IsBounded (max depth : ℕ) (q : BoundedQueue) : Type 0 where
  pub max_same : q.max ≡ max
  pub depth_same : q.queue_max ≡ depth
  pub flight : q.in_flight ≤ max
  pub queue : q.waiters ≤ depth
  pub counted : q.waiters ≡ length q.current_waiters

length-remove_waiter :
    (w : ℕ) (ws : List ℕ) → is_waiting w ws ≡ true → suc (length (remove_waiter w ws)) ≡ length ws
unfolding remove_waiter
length-remove_waiter w [] h = cc
length-remove_waiter w (v ∷ vs) h = ground (arith, length-remove_waiter w vs)

module _ (max depth : ℕ) (q : BoundedQueue) (w : ℕ) (b : IsBounded max depth q) where
  acquire-IsBounded : IsBounded max depth (acquire q w).1
  unfolding acquire
  acquire-IsBounded = record {
    max_same = ground (arith, b.max_same);
    depth_same = ground (arith, b.depth_same);
    flight = ground (arith, b.max_same, b.flight);
    queue = ground (arith, b.depth_same, b.queue);
    counted = ground (arith, b.counted);
  }

  recheck-IsBounded : IsBounded max depth (recheck q w).1
  unfolding recheck leave
  recheck-IsBounded = record {
    max_same = ground (arith, b.max_same);
    depth_same = ground (arith, b.depth_same);
    flight = ground (arith, b.max_same, b.flight);
    queue = ground (arith, b.depth_same, b.queue);
    counted = ground (arith, b.counted, length-remove_waiter w q.current_waiters);
  }

  watcher_cancel-IsBounded : IsBounded max depth (watcher_cancel q w)
  unfolding watcher_cancel leave
  watcher_cancel-IsBounded = record {
    max_same = ground (arith, b.max_same);
    depth_same = ground (arith, b.depth_same);
    flight = ground (arith, b.flight);
    queue = ground (arith, b.queue);
    counted = ground (arith, b.counted, length-remove_waiter w q.current_waiters);
  }

-- The slots taken are those of the calls that run, and the queue is within its bounds.
pub record Holds (max depth : ℕ) (s : System) : Type 0 where
  pub bounds : IsBounded max depth s.queue
  pub held : s.queue.in_flight ≡ s.running

arrived-Holds :
    (max depth : ℕ) (s : System) (w : ℕ)
    → Holds max depth s
    → Holds max depth (arrived s w (acquire s.queue w))
unfolding acquire
arrived-Holds max depth s w b =
    let q = acquire-IsBounded max depth s.queue w b.bounds in
    elim (Bool-cases (ltb s.queue.in_flight s.queue.max)) [
      | inl e ↦ rw e (record { bounds = rw (acquire, e) at q; held = omega (arith, b.held) })
      | inr e ↦ elim (Bool-cases (leb s.queue.queue_max s.queue.waiters)) [
        | inl f ↦ rw (e, f) (record { bounds = rw (acquire, e, f) at q; held = b.held })
        | inr f ↦ rw (e, f) (record { bounds = rw (acquire, e, f) at q; held = b.held })
      ]
    ]

woken-Holds :
    (max depth : ℕ) (s : System) (w : ℕ)
    → Holds max depth s
    → Holds max depth (woken s w (recheck s.queue w))
unfolding recheck leave
woken-Holds max depth s w b =
    let q = recheck-IsBounded max depth s.queue w b.bounds in
    elim (Bool-cases (is_waiting w s.queue.current_waiters)) [
      | inr e ↦ rw e (record { bounds = b.bounds; held = b.held })
      | inl e ↦ elim (Bool-cases (ltb s.queue.in_flight s.queue.max)) [
        | inl f ↦
            rw (e, f) (record { bounds = rw (recheck, e, f) at q; held = omega (arith, b.held) })
        | inr f ↦ elim (Bool-cases (ltb s.queue.queue_max s.queue.waiters)) [
          | inl g ↦ rw (e, f, g) (record { bounds = rw (recheck, e, f, g) at q; held = b.held })
          | inr g ↦ rw (e, f, g) (record { bounds = b.bounds; held = b.held })
        ]
      ]
    ]

watcher_cancel-in_flight : (q : BoundedQueue) (w : ℕ) → (watcher_cancel q w).in_flight ≡ q.in_flight
unfolding watcher_cancel leave
watcher_cancel-in_flight q w = ground arith

released-Holds :
    (max depth : ℕ) (s : System) (n : ℕ)
    → s.running ≡ n
    → Holds max depth s
    → Holds max depth (released s n)
unfolding release
released-Holds max depth s zero e b = b
released-Holds max depth s (suc n) e b = record {
  bounds = record {
    max_same = b.bounds.max_same;
    depth_same = b.bounds.depth_same;
    flight = omega (arith, b.bounds.flight);
    queue = b.bounds.queue;
    counted = b.bounds.counted;
  };
  held = omega (arith, b.held);
}

step-Holds :
    (max depth : ℕ) (s : System) (e : Event) → Holds max depth s → Holds max depth (step s e)
unfolding step
step-Holds max depth s (arrives w) b = arrived-Holds max depth s w b
step-Holds max depth s (wakes w) b = woken-Holds max depth s w b
step-Holds max depth s (cancels w) b = record {
  bounds = watcher_cancel-IsBounded max depth s.queue w b.bounds;
  held = rw (watcher_cancel-in_flight s.queue w) b.held;
}
step-Holds max depth s (abandons w) b = record { bounds = b.bounds; held = b.held }
step-Holds max depth s releases b = released-Holds max depth s s.running refl b

pub run-Holds :
    (max depth : ℕ) (s : System) (es : List Event) → Holds max depth s → Holds max depth (run s es)
unfolding run
run-Holds max depth s [] b = b
run-Holds max depth s (e ∷ es) b = run-Holds max depth (step s e) es (step-Holds max depth s e b)

new-IsBounded :
    (max depth : ℤ) (q : BoundedQueue)
    → new_bounded_queue max depth ≡ ok q
    → IsBounded (pos_part max) (pos_part depth) q
unfolding new_bounded_queue
new-IsBounded (negsuc n) depth q h = cc
new-IsBounded (pos zero) depth q h = cc
new-IsBounded (pos (suc n)) (negsuc d) q h = cc
new-IsBounded (pos (suc n)) (pos d) q h =
    let same : fresh_queue (suc n) d ≡ q = cc in
    subst (IsBounded (suc n) d) same (record {
      max_same = refl;
      depth_same = refl;
      flight = omega arith;
      queue = omega arith;
      counted = refl;
    })

idle : (max depth : ℤ) (q : BoundedQueue) → new_bounded_queue max depth ≡ ok q → q.in_flight ≡ 0
unfolding new_bounded_queue
idle (negsuc n) depth q h = cc
idle (pos zero) depth q h = cc
idle (pos (suc n)) (negsuc d) q h = cc
idle (pos (suc n)) (pos d) q h =
    let same : fresh_queue (suc n) d ≡ q = cc in subst (λ x. x.in_flight ≡ 0) same refl

-- From a new queue, over any arrivals, wake-ups, cancellations, abandoned waits and releases in any order,
-- where only a call that runs releases, and once: the calls that run are as many as the counter of
-- calls in flight says and at most the maximum, the waiters are within the depth, and their number
-- is that of the entries in the set of waiters.
pub run-IsBounded :
    (max depth : ℤ) (q : BoundedQueue) (es : List Event)
    → new_bounded_queue max depth ≡ ok q
    → (let s = run (record { queue = q; callers = []; running = 0 }) es in
        (s.running ≡ s.queue.in_flight)
        × (s.running ≤ pos_part max)
        × (s.queue.waiters ≤ pos_part depth)
        × (s.queue.waiters ≡ length s.queue.current_waiters))
run-IsBounded max depth q es h =
    let start : System = record { queue = q; callers = []; running = 0 } in
    let first = new-IsBounded max depth q h in
    let b =
      run-Holds (pos_part max) (pos_part depth) start es
        (record { bounds = first; held = idle max depth q h }) in
    (sym b.held, omega (arith, b.held, b.bounds.flight), b.bounds.queue, b.bounds.counted)
