-- ===== src/Admission/Abandoned.antt =====
-- A wait that is abandoned in backend/internal/orchestration/admission.go.
use sthira.Prelude.{
  ℕ, suc, ◌+◌, ◌≤◌, ◌≡◌, refl, sym, subst, List, [], ◌∷◌, arith, length, ltb, leb, false,
}
use sthira.Admission.{
  System, Event, arrives, abandons, saturated, acquire, enter, remove_waiter, step, run,
}

-- Each of some callers arrives and gives up.
abbrev pub come_and_go : List ℕ → List Event
come_and_go [] = []
come_and_go (w ∷ ws) = arrives w ∷ abandons w ∷ come_and_go ws

remove_waiter-head : (w : ℕ) (ws : List ℕ) → remove_waiter w (w ∷ ws) ≡ ws
unfolding remove_waiter
remove_waiter-head w ws = ground arith

-- An arrival at a busy queue with room, and its abandonment.
one_leaks :
    (s : System) (w : ℕ)
    → s.queue.in_flight ≡ s.queue.max
    → suc s.queue.waiters ≤ s.queue.queue_max
    → step (step s (arrives w)) (abandons w) ≡ record s { queue = enter w s.queue }
unfolding step acquire
one_leaks s w busy room =
    let full : ltb s.queue.in_flight s.queue.max ≡ false = ground arith in
    let free : leb s.queue.queue_max s.queue.waiters ≡ false = ground arith in
    rw (full, free, remove_waiter-head w s.callers) refl

-- The callers are those of before, the places to wait are used up, and so are the slots.
abbrev Leaked : System → System → Type 0
Leaked s t =
    (t.callers ≡ s.callers)
    × (t.queue.waiters ≡ s.queue.queue_max)
    × (t.queue.queue_max ≡ s.queue.queue_max)
    × (t.queue.in_flight ≡ t.queue.max)

run_leaks :
    (s : System) (ws : List ℕ)
    → s.queue.in_flight ≡ s.queue.max
    → s.queue.waiters + length ws ≡ s.queue.queue_max
    → Leaked s (run s (come_and_go ws))
unfolding run
run_leaks s [] busy e = (refl, omega arith, refl, busy)
run_leaks s (w ∷ ws) busy e =
    subst (λ x. Leaked s (run x (come_and_go ws))) (sym (one_leaks s w busy (omega arith)))
      (run_leaks (record s { queue = enter w s.queue }) ws busy (omega arith))

-- At a queue with all slots taken, as many callers as there are places left, each of which arrives and
-- gives up at the top of its loop before its watcher ran, leave nobody behind in the loop, and yet the
-- next arrival is refused as if the queue were full.
pub abandoned_waiters_saturate :
    (s : System) (ws : List ℕ) (w : ℕ)
    → s.queue.in_flight ≡ s.queue.max
    → s.queue.waiters + length ws ≡ s.queue.queue_max
    → ((run s (come_and_go ws)).callers ≡ s.callers)
      × ((acquire (run s (come_and_go ws)).queue w).0 ≡ saturated)
unfolding acquire
abandoned_waiters_saturate s ws w busy e =
    let (callers, waiters, depth, full) = run_leaks s ws busy e in
    (callers, ground (arith, waiters, depth, full))
