-- ===== src/Queue/Operation/Transitions.antt =====
-- The state diagram in the header of backend/internal/offlinequeue/queue.go.
use sthira.Prelude.{ℕ, ◌≡◌, String, Bool, true, false, arith, ◌⊎◌, not, ◌&&◌}
use sthira.Prelude.Result.{Result, ok, err}
use sthira.Queue.Operation.{
  OpState, pending, in_flight, pending_reconciliation, PendingOperation, QueueError, is_terminal,
  set_committed, set_failed_stale, set_failed_perm, set_pending_reconciliation, set_in_flight,
}

-- What the setters ask for.
pub data Setter : Type 0 where
  commit stale perm : ℕ → ℕ → String → Setter
  reconcile : ℕ → String → Setter
  dispatch : Setter

unfoldable pub apply : Setter → PendingOperation → Result QueueError PendingOperation
apply (commit now status result) op = set_committed op now status result
apply (stale now status msg) op = set_failed_stale op now status msg
apply (perm now status msg) op = set_failed_perm op now status msg
apply (reconcile status msg) op = set_pending_reconciliation op status msg
apply dispatch op = set_in_flight op

-- The edges of the diagram.
infix 40 ◌⟶◌
pub data ◌⟶◌ : OpState → OpState → Type 0 where
  send : {s : OpState} → (s ≡ pending) ⊎ (s ≡ pending_reconciliation) → s ⟶ in_flight
  settle : {s t : OpState} → is_terminal s ≡ false → is_terminal t ≡ true → s ⟶ t
  doubt : {s : OpState} → is_terminal s ≡ false → s ⟶ pending_reconciliation

ruleset edges = (send, settle, doubt)

-- What was intended, and may not change: everything but the outcome.
pub record SameIntent (a b : PendingOperation) : Type 0 where
  pub id : b.id ≡ a.id
  pub idempotency_key : b.idempotency_key ≡ a.idempotency_key
  pub endpoint : b.endpoint ≡ a.endpoint
  pub method : b.method ≡ a.method
  pub token_ref : b.token_ref ≡ a.token_ref
  pub payload : b.payload ≡ a.payload
  pub payload_hash : b.payload_hash ≡ a.payload_hash
  pub snapshot_version : b.snapshot_version ≡ a.snapshot_version
  pub selection_expiry : b.selection_expiry ≡ a.selection_expiry

-- A setter that accepts follows an edge of the diagram, and keeps what was intended.
pub apply-edge :
    (s : Setter) (op op' : PendingOperation)
    → apply s op ≡ ok op'
    → (op.state ⟶ op'.state) × SameIntent op op'
unfolding apply set_committed set_failed_stale set_failed_perm set_pending_reconciliation
    set_in_flight
apply-edge (commit now status result) op op' h =
    (settle (ground arith) (ground arith), ground arith)
apply-edge (stale now status msg) op op' h = (settle (ground arith) (ground arith), ground arith)
apply-edge (perm now status msg) op op' h = (settle (ground arith) (ground arith), ground arith)
apply-edge (reconcile status msg) op op' h =
    let st : op'.state ≡ pending_reconciliation = ground arith in
    (rw st (doubt (ground arith)), ground arith)
apply-edge dispatch op op' h =
    let st : op'.state ≡ in_flight = ground arith in (rw st (send (ground arith)), ground arith)

abbrev pub is_ok {ℓ κ} : {E : Type ℓ} {A : Type κ} → Result E A → Bool
is_ok (ok a) = true
is_ok (err e) = false

abbrev pub is_dispatch : Setter → Bool
is_dispatch dispatch = true
is_dispatch _ = false

abbrev pub is_in_flight : OpState → Bool
is_in_flight in_flight = true
is_in_flight _ = false

-- A setter accepts an operation exactly where it is not in a terminal state, but that one already
-- in flight is not dispatched again.
pub apply_accepts :
    (op : PendingOperation) (s : Setter)
    → is_ok (apply s op)
      ≡ (not (is_terminal op.state) && not (is_dispatch s && is_in_flight op.state))
unfolding apply set_committed set_failed_stale set_failed_perm set_pending_reconciliation
    set_in_flight
apply_accepts op (commit now status result) = ground arith
apply_accepts op (stale now status msg) = ground arith
apply_accepts op (perm now status msg) = ground arith
apply_accepts op (reconcile status msg) = ground arith
apply_accepts op dispatch = ground arith
