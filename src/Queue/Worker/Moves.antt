-- ===== src/Queue/Worker/Moves.antt =====
-- The setters of backend/internal/offlinequeue/queue.go on an operation that is not terminal, and what an
-- update of store.go leaves to read.
use sthira.Prelude.{ℕ, ◌≡◌, ◌∙◌, refl, inl, inr, String, false, str_eq, eq_refl, Bool-cases}
use sthira.Prelude.Result.{ok, >>=-eq-ok, past, reject_if}
use sthira.Queue.Operation.{
  OpState, in_flight, pending_reconciliation, committed, failed_stale, failed_perm,
  PendingOperation, QueueError, is_terminal, set_committed, set_failed_stale, set_failed_perm,
  set_pending_reconciliation, set_in_flight, bump_retry, selection_still_valid, terminal_state,
  update_needs_id, dispatchable, not_dispatchable,
}
use sthira.Queue.Operation as Operation
use sthira.Queue.Store.{Store, hashed, encoded, read_one, update_state, preserved}
use sthira.Queue.Store.Lookups.{write-read_one}
use sthira.Queue.Worker.{ignoring}

-- What is on disk of an operation, but for the format of its payload.
abbrev pub Same : Operation.Library → PendingOperation → PendingOperation → Type 0
Same lib e op =
    (e.state ≡ op.state)
    × (e.idempotency_key ≡ op.idempotency_key)
    × (e.payload ≡ lib.reformat op.payload)
    × (e.endpoint ≡ op.endpoint)
    × (str_eq op.payload_hash "" ≡ false → e.payload_hash ≡ op.payload_hash)

encoded-Same :
    (lib : Operation.Library) (op : PendingOperation) → Same lib (encoded lib (hashed lib op)) op
encoded-Same lib op = elim (Bool-cases (str_eq op.payload_hash "")) [
  | inl e ↦ (rw e refl, rw e refl, rw e refl, rw e refl, (λ f. cc))
  | inr e ↦ (rw e refl, rw e refl, rw e refl, rw e refl, (λ f. rw e refl))
]

-- An update shows in the entry that it names.
pub update_state-read_one :
    (lib : Operation.Library) (st st' : Store) (op : PendingOperation)
    → update_state lib st op ≡ ok st'
    → (prev e : PendingOperation) × (read_one st op.id ≡ ok prev)
      × (read_one st' op.id ≡ ok e)
      × Same lib e (preserved lib prev op)
unfolding update_state
update_state-read_one lib st st' op h =
    let h1 = past (str_eq (lib.trim_space op.id) "") _ _ h in
    let (prev, r, h2) = >>=-eq-ok (read_one st op.id) _ h1 in
    let (_, t, h3) = >>=-eq-ok (reject_if (is_terminal prev.state) terminal_state) _ h2 in
    (
      prev,
      encoded lib (hashed lib (preserved lib prev op)),
      r,
      write-read_one lib st st' (preserved lib prev op) op.id h3
          ∙ (rw (eq_refl (st.path_for op.id)) refl),
      encoded-Same lib (preserved lib prev op),
    )

-- An operation of this id that is not terminal.
pub record Live (id : String) (op : PendingOperation) : Type 0 where
  pub same_id : op.id ≡ id
  pub live : is_terminal op.state ≡ false

abbrev pub Moves : PendingOperation → OpState → PendingOperation → Type 0
Moves op s op' = (op'.id ≡ op.id) × (op'.state ≡ s)

module _ (op : PendingOperation) (live : is_terminal op.state ≡ false) (now status : ℕ)
    (msg : String) where
  pub committed-Moves : Moves op committed (ignoring op (set_committed op now status msg))
  unfolding set_committed
  committed-Moves = rw live (refl, refl)

  pub stale-Moves : Moves op failed_stale (ignoring op (set_failed_stale op now status msg))
  unfolding set_failed_stale
  stale-Moves = rw live (refl, refl)

  pub perm-Moves : Moves op failed_perm (ignoring op (set_failed_perm op now status msg))
  unfolding set_failed_perm
  perm-Moves = rw live (refl, refl)

  pub reconciliation-Moves :
      (op' : PendingOperation) × (set_pending_reconciliation op status msg ≡ ok op')
      × Moves op pending_reconciliation op'
  unfolding set_pending_reconciliation
  reconciliation-Moves = rw live (_, refl, (refl, refl))

pub bump_retry-same :
    (op : PendingOperation) (status : ℕ) (msg : String)
    → Moves op op.state (bump_retry op status msg)
unfolding bump_retry
bump_retry-same op status msg = (refl, refl)
