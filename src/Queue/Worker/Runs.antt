-- ===== src/Queue/Worker/Runs.antt =====
-- What Submit of backend/internal/offlinequeue/worker.go leaves on disk.
use sthira.Prelude.{ℕ, zero, suc, ◌≤◌, ◌≡◌, ◌∙◌, refl, String, Option, none, some, arith, subst}
use sthira.Prelude.Int.{ℤ, pos, negsuc}
use sthira.Prelude.Result.{Result, ok, err}
use sthira.Queue.Operation.{
  OpState, in_flight, pending_reconciliation, committed, failed_stale, failed_perm,
  PendingOperation, QueueError, is_terminal, set_committed, set_failed_stale, set_failed_perm,
  set_pending_reconciliation, set_in_flight, bump_retry, selection_still_valid, terminal_state,
  update_needs_id, dispatchable, not_dispatchable,
}
use sthira.Queue.Operation as Operation
use sthira.Queue.Store.{Store, read_one, update_state}
use sthira.Queue.Worker.{
  ReplayConfig, SubmitOutcome, outcome_committed, outcome_stale, outcome_perm, outcome_skipped,
  outcome_pending_reconciliation, World, Submitted, saved, save, finish, reconcile, with_defaults,
}
use sthira.Queue.Worker.Moves.{update_state-read_one, Live, reconciliation-Moves, bump_retry-same}
use sthira.Queue.Worker.Envelope.{Verdict, accepted, rejected, validate_success_envelope}
use sthira.Queue.Worker.Envelope as Envelope

-- The state on disk that an outcome stands for; a skipped operation is any.
abbrev pub state_of : SubmitOutcome → Option OpState
state_of outcome_committed = some committed
state_of outcome_stale = some failed_stale
state_of outcome_perm = some failed_perm
state_of outcome_skipped = none
state_of outcome_pending_reconciliation = some pending_reconciliation

abbrev pub OnDisk : String → Store → Option OpState → Type 0
OnDisk id st none = Unit
OnDisk id st (some s) = (e : PendingOperation) × (read_one st id ≡ ok e) × (e.state ≡ s)

abbrev pub Tells : String → Submitted → Type 0
Tells id (st, err e) = Unit
Tells id (st, ok o) = OnDisk id st (state_of o)

module _ (lib : Operation.Library) (id : String) (start : Store) where
  -- The stores that updates of one operation lead to.
  pub data Updated : Store → Type 0 where
    here : Updated start
    more :
        (st st' : Store) (op : PendingOperation)
        → Updated st
        → op.id ≡ id
        → update_state lib st op ≡ ok st'
        → Updated st'

  pub record Good (out : Submitted) : Type 0 where
    pub updated : Updated out.0
    pub tells : Tells id out

module _ (lib : Operation.Library) (codec : Envelope.Library) (world : World) (cfg : ReplayConfig)
    (id : String) (start : Store) where
  pub saved-Good :
      (st : Store) (op : PendingOperation) (r : Result QueueError Store) (go : Store → Submitted)
      → Updated lib id start st
      → op.id ≡ id
      → update_state lib st op ≡ r
      → ((st' : Store)
          → Updated lib id start st'
          → update_state lib st op ≡ ok st'
          → Good lib id start (go st'))
      → Good lib id start (saved lib codec world cfg r st go)
  saved-Good st op (ok st') go u i q f = f st' (more st st' op u i q) q
  saved-Good st op (err e) go u i q f = record { updated = u; tells = tt }

  pub save-finish-Good :
      (st : Store) (op : PendingOperation) (o : SubmitOutcome) (s : OpState)
      → Updated lib id start st
      → op.id ≡ id
      → op.state ≡ s
      → some s ≡ state_of o
      → Good lib id start (save lib codec world cfg st op (finish lib codec world cfg o))
  save-finish-Good st op o s u i is said =
      saved-Good st op (update_state lib st op) _ u i refl (λ st' u' q.
        let (prev, e, _, read, same) = update_state-read_one lib st st' op q in
        record { updated = u'; tells = subst (OnDisk id st') said (e, rw (← i) read, same.0 ∙ is) })

  pub reconcile-Good :
      (st : Store) (op : PendingOperation) (status : ℕ) (msg : String)
      → Updated lib id start st
      → Live id op
      → Good lib id start (reconcile lib codec world cfg st op status msg)
  unfolding reconcile
  reconcile-Good st op status msg u l =
      let (bi, bs) = bump_retry-same op status msg in
      let (op', q, (i, s)) =
        reconciliation-Moves (bump_retry op status msg) (rw bs l.live) 0 status msg in
      rw q (
        save-finish-Good st op' outcome_pending_reconciliation pending_reconciliation u
          (i ∙ bi ∙ l.same_id) s refl)

-- The attempts of a worker's configuration are at least one.
pub default_attempts : (a b c : ℤ) → 1 ≤ (with_defaults a b c).max_attempts
unfolding with_defaults
default_attempts (pos zero) b c = omega arith
default_attempts (pos (suc n)) b c = omega arith
default_attempts (negsuc n) b c = omega arith
