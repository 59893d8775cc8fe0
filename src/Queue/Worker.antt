-- ===== src/Queue/Worker.antt =====
-- backend/internal/offlinequeue/worker.go: the replay of queued operations. What a dispatch gives back,
-- the clock, the tokens, cancellation and the sleeps are given for each attempt by a `World`.
pub mod Envelope
pub mod Codes
pub mod Moves
pub mod Runs
pub mod Attempts
pub mod Finishes
pub mod Settled
pub mod Backoff
pub mod Drain
use sthira.Prelude.{
  ℕ, zero, suc, ◌+◌, ◌*◌, ◌<◌, String, Bool, true, false, not, ◌&&◌, ◌||◌, Option, none, some, List,
  [], ◌∷◌, str_eq, leb, ltb, ◌==◌, if◌then◌else◌,
}
use sthira.Prelude.Int.{ℤ, pos, negsuc, positive_or}
use sthira.Prelude.Result.{Result, ok, err}
use sthira.Queue.Operation.{
  OpState, in_flight, pending_reconciliation, PendingOperation, QueueError, no_such_operation,
  is_terminal, set_committed, set_failed_stale, set_failed_perm, set_pending_reconciliation,
  set_in_flight, bump_retry, selection_still_valid,
}
use sthira.Queue.Operation as Operation
use sthira.Queue.Store.{Store, read_one, update_state, peek_pending}
use sthira.Queue.Worker.Codes.{
  extract_server_error_code, is_auth_failure, is_stale_code, is_permanent_code,
  is_transient_client_code,
}
use sthira.Queue.Worker.Envelope.{
  quoted, number, Verdict, accepted, rejected, validate_success_envelope,
}
use sthira.Queue.Worker.Envelope as Envelope

-- Durations are nanoseconds, below 2^62.
pub record ReplayConfig : Type 0 where
  pub max_attempts : ℕ
  pub base_delay : ℕ
  pub max_delay : ℕ

-- withDefaults, of what a caller passes
unfoldable pub with_defaults : ℤ → ℤ → ℤ → ReplayConfig
with_defaults attempts base most = record {
  max_attempts = positive_or 5 attempts;
  base_delay = positive_or 250000000 base;
  max_delay = positive_or 8000000000 most;
}

-- The loop of `backoff` with `n` rounds to go.
unfoldable pub backoff_loop : ℕ → ℕ → ℕ → ℕ
backoff_loop most zero d = if ltb most d then most else d
backoff_loop most (suc n) d =
    let rest = backoff_loop most n (d * 2) in if leb most (d * 2) then most else rest

unfoldable pub backoff : ReplayConfig → ℕ → ℕ
unfolding backoff_loop
backoff cfg attempt = backoff_loop cfg.max_delay attempt cfg.base_delay

pub data SubmitOutcome : Type 0 where
  outcome_committed outcome_stale outcome_perm outcome_skipped : SubmitOutcome
  outcome_pending_reconciliation : SubmitOutcome

pub data WorkerError : Type 0 where
  queue_error : QueueError → WorkerError
  context_error token_error sleep_error : WorkerError

-- What `PostJSON` gives back: a transport error, with its redacted message, or a status and a body.
pub data Exchange : Type 0 where
  no_answer : String → Exchange
  response : ℕ → String → Exchange

pub record World : Type 0 where
  pub cancelled : ℕ → Bool  -- ctx.Err() before an attempt
  pub interrupted : ℕ → Bool  -- the sleep after an attempt is cut short
  pub exchange : ℕ → Exchange
  pub token : Option String
  pub now : ℕ
  pub later : ℕ  -- the clock after the dispatch

abbrev pub Submitted : Type 0
Submitted = Store × Result WorkerError SubmitOutcome

-- _ = current.Set...
abbrev pub ignoring : PendingOperation → Result QueueError PendingOperation → PendingOperation
ignoring op (ok op') = op'
ignoring op (err e) = op

module _ (lib : Operation.Library) (codec : Envelope.Library) (world : World)
    (cfg : ReplayConfig) where
  -- if err := w.store.UpdateState(ctx, current); err != nil { return ..., err }
  abbrev pub saved : Result QueueError Store → Store → (Store → Submitted) → Submitted
  saved (ok st') st go = go st'
  saved (err e) st go = (st, err (queue_error e))

  abbrev pub save : Store → PendingOperation → (Store → Submitted) → Submitted
  save st op go = saved (update_state lib st op) st go

  abbrev pub finish : SubmitOutcome → Store → Submitted
  finish outcome st = (st, ok outcome)

  abbrev pub reconciled : Store → Result QueueError PendingOperation → Submitted
  reconciled st (err e) = (st, err (queue_error e))
  reconciled st (ok op) = save st op (finish outcome_pending_reconciliation)

  -- BumpRetry, SetPendingReconciliation and UpdateState
  unfoldable pub reconcile : Store → PendingOperation → ℕ → String → Submitted
  reconcile st op status msg =
      reconciled st (set_pending_reconciliation (bump_retry op status msg) status msg)

  abbrev pub server_error_message : ℕ → String → String
  server_error_message status code =
      if str_eq code ""
      then codec.sprintf "server returned %d" (number status ∷ [])
      else codec.sprintf "server returned %d %s" (number status ∷ quoted code ∷ [])

  abbrev pub rejection_message : String → String → String
  rejection_message code reason =
      if str_eq code ""
      then codec.sprintf "2xx envelope rejected: %s" (quoted reason ∷ [])
      else codec.sprintf "2xx envelope rejected: %s (code=%s)" (quoted reason ∷ quoted code ∷ [])

  -- The case of a status 2xx.
  abbrev pub on_verdict : Store → PendingOperation → ℕ → String → Verdict → Submitted
  on_verdict st op status body accepted =
      save st (ignoring op (set_committed op world.later status body)) (finish outcome_committed)
  on_verdict st op status body (rejected code reason) =
      reconcile st op status (rejection_message code reason)

  -- A retry, or the end of the budget; `again` is the rest of the loop.
  abbrev pub retry :
      PendingOperation
      → ℕ
      → ℕ
      → String
      → String
      → (Store → PendingOperation → Submitted)
      → Store
      → Submitted
  retry op attempt status msg exhausted again st = save st (bump_retry op status msg) (λ st'.
      if attempt + 1 == cfg.max_attempts
      then save st'
          (ignoring (bump_retry op status msg)
            (set_pending_reconciliation (bump_retry op status msg) status exhausted))
          (finish outcome_pending_reconciliation)
      else if world.interrupted attempt
      then (st', err sleep_error)
      else again st' (bump_retry op status msg))

  -- The default case of the switch, for an answer that is no success.
  unfoldable pub on_refusal :
      Store → PendingOperation → ℕ → ℕ → String → (Store → PendingOperation → Submitted) → Submitted
  unfolding reconcile
  on_refusal st op attempt status code again =
      if is_auth_failure status
      then reconcile st op status
          (codec.sprintf "auth failure: %s" (quoted (server_error_message status code) ∷ []))
      else if is_stale_code code
      then save st
          (ignoring op (set_failed_stale op world.later status (server_error_message status code)))
          (finish outcome_stale)
      else if is_permanent_code code
      then save st
          (ignoring op (set_failed_perm op world.later status (server_error_message status code)))
          (finish outcome_perm)
      else if is_transient_client_code status code
      then retry op attempt status (server_error_message status code)
          "retry budget exhausted on transient client code" again st
      else retry op attempt status (server_error_message status code)
          "retry budget exhausted on 5xx" again st

  abbrev pub error_code : String → String
  error_code body = extract_server_error_code (codec.error_envelope body)

  unfoldable pub on_exchange :
      Store → PendingOperation → ℕ → Exchange → (Store → PendingOperation → Submitted) → Submitted
  unfolding reconcile on_refusal
  on_exchange st op attempt (no_answer msg) again = reconcile st op 0 msg
  on_exchange st op attempt (response status body) again =
      if leb 200 status && ltb status 300
      then on_verdict st op status body
          (validate_success_envelope codec op.method op.endpoint status body op.payload)
      else on_refusal st op attempt status (error_code body) again

  abbrev pub marked :
      Store
      → Result QueueError PendingOperation
      → (Store → PendingOperation → Submitted)
      → Submitted
  marked st (err e) go = (st, err (queue_error e))
  marked st (ok op) go = save st op (λ st'. go st' op)

  abbrev pub is_in_flight : OpState → Bool
  is_in_flight in_flight = true
  is_in_flight _ = false

  -- IN_FLIGHT is written before the first dispatch.
  abbrev pub mark_in_flight :
      Store → PendingOperation → ℕ → (Store → PendingOperation → Submitted) → Submitted
  mark_in_flight st op attempt go =
      if attempt == 0 && not (is_in_flight op.state)
      then marked st (set_in_flight op) go
      else go st op

  -- The loop over the attempts; `left` of them are to come.
  unfoldable pub attempts : ℕ → ℕ → Store → PendingOperation → Submitted
  unfolding on_exchange
  attempts zero attempt st op = (st, ok outcome_perm)
  attempts (suc left) attempt st op =
      let again = attempts left (attempt + 1) in
      if world.cancelled attempt
      then (st, err context_error)
      else mark_in_flight st op attempt
          (λ st' op'. on_exchange st' op' attempt (world.exchange attempt) again)

  abbrev pub with_token : Option String → Store → PendingOperation → Submitted
  with_token none st op = (st, err token_error)
  with_token (some token) st op = attempts cfg.max_attempts 0 st op

  abbrev pub is_reconciliation : OpState → Bool
  is_reconciliation pending_reconciliation = true
  is_reconciliation _ = false

  abbrev pub submit_current : Store → Result QueueError PendingOperation → Submitted
  submit_current st (err e) = (st, ok outcome_skipped)
  submit_current st (ok op) =
      if is_terminal op.state
      then (st, ok outcome_skipped)
      else if not (is_reconciliation op.state) && not (selection_still_valid op world.now)
      then save st
          (ignoring op (
            set_failed_stale op world.now 0
              "offlinequeue: selection window expired; submit a new operation with a fresh confirmation"))
          (finish outcome_stale)
      else with_token world.token st op

  -- Submit
  unfoldable pub submit : Store → String → Submitted
  unfolding attempts read_one
  submit st id = submit_current st (read_one st id)
