-- ===== src/Queue/Worker/Finishes.antt =====
-- Submit of backend/internal/offlinequeue/worker.go comes to an outcome.
use sthira.Prelude.{
  ℕ, zero, suc, ◌+◌, ◌≤◌, ◌≡◌, ◌≢◌, ◌∙◌, sym, refl, inl, inr, String, Bool, true, false, not, ◌&&◌,
  arith, str_eq, ◌==◌, leb, ltb, Bool-cases,
}
use sthira.Prelude.Result.{Result, ok, err, reject_if, ◌>>◌}
use sthira.Queue.Operation.{
  OpState, pending, PendingOperation, QueueError, is_terminal, set_in_flight, bump_retry,
  dispatchable, selection_still_valid, set_pending_reconciliation, set_committed, set_failed_stale,
  set_failed_perm, in_flight,
}
use sthira.Queue.Operation as Operation
use sthira.Queue.Store.{Store, read_one, update_state, write, preserved}
use sthira.Queue.Worker.{
  ReplayConfig, SubmitOutcome, outcome_committed, outcome_stale, outcome_perm, outcome_skipped,
  outcome_pending_reconciliation, World, Exchange, no_answer, response, Submitted, saved, save,
  finish, reconcile, retry, on_verdict, on_refusal, on_exchange, attempts, mark_in_flight,
  is_in_flight, server_error_message,
}
use sthira.Queue.Worker.Codes.{
  is_auth_failure, is_stale_code, is_permanent_code, is_transient_client_code,
}
use sthira.Queue.Worker.Envelope.{Verdict, accepted, rejected}
use sthira.Queue.Worker.Envelope as Envelope
use sthira.Queue.Worker.Moves.{
  Live, update_state-read_one, committed-Moves, stale-Moves, perm-Moves, reconciliation-Moves,
  bump_retry-same,
}

abbrev pub is_skipped : SubmitOutcome → Bool
is_skipped outcome_skipped = true
is_skipped _ = false

-- An outcome, and not that of a refused dispatch.
abbrev pub Done : Submitted → Type 0
Done out = (o : SubmitOutcome) × (out.1 ≡ ok o) × (is_skipped o ≡ false)

-- The entry on disk is not terminal.
abbrev pub Ready : String → Store → Type 0
Ready id st =
    (prev : PendingOperation) × (read_one st id ≡ ok prev) × (is_terminal prev.state ≡ false)

through : {E B : Type 0} (t : Bool) (e : E) (k : Result E B) → t ≡ false → (reject_if t e >> k) ≡ k
through true e k h = cc
through false e k h = refl

module _ (lib : Operation.Library) (codec : Envelope.Library) (world : World) (cfg : ReplayConfig)
    (id : String) (named : str_eq (lib.trim_space id) "" ≡ false)
    (calm : (n : ℕ) → world.interrupted n ≡ false)
    (quiet : (n : ℕ) → world.cancelled n ≡ false) where
  write-ok :
      (st : Store) (op : PendingOperation)
      → str_eq (lib.trim_space op.id) "" ≡ false
      → (st' : Store) × (write lib st op ≡ ok st')
  unfolding write
  write-ok st op n = (_, through _ _ _ n)

  update-ok :
      (st : Store) (op : PendingOperation)
      → Ready id st
      → op.id ≡ id
      → (st' : Store) × (update_state lib st op ≡ ok st')
  unfolding update_state
  update-ok st op (prev, r, live) i =
      let n : str_eq (lib.trim_space op.id) "" ≡ false = rw i named in
      let (st', w) = write-ok st (preserved lib prev op) n in
      let r' : read_one st op.id ≡ ok prev = rw i r in
      (st', through _ _ _ n ∙ rw r' (through _ _ _ live ∙ w))

  saved-Done :
      (st : Store) (op : PendingOperation) (r : Result QueueError Store) (go : Store → Submitted)
      → update_state lib st op ≡ r
      → Ready id st
      → op.id ≡ id
      → ((st' : Store) → update_state lib st op ≡ ok st' → Done (go st'))
      → Done (saved lib codec world cfg r st go)
  saved-Done st op (ok st') go q ready i f = f st' q
  saved-Done st op (err e) go q ready i f =
      let (st', p) = update-ok st op ready i in
      let no : ◌≡◌ {A = Result QueueError Store} (err e) (ok st') = sym q ∙ p in cc

  Ready-after :
      (st st' : Store) (op : PendingOperation)
      → update_state lib st op ≡ ok st'
      → Live id op
      → Ready id st'
  Ready-after st st' op q l =
      let (prev, e, _, read, same) = update_state-read_one lib st st' op q in
      (e, rw (← l.same_id) read, rw (same.0) l.live)

  pub save-Done :
      (st : Store) (op : PendingOperation) (o : SubmitOutcome)
      → Ready id st
      → op.id ≡ id
      → is_skipped o ≡ false
      → Done (save lib codec world cfg st op (finish lib codec world cfg o))
  save-Done st op o ready i s =
      saved-Done st op (update_state lib st op) _ refl ready i (λ st' q. (o, refl, s))

  reconcile-Done :
      (st : Store) (op : PendingOperation) (status : ℕ) (msg : String)
      → Ready id st
      → Live id op
      → Done (reconcile lib codec world cfg st op status msg)
  unfolding reconcile
  reconcile-Done st op status msg ready l =
      let (bi, bs) = bump_retry-same op status msg in
      let (op', q, (i, s)) =
        reconciliation-Moves (bump_retry op status msg) (rw bs l.live) 0 status msg in
      rw q (save-Done st op' outcome_pending_reconciliation ready (i ∙ bi ∙ l.same_id) refl)

  abbrev Again : ℕ → (Store → PendingOperation → Submitted) → Type 0
  Again attempt again =
      (st : Store) (op : PendingOperation)
      → Ready id st
      → Live id op
      → attempt + 1 ≢ cfg.max_attempts
      → Done (again st op)

  retry-Done :
      (op : PendingOperation) (attempt status : ℕ) (msg exhausted : String)
      (again : Store → PendingOperation → Submitted) (st : Store)
      → Ready id st
      → Live id op
      → Again attempt again
      → Done (retry lib codec world cfg op attempt status msg exhausted again st)
  retry-Done op attempt status msg exhausted again st ready l f =
      let op1 = bump_retry op status msg in
      let l1 = bumped op status msg l in
      saved-Done st op1 (update_state lib st op1) _ refl ready l1.same_id (λ st' q.
        elim (Bool-cases (attempt + 1 == cfg.max_attempts)) [
          | inl e ↦
              let (op2, p, (i, s)) = reconciliation-Moves op1 l1.live 0 status exhausted in
              rw (e, p)
                (save-Done st' op2 outcome_pending_reconciliation (Ready-after st st' op1 q l1)
                  (i ∙ l1.same_id) refl)
          | inr e ↦
              rw (e, calm attempt)
                (f st' op1 (Ready-after st st' op1 q l1) l1 (λ same. ground arith))
        ])
    where
      bumped :
          (op : PendingOperation) (status : ℕ) (msg : String)
          → Live id op
          → Live id (bump_retry op status msg)
      bumped op status msg l =
          let (bi, bs) = bump_retry-same op status msg in
          record { same_id = bi ∙ l.same_id; live = rw bs l.live }

  on_verdict-Done :
      (st : Store) (op : PendingOperation) (status : ℕ) (body : String) (v : Verdict)
      → Ready id st
      → Live id op
      → Done (on_verdict lib codec world cfg st op status body v)
  on_verdict-Done st op status body accepted ready l =
      let (i, s) = committed-Moves op l.live world.later status body in
      save-Done st _ outcome_committed ready (i ∙ l.same_id) refl
  on_verdict-Done st op status body (rejected code reason) ready l =
      reconcile-Done st op status _ ready l

  on_refusal-Done :
      (st : Store) (op : PendingOperation) (attempt status : ℕ) (code : String)
      (again : Store → PendingOperation → Submitted)
      → Ready id st
      → Live id op
      → Again attempt again
      → Done (on_refusal lib codec world cfg st op attempt status code again)
  unfolding on_refusal
  on_refusal-Done st op attempt status code again ready l f =
      elim (Bool-cases (is_auth_failure status)) [
        | inl e ↦ rw e (reconcile-Done st op status _ ready l)
        | inr e ↦ rw e (elim (Bool-cases (is_stale_code code)) [
          | inl e1 ↦ rw e1 (
              let (i, s) =
                stale-Moves op l.live world.later status
                  (server_error_message lib codec world cfg status code) in
              save-Done st _ outcome_stale ready (i ∙ l.same_id) refl)
          | inr e1 ↦ rw e1 (elim (Bool-cases (is_permanent_code code)) [
            | inl e2 ↦ rw e2 (
                let (i, s) =
                  perm-Moves op l.live world.later status
                    (server_error_message lib codec world cfg status code) in
                save-Done st _ outcome_perm ready (i ∙ l.same_id) refl)
            | inr e2 ↦ rw e2 (elim (Bool-cases (is_transient_client_code status code)) [
              | inl e3 ↦ rw e3 (retry-Done op attempt status _ _ again st ready l f)
              | inr e3 ↦ rw e3 (retry-Done op attempt status _ _ again st ready l f)
            ])
          ])
        ])
      ]

  on_exchange-Done :
      (st : Store) (op : PendingOperation) (attempt : ℕ) (x : Exchange)
      (again : Store → PendingOperation → Submitted)
      → Ready id st
      → Live id op
      → Again attempt again
      → Done (on_exchange lib codec world cfg st op attempt x again)
  unfolding on_exchange
  on_exchange-Done st op attempt (no_answer msg) again ready l f =
      reconcile-Done st op 0 msg ready l
  on_exchange-Done st op attempt (response status body) again ready l f =
      elim (Bool-cases (leb 200 status && ltb status 300)) [
        | inl e ↦ rw e (on_verdict-Done st op status body _ ready l)
        | inr e ↦ rw e (on_refusal-Done st op attempt status _ again ready l f)
      ]

  -- An operation that is not in flight and not terminal can be marked.
  can_mark :
      (op : PendingOperation)
      → Live id op
      → is_in_flight lib codec world cfg op.state ≡ false
      → (set_in_flight op ≡ ok (record op { state = in_flight }))
  unfolding set_in_flight
  can_mark op l n = ground arith

  mark_in_flight-Done :
      (st : Store) (op : PendingOperation) (attempt : ℕ) (go : Store → PendingOperation → Submitted)
      → Ready id st
      → Live id op
      → ((st' : Store) (op' : PendingOperation) → Ready id st' → Live id op' → Done (go st' op'))
      → Done (mark_in_flight lib codec world cfg st op attempt go)
  mark_in_flight-Done st op attempt go ready l f =
      elim (Bool-cases (attempt == 0 && not (is_in_flight lib codec world cfg op.state))) [
        | inl e ↦
            let n : is_in_flight lib codec world cfg op.state ≡ false = ground arith in
            let marked_op = record op { state = in_flight } in
            let l' : Live id marked_op = record { same_id = l.same_id; live = refl } in
            rw (e, can_mark op l n)
              (saved-Done st marked_op (update_state lib st marked_op) _ refl ready l.same_id
                (λ st' q. f st' marked_op (Ready-after st st' marked_op q l') l'))
        | inr e ↦ rw e (f st op ready l)
      ]

  pub attempts-Done :
      (left attempt : ℕ) (st : Store) (op : PendingOperation)
      → left + attempt ≡ cfg.max_attempts
      → 1 ≤ left
      → Ready id st
      → Live id op
      → Done (attempts lib codec world cfg left attempt st op)
  unfolding attempts
  attempts-Done zero attempt st op e p ready l = absurd (omega arith)
  attempts-Done (suc left) attempt st op e p ready l =
      let again : Again attempt (attempts lib codec world cfg left (attempt + 1)) =
        λ st' op' r' l' n.
          attempts-Done left (attempt + 1) st' op' (omega arith) (omega arith) r' l' in
      rw (quiet attempt) (
        mark_in_flight-Done st op attempt _ ready l (λ st' op' r' l'.
          on_exchange-Done st' op' attempt (world.exchange attempt) _ r' l' again))
