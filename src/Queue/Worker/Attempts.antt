-- ===== src/Queue/Worker/Attempts.antt =====
-- The retry loop of backend/internal/offlinequeue/worker.go.
use sthira.Prelude.{
  ℕ, zero, suc, ◌+◌, ◌≤◌, ◌≡◌, ◌≢◌, ◌∙◌, refl, inl, inr, String, not, ◌&&◌, Option, none, some,
  arith, ◌==◌, leb, ltb, Bool-cases, subst,
}
use sthira.Prelude.Result.{Result, ok, err}
use sthira.Queue.Operation.{
  OpState, in_flight, pending_reconciliation, committed, failed_stale, failed_perm,
  PendingOperation, QueueError, is_terminal, set_committed, set_failed_stale, set_failed_perm,
  set_pending_reconciliation, set_in_flight, bump_retry, selection_still_valid, terminal_state,
  update_needs_id, dispatchable, not_dispatchable,
}
use sthira.Queue.Operation as Operation
use sthira.Queue.Store.{Store, update_state}
use sthira.Queue.Worker.{
  ReplayConfig, outcome_committed, outcome_stale, outcome_perm, outcome_pending_reconciliation,
  World, Exchange, no_answer, response, Submitted, ignoring, retry, on_verdict, on_refusal,
  on_exchange, attempts, submit_current, mark_in_flight, marked, is_in_flight, is_reconciliation,
  with_token, server_error_message,
}
use sthira.Queue.Worker.Moves.{
  Live, Moves, committed-Moves, stale-Moves, perm-Moves, reconciliation-Moves,
}
use sthira.Queue.Worker.Codes.{
  is_auth_failure, is_stale_code, is_permanent_code, is_transient_client_code,
}
use sthira.Queue.Worker.Envelope.{Verdict, accepted, rejected, validate_success_envelope}
use sthira.Queue.Worker.Envelope as Envelope
use sthira.Queue.Worker.Runs.{Updated, here, Good, saved-Good, save-finish-Good, reconcile-Good}

module _ (lib : Operation.Library) (codec : Envelope.Library) (world : World) (cfg : ReplayConfig)
    (id : String) (start : Store) where
  -- What the rest of the loop owes after an attempt that is not the last.
  abbrev Again : ℕ → (Store → PendingOperation → Submitted) → Type 0
  Again attempt again =
      (st : Store) (op : PendingOperation)
      → Updated lib id start st
      → Live id op
      → attempt + 1 ≢ cfg.max_attempts
      → Good lib id start (again st op)

  pub bumped-Live :
      (op : PendingOperation) (status : ℕ) (msg : String)
      → Live id op
      → Live id (bump_retry op status msg)
  unfolding bump_retry
  bumped-Live op status msg l = record { same_id = l.same_id; live = l.live }

  pub ignored_reconciliation :
      (op : PendingOperation) (status : ℕ) (msg : String)
      → Live id op
      → Moves op pending_reconciliation (ignoring op (set_pending_reconciliation op status msg))
  ignored_reconciliation op status msg l =
      let (op', q, m) = reconciliation-Moves op l.live 0 status msg in rw q m

  retry-Good :
      (op : PendingOperation) (attempt status : ℕ) (msg exhausted : String)
      (again : Store → PendingOperation → Submitted) (st : Store)
      → Updated lib id start st
      → Live id op
      → Again attempt again
      → Good lib id start (retry lib codec world cfg op attempt status msg exhausted again st)
  retry-Good op attempt status msg exhausted again st u l f =
      let op1 = bump_retry op status msg in
      let l1 = bumped-Live op status msg l in
      saved-Good lib codec world cfg id start st op1 (update_state lib st op1) _ u l1.same_id refl
        (λ st' u' q. elim (Bool-cases (attempt + 1 == cfg.max_attempts)) [
          | inl e ↦
              let (i, s) = ignored_reconciliation op1 status exhausted l1 in
              rw e (
                save-finish-Good lib codec world cfg id start st' _ outcome_pending_reconciliation
                  pending_reconciliation u' (i ∙ l1.same_id) s refl)
          | inr e ↦ rw e (elim (Bool-cases (world.interrupted attempt)) [
            | inl c ↦ rw c (record { updated = u'; tells = tt })
            | inr c ↦ rw c (f st' op1 u' l1 (λ same. ground arith))
          ])
        ])

  on_verdict-Good :
      (st : Store) (op : PendingOperation) (status : ℕ) (body : String) (v : Verdict)
      → Updated lib id start st
      → Live id op
      → Good lib id start (on_verdict lib codec world cfg st op status body v)
  on_verdict-Good st op status body accepted u l =
      let (i, s) = committed-Moves op l.live world.later status body in
      save-finish-Good lib codec world cfg id start st _ outcome_committed committed u
        (i ∙ l.same_id) s refl
  on_verdict-Good st op status body (rejected code reason) u l =
      reconcile-Good lib codec world cfg id start st op status _ u l

  on_refusal-Good :
      (st : Store) (op : PendingOperation) (attempt status : ℕ) (code : String)
      (again : Store → PendingOperation → Submitted)
      → Updated lib id start st
      → Live id op
      → Again attempt again
      → Good lib id start (on_refusal lib codec world cfg st op attempt status code again)
  unfolding on_refusal
  on_refusal-Good st op attempt status code again u l f =
      elim (Bool-cases (is_auth_failure status)) [
        | inl e ↦ rw e (reconcile-Good lib codec world cfg id start st op status _ u l)
        | inr e ↦ rw e (elim (Bool-cases (is_stale_code code)) [
          | inl e1 ↦ rw e1 (
              let (i, s) =
                stale-Moves op l.live world.later status
                  (server_error_message lib codec world cfg status code) in
              save-finish-Good lib codec world cfg id start st _ outcome_stale failed_stale u
                (i ∙ l.same_id) s refl)
          | inr e1 ↦ rw e1 (elim (Bool-cases (is_permanent_code code)) [
            | inl e2 ↦ rw e2 (
                let (i, s) =
                  perm-Moves op l.live world.later status
                    (server_error_message lib codec world cfg status code) in
                save-finish-Good lib codec world cfg id start st _ outcome_perm failed_perm u
                  (i ∙ l.same_id) s refl)
            | inr e2 ↦ rw e2 (elim (Bool-cases (is_transient_client_code status code)) [
              | inl e3 ↦ rw e3 (retry-Good op attempt status _ _ again st u l f)
              | inr e3 ↦ rw e3 (retry-Good op attempt status _ _ again st u l f)
            ])
          ])
        ])
      ]

  on_exchange-Good :
      (st : Store) (op : PendingOperation) (attempt : ℕ) (x : Exchange)
      (again : Store → PendingOperation → Submitted)
      → Updated lib id start st
      → Live id op
      → Again attempt again
      → Good lib id start (on_exchange lib codec world cfg st op attempt x again)
  unfolding on_exchange
  on_exchange-Good st op attempt (no_answer msg) again u l f =
      reconcile-Good lib codec world cfg id start st op 0 msg u l
  on_exchange-Good st op attempt (response status body) again u l f =
      elim (Bool-cases (leb 200 status && ltb status 300)) [
        | inl e ↦ rw e (on_verdict-Good st op status body _ u l)
        | inr e ↦ rw e (on_refusal-Good st op attempt status _ again u l f)
      ]

  pub in_flight-Live :
      (op op' : PendingOperation) → set_in_flight op ≡ ok op' → Live id op → Live id op'
  unfolding set_in_flight
  in_flight-Live op op' h l = elim (Bool-cases (dispatchable op.state)) [
    | inl e ↦
        let q : record op { state = in_flight } ≡ op' = ground arith in
        subst (Live id) q (record { same_id = l.same_id; live = refl })
    | inr e ↦
        (let q : ◌≡◌ {A = Result QueueError PendingOperation} (err not_dispatchable) (ok op') =
            (rw (e, set_in_flight) at h) in
          cc)
  ]

  -- What follows the mark owes for every operation of this id that is not terminal.
  abbrev Goes : (Store → PendingOperation → Submitted) → Type 0
  Goes go =
      (st : Store) (op : PendingOperation)
      → Updated lib id start st
      → Live id op
      → Good lib id start (go st op)

  marked-Good :
      (st : Store) (op : PendingOperation) (r : Result QueueError PendingOperation)
      (go : Store → PendingOperation → Submitted)
      → set_in_flight op ≡ r
      → Updated lib id start st
      → Live id op
      → Goes go
      → Good lib id start (marked lib codec world cfg st r go)
  marked-Good st op (err e) go h u l f = record { updated = u; tells = tt }
  marked-Good st op (ok op') go h u l f =
      let l' = in_flight-Live op op' h l in
      saved-Good lib codec world cfg id start st op' (update_state lib st op') _ u l'.same_id refl
        (λ st' u' q. f st' op' u' l')

  mark_in_flight-Good :
      (st : Store) (op : PendingOperation) (attempt : ℕ) (go : Store → PendingOperation → Submitted)
      → Updated lib id start st
      → Live id op
      → Goes go
      → Good lib id start (mark_in_flight lib codec world cfg st op attempt go)
  mark_in_flight-Good st op attempt go u l f =
      elim (Bool-cases (attempt == 0 && not (is_in_flight lib codec world cfg op.state))) [
        | inl e ↦ rw e (marked-Good st op (set_in_flight op) go refl u l f)
        | inr e ↦ rw e (f st op u l)
      ]

  attempts-Good :
      (left attempt : ℕ) (st : Store) (op : PendingOperation)
      → left + attempt ≡ cfg.max_attempts
      → 1 ≤ left
      → Updated lib id start st
      → Live id op
      → Good lib id start (attempts lib codec world cfg left attempt st op)
  unfolding attempts
  attempts-Good zero attempt st op e p u l = absurd (omega arith)
  attempts-Good (suc left) attempt st op e p u l =
      let again : Again attempt (attempts lib codec world cfg left (attempt + 1)) =
        λ st' op' u' l' n.
          attempts-Good left (attempt + 1) st' op' (omega arith) (omega arith) u' l' in
      elim (Bool-cases (world.cancelled attempt)) [
        | inl c ↦ rw c (record { updated = u; tells = tt })
        | inr c ↦ rw c (
            mark_in_flight-Good st op attempt _ u l (λ st' op' u' l'.
              on_exchange-Good st' op' attempt (world.exchange attempt) _ u' l' again))
      ]

  pub submit_current-Good :
      (r : Result QueueError PendingOperation)
      → 1 ≤ cfg.max_attempts
      → ((op : PendingOperation) → r ≡ ok op → op.id ≡ id)
      → Good lib id start (submit_current lib codec world cfg start r)
  submit_current-Good (err e) p i = record { updated = here; tells = tt }
  submit_current-Good (ok op) p i = elim (Bool-cases (is_terminal op.state)) [
    | inl t ↦ rw t (record { updated = here; tells = tt })
    | inr t ↦
        rw t
          (elim (Bool-cases (
            not (is_reconciliation lib codec world cfg op.state)
            && not (selection_still_valid op world.now))) [
              | inl e ↦ rw e (
                  let (j, s) =
                    stale-Moves op t world.now 0
                      "offlinequeue: selection window expired; submit a new operation with a fresh confirmation" in
                  save-finish-Good lib codec world cfg id start start _ outcome_stale failed_stale
                    here (j ∙ i op refl) s refl)
              | inr e ↦
                  rw e (with_token-Good op world.token (record { same_id = i op refl; live = t }))
            ])
  ]
    where
      with_token-Good :
          (op : PendingOperation) (token : Option String)
          → Live id op
          → Good lib id start (with_token lib codec world cfg token start op)
      with_token-Good op none l = record { updated = here; tells = tt }
      with_token-Good op (some token) l =
          attempts-Good cfg.max_attempts 0 start op (omega arith) p here l
