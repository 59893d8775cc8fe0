-- ===== src/Queue/Worker/Drain.antt =====
-- DrainQueue of backend/internal/offlinequeue/worker.go.
use sthira.Prelude.{
  ℕ, ◌+◌, ◌≡◌, refl, Bool, inl, inr, Option, none, some, List, [], ◌∷◌, arith, if◌then◌else◌,
  Bool-cases,
}
use sthira.Prelude.Result.{ok, err}
use sthira.Queue.Operation.{PendingOperation}
use sthira.Queue.Operation as Operation
use sthira.Queue.Store.{Store, peek_pending}
use sthira.Queue.Worker.{
  ReplayConfig, SubmitOutcome, outcome_committed, outcome_stale, outcome_perm, outcome_skipped,
  outcome_pending_reconciliation, WorkerError, context_error, World, Submitted, submit,
}
use sthira.Queue.Worker.Envelope as Envelope

pub record DrainReport : Type 0 where
  pub processed : ℕ
  pub committed : ℕ
  pub stale : ℕ
  pub failed : ℕ
  pub skipped : ℕ
  pub reconciliation : ℕ

abbrev empty_report : DrainReport
empty_report = record {
  processed = 0;
  committed = 0;
  stale = 0;
  failed = 0;
  skipped = 0;
  reconciliation = 0;
}

abbrev pub counted : DrainReport → SubmitOutcome → DrainReport
counted r outcome_committed = record r { processed = r.processed + 1; committed = r.committed + 1 }
counted r outcome_stale = record r { processed = r.processed + 1; stale = r.stale + 1 }
counted r outcome_perm = record r { processed = r.processed + 1; failed = r.failed + 1 }
counted r outcome_skipped = record r { processed = r.processed + 1; skipped = r.skipped + 1 }
counted r outcome_pending_reconciliation = record r {
  processed = r.processed + 1;
  reconciliation = r.reconciliation + 1;
}

-- The store, the report and the error, if one ended the drain.
abbrev pub Drained : Type 0
Drained = Store × DrainReport × Option WorkerError

-- `worlds` and `stopped` give, for the entries in turn, what their submission meets and ctx.Err().
module _ (lib : Operation.Library) (codec : Envelope.Library) (cfg : ReplayConfig)
    (worlds : ℕ → World) (stopped : ℕ → Bool) where
  abbrev pub after : Submitted → DrainReport → (Store → DrainReport → Drained) → Drained
  after (st, err e) r go = (st, r, some e)
  after (st, ok outcome) r go = go st (counted r outcome)

  unfoldable pub drain_loop : List PendingOperation → ℕ → Store → DrainReport → Drained
  drain_loop [] n st r = (st, r, none)
  drain_loop (op ∷ ops) n st r =
      let rest = drain_loop ops (n + 1) in
      if stopped n
      then (st, r, some context_error)
      else after (submit lib codec (worlds n) cfg st op.id) r rest

  unfoldable pub drain_queue : Store → Drained
  unfolding drain_loop
  drain_queue st = drain_loop (peek_pending st) 0 st empty_report

  abbrev AddsUp : DrainReport → Type 0
  AddsUp r = r.processed ≡ r.committed + r.stale + r.failed + r.skipped + r.reconciliation

  counted-AddsUp : (r : DrainReport) (o : SubmitOutcome) → AddsUp r → AddsUp (counted r o)
  counted-AddsUp r outcome_committed h = omega arith
  counted-AddsUp r outcome_stale h = omega arith
  counted-AddsUp r outcome_perm h = omega arith
  counted-AddsUp r outcome_skipped h = omega arith
  counted-AddsUp r outcome_pending_reconciliation h = omega arith

  after-AddsUp :
      (s : Submitted) (r : DrainReport) (go : Store → DrainReport → Drained)
      → ((st : Store) (r' : DrainReport) → AddsUp r' → AddsUp (go st r').1)
      → AddsUp r
      → AddsUp (after s r go).1
  after-AddsUp (st, err e) r go f h = h
  after-AddsUp (st, ok o) r go f h = f st (counted r o) (counted-AddsUp r o h)

  loop-AddsUp :
      (ops : List PendingOperation) (n : ℕ) (st : Store) (r : DrainReport)
      → AddsUp r
      → AddsUp (drain_loop ops n st r).1
  unfolding drain_loop
  loop-AddsUp [] n st r h = h
  loop-AddsUp (op ∷ ops) n st r h = elim (Bool-cases (stopped n)) [
    | inl e ↦ rw e h
    | inr e ↦
        rw e
          (after-AddsUp (submit lib codec (worlds n) cfg st op.id) r _ (loop-AddsUp ops (n + 1)) h)
  ]

  -- The report of a drain counts every operation that was processed under exactly one outcome.
  pub report_adds_up :
      (st : Store)
      → (let r = (drain_queue st).1 in
          r.processed ≡ r.committed + r.stale + r.failed + r.skipped + r.reconciliation)
  unfolding drain_queue
  report_adds_up st = loop-AddsUp (peek_pending st) 0 st empty_report refl
