-- ===== src/Queue/Worker/Settled.antt =====
-- What a submission of backend/internal/offlinequeue/worker.go says and what it leaves alone.
use sthira.Prelude.{
  ℕ, ◌≡◌, ◌∙◌, refl, sym, ap, ◌⊎◌, String, false, some, str_eq, not, ◌&&◌, Bool-cases, inl, inr,
  arith,
}
use sthira.Prelude.Int.{ℤ}
use sthira.Prelude.Result.{Result, ok, >>=-eq-ok, past, reject_if}
use sthira.Queue.Operation.{
  PendingOperation, QueueError, is_terminal, terminal_state, selection_still_valid,
}
use sthira.Queue.Operation as Operation
use sthira.Queue.Store.{Store, read_one, update_state, preserved}
use sthira.Queue.Store.LiveKeys.{OneOpen, update_state-OneOpen}
use sthira.Queue.Store.Lookups.{write-path_for, write-read_one}
use sthira.Queue.Worker.{World, with_defaults, submit, outcome_stale, is_reconciliation}
use sthira.Queue.Worker.Envelope as Envelope
use sthira.Queue.Worker.Runs.{Updated, here, more, Tells, default_attempts}
use sthira.Queue.Worker.Attempts.{submit_current-Good}
use sthira.Queue.Worker.Moves.{update_state-read_one, stale-Moves}
use sthira.Queue.Worker.Finishes.{Done, attempts-Done, save-Done}

-- Where an entry has the id of its file, what Submit answers for it is what stands on disk: the entry
-- is committed, stale, failed or to be reconciled, as the outcome says, whatever the dispatches gave
-- back. Of an operation that was skipped nothing is said.
pub submit-Tells :
    (lib : Operation.Library) (codec : Envelope.Library) (world : World) (a b c : ℤ) (st : Store)
    (id : String)
    → ((op : PendingOperation) → read_one st id ≡ ok op → op.id ≡ id)
    → Tells id (submit lib codec world (with_defaults a b c) st id)
unfolding submit
submit-Tells lib codec world a b c st id i =
    (submit_current-Good lib codec world (with_defaults a b c) id st (read_one st id)
      (default_attempts a b c) i).tells

entry-injective :
    (op e : PendingOperation) → ◌≡◌ {A = Result QueueError PendingOperation} (ok op) (ok e) → op ≡ e
entry-injective op e h = cc

-- Where updates of one operation lead: the entries of other files read as before, and the intent
-- stays, with the payload the same JSON, as it was or reformatted.
pub record Kept (lib : Operation.Library) (id : String) (start st : Store) : Type 0 where
  pub same_dir : st.path_for ≡ start.path_for
  pub others :
      (j : String)
      → str_eq (start.path_for id) (start.path_for j) ≡ false
      → read_one st j ≡ read_one start j
  pub intent :
      (op e : PendingOperation)
      → read_one start id ≡ ok op
      → read_one st id ≡ ok e
      → (e.idempotency_key ≡ op.idempotency_key)
        × ((e.payload ≡ op.payload) ⊎ (e.payload ≡ lib.reformat op.payload))
        × (e.endpoint ≡ op.endpoint)
        × (str_eq op.payload_hash "" ≡ false → e.payload_hash ≡ op.payload_hash)
  pub one_open : OneOpen start → OneOpen st

module _ (lib : Operation.Library) (id : String) (start : Store)
    (settled : (s : String) → lib.reformat (lib.reformat s) ≡ lib.reformat s) where
  update-others :
      (st st' : Store) (op : PendingOperation) (j : String)
      → update_state lib st op ≡ ok st'
      → str_eq (st.path_for op.id) (st.path_for j) ≡ false
      → read_one st' j ≡ read_one st j
  unfolding update_state
  update-others st st' op j h n =
      let h1 = past (str_eq (lib.trim_space op.id) "") _ _ h in
      let (prev, r, h2) = >>=-eq-ok (read_one st op.id) _ h1 in
      let (_, t, h3) = >>=-eq-ok (reject_if (is_terminal prev.state) terminal_state) _ h2 in
      write-read_one lib st st' (preserved lib prev op) j h3 ∙ (rw n refl)

  update-path_for :
      (st st' : Store) (op : PendingOperation)
      → update_state lib st op ≡ ok st'
      → st'.path_for ≡ st.path_for
  unfolding update_state
  update-path_for st st' op h =
      let h1 = past (str_eq (lib.trim_space op.id) "") _ _ h in
      let (prev, r, h2) = >>=-eq-ok (read_one st op.id) _ h1 in
      let (_, t, h3) = >>=-eq-ok (reject_if (is_terminal prev.state) terminal_state) _ h2 in
      write-path_for lib st st' (preserved lib prev op) h3

  -- A payload that was reformatted already is not changed again.
  reformatted_once :
      (p q r : String)
      → p ≡ lib.reformat q
      → (q ≡ r) ⊎ (q ≡ lib.reformat r)
      → (p ≡ r) ⊎ (p ≡ lib.reformat r)
  reformatted_once p q r h (inl e) = inr (h ∙ ap lib.reformat e)
  reformatted_once p q r h (inr e) = inr (h ∙ ap lib.reformat e ∙ settled r)

  pub Updated-Kept : (st : Store) → Updated lib id start st → Kept lib id start st
  Updated-Kept st here = record {
    same_dir = refl;
    others = λ j n. refl;
    intent = λ op e p q.
        let same_entry = entry-injective op e (sym p ∙ q) in
        (
          ap (λ x. x.idempotency_key) (sym same_entry),
          inl (ap (λ x. x.payload) (sym same_entry)),
          ap (λ x. x.endpoint) (sym same_entry),
          (λ f. ap (λ x. x.payload_hash) (sym same_entry)),
        );
    one_open = λ o. o;
  }
  Updated-Kept st' (more st st2 op u i q) =
      let k = Updated-Kept st u in
      let (prev, e1, r, r', same) = update_state-read_one lib st st' op q in
      record {
        same_dir = update-path_for st st' op q ∙ k.same_dir;
        others = λ j n. update-others st st' op j q (rw (i, k.same_dir) n) ∙ k.others j n;
        intent = λ op0 e p q'.
            let same_entry = entry-injective e1 e (sym (rw i at r') ∙ q') in
            let (key, payload, endpoint, hash) = k.intent op0 prev p (rw i at r) in
            (
              ap (λ x. x.idempotency_key) (sym same_entry) ∙ same.1 ∙ key,
              reformatted_once e.payload prev.payload op0.payload
                  (ap (λ x. x.payload) (sym same_entry) ∙ same.2) payload,
              ap (λ x. x.endpoint) (sym same_entry) ∙ same.3 ∙ endpoint,
              (λ f. ap (λ x. x.payload_hash) (sym same_entry) ∙ same.4 (rw (hash f) f) ∙ hash f),
            );
        one_open = λ o. update_state-OneOpen lib st st' op q (k.one_open o);
      }

-- Where an entry has the id of its file and reformatting JSON twice is reformatting it once, its
-- submission touches no entry of another file, keeps that entry's idempotency key, endpoint and
-- payload hash, if there is one, and its payload, as it was or reformatted, and leaves at most one
-- open operation listed for each key, if there was at most one.
pub submit-Kept :
    (lib : Operation.Library) (codec : Envelope.Library) (world : World) (a b c : ℤ) (st : Store)
    (id : String)
    → (settled : (s : String) → lib.reformat (lib.reformat s) ≡ lib.reformat s)
    → ((op : PendingOperation) → read_one st id ≡ ok op → op.id ≡ id)
    → Kept lib id st (submit lib codec world (with_defaults a b c) st id).0
unfolding submit
submit-Kept lib codec world a b c st id settled i =
    Updated-Kept lib id st settled _
      (submit_current-Good lib codec world (with_defaults a b c) id st (read_one st id)
        (default_attempts a b c) i).updated

-- Submit of an operation that is on disk under its id and not terminal comes to an outcome, other than that
-- of a refused dispatch, whatever the server answers: where the token is known, nothing is cancelled or
-- interrupted, and the id is not blank.
pub submit_finishes :
    (lib : Operation.Library) (codec : Envelope.Library) (world : World) (a b c : ℤ) (st : Store)
    (id : String) (op : PendingOperation) (token : String)
    → read_one st id ≡ ok op
    → op.id ≡ id
    → is_terminal op.state ≡ false
    → str_eq (lib.trim_space id) "" ≡ false
    → ((n : ℕ) → world.interrupted n ≡ false)
    → ((n : ℕ) → world.cancelled n ≡ false)
    → world.token ≡ some token
    → Done (submit lib codec world (with_defaults a b c) st id)
unfolding submit
submit_finishes lib codec world a b c st id op token r i live named calm quiet known =
    let cfg = with_defaults a b c in
    elim (Bool-cases (
      not (is_reconciliation lib codec world cfg op.state)
      && not (selection_still_valid op world.now))) [
        | inl e ↦
            let (j, s) =
              stale-Moves op live world.now 0
                "offlinequeue: selection window expired; submit a new operation with a fresh confirmation" in
            rw (r, live, e)
              (save-Done lib codec world cfg id named calm quiet st _ outcome_stale (op, r, live)
                (j ∙ i) refl)
        | inr e ↦
            rw (r, live, e, known)
              (attempts-Done lib codec world cfg id named calm quiet cfg.max_attempts 0 st op
                (omega arith) (default_attempts a b c) (op, r, live)
                (record { same_id = i; live = live }))
      ]
