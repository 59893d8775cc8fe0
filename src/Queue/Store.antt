-- ===== src/Queue/Store.antt =====
-- backend/internal/offlinequeue/store.go. A file is a path and the entry that it holds; ids go through
-- filepath.Join, so two ids may name one file, or a file outside the directory that is listed. File
-- operations and json.MarshalIndent succeed; JSON gives back every field as it was written but the
-- raw JSON ones, the payload and the server's result, which come back reformatted.
pub mod LiveKeys
pub mod History
pub mod Lookups
use sthira.Prelude.{
  ℕ, ◌+◌, ◌-◌, String, Bool, true, false, not, ◌||◌, Option, none, some, List, [], ◌∷◌, str_eq, leb,
  ltb, if◌then◌else◌, Map, lookup, insert, remove, values,
}
use sthira.Prelude.Result.{Result, ok, err, ◌>>=◌, ◌>>◌, reject_if}
use sthira.Queue.Operation.{
  OpState, pending, in_flight, pending_reconciliation, committed, PendingOperation, QueueError,
  payload_changed, operation_conflict, no_such_operation, terminal_state, update_needs_id,
  id_required, Library, is_terminal, dispatchable, validate, hash_payload,
}

-- `dir`, by what filepath.Join and os.ReadDir make of it, with the files by their paths: those that
-- os.ReadDir lists, and the others.
pub record Store : Type 0 where
  pub path_for : String → String  -- filepath.Join(s.dir, id+".json")
  pub in_dir : String → Bool  -- the path is of a file of `dir` itself
  pub files : Map PendingOperation
  pub elsewhere : Map PendingOperation

-- os.ReadFile, the rename of writeLocked, and os.Remove, by the path.
unfoldable pub read_file : Store → String → Option PendingOperation
read_file st path = if st.in_dir path then lookup path st.files else lookup path st.elsewhere

unfoldable pub write_file : Store → String → PendingOperation → Store
write_file st path op =
    if st.in_dir path
    then record st { files = insert path op st.files }
    else record st { elsewhere = insert path op st.elsewhere }

unfoldable pub remove_file : Store → String → Store
remove_file st path =
    if st.in_dir path
    then record st { files = remove path st.files }
    else record st { elsewhere = remove path st.elsewhere }

-- a.CreatedAt.Before(b.CreatedAt); the zero time is before every other.
abbrev before : Option ℕ → Option ℕ → Bool
before none none = false
before none (some t) = true
before (some s) none = false
before (some s) (some t) = ltb s t

-- sort.Slice by CreatedAt: an insertion sort, which is one of the orders that it may give.
unfoldable pub insert_by_created : PendingOperation → List PendingOperation → List PendingOperation
insert_by_created x [] = x ∷ []
insert_by_created x (y ∷ ys) =
    let rest = insert_by_created x ys in
    if before y.created_at x.created_at then y ∷ rest else x ∷ (y ∷ ys)

unfoldable pub sort_by_created : List PendingOperation → List PendingOperation
unfolding insert_by_created
sort_by_created [] = []
sort_by_created (x ∷ xs) = insert_by_created x (sort_by_created xs)

-- readAllLocked, and `List`
unfoldable pub read_all : Store → List PendingOperation
unfolding sort_by_created
read_all st = sort_by_created (values st.files)

-- readOneLocked, and `Get`
unfoldable pub read_one : Store → String → Result QueueError PendingOperation
unfolding read_file
read_one st id = elim (read_file st (st.path_for id)) [
  | none ↦ err no_such_operation
  | some op ↦ ok op
]

-- The loop of `Enqueue` over the entries that are there.
unfoldable pub conflict : List PendingOperation → PendingOperation → Option QueueError
conflict [] op = none
conflict (e ∷ es) op =
    let rest = conflict es op in
    if not (str_eq e.idempotency_key op.idempotency_key)
    then rest
    else if is_terminal e.state
    then rest
    else if not (str_eq e.payload_hash op.payload_hash)
    then some payload_changed
    else some operation_conflict

abbrev pub no_conflict : Option QueueError → Result QueueError (Unit {0})
no_conflict none = ok tt
no_conflict (some e) = err e

abbrev pub stamped : Option ℕ → ℕ → Option ℕ
stamped none now = some now
stamped (some t) now = some t

module _ (lib : Library) where
  abbrev pub hashed : PendingOperation → PendingOperation
  hashed op =
      if str_eq op.payload_hash ""
      then record op { payload_hash = hash_payload lib op.idempotency_key op.payload }
      else op

  -- What readOneLocked decodes of the text that writeLocked encodes; `server_result` is left out of
  -- it where it is empty.
  abbrev pub encoded : PendingOperation → PendingOperation
  encoded op = record op {
    payload = lib.reformat op.payload;
    server_result = if str_eq op.server_result "" then "" else lib.reformat op.server_result;
  }

  -- writeLocked
  unfoldable pub write : Store → PendingOperation → Result QueueError Store
  unfolding write_file
  write st op = do
    reject_if (str_eq (lib.trim_space op.id) "") id_required
    ok (write_file st (st.path_for op.id) (encoded (hashed op)))

  -- `Enqueue`; the clock is read at the validation and, for an operation with no time, at the write.
  unfoldable pub enqueue : Store → PendingOperation → ℕ → ℕ → Result QueueError Store
  unfolding conflict write
  enqueue st op0 now now' = do
    op ← validate lib op0 now
    no_conflict (conflict (read_all st) op)
    write st (record op { created_at = stamped op.created_at now' })

  -- The fields that `UpdateState` takes over from the entry on disk.
  abbrev pub preserved : PendingOperation → PendingOperation → PendingOperation
  preserved prev updated = record updated {
    idempotency_key = prev.idempotency_key;
    endpoint = prev.endpoint;
    method = prev.method;
    token_ref = prev.token_ref;
    payload = prev.payload;
    payload_hash = prev.payload_hash;
    snapshot_version = prev.snapshot_version;
    selection_expiry = prev.selection_expiry;
    created_at = prev.created_at;
  }

  unfoldable pub update_state : Store → PendingOperation → Result QueueError Store
  unfolding read_one write
  update_state st updated = do
    reject_if (str_eq (lib.trim_space updated.id) "") update_needs_id
    prev ← read_one st updated.id
    reject_if (is_terminal prev.state) terminal_state
    write st (preserved prev updated)

  abbrev recovered : PendingOperation → PendingOperation
  recovered op = record op {
    state = pending_reconciliation;
    retry_count = op.retry_count + 1;
    last_error = "reset: previous worker did not acknowledge";
  }

  abbrev is_in_flight : OpState → Bool
  is_in_flight in_flight = true
  is_in_flight _ = false

  -- The loop of `ResetStuckInFlight`.
  unfoldable pub reset_loop : List PendingOperation → Store → Result QueueError Store
  unfolding write
  reset_loop [] st = ok st
  reset_loop (op ∷ ops) st = elim (is_in_flight op.state) [
    | true ↦ (do st' ← write st (recovered op); reset_loop ops st')
    | false ↦ reset_loop ops st
  ]

  unfoldable pub reset_stuck_in_flight : Store → Result QueueError Store
  unfolding reset_loop read_all
  reset_stuck_in_flight st = reset_loop (read_all st) st

unfoldable pub delete : Store → String → Result QueueError Store
unfolding read_file remove_file
delete st id = elim (read_file st (st.path_for id)) [
  | none ↦ err no_such_operation
  | some op ↦ ok (remove_file st (st.path_for id))
]

-- PeekPending
unfoldable pub peek_from : List PendingOperation → List PendingOperation
peek_from [] = []
peek_from (op ∷ ops) = let rest = peek_from ops in if dispatchable op.state then op ∷ rest else rest

unfoldable pub peek_pending : Store → List PendingOperation
unfolding peek_from
peek_pending st = peek_from (read_all st)

abbrev is_committed : OpState → Bool
is_committed committed = true
is_committed _ = false

-- op.CommittedAt.IsZero() || op.CommittedAt.After(cutoff), with cutoff = now - older_than.
abbrev too_recent : Option ℕ → ℕ → ℕ → Bool
too_recent none now older_than = true
too_recent (some t) now older_than = ltb now (t + older_than)

abbrev pub is_purged : PendingOperation → ℕ → ℕ → Bool
is_purged op now older_than =
    if is_committed op.state then not (too_recent op.committed_at now older_than) else false

-- The loop of `PurgeCommitted`: the store left, and the number removed.
unfoldable pub purge_loop : List PendingOperation → ℕ → ℕ → Store → ℕ → Store × ℕ
unfolding remove_file
purge_loop [] now older_than st removed = (st, removed)
purge_loop (op ∷ ops) now older_than st removed = elim (is_purged op now older_than) [
  | true ↦ purge_loop ops now older_than (remove_file st (st.path_for op.id)) (removed + 1)
  | false ↦ purge_loop ops now older_than st removed
]

unfoldable pub purge_committed : Store → ℕ → ℕ → Store × ℕ
unfolding purge_loop read_all
purge_committed st now older_than = purge_loop (read_all st) now older_than st 0

abbrev redacted : PendingOperation → PendingOperation
redacted op = record op { token_ref = "REDACTED" }

unfoldable pub snapshot_from : List PendingOperation → List PendingOperation
snapshot_from [] = []
snapshot_from (op ∷ ops) = redacted op ∷ snapshot_from ops

unfoldable pub snapshot_for_inspection : Store → List PendingOperation
unfolding snapshot_from read_all
snapshot_for_inspection st = snapshot_from (read_all st)
