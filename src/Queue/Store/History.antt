-- ===== src/Queue/Store/History.antt =====
-- Any sequence of enqueues, updates, deletions and purges of the store of backend/internal/offlinequeue/store.go.
use sthira.Prelude.{ℕ, ◌≤◌, ◌≡◌, refl, String, Bool, List, [], ◌∷◌, Map, arith, values, sum}
use sthira.Prelude.Result.{Result, ok, err}
use sthira.Queue.Operation.{PendingOperation, QueueError, Library}
use sthira.Queue.Store.{Store, enqueue, update_state, delete, purge_committed, read_all}
use sthira.Queue.Store.LiveKeys.{
  open_with, sum-sort_by_created, OneOpen, enqueue-OneOpen, update_state-OneOpen, delete-OneOpen,
  purge_loop-OneOpen,
}

-- The calls that change the store, but for the reset of the operations in flight at a start.
pub data Request : Type 0 where
  enqueue_it : PendingOperation → ℕ → ℕ → Request
  update_it : PendingOperation → Request
  delete_it : String → Request
  purge_it : ℕ → ℕ → Request

-- A call that fails leaves the store as it was.
abbrev pub stored : Result QueueError Store → Store → Store
stored (ok st') st = st'
stored (err e) st = st

unfoldable pub perform : Library → Request → Store → Store
perform lib (enqueue_it op now now') st = stored (enqueue lib st op now now') st
perform lib (update_it op) st = stored (update_state lib st op) st
perform lib (delete_it id) st = stored (delete st id) st
perform lib (purge_it now age) st = (purge_committed st now age).0

unfoldable pub run : Library → List Request → Store → Store
unfolding perform
run lib [] st = st
run lib (r ∷ rs) st = run lib rs (perform lib r st)

stored-OneOpen :
    (r : Result QueueError Store) (st : Store)
    → ((st' : Store) → r ≡ ok st' → OneOpen st')
    → OneOpen st
    → OneOpen (stored r st)
stored-OneOpen (ok st') st f one = f st' refl
stored-OneOpen (err e) st f one = one

perform-OneOpen :
    (lib : Library) (r : Request) (st : Store) → OneOpen st → OneOpen (perform lib r st)
unfolding perform purge_committed
perform-OneOpen lib (enqueue_it op now now') st one =
    stored-OneOpen _ st (λ st' h. enqueue-OneOpen lib st st' op now now' h one) one
perform-OneOpen lib (update_it op) st one =
    stored-OneOpen _ st (λ st' h. update_state-OneOpen lib st st' op h one) one
perform-OneOpen lib (delete_it id) st one =
    stored-OneOpen _ st (λ st' h. delete-OneOpen st st' id h one) one
perform-OneOpen lib (purge_it now age) st one = purge_loop-OneOpen (read_all st) now age st 0 one

run-OneOpen :
    (lib : Library) (rs : List Request) (st : Store) → OneOpen st → OneOpen (run lib rs st)
unfolding run
run-OneOpen lib [] st one = one
run-OneOpen lib (r ∷ rs) st one = run-OneOpen lib rs _ (perform-OneOpen lib r st one)

-- A directory with no file in it.
abbrev pub fresh : (String → String) → (String → Bool) → Map PendingOperation → Store
fresh path_for in_dir elsewhere = record {
  path_for = path_for;
  in_dir = in_dir;
  files = [];
  elsewhere = elsewhere;
}

-- After any enqueues, updates, deletions and purges of a store whose directory has no file at first, at
-- most one of the operations that are listed and not terminal has a given idempotency key, whatever
-- the ids, the states and the times that the callers passed. Of an operation whose id leads out of
-- the directory, which is not listed, nothing is said.
pub one_open_per_key :
    (lib : Library) (path_for : String → String) (in_dir : String → Bool)
    (elsewhere : Map PendingOperation) (rs : List Request) (k : String)
    → sum (open_with k) (read_all (run lib rs (fresh path_for in_dir elsewhere))) ≤ 1
unfolding read_all
one_open_per_key lib path_for in_dir elsewhere rs k =
    let st = run lib rs (fresh path_for in_dir elsewhere) in
    let one =
      run-OneOpen lib rs (fresh path_for in_dir elsewhere)
        (record { at_key = λ j. unfold sum in omega arith }) in
    omega (arith, one.at_key k, sum-sort_by_created (open_with k) (values st.files))
