-- ===== src/Queue/Store/LiveKeys.antt =====
-- One open operation to an idempotency key, in backend/internal/offlinequeue/store.go.
use sthira.Prelude.{
  ℕ, ◌+◌, ◌≤◌, ◌≡◌, refl, sym, String, Bool, true, false, not, ◌&&◌, ◌||◌, Option, none, some, List,
  [], ◌∷◌, arith, str_eq, if◌then◌else◌, eq_iff, lookup, values, sum, weight_of, sum-insert,
  sum-remove, Bool-cases, eq_refl, subst, inl, inr,
}
use sthira.Prelude.Result.{Result, ok, err, reject_if, >>=-eq-ok, past, reject_if-eq-ok}
use text.Mathlib.Text.{starts_with}
use sthira.Queue.Operation.{
  PendingOperation, QueueError, no_such_operation, terminal_state, Library, is_terminal, validate,
  check_expiry,
}
use sthira.Queue.Store.{
  Store, read_file, write_file, remove_file, hashed, encoded, insert_by_created, sort_by_created,
  read_all, read_one, conflict, no_conflict, write, enqueue, update_state, preserved, delete,
  purge_loop, is_purged, stamped,
}
use sthira.Queue.Store.Lookups.{write-eq-ok}

-- 1 for an open operation with the key `k`.
abbrev pub open_with : String → PendingOperation → ℕ
open_with k op = if str_eq op.idempotency_key k && not (is_terminal op.state) then 1 else 0

sum-insert_by_created :
    (w : PendingOperation → ℕ) (x : PendingOperation) (ys : List PendingOperation)
    → sum w (insert_by_created x ys) ≡ w x + sum w ys
unfolding insert_by_created sum
sum-insert_by_created w x [] = refl
sum-insert_by_created w x (y ∷ ys) = ground (arith, sum-insert_by_created w x ys)

pub sum-sort_by_created :
    (w : PendingOperation → ℕ) (xs : List PendingOperation) → sum w (sort_by_created xs) ≡ sum w xs
unfolding sort_by_created sum
sum-sort_by_created w [] = refl
sum-sort_by_created w (x ∷ xs) =
    omega (arith, sum-insert_by_created w x (sort_by_created xs), sum-sort_by_created w xs)

conflict-none :
    (es : List PendingOperation) (op : PendingOperation)
    → conflict es op ≡ none
    → sum (open_with op.idempotency_key) es ≡ 0
unfolding conflict sum
conflict-none [] op h = refl
conflict-none (e ∷ es) op h = ground (arith, conflict-none es op)

pub record OneOpen (st : Store) : Type 0 where
  pub at_key : (k : String) → sum (open_with k) (values st.files) ≤ 1

validate-key :
    (lib : Library) (op op' : PendingOperation) (now : ℕ)
    → validate lib op now ≡ ok op'
    → (op'.idempotency_key ≡ op.idempotency_key) × (op'.state ≡ op.state)
unfolding validate
validate-key lib op op' now h =
    let h1 = past (str_eq (lib.trim_space op.id) "") _ _ h in
    let h2 = past (str_eq (lib.trim_space op.idempotency_key) "") _ _ h1 in
    let h3 = past (not (starts_with op.endpoint "/")) _ _ h2 in
    let h4 = past (not (str_eq op.method "POST")) _ _ h3 in
    let h5 = past (str_eq (lib.trim_space op.token_ref) "") _ _ h4 in
    let h6 = past (str_eq op.payload "" || not (lib.json_valid op.payload)) _ _ h5 in
    let (_, _, h7) = >>=-eq-ok (check_expiry lib op.selection_expiry now) _ h6 in (cc, cc)

open_with-hashed :
    (lib : Library) (op : PendingOperation) (k : String)
    → open_with k (encoded lib (hashed lib op)) ≡ open_with k op
open_with-hashed lib op k = elim (Bool-cases (str_eq op.payload_hash "")) [
  | inl p ↦ rw p refl
  | inr p ↦ rw p refl
]

-- The entry of a listed file, as a read of its path finds it.
listed : Store → String → Option PendingOperation
listed st path = if st.in_dir path then lookup path st.files else none

write_file-sum :
    (st : Store) (path : String) (op : PendingOperation) (w : PendingOperation → ℕ)
    → sum w (values (write_file st path op).files) + weight_of w (listed st path)
      ≡ sum w (values st.files) + (if st.in_dir path then w op else 0)
unfolding write_file listed
write_file-sum st path op w = elim (Bool-cases (st.in_dir path)) [
  | inl e ↦ rw (e, write_file, listed) (sum-insert w path op st.files)
  | inr e ↦ rw (e, write_file, listed) refl
]

at_most : (b : Bool) (v : ℕ) → v ≤ 1 → (if b then v else 0) ≤ 1
at_most true v h = h
at_most false v h = omega arith

write-sum :
    (lib : Library) (st st' : Store) (op : PendingOperation) (k : String)
    → write lib st op ≡ ok st'
    → sum (open_with k) (values st'.files) + weight_of (open_with k) (listed st (st.path_for op.id))
      ≡ sum (open_with k) (values st.files)
        + (if st.in_dir (st.path_for op.id) then open_with k op else 0)
write-sum lib st st' op k h =
    rw (write-eq-ok lib st st' op h, sym (open_with-hashed lib op k))
      (write_file-sum st (st.path_for op.id) (encoded lib (hashed lib op)) (open_with k))

-- A write keeps the invariant where its key is free, or where it takes the place of an open
-- operation with the same key, or where its file is not listed.
write-OneOpen :
    (lib : Library) (st st' : Store) (op : PendingOperation)
    → write lib st op ≡ ok st'
    → (st.in_dir (st.path_for op.id) ≡ true
        → sum (open_with op.idempotency_key) (values st.files)
          ≤ weight_of (open_with op.idempotency_key) (listed st (st.path_for op.id)))
    → OneOpen st
    → OneOpen st'
write-OneOpen lib st st' op h free one = record {
  at_key = λ k. elim (Bool-cases (st.in_dir (st.path_for op.id))) [
    | inr out ↦
        (let s = write-sum lib st st' op k h in
          let z : (if st.in_dir (st.path_for op.id) then open_with k op else 0) ≡ 0 = rw out refl in
          omega (arith, s, z, one.at_key k))
    | inl inside ↦ elim (Bool-cases (str_eq op.idempotency_key k)) [
      | inl e ↦
          (let same : op.idempotency_key ≡ k = ground (arith, eq_iff op.idempotency_key k) in
            let f : sum (open_with k) (values st.files)
                ≤ weight_of (open_with k) (listed st (st.path_for op.id)) =
              subst
                (λ j.
                  sum (open_with j) (values st.files)
                  ≤ weight_of (open_with j) (listed st (st.path_for op.id)))
                same (free inside) in
            let w : open_with k op ≤ 1 = ground arith in
            omega (
              arith,
              write-sum lib st st' op k h,
              at_most (st.in_dir (st.path_for op.id)) (open_with k op) w,
            ))
      | inr e ↦
          (let w : open_with k op ≡ 0 = rw e refl in
            let z : (if st.in_dir (st.path_for op.id) then open_with k op else 0) ≡ 0 =
              rw inside w in
            omega (arith, write-sum lib st st' op k h, z, one.at_key k))
    ]
  ];
}

no_conflict-none : (e : Option QueueError) {u : Unit {0}} → no_conflict e ≡ ok u → e ≡ none
no_conflict-none none h = refl
no_conflict-none (some e) h = cc

pub enqueue-OneOpen :
    (lib : Library) (st st' : Store) (op : PendingOperation) (now now' : ℕ)
    → enqueue lib st op now now' ≡ ok st'
    → OneOpen st
    → OneOpen st'
unfolding enqueue read_all
enqueue-OneOpen lib st st' op now now' h one =
    let (op', v, h1) = >>=-eq-ok (validate lib op now) _ h in
    let (_, c, h2) =
      >>=-eq-ok (no_conflict (conflict (sort_by_created (values st.files)) op')) _ h1 in
    let z = conflict-none (sort_by_created (values st.files)) op' (no_conflict-none _ c) in
    write-OneOpen lib st st' (record op' { created_at = stamped op'.created_at now' }) h2
      (λ inside.
        omega (arith, z, sum-sort_by_created (open_with op'.idempotency_key) (values st.files)))
      one

read_one-listed :
    (st : Store) (id : String) (op : PendingOperation)
    → read_one st id ≡ ok op
    → st.in_dir (st.path_for id) ≡ true
    → listed st (st.path_for id) ≡ some op
unfolding read_one read_file listed
read_one-listed st id op h inside =
    rw inside (found (lookup (st.path_for id) st.files) (rw (read_one, read_file, inside) at h))
  where
    found :
        (o : Option PendingOperation)
        → ◌≡◌ {A = Result QueueError PendingOperation}
            (elim o [ none ↦ err no_such_operation | some p ↦ ok p ])
            (ok op)
        → o ≡ some op
    found none g = cc
    found (some p) g = cc

open_with_self :
    (op : PendingOperation) → is_terminal op.state ≡ false → open_with op.idempotency_key op ≡ 1
open_with_self op h = rw (eq_refl op.idempotency_key, h) refl

pub update_state-OneOpen :
    (lib : Library) (st st' : Store) (op : PendingOperation)
    → update_state lib st op ≡ ok st'
    → OneOpen st
    → OneOpen st'
unfolding update_state
update_state-OneOpen lib st st' op h one =
    let h1 = past (str_eq (lib.trim_space op.id) "") _ _ h in
    let (prev, r, h2) = >>=-eq-ok (read_one st op.id) _ h1 in
    let (_, t, h3) = >>=-eq-ok (reject_if (is_terminal prev.state) terminal_state) _ h2 in
    let live = open_with_self prev (reject_if-eq-ok (is_terminal prev.state) terminal_state t) in
    write-OneOpen lib st st' (preserved lib prev op) h3
      (λ inside.
        let taken : weight_of (open_with prev.idempotency_key) (listed st (st.path_for op.id)) ≡ 1 =
          rw (read_one-listed st op.id prev r inside) live in
        omega (arith, taken, one.at_key prev.idempotency_key))
      one

remove_file-OneOpen : (st : Store) (path : String) → OneOpen st → OneOpen (remove_file st path)
unfolding remove_file
remove_file-OneOpen st path one = elim (Bool-cases (st.in_dir path)) [
  | inl e ↦
      rw e (record {
        at_key = λ k. omega (arith, sum-remove (open_with k) path st.files, one.at_key k);
      })
  | inr e ↦ rw e (record { at_key = one.at_key })
]

pub delete-OneOpen :
    (st st' : Store) (id : String) → delete st id ≡ ok st' → OneOpen st → OneOpen st'
unfolding delete
delete-OneOpen st st' id h one = deleted (read_file st (st.path_for id)) h
  where
    deleted :
        (o : Option PendingOperation)
        → ◌≡◌ {A = Result QueueError Store}
            (elim o [
              | none ↦ err no_such_operation
              | some op ↦ ok (remove_file st (st.path_for id))
            ])
            (ok st')
        → OneOpen st'
    deleted none g = cc
    deleted (some op) g =
        let s : remove_file st (st.path_for id) ≡ st' = cc in
        subst OneOpen s (remove_file-OneOpen st (st.path_for id) one)

pub purge_loop-OneOpen :
    (ops : List PendingOperation) (now age : ℕ) (st : Store) (n : ℕ)
    → OneOpen st
    → OneOpen (purge_loop ops now age st n).0
unfolding purge_loop
purge_loop-OneOpen [] now age st n one = one
purge_loop-OneOpen (op ∷ ops) now age st n one = elim (Bool-cases (is_purged op now age)) [
  | inl e ↦
      rw (e, purge_loop)
        (purge_loop-OneOpen ops now age (remove_file st (st.path_for op.id)) (n + 1)
          (remove_file-OneOpen st (st.path_for op.id) one))
  | inr e ↦ rw (e, purge_loop) (purge_loop-OneOpen ops now age st n one)
]
