-- ===== src/Queue/Store/Lookups.antt =====
-- What a reader finds after a call of the store of backend/internal/offlinequeue/store.go.
use sthira.Prelude.{
  ℕ, ◌≡◌, ◌∙◌, refl, sym, ap, String, Bool, true, false, some, str_eq, eq_iff, if◌then◌else◌,
  lookup-insert, Bool-cases, inl, inr,
}
use sthira.Prelude.Result.{ok, past}
use sthira.Queue.Operation.{PendingOperation, Library}
use sthira.Queue.Store.{Store, read_file, write_file, read_one, hashed, encoded, write, stamped}

apart :
    (st : Store) (p q : String)
    → (st.in_dir p ≡ st.in_dir q → ◌≡◌ {A = Bool} false true)
    → str_eq p q ≡ false
apart st p q bad = elim (Bool-cases (str_eq p q)) [
  | inl e ↦ (let b = bad (ap st.in_dir ((eq_iff p q).0 e)) in cc)
  | inr e ↦ e
]

read_file-write_file :
    (st : Store) (p q : String) (op : PendingOperation)
    → read_file (write_file st p op) q ≡ (if str_eq p q then some op else read_file st q)
unfolding read_file write_file
read_file-write_file st p q op = elim (Bool-cases (st.in_dir p)) [
  | inl e ↦ elim (Bool-cases (st.in_dir q)) [
    | inl f ↦ rw (e, write_file, read_file, f) (lookup-insert p q op st.files)
    | inr f ↦ rw (e, write_file, read_file, f, apart st p q (λ g. cc)) refl
  ]
  | inr e ↦ elim (Bool-cases (st.in_dir q)) [
    | inl f ↦ rw (e, write_file, read_file, f, apart st p q (λ g. cc)) refl
    | inr f ↦ rw (e, write_file, read_file, f) (lookup-insert p q op st.elsewhere)
  ]
]

pub write_file-path_for :
    (st : Store) (p : String) (op : PendingOperation) → (write_file st p op).path_for ≡ st.path_for
unfolding write_file
write_file-path_for st p op = elim (Bool-cases (st.in_dir p)) [
  | inl e ↦ rw e refl
  | inr e ↦ rw e refl
]

pub write-eq-ok :
    (lib : Library) (st st' : Store) (op : PendingOperation)
    → write lib st op ≡ ok st'
    → st' ≡ write_file st (st.path_for op.id) (encoded lib (hashed lib op))
unfolding write
write-eq-ok lib st st' op h =
    let e = past (str_eq (lib.trim_space op.id) "") _ _ h in
    let p : write_file st (st.path_for op.id) (encoded lib (hashed lib op)) ≡ st' = cc in sym p

pub write-path_for :
    (lib : Library) (st st' : Store) (op : PendingOperation)
    → write lib st op ≡ ok st'
    → st'.path_for ≡ st.path_for
write-path_for lib st st' op h =
    ap (λ s. s.path_for) (write-eq-ok lib st st' op h) ∙ write_file-path_for st _ _

pub write-read_one :
    (lib : Library) (st st' : Store) (op : PendingOperation) (id : String)
    → write lib st op ≡ ok st'
    → read_one st' id ≡ (
        if str_eq (st.path_for op.id) (st.path_for id)
        then ok (encoded lib (hashed lib op))
        else read_one st id)
unfolding read_one
write-read_one lib st st' op id h =
    let w = encoded lib (hashed lib op) in
    let r : read_file st' (st'.path_for id) ≡ (
        if str_eq (st.path_for op.id) (st.path_for id)
        then some w
        else read_file st (st.path_for id)) =
      rw (write-path_for lib st st' op h, write-eq-ok lib st st' op h)
        (read_file-write_file st (st.path_for op.id) (st.path_for id) w) in
    elim (Bool-cases (str_eq (st.path_for op.id) (st.path_for id))) [
      | inl e ↦ rw (e, read_one, r, e) refl
      | inr e ↦ rw (e, read_one, r, e) refl
    ]

-- What `enqueue` writes for an operation that validation let through.
abbrev pub entry : Library → PendingOperation → ℕ → PendingOperation
entry lib op now = encoded lib (hashed lib (record op { created_at = stamped op.created_at now }))
