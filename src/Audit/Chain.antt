-- ===== src/Audit/Chain.antt =====
-- What the audit chain of backend/internal/store/audit.go vouches for.
use sthira.Prelude.{
  ℕ, ◌≡◌, inl, inr, refl, sym, String, true, false, ◌&&◌, Option, none, some, List, [], ◌∷◌, ◌++◌,
  arith, str_eq, eq_iff, eq_refl, if◌then◌else◌, Bool-cases, any,
}
use Prim.Native.String.{count}
use sthira.Stay.Model.{AuditEvent, AuditRow}
use sthira.Audit.{
  Library, genesis_hash, head_hash, canonical, compute_event_hash, stored, audit_row, record_event,
  verify_from, verify_chain, has_id,
}

module _ (lib : Library) where
  -- The hash that the next row is linked to.
  abbrev pub last_hash : String → List AuditRow → String
  last_hash h [] = h
  last_hash h (r ∷ rs) = last_hash r.event_hash rs

  verify-snoc :
      (prev : String) (rows : List AuditRow) (r : AuditRow)
      → verify_from lib prev (rows ++ r ∷ [])
        ≡ (verify_from lib prev rows && verify_from lib (last_hash prev rows) (r ∷ []))
  unfolding verify_from
  verify-snoc prev [] r = ground arith
  verify-snoc prev (x ∷ rows) r = ground (arith, verify-snoc x.event_hash rows r)

  -- What the first row of a chain that verifies satisfies.
  pub verified :
      (prev : String) (r : AuditRow) (rows : List AuditRow)
      → verify_from lib prev (r ∷ rows) ≡ true
      → (r.prev_hash ≡ prev)
        × (lib.sha256_hex (canonical lib r.prev_hash r.event) ≡ r.event_hash)
        × (verify_from lib r.event_hash rows ≡ true)
  unfolding verify_from compute_event_hash
  verified prev r rows v = (
    ground (arith, eq_iff r.prev_hash prev),
    ground (arith, eq_iff (lib.sha256_hex (canonical lib r.prev_hash r.event)) r.event_hash),
    ground arith,
  )

  linked :
      (prev : String) (ev : AuditEvent)
      → (true && verify_from lib prev (audit_row lib prev ev ∷ []))
        ≡ str_eq (compute_event_hash lib prev (stored lib ev)) (compute_event_hash lib prev ev)
  unfolding verify_from
  linked prev ev = rw (eq_refl prev) (ground arith)

-- A hash is 64 hexadecimal digits.
module _ (lib : Library) (hashes : (s : String) → count (lib.sha256_hex s) ≡ 64) where
  not_empty : (s : String) → str_eq (lib.sha256_hex s) "" ≡ false
  not_empty s = elim (Bool-cases (str_eq (lib.sha256_hex s) "")) [
    | inl e ↦
        (let q : lib.sha256_hex s ≡ "" = ground (arith, eq_iff (lib.sha256_hex s) "") in
          let n : ◌≡◌ {A = ℕ} 0 64 = (rw q at (hashes s)) in absurd (omega arith))
    | inr e ↦ e
  ]

  -- A chain that verifies has no empty hash.
  head-last :
      (h prev : String) (rows : List AuditRow)
      → verify_from lib prev rows ≡ true
      → (if str_eq h "" then genesis_hash else h) ≡ prev
      → head_hash h rows ≡ last_hash lib prev rows
  unfolding verify_from head_hash compute_event_hash
  head-last h prev [] v e = e
  head-last h prev (r ∷ rows) v e =
      let good = verified lib prev r rows v in
      let full : str_eq r.event_hash "" ≡ false =
        rw (sym good.1) (not_empty (canonical lib r.prev_hash r.event)) in
      head-last r.event_hash r.event_hash rows good.2 (rw full refl)

  -- With a hash of 64 digits, an event that is recorded on a log that verifies gives one that verifies
  -- exactly if the hash cannot tell the event from what its columns give back.
  pub verify-record_event :
      (rows rows' : List AuditRow) (ev : AuditEvent)
      → verify_chain lib rows ≡ true
      → record_event lib rows ev ≡ some rows'
      → verify_chain lib rows'
        ≡ str_eq
            (compute_event_hash lib (head_hash "" rows) (stored lib ev))
            (compute_event_hash lib (head_hash "" rows) ev)
  unfolding verify_chain record_event
  verify-record_event rows rows' ev v h = elim (Bool-cases (any (has_id lib ev.event_id) rows)) [
    | inl d ↦
        (let q : ◌≡◌ {A = Option (List AuditRow)} none (some rows') = (rw (d, record_event) at h) in
          cc)
    | inr d ↦
        (let q : ◌≡◌ {A = Option (List AuditRow)}
              (some (rows ++ audit_row lib (head_hash "" rows) ev ∷ [])) (some rows') =
            (rw (d, record_event) at h) in
          let new : rows ++ audit_row lib (head_hash "" rows) ev ∷ [] ≡ rows' = cc in
          rw
            (
              sym new,
              verify-snoc lib genesis_hash rows,
              v,
              sym (head-last "" genesis_hash rows v refl),
            )
            (linked lib (head_hash "" rows) ev))
  ]
