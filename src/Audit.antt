-- ===== src/Audit.antt =====
-- backend/internal/store/audit.go: the hash chain of the audit log. The table is read in the order of
-- its rows' sequence numbers, oldest first; a missing reason or state is "" or `none`.
pub mod Chain
pub mod Tampering
mod Examples
use sthira.Prelude.{
  ℕ, String, Bool, true, false, not, ◌||◌, ◌&&◌, Option, none, some, List, [], ◌∷◌, ◌++◌, str_eq,
  if◌then◌else◌, any,
}
use Prim.Native.String.{◌++◌ as append_str}
use sthira.Stay.Model.{
  StayState, reserved, arrived, departed, cancelled, expired, AuditEvent, AuditRow, AuditSink,
}

-- What the auditor calls that is not its own: the hex of sha256, time.Format of an instant, and what
-- a timestamptz column gives back for an instant.
pub record Library : Type 0 where
  pub sha256_hex : String → String
  pub format_time : ℕ → String
  pub stored_time : ℕ → ℕ

abbrev pub genesis_hash : String
genesis_hash = "0000000000000000000000000000000000000000000000000000000000000000"

abbrev state_text : Option StayState → String
state_text none = ""
state_text (some reserved) = "RESERVED"
state_text (some arrived) = "ARRIVED"
state_text (some departed) = "DEPARTED"
state_text (some cancelled) = "CANCELLED"
state_text (some expired) = "EXPIRED"

-- h.Write of each field and of a zero byte
abbrev pub written : List String → String
written [] = ""
written (f ∷ fs) = append_str f (append_str "\0" (written fs))

-- The last row's hash; h == "" is read as no row.
unfoldable pub head_hash : String → List AuditRow → String
head_hash h [] = if str_eq h "" then genesis_hash else h
head_hash h (r ∷ rs) = head_hash r.event_hash rs

module _ (lib : Library) where
  -- What `computeEventHash` feeds to the hash.
  unfoldable pub canonical : String → AuditEvent → String
  canonical prev ev = written (
      prev
      ∷ ev.event_id
      ∷ lib.format_time ev.occurred_at
      ∷ ev.actor_id
      ∷ ev.action
      ∷ ev.subject_id
      ∷ ev.outcome
      ∷ ev.reason
      ∷ state_text ev.from_state
      ∷ state_text ev.to_state
      ∷ [])

  unfoldable pub compute_event_hash : String → AuditEvent → String
  unfolding canonical
  compute_event_hash prev ev = lib.sha256_hex (canonical prev ev)

  -- The event as its columns hold it.
  abbrev pub stored : AuditEvent → AuditEvent
  stored ev = record ev { occurred_at = lib.stored_time ev.occurred_at }

  abbrev has_id : String → AuditRow → Bool
  has_id id r = str_eq r.event.event_id id

  abbrev pub audit_row : String → AuditEvent → AuditRow
  audit_row prev ev = record {
    event = stored ev;
    prev_hash = prev;
    event_hash = compute_event_hash prev ev;
  }

  -- ChainAuditor.Record: `event_id` is UNIQUE.
  unfoldable pub record_event : AuditSink
  unfolding head_hash compute_event_hash
  record_event rows ev =
      if any (has_id ev.event_id) rows
      then none
      else some (rows ++ audit_row (head_hash "" rows) ev ∷ [])

  -- The loop of `VerifyChain` from a predecessor's hash: the chain is intact.
  unfoldable pub verify_from : String → List AuditRow → Bool
  unfolding compute_event_hash
  verify_from prev [] = true
  verify_from prev (r ∷ rs) =
      let rest = verify_from r.event_hash rs in
      if not (str_eq r.prev_hash prev)
      then false
      else if not (str_eq (compute_event_hash r.prev_hash r.event) r.event_hash)
      then false
      else rest

  unfoldable pub verify_chain : List AuditRow → Bool
  unfolding verify_from
  verify_chain rows = verify_from genesis_hash rows
