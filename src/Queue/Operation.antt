-- ===== src/Queue/Operation.antt =====
-- backend/internal/offlinequeue/queue.go. Instants are nanoseconds and the zero time is `none`; a
-- JSON payload is its text.
pub mod Transitions
use sthira.Prelude.{
  ℕ, ◌+◌, String, Bool, true, false, not, ◌||◌, Option, none, some, str_eq, leb, ltb, if◌then◌else◌,
}
use Prim.Native.String.{◌++◌ as append_str}
use text.Mathlib.Text.{starts_with}
use sthira.Prelude.Result.{Result, ok, err, ◌>>=◌, ◌>>◌, reject_if}

pub data OpState : Type 0 where
  pending in_flight pending_reconciliation committed failed_stale failed_perm : OpState

pub record PendingOperation : Type 0 where
  pub id : String
  pub created_at : Option ℕ
  pub idempotency_key : String
  pub endpoint : String
  pub method : String
  pub token_ref : String
  pub payload : String
  pub payload_hash : String
  pub snapshot_version : ℕ
  pub selection_expiry : Option ℕ
  pub state : OpState
  pub retry_count : ℕ
  pub last_error : String
  pub last_status_code : ℕ
  pub committed_at : Option ℕ
  pub server_result : String  -- "" is no result

pub data QueueError : Type 0 where
  id_required key_required endpoint_relative method_unsupported token_ref_required : QueueError
  payload_invalid expiry_required expiry_past update_needs_id negative_age : QueueError
  payload_changed operation_conflict no_such_operation terminal_state not_dispatchable : QueueError

-- Go's library, as far as the queue calls it: strings.TrimSpace, json.Valid, the hex of sha256, and
-- what json.Unmarshal reads for a json.RawMessage out of the text that json.MarshalIndent gave it.
pub record Library : Type 0 where
  pub trim_space : String → String
  pub json_valid : String → Bool
  pub sha256_hex : String → String
  pub reformat : String → String

abbrev pub is_terminal : OpState → Bool
is_terminal committed = true
is_terminal failed_stale = true
is_terminal failed_perm = true
is_terminal _ = false

-- The guard of the setters: PENDING, IN_FLIGHT or PENDING_RECONCILIATION.
abbrev if_open : PendingOperation → PendingOperation → Result QueueError PendingOperation
if_open op op' = if is_terminal op.state then err terminal_state else ok op'

abbrev or_old : String → String → String
or_old new old = if str_eq new "" then old else new

unfoldable pub set_committed :
    PendingOperation → ℕ → ℕ → String → Result QueueError PendingOperation
set_committed op now status result = if_open op (record op {
  state = committed;
  committed_at = some now;
  last_status_code = status;
  last_error = "";
  server_result = or_old result op.server_result;
})

unfoldable pub set_failed_stale :
    PendingOperation → ℕ → ℕ → String → Result QueueError PendingOperation
set_failed_stale op now status msg = if_open op (record op {
  state = failed_stale;
  committed_at = some now;
  last_status_code = status;
  last_error = msg;
})

unfoldable pub set_failed_perm :
    PendingOperation → ℕ → ℕ → String → Result QueueError PendingOperation
set_failed_perm op now status msg = if_open op (record op {
  state = failed_perm;
  committed_at = some now;
  last_status_code = status;
  last_error = msg;
})

unfoldable pub set_pending_reconciliation :
    PendingOperation → ℕ → String → Result QueueError PendingOperation
set_pending_reconciliation op status msg = if_open op (record op {
  state = pending_reconciliation;
  last_status_code = status;
  last_error = or_old msg op.last_error;
})

abbrev pub dispatchable : OpState → Bool
dispatchable pending = true
dispatchable pending_reconciliation = true
dispatchable _ = false

unfoldable pub set_in_flight : PendingOperation → Result QueueError PendingOperation
set_in_flight op =
    if dispatchable op.state then ok (record op { state = in_flight }) else err not_dispatchable

unfoldable pub bump_retry : PendingOperation → ℕ → String → PendingOperation
bump_retry op status msg = record op {
  retry_count = op.retry_count + 1;
  last_status_code = status;
  last_error = msg;
}

abbrev is_before : ℕ → Option ℕ → Bool
is_before now none = false
is_before now (some t) = ltb now t

unfoldable pub selection_still_valid : PendingOperation → ℕ → Bool
selection_still_valid op now = is_before now op.selection_expiry

module _ (lib : Library) where
  -- h.Write(key); h.Write('\n'); h.Write(payload)
  abbrev pub hash_payload : String → String → String
  hash_payload key payload = lib.sha256_hex (append_str key (append_str "\n" payload))

  abbrev blank : String → Bool
  blank s = str_eq (lib.trim_space s) ""

  abbrev pub check_expiry : Option ℕ → ℕ → Result QueueError (Unit {0})
  check_expiry none now = err expiry_required
  check_expiry (some t) now = reject_if (leb t now) expiry_past

  -- `Validate`, and the operation with the defaults that it fills in. (`state` is never empty here:
  -- the empty state of the source is `pending`.)
  unfoldable pub validate : PendingOperation → ℕ → Result QueueError PendingOperation
  validate op now = do
    reject_if (blank op.id) id_required
    reject_if (blank op.idempotency_key) key_required
    reject_if (not (starts_with op.endpoint "/")) endpoint_relative
    reject_if (not (str_eq op.method "POST")) method_unsupported
    reject_if (blank op.token_ref) token_ref_required
    reject_if (str_eq op.payload "" || not (lib.json_valid op.payload)) payload_invalid
    check_expiry op.selection_expiry now
    ok (record op {
      payload_hash = or_old op.payload_hash (hash_payload op.idempotency_key op.payload);
    })
