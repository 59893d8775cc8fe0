-- ===== src/Booking/Requests.antt =====
-- The requests, the state and the answers of the handlers of
-- backend/internal/httpserver/stay_handlers.go, and the answers that stand for errors.
use sthira.Prelude.{ℕ, String, Bool, true, false, Option, List}
use sthira.Stay.Model.{Db, stay_not_found, capacity_exhausted, invalid_transition}
use sthira.Audit as Audit
use sthira.Booking.Keys.{
  BookingError, Answer, KeyRow, stay_error, payload_conflict, in_progress, stale_snapshot,
  reservation_context, facility_package_mismatch, route_unavailable, no_route, no_stay_policy,
  stay_out_of_policy, not_owner, invalid_event,
}
use sthira.Booking.Tables.{Authority}

pub record CreateRequest : Type 0 where
  pub facility_id : String
  pub package_id : String
  pub route_id : String
  pub party_size : ℕ
  pub start_date : String
  pub end_date : String
  pub idem_key : String
  pub snapshot_version : ℕ

pub record EventRequest : Type 0 where
  pub kind : String  -- Type
  pub idem_key : String
  pub new_end_date : String
  pub new_facility_id : String
  pub new_route_id : String
  pub snapshot_version : ℕ

-- Go's library as far as the handlers call it: the hex of sha256, json.Marshal of the canonical payload
-- of a session's request, fmt.Sprint, strings.ToUpper and ToLower, and time.Parse of a date.
pub record Library : Type 0 where
  pub sha256_hex : String → String
  pub marshal : String → CreateRequest → String
  pub sprint : ℕ → String
  pub to_upper : String → String
  pub to_lower : String → String
  pub parse_date : String → Option ℕ
  pub audit : Audit.Library

-- The tables that the handlers work on.
pub record Server : Type 0 where
  pub db : Db
  pub keys : List KeyRow
  pub authority : Authority

pub data Reply : Type 0 where
  answered : ℕ → Answer → Reply
  refused : BookingError → Reply
  bad_request : Reply

-- writeReservationError: the status, the code and whether a retry may help. The two errors of an event
-- that handleStayEvent answers itself come first.
abbrev pub error_response : BookingError → ℕ × String × Bool
error_response not_owner = (403, "FORBIDDEN", false)
error_response invalid_event = (400, "INVALID_VALUE", false)
error_response stale_snapshot = (409, "STALE_VERSION", true)
error_response payload_conflict = (409, "IDEMPOTENCY_CONFLICT", false)
error_response in_progress = (409, "IDEMPOTENCY_CONFLICT", true)
error_response (stay_error capacity_exhausted) = (409, "CAPACITY_CONFLICT", true)
error_response (stay_error invalid_transition) = (409, "VALIDATION_FAILED", false)
error_response (stay_error stay_not_found) = (404, "NOT_FOUND", false)
error_response reservation_context = (409, "VALIDATION_FAILED", false)
error_response facility_package_mismatch = (409, "VALIDATION_FAILED", false)
error_response route_unavailable = (409, "ROUTE_UNVERIFIED", false)
error_response no_route = (409, "ROUTE_UNVERIFIED", false)
error_response no_stay_policy = (409, "VALIDATION_FAILED", false)
error_response stay_out_of_policy = (409, "VALIDATION_FAILED", false)
error_response _ = (500, "INTERNAL", true)
