-- ===== src/Booking/Events.antt =====
-- handleStayEvent of backend/internal/httpserver/stay_handlers.go.
use sthira.Prelude.{
  ℕ, ◌+◌, String, Bool, false, not, ◌&&◌, ◌||◌, Option, none, some, List, [], ◌∷◌, ◌==◌, str_eq,
  if◌then◌else◌,
}
use Prim.Native.String.{◌++◌ as append_str}
use sthira.Prelude.Result.{ok, err, ◌>>=◌, ◌>>◌, reject_if}
use sthira.Stay.Model.{Stay, Db}
use sthira.Stay.Rows.{get_stay_for_update}
use sthira.Stay.Ops.{arrive, cancel, depart}
use sthira.Stay.Changes.{extend, transfer}
use sthira.Booking.Keys.{
  BookingResult, Answer, KeyRow, Begun, stay_out_of_policy, not_owner, invalid_event, begin,
  complete,
}
use sthira.Booking.Authority.{
  revalidate_reservation_context, revalidate_snapshot_version, check_stay_bounds, hold_expiry,
}
use sthira.Booking.Tables.{StayPolicy}
use sthira.Booking.Handlers.{keyed, commit, on_stays, or_null, sink, event_payload_hash}
use sthira.Booking.Requests.{EventRequest, Library, Server, Reply, answered, bad_request}

abbrev pub parsed_date : Option ℕ → BookingResult ℕ
parsed_date none = err invalid_event
parsed_date (some d) = ok d

-- pol.AllowTransfers == nil || !*pol.AllowTransfers
abbrev pub transfers_allowed : StayPolicy → Bool
transfers_allowed pol = elim pol.allow_transfers [ none ↦ false | some allowed ↦ allowed ]

pub data EventKind : Type 0 where
  arrives cancels departs extends transfers unknown : EventKind

module _ (lib : Library) where
  abbrev pub event_answer : String → EventRequest → Answer
  event_answer stay_id req = ("stay_id", stay_id) ∷ ("type", req.kind) ∷ []

  abbrev pub transfer_answer : String → EventRequest → String → String → Answer
  transfer_answer stay_id req new_stay_id new_res_id =
      ("stay_id", stay_id)
      ∷ ("type", req.kind)
      ∷ ("new_stay_id", new_stay_id)
      ∷ ("new_reservation_id", new_res_id)
      ∷ []

  abbrev is_kind : EventRequest → String → Bool
  is_kind req kind = str_eq (lib.to_upper req.kind) kind

  -- strings.ToUpper(req.Type), as the switch reads it.
  abbrev pub event_kind_of : EventRequest → EventKind
  event_kind_of req =
      if is_kind req "ARRIVE"
      then arrives
      else if is_kind req "CANCEL"
      then cancels
      else if is_kind req "DEPART"
      then departs
      else if is_kind req "EXTEND"
      then extends
      else if is_kind req "TRANSFER"
      then transfers
      else unknown

  abbrev pub event_operation : EventRequest → String
  event_operation req = append_str "stay." (lib.to_lower req.kind)

  module _ (synthetic : Bool) (server : Server) (stay_id : String) (req : EventRequest)
      (now : ℕ) where
    abbrev pub check_owner : String → BookingResult Stay
    check_owner session = do
      st ← on_stays (get_stay_for_update server.db.stays stay_id)
      reject_if (not (str_eq st.session_id session)) not_owner
      ok st

    -- case "EXTEND": StayContext and getStayDates read the row that `check_owner` found.
    unfoldable pub extend_event : Stay → BookingResult (Db × Answer)
    extend_event st = do
      new_end ← parsed_date (lib.parse_date req.new_end_date)
      (_, pol) ←
          revalidate_reservation_context server.authority synthetic st.facility_id st.package_id
            st.route_id now
      revalidate_snapshot_version server.authority st.package_id req.snapshot_version
      check_stay_bounds pol st.start_date new_end
      db ← on_stays (extend (sink lib) server.db stay_id new_end now req.idem_key)
      ok (db, event_answer stay_id req)

    -- case "TRANSFER"
    unfoldable pub transfer_event : Stay → String → String → BookingResult (Db × Answer)
    transfer_event st new_stay_id new_res_id = do
      reject_if (str_eq req.new_facility_id "") invalid_event
      (_, pol) ←
          revalidate_reservation_context server.authority synthetic req.new_facility_id
            st.package_id (or_null req.new_route_id) now
      revalidate_snapshot_version server.authority st.package_id req.snapshot_version
      reject_if (not (transfers_allowed pol)) stay_out_of_policy
      expires ← hold_expiry pol now
      db ← on_stays (
          transfer (sink lib) server.db stay_id new_stay_id new_res_id req.new_facility_id
            (or_null req.new_route_id) (some expires) now req.idem_key)
      ok (db, transfer_answer stay_id req new_stay_id new_res_id)

    abbrev pub plain_event : BookingResult Db → BookingResult (Db × Answer)
    plain_event r = r >>= λ db. ok (db, event_answer stay_id req)

    -- The cases of the switch.
    unfoldable pub apply_kind : EventKind → Stay → String → String → BookingResult (Db × Answer)
    unfolding extend_event transfer_event
    apply_kind arrives st new_stay_id new_res_id =
        plain_event (on_stays (arrive (sink lib) server.db stay_id now req.idem_key))
    apply_kind cancels st new_stay_id new_res_id =
        plain_event (on_stays (cancel (sink lib) server.db stay_id now req.idem_key))
    apply_kind departs st new_stay_id new_res_id =
        plain_event (on_stays (depart (sink lib) server.db stay_id now req.idem_key))
    apply_kind extends st new_stay_id new_res_id = extend_event st
    apply_kind transfers st new_stay_id new_res_id = transfer_event st new_stay_id new_res_id
    apply_kind unknown st new_stay_id new_res_id = err invalid_event

    abbrev pub apply_event : Stay → String → String → BookingResult (Db × Answer)
    apply_event st new_stay_id new_res_id = apply_kind (event_kind_of req) st new_stay_id new_res_id

    -- The transaction once the key is claimed.
    unfoldable pub event_claimed :
        String → String → String → List KeyRow → BookingResult (Server × Reply)
    unfolding apply_kind
    event_claimed session new_stay_id new_res_id keys = do
      st ← check_owner session
      (db, answer) ← apply_event st new_stay_id new_res_id
      keys' ← complete keys session (event_operation req) req.idem_key answer
      ok (record server { db = db; keys = keys' }, answered 200 answer)

    abbrev pub event_begin : String → BookingResult Begun
    event_begin session =
        begin server.keys session (event_operation req) req.idem_key
          (event_payload_hash lib session stay_id req) (now + 3600000000000)

    -- The guards on the request before the transaction.
    abbrev pub valid_event : Bool
    valid_event = not (
        str_eq req.idem_key ""
        || ((is_kind req "EXTEND" || is_kind req "TRANSFER") && req.snapshot_version == 0))

    -- handleStayEvent, with the ids that it draws for a transfer.
    unfoldable pub handle_stay_event : String → String → String → Server × Reply
    unfolding event_claimed
    handle_stay_event session new_stay_id new_res_id =
        if valid_event
        then commit server
            (keyed server (event_begin session) (event_claimed session new_stay_id new_res_id))
        else (server, bad_request)
