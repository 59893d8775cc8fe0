-- ===== src/Booking/Handlers.antt =====
-- handleCreateReservation and handleStayEvent of backend/internal/httpserver/stay_handlers.go, from the
-- decoded request of an authenticated session on: an answer is its status and its data. An integer
-- of a request that the code refuses below 1 is a natural number here.
use sthira.Prelude.{
  ℕ, ◌+◌, String, Bool, true, false, not, ◌&&◌, ◌||◌, Option, none, some, List, [], ◌∷◌, leb, ltb,
  ◌==◌, str_eq, if◌then◌else◌, any, lookup,
}
use Prim.Native.String.{◌++◌ as append_str}
use sthira.Prelude.Result.{ok, err, ◌>>=◌, ◌>>◌}
use sthira.Stay.Model.{Stay, Reservation, reserved, StayResult, AuditSink, constraint_violation}
use sthira.Stay.Ops.{has_reservation, reserve}
use sthira.Audit as Audit
use sthira.Booking.Requests.{
  CreateRequest, EventRequest, Library, Server, Reply, answered, refused, bad_request,
}
use sthira.Booking.Keys.{
  BookingResult, Answer, KeyRow, Begun, begun, replayed, LegacyChecker, stay_error,
  payload_conflict, begin_with_compat, complete,
}
use sthira.Booking.Authority.{
  select, revalidate_reservation_context, revalidate_snapshot_version, check_stay_bounds,
  hold_expiry,
}

abbrev answer_of : Option Answer → Answer
answer_of none = []
answer_of (some answer) = answer

-- What follows Begin: a replay writes nothing.
abbrev pub keyed :
    Server
    → BookingResult Begun
    → (List KeyRow → BookingResult (Server × Reply))
    → BookingResult (Server × Reply)
keyed server (err e) go = err e
keyed server (ok (replayed result)) go = ok (server, answered 200 (answer_of result))
keyed server (ok (begun keys)) go = go keys

-- InTx around a handler's function.
abbrev pub commit : Server → BookingResult (Server × Reply) → Server × Reply
commit server (ok (server', reply)) = (server', reply)
commit server (err e) = (server, refused e)

abbrev pub on_stays : {A : Type 0} → StayResult A → BookingResult A
on_stays (ok a) = ok a
on_stays (err e) = err (stay_error e)

-- INSERT INTO reservations
abbrev pub insert_reservation : Reservation → List Reservation → BookingResult (List Reservation)
insert_reservation r rs =
    if any (has_reservation r.reservation_id) rs
    then err (stay_error constraint_violation)
    else ok (r ∷ rs)

abbrev pub or_null : String → Option String
or_null id = if str_eq id "" then none else some id

module _ (lib : Library) where
  abbrev pub sink : Option AuditSink
  sink = some (Audit.record_event lib.audit)

  abbrev join_bar : String → List String → String
  join_bar s [] = s
  join_bar s (t ∷ ts) = join_bar (append_str s (append_str "|" t)) ts

  abbrev pub reservation_payload_hash : String → CreateRequest → String
  reservation_payload_hash session req = lib.sha256_hex (lib.marshal session req)

  abbrev pub legacy_reservation_payload_hash : String → CreateRequest → String
  legacy_reservation_payload_hash session req = lib.sha256_hex (
      join_bar session (
        req.facility_id ∷ req.package_id ∷ req.route_id ∷ req.start_date ∷ req.end_date
        ∷ req.idem_key ∷ []))

  abbrev pub event_payload_hash : String → String → EventRequest → String
  event_payload_hash session stay_id req = lib.sha256_hex (
      join_bar session (
        stay_id
        ∷ req.kind
        ∷ req.new_end_date
        ∷ req.new_facility_id
        ∷ req.new_route_id
        ∷ lib.sprint req.snapshot_version
        ∷ req.idem_key
        ∷ []))

  abbrev same_party : String → CreateRequest → Option Reservation → BookingResult Bool
  same_party session req none = err payload_conflict
  same_party session req (some r) =
      if str_eq r.session_id session
        && (str_eq r.facility_id req.facility_id && r.party_size == req.party_size)
      then ok true
      else err payload_conflict

  abbrev result_id : Answer → String
  result_id answer = elim (lookup "reservation_id" answer) [ none ↦ "" | some id ↦ id ]

  abbrev legacy_result : Server → String → CreateRequest → Option Answer → BookingResult Bool
  legacy_result server session req none = err payload_conflict
  legacy_result server session req (some answer) =
      if str_eq (result_id answer) ""
      then err payload_conflict
      else same_party session req
          (select (has_reservation (result_id answer)) server.db.reservations)

  -- legacyCheck
  abbrev pub legacy_check : Server → String → CreateRequest → LegacyChecker
  legacy_check server session req existing_hash stored_result =
      if not (str_eq existing_hash (legacy_reservation_payload_hash session req))
      then ok false
      else legacy_result server session req stored_result

  abbrev pub created_answer : String → String → Answer
  created_answer res_id stay_id = ("reservation_id", res_id) ∷ ("stay_id", stay_id) ∷ []

  abbrev pub requested_stay : String → CreateRequest → String → String → ℕ → ℕ → ℕ → ℕ → Stay
  requested_stay session req stay_id res_id start stop expires now = record {
    stay_id = stay_id;
    reservation_id = res_id;
    session_id = session;
    facility_id = req.facility_id;
    party_size = req.party_size;
    start_date = start;
    end_date = stop;
    state = reserved;
    package_id = req.package_id;
    route_id = or_null req.route_id;
    transferred_from = none;
    version = 1;
    updated_at = now;
    expires_at = some expires;
    arrived_at = none;
    departed_at = none;
  }

  abbrev pub reservation_row : String → CreateRequest → String → Reservation
  reservation_row session req res_id = record {
    reservation_id = res_id;
    session_id = session;
    facility_id = req.facility_id;
    party_size = req.party_size;
  }

  -- WithAllowSynthetic(s.allowSynthetic())
  module _ (synthetic : Bool) where
    -- The transaction of `handleCreateReservation` once the key is claimed.
    unfoldable pub create_claimed :
        Server
        → String
        → CreateRequest
        → ℕ
        → ℕ
        → String
        → String
        → ℕ
        → List KeyRow
        → BookingResult (Server × Reply)
    create_claimed server session req start stop stay_id res_id now keys = do
      (_, pol) ←
          revalidate_reservation_context server.authority synthetic req.facility_id req.package_id
            (or_null req.route_id) now
      revalidate_snapshot_version server.authority req.package_id req.snapshot_version
      check_stay_bounds pol start stop
      expires ← hold_expiry pol now
      reservations ← insert_reservation (reservation_row session req res_id) server.db.reservations
      db ← on_stays (
          reserve sink (record server.db { reservations = reservations })
            (requested_stay session req stay_id res_id start stop expires now) now req.idem_key)
      keys' ←
          complete keys session "reservation.create" req.idem_key (created_answer res_id stay_id)
      ok (record server { db = db; keys = keys' }, answered 201 (created_answer res_id stay_id))

    abbrev pub create_begin : Server → String → CreateRequest → ℕ → BookingResult Begun
    create_begin server session req now =
        begin_with_compat server.keys session "reservation.create" req.idem_key
          (reservation_payload_hash session req) (some (legacy_check server session req))
          (now + 3600000000000)

    abbrev pub valid_create : CreateRequest → ℕ → ℕ → Bool
    valid_create req start stop = not (
        leb stop start
        || (ltb req.party_size 1 || (str_eq req.idem_key "" || req.snapshot_version == 0)))

    abbrev pub create_dated :
        Server → String → CreateRequest → Option ℕ → Option ℕ → String → String → ℕ → Server × Reply
    create_dated server session req none stop stay_id res_id now = (server, bad_request)
    create_dated server session req (some start) none stay_id res_id now = (server, bad_request)
    create_dated server session req (some start) (some stop) stay_id res_id now =
        if valid_create req start stop
        then commit server (
            keyed server (create_begin server session req now)
              (create_claimed server session req start stop stay_id res_id now))
        else (server, bad_request)

    -- handleCreateReservation, with the new ids that it draws.
    unfoldable pub handle_create_reservation :
        Server → String → CreateRequest → String → String → ℕ → Server × Reply
    unfolding create_claimed
    handle_create_reservation server session req stay_id res_id now =
        create_dated server session req (lib.parse_date req.start_date)
          (lib.parse_date req.end_date) stay_id res_id now
