-- ===== src/Booking/Outcomes.antt =====
-- What an answer of the handlers of backend/internal/httpserver/stay_handlers.go says of their
-- transaction.
use sthira.Prelude.{
  ℕ, ◌≡◌, ◌∙◌, sym, ap, refl, inl, inr, String, Bool, true, false, Option, none, some, List, ◌==◌,
  Bool-cases,
}
use sthira.Prelude.Result.{ok, err, >>=-eq-ok}
use sthira.Stay.Model.{Reservation, Stay, StayResult}
use sthira.Stay.Ops.{reserve}
use sthira.Booking.Keys.{KeyRow, BookingResult, Begun, begun, replayed, Answer, complete}
use sthira.Booking.Authority.{
  revalidate_reservation_context, revalidate_snapshot_version, check_stay_bounds, hold_expiry,
}
use sthira.Booking.Tables.{StayPolicy}
use sthira.Booking.Handlers.{
  keyed, commit, sink, create_begin, create_claimed, create_dated, valid_create,
  handle_create_reservation, insert_reservation, reservation_row, requested_stay, on_stays,
  created_answer, or_null,
}
use sthira.Booking.Requests.{CreateRequest, EventRequest, Library, Server, Reply, answered}
use sthira.Booking.Events.{
  event_begin, event_claimed, event_operation, handle_stay_event, apply_event, check_owner,
  valid_event,
}

abbrev pub is_created : Reply → Bool
is_created (answered status answer) = status == 201
is_created _ = false

-- The transaction of a handler changed nothing, or its claimed part went through.
pub data Outcome (server : Server) (b : BookingResult Begun)
    (go : List KeyRow → BookingResult (Server × Reply)) (out : Server × Reply) : Type 0 where
  idle : out.0 ≡ server → is_created out.1 ≡ false → Outcome server b go out
  worked : (keys : List KeyRow) → b ≡ ok (begun keys) → go keys ≡ ok out → Outcome server b go out

commit-worked :
    (server : Server) (r : BookingResult (Server × Reply)) (b : BookingResult Begun)
    (go : List KeyRow → BookingResult (Server × Reply)) (keys : List KeyRow)
    → b ≡ ok (begun keys)
    → go keys ≡ r
    → Outcome server b go (commit server r)
commit-worked server (ok out) b go keys h q = worked keys h q
commit-worked server (err e) b go keys h q = idle refl refl

pub keyed-Outcome :
    (server : Server) (b : BookingResult Begun) (go : List KeyRow → BookingResult (Server × Reply))
    → Outcome server b go (commit server (keyed server b go))
keyed-Outcome server (err e) go = idle refl refl
keyed-Outcome server (ok (replayed result)) go = idle refl refl
keyed-Outcome server (ok (begun keys)) go =
    commit-worked server (go keys) (ok (begun keys)) go keys refl refl

pub on_stays-eq-ok : {A : Type 0} (r : StayResult A) (a : A) → on_stays r ≡ ok a → r ≡ ok a
on_stays-eq-ok (ok b) a h = cc
on_stays-eq-ok (err e) a h = cc

module _ (lib : Library) (synthetic : Bool) (server : Server) (session : String)
    (req : CreateRequest) (start stop : ℕ) (stay_id res_id : String) (now : ℕ) where
  -- All that a created reservation went through.
  pub record Created (keys : List KeyRow) (out : Server × Reply) : Type 0 where
    pub jurisdiction : String
    pub policy : StayPolicy
    pub expires : ℕ
    pub reservations : List Reservation
    pub context :
        revalidate_reservation_context server.authority synthetic req.facility_id req.package_id
          (or_null req.route_id)
          now
        ≡ ok (jurisdiction, policy)
    pub snapshot :
        revalidate_snapshot_version server.authority req.package_id req.snapshot_version ≡ ok tt
    pub bounds : check_stay_bounds policy start stop ≡ ok tt
    pub hold : hold_expiry policy now ≡ ok expires
    pub reserved :
        reserve
          (sink lib)
          (record server.db { reservations = reservations })
          (requested_stay lib session req stay_id res_id start stop expires now)
          now
          req.idem_key
        ≡ ok out.0.db
    pub keys_done :
        complete keys session "reservation.create" req.idem_key (created_answer lib res_id stay_id)
        ≡ ok out.0.keys
    pub authority_same : out.0.authority ≡ server.authority
    pub reply : out.1 ≡ answered 201 (created_answer lib res_id stay_id)

  pub create_claimed-Created :
      (keys : List KeyRow) (out : Server × Reply)
      → create_claimed lib synthetic server session req start stop stay_id res_id now keys ≡ ok out
      → Created keys out
  unfolding create_claimed
  create_claimed-Created keys out h =
      let ((j, pol), context, h1) =
        >>=-eq-ok
          (revalidate_reservation_context server.authority synthetic req.facility_id req.package_id
            (or_null req.route_id) now)
          _ h in
      let (u, snapshot, h2) =
        >>=-eq-ok (revalidate_snapshot_version server.authority req.package_id req.snapshot_version)
          _ h1 in
      let (v, bounds, h3) = >>=-eq-ok (check_stay_bounds pol start stop) _ h2 in
      let (expires, hold, h4) = >>=-eq-ok (hold_expiry pol now) _ h3 in
      let (rs, _, h5) =
        >>=-eq-ok
          (insert_reservation (reservation_row lib session req res_id) server.db.reservations) _
          h4 in
      let (db, reserved, h6) =
        >>=-eq-ok
          (on_stays (
            reserve (sink lib) (record server.db { reservations = rs })
              (requested_stay lib session req stay_id res_id start stop expires now) now
              req.idem_key))
          _ h5 in
      let (keys', done, h7) =
        >>=-eq-ok
          (complete keys session "reservation.create" req.idem_key
            (created_answer lib res_id stay_id))
          _ h6 in
      let q : (
        record server { db = db; keys = keys' },
        answered 201 (created_answer lib res_id stay_id),
      )
          ≡ out =
        cc in
      record {
        jurisdiction = j;
        policy = pol;
        expires = expires;
        reservations = rs;
        context = context;
        snapshot = snapshot;
        bounds = bounds;
        hold = hold;
        reserved = on_stays-eq-ok _ db reserved ∙ ap (λ o. ok o.0.db) q;
        keys_done = done ∙ ap (λ o. ok o.0.keys) q;
        authority_same = sym (ap (λ o. o.0.authority) q);
        reply = sym (ap (λ o. o.1) q);
      }

module _ (lib : Library) (synthetic : Bool) (server : Server) (session : String)
    (req : CreateRequest) (stay_id res_id : String) (now : ℕ) where
  -- The reply to a reservation request: nothing was written, or a reservation was made.
  pub data CreateOutcome (out : Server × Reply) : Type 0 where
    idle_create : out.0 ≡ server → is_created out.1 ≡ false → CreateOutcome out
    made :
        (start stop : ℕ) (keys : List KeyRow)
        → lib.parse_date req.start_date ≡ some start
        → lib.parse_date req.end_date ≡ some stop
        → valid_create lib synthetic req start stop ≡ true
        → create_begin lib synthetic server session req now ≡ ok (begun keys)
        → Created lib synthetic server session req start stop stay_id res_id now keys out
        → CreateOutcome out

  of_keyed :
      (start stop : ℕ) (out : Server × Reply)
      → lib.parse_date req.start_date ≡ some start
      → lib.parse_date req.end_date ≡ some stop
      → valid_create lib synthetic req start stop ≡ true
      → Outcome server
          (create_begin lib synthetic server session req now)
          (create_claimed lib synthetic server session req start stop stay_id res_id now)
          out
      → CreateOutcome out
  of_keyed start stop out a b v (idle p q) = idle_create p q
  of_keyed start stop out a b v (worked keys p q) = made start stop keys a b v p (
      create_claimed-Created lib synthetic server session req start stop stay_id res_id now keys out
        q)

  dated :
      (start stop : Option ℕ)
      → lib.parse_date req.start_date ≡ start
      → lib.parse_date req.end_date ≡ stop
      → CreateOutcome (create_dated lib synthetic server session req start stop stay_id res_id now)
  dated none stop a b = idle_create refl refl
  dated (some start) none a b = idle_create refl refl
  dated (some start) (some stop) a b =
      elim (Bool-cases (valid_create lib synthetic req start stop)) [
        | inl e ↦ rw e (of_keyed start stop _ a b e (keyed-Outcome server _ _))
        | inr e ↦ rw e (idle_create refl refl)
      ]

  pub create-CreateOutcome :
      CreateOutcome (handle_create_reservation lib synthetic server session req stay_id res_id now)
  unfolding handle_create_reservation
  create-CreateOutcome =
      dated (lib.parse_date req.start_date) (lib.parse_date req.end_date) refl refl

module _ (lib : Library) (synthetic : Bool) (server : Server) (stay_id : String)
    (req : EventRequest) (now : ℕ) (session new_stay_id new_res_id : String) where
  -- The reply to an event: nothing was written, or the event was applied to a stay of the session's.
  pub data EventOutcome (out : Server × Reply) : Type 0 where
    idle_event : out.0 ≡ server → EventOutcome out
    applied :
        (st : Stay) (answer : Answer) (keys : List KeyRow)
        → event_begin lib synthetic server stay_id req now session ≡ ok (begun keys)
        → check_owner lib synthetic server stay_id req now session ≡ ok st
        → apply_event lib synthetic server stay_id req now st new_stay_id new_res_id
          ≡ ok (out.0.db, answer)
        → complete keys session (event_operation lib req) req.idem_key answer ≡ ok out.0.keys
        → out.1 ≡ answered 200 answer
        → EventOutcome out

  of_event :
      (out : Server × Reply)
      → Outcome server
          (event_begin lib synthetic server stay_id req now session)
          (event_claimed lib synthetic server stay_id req now session new_stay_id new_res_id)
          out
      → EventOutcome out
  unfolding event_claimed
  of_event out (idle p q) = idle_event p
  of_event out (worked keys p h) =
      let (st, owner, h1) =
        >>=-eq-ok (check_owner lib synthetic server stay_id req now session) _ h in
      let ((db, answer), done, h2) =
        >>=-eq-ok (apply_event lib synthetic server stay_id req now st new_stay_id new_res_id) _
          h1 in
      let (keys', finished, h3) =
        >>=-eq-ok (complete keys session (event_operation lib req) req.idem_key answer) _ h2 in
      let q : (record server { db = db; keys = keys' }, answered 200 answer) ≡ out = cc in
      applied st answer keys p owner (done ∙ ap (λ o. ok (o.0.db, answer)) q)
        (finished ∙ ap (λ o. ok o.0.keys) q) (sym (ap (λ o. o.1) q))

  pub event-EventOutcome :
      EventOutcome
        (handle_stay_event lib synthetic server stay_id req now session new_stay_id new_res_id)
  unfolding handle_stay_event
  event-EventOutcome = elim (Bool-cases (valid_event lib synthetic server stay_id req now)) [
    | inl e ↦ rw e (of_event _ (keyed-Outcome server _ _))
    | inr e ↦ rw e (idle_event refl)
  ]
