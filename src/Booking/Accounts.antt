-- ===== src/Booking/Accounts.antt =====
-- The capacity accounts over the calls of backend/internal/httpserver/stay_handlers.go.
use sthira.Prelude.{
  ℕ, ◌+◌, ◌≤◌, ◌≡◌, sym, refl, String, Bool, not, some, List, [], ◌∷◌, subst, str_eq,
}
use sthira.Prelude.Result.{ok, >>=-eq-ok, reject_if}
use sthira.Stay.Model.{Stay, Db}
use sthira.Stay.Inventory.Laws.{held_at, occupied_at, capacity_at}
use sthira.Stay.Rows.{total}
use sthira.Stay.Ops.{expire}
use sthira.Stay.Changes.{extend, transfer}
use sthira.Stay.Conserved.{Balanced, held_by, occupied_by}
use sthira.Stay.History.{
  perform-Balanced, in_tx-Balanced, arrives, cancels, departs, extends, transfers, reserves,
}
use sthira.Stay.History as Requests
use sthira.Booking.Keys.{Answer}
use sthira.Booking.Authority.{
  revalidate_reservation_context, revalidate_snapshot_version, check_stay_bounds, hold_expiry,
}
use sthira.Booking.Handlers.{on_stays, or_null, sink, requested_stay}
use sthira.Booking.Requests.{CreateRequest, EventRequest, Library, Server, Reply}
use sthira.Booking.Events as Events
use sthira.Booking.Events.{
  EventKind, apply_kind, apply_event, extend_event, transfer_event, transfers_allowed,
  event_kind_of,
}
use sthira.Booking.Outcomes.{
  CreateOutcome, idle_create, made, create-CreateOutcome, EventOutcome, idle_event, applied,
  event-EventOutcome, on_stays-eq-ok,
}
use sthira.Booking.History.{Call, creates, event, sweeps, publishes, step, run}

abbrev BalancedDb : Db → String → ℕ → Type 0
BalancedDb db f d = Balanced db.inventory db.stays f d

module _ (lib : Library) (synthetic : Bool) (server : Server) (stay_id : String)
    (req : EventRequest) (now : ℕ) (f : String) (d : ℕ) (b : BalancedDb server.db f d) where
  extend_event-Balanced :
      (st : Stay) (db : Db) (answer : Answer)
      → extend_event lib synthetic server stay_id req now st ≡ ok (db, answer)
      → BalancedDb db f d
  unfolding extend_event
  extend_event-Balanced st db answer h =
      let (new_end, _, h1) = >>=-eq-ok (Events.parsed_date (lib.parse_date req.new_end_date)) _ h in
      let ((j, pol), _, h2) =
        >>=-eq-ok
          (revalidate_reservation_context server.authority synthetic st.facility_id st.package_id
            st.route_id now)
          _ h1 in
      let (_, _, h3) =
        >>=-eq-ok (revalidate_snapshot_version server.authority st.package_id req.snapshot_version)
          _ h2 in
      let (_, _, h4) = >>=-eq-ok (check_stay_bounds pol st.start_date new_end) _ h3 in
      let (db', q, h5) =
        >>=-eq-ok (on_stays (extend (sink lib) server.db stay_id new_end now req.idem_key)) _ h4 in
      let e : db' ≡ db = cc in
      subst (λ (x : Db). BalancedDb x f d) e
        (perform-Balanced (sink lib) server.db (extends stay_id new_end now req.idem_key) db' f d
          (unfold Requests.perform in on_stays-eq-ok _ db' q) b)

  transfer_event-Balanced :
      (st : Stay) (new_stay_id new_res_id : String) (db : Db) (answer : Answer)
      → transfer_event lib synthetic server stay_id req now st new_stay_id new_res_id
        ≡ ok (db, answer)
      → BalancedDb db f d
  unfolding transfer_event
  transfer_event-Balanced st new_stay_id new_res_id db answer h =
      let (_, _, h1) = >>=-eq-ok (reject_if (str_eq req.new_facility_id "") _) _ h in
      let ((j, pol), _, h2) =
        >>=-eq-ok
          (revalidate_reservation_context server.authority synthetic req.new_facility_id
            st.package_id (or_null req.new_route_id) now)
          _ h1 in
      let (_, _, h3) =
        >>=-eq-ok (revalidate_snapshot_version server.authority st.package_id req.snapshot_version)
          _ h2 in
      let (_, _, h4) = >>=-eq-ok (reject_if (not (transfers_allowed pol)) _) _ h3 in
      let (deadline, _, h5) = >>=-eq-ok (hold_expiry pol now) _ h4 in
      let (db', q, h6) =
        >>=-eq-ok
          (on_stays (
            transfer (sink lib) server.db stay_id new_stay_id new_res_id req.new_facility_id
              (or_null req.new_route_id) (some deadline) now req.idem_key))
          _ h5 in
      let e : db' ≡ db = cc in
      subst (λ (x : Db). BalancedDb x f d) e
        (perform-Balanced (sink lib) server.db
          (transfers stay_id new_stay_id new_res_id req.new_facility_id (or_null req.new_route_id)
            (some deadline) now req.idem_key)
          db' f d (unfold Requests.perform in on_stays-eq-ok _ db' q) b)

  plain-Balanced :
      (r : Requests.Request) (db : Db) (answer : Answer)
      → Events.plain_event lib synthetic server stay_id req now
          (on_stays (Requests.perform (sink lib) server.db r))
        ≡ ok (db, answer)
      → BalancedDb db f d
  plain-Balanced r db answer h =
      let (db', q, h') = >>=-eq-ok (on_stays (Requests.perform (sink lib) server.db r)) _ h in
      let e : db' ≡ db = cc in
      subst (λ (x : Db). BalancedDb x f d) e
        (perform-Balanced (sink lib) server.db r db' f d (on_stays-eq-ok _ db' q) b)

  apply_kind-Balanced :
      (k : EventKind) (st : Stay) (new_stay_id new_res_id : String) (db : Db) (answer : Answer)
      → apply_kind lib synthetic server stay_id req now k st new_stay_id new_res_id
        ≡ ok (db, answer)
      → BalancedDb db f d
  unfolding apply_kind Requests.perform
  apply_kind-Balanced EventKind.arrives st n m db answer h =
      plain-Balanced (arrives stay_id now req.idem_key) db answer h
  apply_kind-Balanced EventKind.cancels st n m db answer h =
      plain-Balanced (cancels stay_id now req.idem_key) db answer h
  apply_kind-Balanced EventKind.departs st n m db answer h =
      plain-Balanced (departs stay_id now req.idem_key) db answer h
  apply_kind-Balanced EventKind.extends st n m db answer h = extend_event-Balanced st db answer h
  apply_kind-Balanced EventKind.transfers st n m db answer h =
      transfer_event-Balanced st n m db answer h
  apply_kind-Balanced EventKind.unknown st n m db answer h = cc

module _ (lib : Library) (synthetic : Bool) (f : String) (d : ℕ) where
  create-Balanced :
      (server : Server) (session : String) (req : CreateRequest) (stay_id res_id : String) (now : ℕ)
      (out : Server × Reply)
      → CreateOutcome lib synthetic server session req stay_id res_id now out
      → BalancedDb server.db f d
      → BalancedDb out.0.db f d
  create-Balanced server session req stay_id res_id now out (idle_create p q) b =
      subst (λ (x : Server). BalancedDb x.db f d) (sym p) b
  create-Balanced server session req stay_id res_id now out (made start stop keys _ _ _ _ c) b =
      perform-Balanced (sink lib) (record server.db { reservations = c.reservations })
        (reserves (requested_stay lib session req stay_id res_id start stop c.expires now) now
          req.idem_key)
        out.0.db f d (unfold Requests.perform in c.reserved) b

  event-Balanced :
      (server : Server) (session stay_id : String) (req : EventRequest)
      (new_stay_id new_res_id : String) (now : ℕ) (out : Server × Reply)
      → EventOutcome lib synthetic server stay_id req now session new_stay_id new_res_id out
      → BalancedDb server.db f d
      → BalancedDb out.0.db f d
  event-Balanced server session stay_id req n m now out (idle_event p) b =
      subst (λ (x : Server). BalancedDb x.db f d) (sym p) b
  event-Balanced server session stay_id req n m now out (applied st answer keys _ _ done _ _) b =
      apply_kind-Balanced lib synthetic server stay_id req now f d b (event_kind_of lib req) st n m
        out.0.db answer done

  step-Balanced :
      (server : Server) (c : Call)
      → BalancedDb server.db f d
      → BalancedDb (step lib synthetic server c).db f d
  unfolding step
  step-Balanced server (creates session req stay_id res_id now) b =
      create-Balanced server session req stay_id res_id now _
        (create-CreateOutcome lib synthetic server session req stay_id res_id now) b
  step-Balanced server (event session stay_id req n m now) b =
      event-Balanced server session stay_id req n m now _
        (event-EventOutcome lib synthetic server stay_id req now session n m) b
  step-Balanced server (sweeps now) b = b
  step-Balanced server (Call.expires stay_id now key) b =
      unfold Requests.perform in
      in_tx-Balanced (sink lib) server.db (Requests.expires stay_id now key)
        (expire (sink lib) server.db stay_id now key) f d refl b
  step-Balanced server (publishes authority) b = b

  pub run-BalancedDb :
      (server : Server) (cs : List Call)
      → BalancedDb server.db f d
      → BalancedDb (run lib synthetic server cs).db f d
  unfolding run
  run-BalancedDb server [] b = b
  run-BalancedDb server (c ∷ cs) b =
      run-BalancedDb (step lib synthetic server c) cs (step-Balanced server c b)

-- Over any calls of the two handlers, expiries of holds, removals of keys and changes of the
-- authorities' tables: at a facility and date that was in balance, the held and occupied columns are
-- the sums of the party sizes of the reserved and the arrived stays, within the capacity.
pub bookings_conserve :
    (lib : Library) (synthetic : Bool) (server : Server) (cs : List Call) (f : String) (d : ℕ)
    → Balanced server.db.inventory server.db.stays f d
    → (let db = (run lib synthetic server cs).db in
        (held_at db.inventory f d ≡ total (held_by f d) db.stays)
        × (occupied_at db.inventory f d ≡ total (occupied_by f d) db.stays)
        × (total (held_by f d) db.stays + total (occupied_by f d) db.stays
            ≤ capacity_at db.inventory f d))
bookings_conserve lib synthetic server cs f d b =
    let a = run-BalancedDb lib synthetic f d server cs b in
    (a.held, a.occupied, rw (← a.held, ← a.occupied) a.fits)
