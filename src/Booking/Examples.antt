-- ===== src/Booking/Examples.antt =====
-- The theorems on reservations at a concrete server with one facility of ten places. The library's
-- functions are stood for by simple ones; two texts are dates.
use sthira.Prelude.{
  ◌+◌, ◌≤◌, ◌≡◌, refl, none, some, List, [], ◌∷◌, arith, true, false, str_eq, if◌then◌else◌,
}
use Prim.Native.String.{◌++◌ as append_str}
use sthira.Prelude.Int.{pos}
use sthira.Stay.Model.{Inventory}
use sthira.Stay.Inventory.{dates_from, date_range, lock_inventory, adjust_inventory, adjust_all}
use sthira.Stay.Inventory.Laws.{held_at, occupied_at, capacity_at}
use sthira.Stay.Rows.{find_stay, insert_stay, total}
use sthira.Stay.Ops.{reserve, record_transition}
use sthira.Stay.Conserved.{Balanced, held_by, occupied_by}
use sthira.Audit as Audit
use sthira.Booking.Keys.{Answer, find_key, update_keys, begin_with_compat, complete}
use sthira.Booking.Authority.{
  select, locked_package, revalidate_reservation_context, check_stay_bounds, hold_expiry,
  revalidate_snapshot_version,
}
use sthira.Booking.Tables.{Authority, Package, StayPolicy}
use sthira.Booking.Handlers.{create_claimed, handle_create_reservation}
use sthira.Booking.Requests.{CreateRequest, EventRequest, Library, Server, answered}
use sthira.Booking.History.{Call, creates, event, sweeps, publishes, run}
use sthira.Booking.Once.{exactly_once}
use sthira.Booking.Accounts.{bookings_conserve}

abbrev simple : Library
simple = record {
  sha256_hex = λ s. s;
  marshal = λ session req. append_str session req.idem_key;
  sprint = λ n. "3";
  to_upper = λ s. s;
  to_lower = λ s. s;
  parse_date = λ s. if str_eq s "d20" then some 20 else if str_eq s "d22" then some 22 else none;
  audit = record { sha256_hex = λ s. s; format_time = λ t. "t"; stored_time = λ t. t };
}

abbrev policy : StayPolicy
policy = record {
  reservation_expiry_seconds = some (pos 60);
  temporary_stay_min_days = some (pos 1);
  temporary_stay_max_days = some (pos 7);
  allow_transfers = some true;
  route_required = some false;
}

abbrev shelter_package : Package
shelter_package = record {
  package_id = "p1";
  source_id = "src";
  artifact_id = "art";
  version = 3;
  jurisdiction = "north";
  evidence_class = "AUTHORIZED_OPERATIONAL";
  effective_at = 0;
  expires_at = 1000;
  superseded_by = none;
  policy = some policy;
}

abbrev authority : Authority
authority = record {
  packages = shelter_package ∷ [];
  sources = record { source_id = "src"; state = "OPERATIONAL" } ∷ [];
  artifacts = record { artifact_id = "art"; evidence_class = "AUTHORIZED_OPERATIONAL" } ∷ [];
  authorizations = record { source_id = "src"; jurisdiction = "north"; expires_at = none } ∷ [];
  facilities = record { facility_id = "hall"; package_id = "p1"; safe_zone_id = "z1" } ∷ [];
  zone_versions = record { zone_id = "z1"; package_id = "p1"; status = some "OPEN" } ∷ [];
  route_versions = [];
  route_closures = [];
}

abbrev ten_places : Inventory
ten_places f d =
    some (record { capacity = 10; held = 0; occupied = 0; version = 1; updated_at = 0 })

abbrev server : Server
server = record {
  db = record { inventory = ten_places; stays = []; reservations = []; trail = [] };
  keys = [];
  authority = authority;
}

abbrev family : CreateRequest
family = record {
  facility_id = "hall";
  package_id = "p1";
  route_id = "";
  party_size = 4;
  start_date = "d20";
  end_date = "d22";
  idem_key = "k1";
  snapshot_version = 3;
}

abbrev booked : Server
booked = (handle_create_reservation simple false server "u1" family "s1" "r1" 5).0

abbrev ids : Answer
ids = ("reservation_id", "r1") ∷ ("stay_id", "s1") ∷ []

family-booked :
    handle_create_reservation simple false server "u1" family "s1" "r1" 5
    ≡ (booked, answered 201 ids)
unfolding handle_create_reservation create_claimed begin_with_compat complete find_key update_keys
    select locked_package revalidate_reservation_context check_stay_bounds hold_expiry
    revalidate_snapshot_version reserve record_transition insert_stay find_stay lock_inventory
    adjust_all adjust_inventory date_range dates_from Audit.record_event Audit.head_hash
    Audit.compute_event_hash Audit.canonical
family-booked = refl

abbrev arrival : EventRequest
arrival = record {
  kind = "ARRIVE";
  idem_key = "k2";
  new_end_date = "";
  new_facility_id = "";
  new_route_id = "";
  snapshot_version = 0;
}

abbrev calls : List Call
calls =
    event "u1" "s1" arrival "n1" "n2" 9
    ∷ creates "u2" family "s2" "r2" 10
    ∷ sweeps 3000
    ∷ publishes (record authority { sources = [] })
    ∷ []

exactly_once_example :
    handle_create_reservation simple false (run simple false booked calls) "u1" family "s9" "r9" 70
    ≡ (run simple false booked calls, answered 200 ids)
exactly_once_example =
    exactly_once simple false server "u1" family "s1" "r1" 5 booked ids calls "s9" "r9" 70 tt
      family-booked (tt, (tt, (omega arith, (tt, tt))))

empty-Balanced : Balanced ten_places [] "hall" 21
unfolding total
empty-Balanced = record { rows = tt; held = refl; occupied = refl; fits = omega arith }

bookings_conserve_example :
    (let db = (run simple false server calls).db in
      (held_at db.inventory "hall" 21 ≡ total (held_by "hall" 21) db.stays)
      × (occupied_at db.inventory "hall" 21 ≡ total (occupied_by "hall" 21) db.stays)
      × (total (held_by "hall" 21) db.stays + total (occupied_by "hall" 21) db.stays
          ≤ capacity_at db.inventory "hall" 21))
bookings_conserve_example = bookings_conserve simple false server calls "hall" 21 empty-Balanced
