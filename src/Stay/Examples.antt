-- ===== src/Stay/Examples.antt =====
-- The theorems on stays at a concrete facility with ten places on every date.
use sthira.Prelude.{ℕ, String, ◌+◌, ◌≤◌, ◌≡◌, refl, Option, none, some, List, [], ◌∷◌, arith}
use sthira.Prelude.Result.{ok, err}
use sthira.Stay.Model.{
  AuditSink, Inventory, Stay, Reservation, reserved, arrived, Db, capacity_exhausted,
}
use sthira.Stay.Inventory.{dates_from, date_range, lock_inventory, adjust_inventory, adjust_all}
use sthira.Stay.Inventory.Laws.{held_at, occupied_at, capacity_at}
use sthira.Stay.Rows.{
  find_stay, get_stay_for_update, update_stay, exec_conditional, insert_stay, total,
}
use sthira.Audit as Audit
use sthira.Audit.{record_event, compute_event_hash, canonical, head_hash}
use sthira.Stay.Ops.{shift_interval, record_transition, transition, reserve, arrive, depart}
use sthira.Stay.Changes.{in_tx}
use sthira.Stay.Conserved.{Balanced, held_by, occupied_by}
use sthira.Stay.History.{Request, reserves, arrives, perform, run, run-Balanced, capacity_conserved}
use sthira.Stay.Expiry.{tick, tick_conserves}
use sthira.Stay.Lifecycle.{reserve_full, arrived_departs}

abbrev ten_places : Inventory
ten_places f d =
    some (record { capacity = 10; held = 0; occupied = 0; version = 1; updated_at = 0 })

abbrev family : Stay
family = record {
  stay_id = "s1";
  reservation_id = "r1";
  session_id = "u1";
  facility_id = "hall";
  party_size = 4;
  start_date = 20;
  end_date = 22;
  state = reserved;
  package_id = "p1";
  route_id = none;
  transferred_from = none;
  version = 1;
  updated_at = 5;
  expires_at = some 50;
  arrived_at = none;
  departed_at = none;
}

abbrev listed : String → Reservation
listed id = record { reservation_id = id; session_id = "u1"; facility_id = "hall"; party_size = 4 }

abbrev empty_db : Db
empty_db = record {
  inventory = ten_places;
  stays = [];
  reservations = listed "r1" ∷ listed "r2" ∷ [];
  trail = [];
}

empty-Balanced : (d : ℕ) → Balanced ten_places [] "hall" d
unfolding total
empty-Balanced d = record { rows = tt; held = refl; occupied = refl; fits = omega arith }

abbrev requests : List Request
requests = reserves family 5 "k1" ∷ arrives "s1" 60 "k2" ∷ []

capacity_conserved_example :
    (let db = run none empty_db requests in
      (held_at db.inventory "hall" 21 ≡ total (held_by "hall" 21) db.stays)
      × (occupied_at db.inventory "hall" 21 ≡ total (occupied_by "hall" 21) db.stays)
      × (total (held_by "hall" 21) db.stays + total (occupied_by "hall" 21) db.stays
          ≤ capacity_at db.inventory "hall" 21))
capacity_conserved_example = capacity_conserved none empty_db requests "hall" 21 (empty-Balanced 21)

abbrev booked : Db
booked = run none empty_db (reserves family 5 "k1" ∷ [])

booked-Balanced : (d : ℕ) → Balanced booked.inventory booked.stays "hall" d
booked-Balanced d =
    run-Balanced none empty_db (reserves family 5 "k1" ∷ []) "hall" d (empty-Balanced d)

booked_family : find_stay "s1" booked.stays ≡ some family
unfolding run perform in_tx reserve record_transition insert_stay find_stay lock_inventory
    adjust_all adjust_inventory date_range dates_from
booked_family = refl

-- The audit chain as the sink, under a hash that is its own text.
abbrev plain_log : Audit.Library
plain_log = record { sha256_hex = λ s. s; format_time = λ t. "t"; stored_time = λ t. t }

abbrev chained : Option AuditSink
chained = some (record_event plain_log)

abbrev logged : Db
logged = run chained empty_db (reserves family 5 "k1" ∷ [])

abbrev moved_in : Db
moved_in = run chained empty_db (reserves family 5 "k1" ∷ arrives "s1" 40 "k2" ∷ [])

moved_in-Balanced : (d : ℕ) → Balanced moved_in.inventory moved_in.stays "hall" d
moved_in-Balanced d =
    run-Balanced chained empty_db (reserves family 5 "k1" ∷ arrives "s1" 40 "k2" ∷ []) "hall" d
      (empty-Balanced d)

abbrev family_inside : Stay
family_inside = record family {
  state = arrived;
  version = 2;
  updated_at = 40;
  arrived_at = some 40;
}

moved_in_family : find_stay "s1" moved_in.stays ≡ some family_inside
unfolding run perform in_tx reserve arrive transition shift_interval record_transition insert_stay
    find_stay get_stay_for_update exec_conditional update_stay lock_inventory adjust_all
    adjust_inventory date_range dates_from record_event compute_event_hash canonical head_hash
moved_in_family = refl

arrived_departs_example : (db : Db) × (depart chained moved_in "s1" 90 "k3" ≡ ok db)
unfolding run perform in_tx reserve arrive transition shift_interval record_transition insert_stay
    find_stay get_stay_for_update exec_conditional update_stay lock_inventory adjust_all
    adjust_inventory date_range dates_from record_event compute_event_hash canonical head_hash
arrived_departs_example =
    arrived_departs chained moved_in "s1" family_inside 90 moved_in-Balanced moved_in_family "k3"
      refl (_, refl)

abbrev crowd : Stay
crowd = record family { stay_id = "s2"; reservation_id = "r2"; party_size = 11 }

reserve_full_example : reserve none empty_db crowd 6 "k4" ≡ err capacity_exhausted
unfolding lock_inventory date_range dates_from
reserve_full_example =
    reserve_full none empty_db crowd 6 "k4" 21
      (record { capacity = 10; held = 0; occupied = 0; version = 1; updated_at = 0 }) (omega arith)
      (omega arith) refl refl (omega arith)

tick_conserves_example :
    (let (db, n) = tick none (λ ids. ids) 100 booked 60 in
      (n ≤ 100)
      × (held_at db.inventory "hall" 21 ≡ total (held_by "hall" 21) db.stays)
      × (occupied_at db.inventory "hall" 21 ≡ total (occupied_by "hall" 21) db.stays)
      × (total (held_by "hall" 21) db.stays + total (occupied_by "hall" 21) db.stays
          ≤ capacity_at db.inventory "hall" 21))
tick_conserves_example =
    tick_conserves none (λ ids. ids) 100 booked 60 "hall" 21 (booked-Balanced 21)
