-- ===== src/Stay/Changes.antt =====
-- Extend, Transfer and Correct of backend/internal/store/stay.go, and `InTx` of store.go.
use sthira.Prelude.{
  ℕ, ◌-◌, String, not, Option, none, some, ◌∷◌, ◌==◌, leb, ltb, if◌then◌else◌, any,
}
use sthira.Prelude.Int.{pos, neg}
use sthira.Prelude.Result.{ok, err, ◌>>=◌, ◌>>◌, reject_if}
use sthira.Stay.Model.{
  Stay, Reservation, reserved, departed, Db, StayError, invalid_transition, must_lengthen,
  party_too_small, party_increase, constraint_violation, StayResult, AuditSink,
}
use sthira.Stay.Inventory.{date_range, lock_inventory, adjust_all, as_exhausted}
use sthira.Stay.Rows.{get_stay_for_update, exec_conditional, insert_stay}
use sthira.Stay.Ops.{
  is_live, has_reservation, held_delta, occupied_delta, touched, move_to, first_facility,
  second_facility, shift_interval, record_transition, append, audit_event_id,
}

abbrev pub end_at : ℕ → Stay → Stay
end_at new_end s = record s { end_date = new_end }

-- Transfer's INSERT INTO stays.
abbrev pub transferred_row : Stay → String → String → String → Option String → Option ℕ → ℕ → Stay
transferred_row st new_id new_reservation new_facility new_route new_expires now = record {
  stay_id = new_id;
  reservation_id = new_reservation;
  session_id = st.session_id;
  facility_id = new_facility;
  party_size = st.party_size;
  start_date = st.start_date;
  end_date = st.end_date;
  state = reserved;
  package_id = st.package_id;
  route_id = new_route;
  transferred_from = some st.stay_id;
  version = 1;
  updated_at = now;
  expires_at = new_expires;
  arrived_at = none;
  departed_at = none;
}

-- Transfer's INSERT INTO reservations.
abbrev pub transferred_reservation : Stay → String → String → Reservation
transferred_reservation st new_reservation new_facility = record {
  reservation_id = new_reservation;
  session_id = st.session_id;
  facility_id = new_facility;
  party_size = st.party_size;
}

abbrev pub resized : ℕ → Stay → Stay
resized n s = record s { party_size = n }

module _ (sink : Option AuditSink) where
  unfoldable pub extend : Db → String → ℕ → ℕ → String → StayResult Db
  unfolding shift_interval record_transition
  extend db stay_id new_end now idem_key = do
    st ← get_stay_for_update db.stays stay_id
    reject_if (not (is_live st.state)) invalid_transition
    reject_if (leb new_end st.end_date) must_lengthen
    lock_inventory db.inventory st.facility_id (date_range st.end_date new_end)
    inv ← as_exhausted (
        adjust_all db.inventory st.facility_id (date_range st.end_date new_end)
          (held_delta st.state (pos st.party_size)) (occupied_delta st.state (pos st.party_size))
          now)
    stays ← exec_conditional db.stays stay_id st.version (touched (end_at new_end) now)
    record_transition sink (record db { inventory = inv; stays = stays }) stay_id st.session_id
        "STAY_EXTEND" (some st.state) (some st.state) now idem_key

  unfoldable pub transfer :
      Db → String → String → String → String → Option String → Option ℕ → ℕ → String → StayResult Db
  unfolding record_transition
  transfer db stay_id new_id new_reservation new_facility new_route new_expires now idem_key = do
    st ← get_stay_for_update db.stays stay_id
    reject_if (not (is_live st.state)) invalid_transition
    let dates = date_range st.start_date st.end_date
    lock_inventory db.inventory (first_facility st.facility_id new_facility) dates
    lock_inventory db.inventory (second_facility st.facility_id new_facility) dates
    inv ← as_exhausted (adjust_all db.inventory new_facility dates (pos st.party_size) (pos 0) now)
    reject_if (any (has_reservation new_reservation) db.reservations) constraint_violation
    stays ←
        insert_stay db.stays
          (transferred_row st new_id new_reservation new_facility new_route new_expires now)
    inv' ←
        adjust_all inv st.facility_id dates (held_delta st.state (neg st.party_size))
          (occupied_delta st.state (neg st.party_size)) now
    stays' ← exec_conditional stays stay_id st.version (touched (move_to departed) now)
    db' ←
        record_transition sink
          (record db {
            inventory = inv';
            stays = stays';
            reservations =
                transferred_reservation st new_reservation new_facility ∷ db.reservations;
          })
          stay_id st.session_id "STAY_TRANSFER_OUT" (some st.state) (some departed) now idem_key
    record_transition sink db' new_id st.session_id "STAY_TRANSFER_IN" none (some reserved) now
        idem_key

  unfoldable pub correct : Db → String → ℕ → String → String → ℕ → String → StayResult Db
  unfolding shift_interval
  correct db stay_id new_size operator why now idem_key = do
    st ← get_stay_for_update db.stays stay_id
    reject_if (not (is_live st.state)) invalid_transition
    reject_if (ltb new_size 1) party_too_small
    reject_if (ltb st.party_size new_size) party_increase
    if new_size == st.party_size then ok db else do
      inv ←
          shift_interval db.inventory st.facility_id st.start_date st.end_date
            (held_delta st.state (neg (st.party_size - new_size)))
            (occupied_delta st.state (neg (st.party_size - new_size))) now
      stays ← exec_conditional db.stays stay_id st.version (touched (resized new_size) now)
      append sink (record db { inventory = inv; stays = stays })
          (record {
            event_id = audit_event_id stay_id "STAY_CORRECT" operator idem_key;
            occurred_at = now;
            actor_id = operator;
            action = "STAY_CORRECT";
            subject_id = stay_id;
            outcome = "OK";
            reason = why;
            from_state = some st.state;
            to_state = some st.state;
          })

-- InTx: an error rolls the transaction back.
unfoldable pub in_tx : Db → StayResult Db → Db × Option StayError
in_tx db (ok db') = (db', none)
in_tx db (err e) = (db, some e)
