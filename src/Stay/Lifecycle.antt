-- ===== src/Stay/Lifecycle.antt =====
-- The lifecycle of one stay in backend/internal/store/stay.go: which operation goes through when.
use sthira.Prelude.{
  ℕ, suc, ◌+◌, ◌-◌, ◌≤◌, ◌<◌, ◌≡◌, String, true, false, Option, none, some, List, arith, eq_iff,
}
use sthira.Prelude.Int.{pos, neg}
use sthira.Prelude.Result.{ok, err}
use sthira.Stay.Model.{
  Inventory, Stay, arrived, departed, Db, InventoryRow, AuditSink, capacity_exhausted,
  version_conflict,
}
use sthira.Stay.Inventory.{date_range, dates_from, lock_inventory, adjust_all, adjusted}
use sthira.Stay.Rows.{find_stay, get_stay_for_update, find_stay-All}
use sthira.Stay.Ops.{reserve, depart, is_arrived, is_empty, depart_at}
use sthira.Stay.Conserved.{Balanced, IsRow, occupied_by}
use sthira.Stay.Progress.{
  Taken, moved_event, HasRoom, adjust_all_full, transition_total, occupied_room, le-total,
}

get_stay-found :
    (stays : List Stay) (id : String) (st : Stay)
    → find_stay id stays ≡ some st
    → get_stay_for_update stays id ≡ ok st
unfolding get_stay_for_update
get_stay-found stays id st h = rw (h, get_stay_for_update)

range_nonempty : (s t : ℕ) → s < t → is_empty (date_range s t) ≡ false
unfolding date_range dates_from
range_nonempty s t h = let e : t - s ≡ suc (t - s - 1) = omega arith in rw e

no_room :
    (row : InventoryRow) (p now : ℕ)
    → row.capacity < row.held + p + row.occupied
    → adjusted (some row) (pos p) (pos 0) now ≡ none
no_room row p now h = ground arith

full_range :
    (inv : Inventory) (f : String) (s t p now d : ℕ) (row : InventoryRow)
    → s ≤ d
    → d < t
    → inv f d ≡ some row
    → row.capacity < row.held + p + row.occupied
    → adjust_all inv f (date_range s t) (pos p) (pos 0) now ≡ err version_conflict
unfolding date_range
full_range inv f s t p now d row lo hi there h =
    adjust_all_full inv f s (t - s) (pos p) (pos 0) now d lo (omega arith)
      (rw there (no_room row p now h))

-- A reservation whose rows all exist, one of whose dates has less free space than the party needs,
-- is refused with the capacity-exhausted error, whichever date of the interval that is.
pub reserve_full :
    (sink : Option AuditSink) (db : Db) (stay : Stay) (now : ℕ) (key : String) (d : ℕ)
    (row : InventoryRow)
    → stay.start_date ≤ d
    → d < stay.end_date
    → lock_inventory db.inventory stay.facility_id (date_range stay.start_date stay.end_date)
      ≡ ok tt
    → db.inventory stay.facility_id d ≡ some row
    → row.capacity < row.held + stay.party_size + row.occupied
    → reserve sink db stay now key ≡ err capacity_exhausted
unfolding reserve
reserve_full sink db stay now key d row lo hi locked there h =
    let full =
      full_range db.inventory stay.facility_id stay.start_date stay.end_date stay.party_size now d
        row lo hi there h in
    rw (range_nonempty stay.start_date stay.end_date (omega arith), locked, full)

module _ (sink : Option AuditSink) (db : Db) (id : String) (st : Stay) (now : ℕ)
    (balanced : (d : ℕ) → Balanced db.inventory db.stays st.facility_id d)
    (found : find_stay id db.stays ≡ some st) where
  row : IsRow st
  row = find_stay-All IsRow id db.stays st (balanced 0).rows found

  occupies :
      is_arrived st.state ≡ true
      → (d : ℕ) → st.start_date ≤ d
      → d < st.end_date
      → occupied_by st.facility_id d st ≡ st.party_size
  occupies r d lo hi = ground (arith, eq_iff st.facility_id st.facility_id)

  arrived_room :
      is_arrived st.state ≡ true
      → (d : ℕ) → st.start_date ≤ d
      → d < st.end_date
      → HasRoom db.inventory st.facility_id d (pos 0) (neg st.party_size) now
  arrived_room r d lo hi =
      let b = balanced d in
      occupied_room (db.inventory st.facility_id d) st.party_size now row.party
        (omega (
          arith,
          b.occupied,
          occupies r d lo hi,
          le-total (occupied_by st.facility_id d) id db.stays st found,
        ))
        b.fits

  -- In balanced accounts, and where the audit sink takes the event, an arrived stay can depart.
  pub arrived_departs :
      (key : String)
      → st.state ≡ arrived
      → Taken sink db.trail (moved_event id st "STAY_DEPART" departed now key)
      → (db' : Db) × (depart sink db id now key ≡ ok db')
  unfolding depart
  arrived_departs key r taken =
      let got = get_stay-found db.stays id st found in
      let here : is_arrived st.state ≡ true = rw r in
      let (db', p) =
        transition_total sink db id st found (pos 0) (neg st.party_size) (depart_at now)
          "STAY_DEPART" departed now key (arrived_room here) taken in
      (db', rw (got, here) p)
