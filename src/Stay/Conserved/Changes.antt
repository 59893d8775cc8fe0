-- ===== src/Stay/Conserved/Changes.antt =====
-- Reserve, Extend, Transfer and Correct of backend/internal/store/stay.go keep the capacity accounts.
use sthira.Prelude.{
  ℕ, ◌-◌, ◌≡◌, refl, String, true, false, Option, List, ◌∷◌, arith, not, any, leb, ltb,
}
use sthira.Prelude.Int.{pos, neg, neg_part-neg, pos_part-neg}
use sthira.Prelude.Result.{ok, >>=-eq-ok, reject_if, reject_if-eq-ok}
use sthira.Stay.Model.{Stay, Inventory, reserved, cancelled, departed, Db, AuditSink}
use sthira.Stay.Inventory.{date_range, lock_inventory, adjust_all, as_exhausted}
use sthira.Stay.Inventory.Laws.{Swept}
use sthira.Stay.Rows.{
  get_stay_for_update, exec_conditional, insert_stay, insert_stay-Inserted, total, find_stay-All,
}
use sthira.Stay.Ops.{
  reserve, reserved_row, has_reservation, touched, move_to, is_live, is_empty, held_delta,
  occupied_delta,
}
use sthira.Stay.Changes.{extend, end_at, resized}
use sthira.Stay.Conserved.{IsRow, Balanced, Balanced-sweep, Matches}
use sthira.Stay.Conserved.Steps.{
  get_stay-find, adjust_range-Swept, as_exhausted-eq-ok, append_to-SameAccounts, Balanced-of_same,
  Balanced-update,
}
use sthira.Stay.Conserved.Moves.{not-false}

-- The row as if it were not there.
abbrev absent : Stay → Stay
absent s = record s { state = cancelled }

insert-Matches :
    (s : Stay) (f : String) (d : ℕ)
    → s.state ≡ reserved
    → Matches (pos s.party_size) (pos 0) (absent s) s s.facility_id s.start_date s.end_date f d
insert-Matches s f d h = ground arith

module _ (inv inv' : Inventory) (stays stays' : List Stay) (s : Stay) (f : String) (d : ℕ) where
  -- A sweep that holds a reserved row's interval, and the row's insertion.
  pub Balanced-insert :
      s.state ≡ reserved
      → Swept inv inv' s.facility_id s.start_date s.end_date (pos s.party_size) (pos 0) f d
      → insert_stay stays s ≡ ok stays'
      → Balanced inv stays f d
      → Balanced inv' stays' f d
  unfolding total
  Balanced-insert h swept ins b =
      let i = insert_stay-Inserted stays s stays' ins in
      rw i.rows (
        Balanced-sweep inv inv' stays (s ∷ stays) s.facility_id s.start_date s.end_date
          (pos s.party_size) (pos 0) (absent s) s f d swept
          (record { party = i.party; interval = i.interval }, b.rows) (omega arith) (omega arith)
          (insert-Matches s f d h) b)

extend-Matches :
    (st : Stay) (new_end now : ℕ) (f : String) (d : ℕ)
    → is_live st.state ≡ true
    → leb new_end st.end_date ≡ false
    → IsRow st
    → Matches
        (held_delta st.state (pos st.party_size))
        (occupied_delta st.state (pos st.party_size))
        st
        (touched (end_at new_end) now st)
        st.facility_id
        st.end_date
        new_end
        f
        d
extend-Matches st new_end now f d live longer row = ground arith

pub correct-Matches :
    (st : Stay) (n now : ℕ) (f : String) (d : ℕ)
    → is_live st.state ≡ true
    → ltb n 1 ≡ false
    → ltb st.party_size n ≡ false
    → Matches
        (held_delta st.state (neg (st.party_size - n)))
        (occupied_delta st.state (neg (st.party_size - n)))
        st
        (touched (resized n) now st)
        st.facility_id
        st.start_date
        st.end_date
        f
        d
correct-Matches st n now f d live some_left less =
    ground (arith, neg_part-neg (st.party_size - n), pos_part-neg (st.party_size - n))

pub leave-Matches :
    (st : Stay) (now : ℕ) (f : String) (d : ℕ)
    → is_live st.state ≡ true
    → Matches
        (held_delta st.state (neg st.party_size))
        (occupied_delta st.state (neg st.party_size))
        st
        (touched (move_to departed) now st)
        st.facility_id
        st.start_date
        st.end_date
        f
        d
leave-Matches st now f d live =
    ground (arith, neg_part-neg st.party_size, pos_part-neg st.party_size)

module _ (sink : Option AuditSink) (db : Db) (now : ℕ) (key : String) (db' : Db) (f : String)
    (d : ℕ) (b : Balanced db.inventory db.stays f d) where
  pub reserve-Balanced :
      (stay : Stay) → reserve sink db stay now key ≡ ok db' → Balanced db'.inventory db'.stays f d
  unfolding reserve
  reserve-Balanced stay h =
      let dates = date_range stay.start_date stay.end_date in
      let (_, _, h1) = >>=-eq-ok (reject_if (is_empty dates) _) _ h in
      let (_, _, h2) = >>=-eq-ok (lock_inventory db.inventory stay.facility_id dates) _ h1 in
      let (inv, swept, h3) =
        >>=-eq-ok
          (as_exhausted
            (adjust_all db.inventory stay.facility_id dates (pos stay.party_size) (pos 0) now))
          _ h2 in
      let (_, _, h4) =
        >>=-eq-ok (reject_if (not (any (has_reservation stay.reservation_id) db.reservations)) _) _
          h3 in
      let (stays, ins, h5) = >>=-eq-ok (insert_stay db.stays (reserved_row stay now)) _ h4 in
      Balanced-of_same {db = record db { inventory = inv; stays = stays }} {db' = db'} f d
        (append_to-SameAccounts sink _ _ db' h5)
        (Balanced-insert db.inventory inv db.stays stays (reserved_row stay now) f d refl
          (adjust_range-Swept db.inventory stay.facility_id stay.start_date stay.end_date
            (pos stay.party_size) (pos 0) now (as_exhausted-eq-ok _ swept) f d)
          ins b)

  pub extend-Balanced :
      (id : String) (new_end : ℕ)
      → extend sink db id new_end now key ≡ ok db'
      → Balanced db'.inventory db'.stays f d
  unfolding extend
  extend-Balanced id new_end h =
      let (st, found, h1) = >>=-eq-ok (get_stay_for_update db.stays id) _ h in
      let (_, live, h2) = >>=-eq-ok (reject_if (not (is_live st.state)) _) _ h1 in
      let (_, longer, h3) = >>=-eq-ok (reject_if (leb new_end st.end_date) _) _ h2 in
      let (_, _, h4) =
        >>=-eq-ok (lock_inventory db.inventory st.facility_id (date_range st.end_date new_end)) _
          h3 in
      let (inv, swept, h5) =
        >>=-eq-ok
          (as_exhausted (
            adjust_all db.inventory st.facility_id (date_range st.end_date new_end)
              (held_delta st.state (pos st.party_size))
              (occupied_delta st.state (pos st.party_size)) now))
          _ h4 in
      let (stays, upd, h6) =
        >>=-eq-ok (exec_conditional db.stays id st.version (touched (end_at new_end) now)) _ h5 in
      let row = find_stay-All IsRow id db.stays st b.rows (get_stay-find db.stays id found) in
      Balanced-of_same {db = record db { inventory = inv; stays = stays }} {db' = db'} f d
        (append_to-SameAccounts sink _ _ db' h6)
        (Balanced-update db.stays stays db.inventory inv id (touched (end_at new_end) now) st
          st.facility_id st.end_date new_end (held_delta st.state (pos st.party_size))
          (occupied_delta st.state (pos st.party_size)) f d (get_stay-find db.stays id found) upd
          (adjust_range-Swept db.inventory st.facility_id st.end_date new_end
            (held_delta st.state (pos st.party_size)) (occupied_delta st.state (pos st.party_size))
            now (as_exhausted-eq-ok _ swept) f d)
          (extend-Matches st new_end now f d (not-false _ (reject_if-eq-ok _ _ live))
            (reject_if-eq-ok _ _ longer) row)
          b)
