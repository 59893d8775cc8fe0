-- ===== src/Stay/Conserved/Transfer.antt =====
-- Transfer and Correct of backend/internal/store/stay.go keep the capacity accounts.
use sthira.Prelude.{
  ℕ, ◌-◌, ◌≡◌, refl, String, Option, some, ◌∷◌, not, any, ◌==◌, ltb, Bool-cases, inl, inr, sym, ap,
}
use sthira.Prelude.Int.{pos, neg}
use sthira.Prelude.Result.{ok, >>=-eq-ok, reject_if, reject_if-eq-ok}
use sthira.Stay.Model.{departed, Db, AuditSink, StayResult}
use sthira.Stay.Inventory.{date_range, lock_inventory, adjust_all, as_exhausted}
use sthira.Stay.Rows.{
  get_stay_for_update, exec_conditional, insert_stay, insert_stay-Inserted, find_stay,
  find_stay-insert,
}
use sthira.Stay.Ops.{
  touched, move_to, is_live, has_reservation, held_delta, occupied_delta, record_transition,
  shift_interval, first_facility, second_facility,
}
use sthira.Stay.Changes.{transfer, correct, resized, transferred_row, transferred_reservation}
use sthira.Stay.Conserved.{Balanced}
use sthira.Stay.Conserved.Steps.{
  get_stay-find, adjust_range-Swept, as_exhausted-eq-ok, shift_interval-Swept,
  append_to-SameAccounts, Balanced-of_same, Balanced-update,
}
use sthira.Stay.Conserved.Moves.{not-false}
use sthira.Stay.Conserved.Changes.{Balanced-insert, correct-Matches, leave-Matches}

module _ (sink : Option AuditSink) (db : Db) (now : ℕ) (key : String) (db' : Db) (f : String)
    (d : ℕ) (b : Balanced db.inventory db.stays f d) where
  pub transfer-Balanced :
      (id new_id new_reservation new_facility : String) (route : Option String) (expires : Option ℕ)
      → transfer sink db id new_id new_reservation new_facility route expires now key ≡ ok db'
      → Balanced db'.inventory db'.stays f d
  unfolding transfer
  transfer-Balanced id new_id new_reservation new_facility route expires h =
      let (st, got, h1) = >>=-eq-ok (get_stay_for_update db.stays id) _ h in
      let found = get_stay-find db.stays id got in
      let (_, live, h2) = >>=-eq-ok (reject_if (not (is_live st.state)) _) _ h1 in
      let alive = not-false _ (reject_if-eq-ok _ _ live) in
      let dates = date_range st.start_date st.end_date in
      let (_, _, h3) =
        >>=-eq-ok (lock_inventory db.inventory (first_facility st.facility_id new_facility) dates) _
          h2 in
      let (_, _, h4) =
        >>=-eq-ok (lock_inventory db.inventory (second_facility st.facility_id new_facility) dates)
          _ h3 in
      let (inv, swept, h5) =
        >>=-eq-ok
          (as_exhausted
            (adjust_all db.inventory new_facility dates (pos st.party_size) (pos 0) now))
          _ h4 in
      let (_, _, h6) =
        >>=-eq-ok (reject_if (any (has_reservation new_reservation) db.reservations) _) _ h5 in
      let row = transferred_row st new_id new_reservation new_facility route expires now in
      let (stays, ins, h7) = >>=-eq-ok (insert_stay db.stays row) _ h6 in
      let hd = held_delta st.state (neg st.party_size) in
      let od = occupied_delta st.state (neg st.party_size) in
      let (inv', swept', h8) = >>=-eq-ok (adjust_all inv st.facility_id dates hd od now) _ h7 in
      let (stays', upd, h9) =
        >>=-eq-ok (exec_conditional stays id st.version (touched (move_to departed) now)) _ h8 in
      let db1 = record db {
        inventory = inv';
        stays = stays';
        reservations = transferred_reservation st new_reservation new_facility ∷ db.reservations;
      } in
      let (db2, out, h10) =
        >>=-eq-ok
          (record_transition sink db1 id st.session_id "STAY_TRANSFER_OUT" (some st.state)
            (some departed) now key)
          _ h9 in
      let inserted = insert_stay-Inserted db.stays row stays ins in
      let held =
        Balanced-insert db.inventory inv db.stays stays row f d refl
          (adjust_range-Swept db.inventory new_facility st.start_date st.end_date
            (pos st.party_size) (pos 0) now (as_exhausted-eq-ok _ swept) f d)
          ins b in
      let there : find_stay id stays ≡ some st =
        rw inserted.rows (find_stay-insert id row db.stays st inserted.fresh found) in
      let moved =
        Balanced-update stays stays' inv inv' id (touched (move_to departed) now) st st.facility_id
          st.start_date st.end_date hd od f d there upd
          (adjust_range-Swept inv st.facility_id st.start_date st.end_date hd od now swept' f d)
          (leave-Matches st now f d alive) held in
      Balanced-of_same {db = db2} {db' = db'} f d (append_to-SameAccounts sink _ _ db' h10) (
        Balanced-of_same {db = db1} {db' = db2} f d (append_to-SameAccounts sink _ _ db2 out) moved)

  unchanged : ◌≡◌ {A = StayResult Db} (ok db) (ok db') → Balanced db'.inventory db'.stays f d
  unchanged h =
      let p : db ≡ db' = cc in
      Balanced-of_same {db = db} {db' = db'} f d
        (record {
          inventory = sym (ap (λ (x : Db). x.inventory) p);
          stays = sym (ap (λ (x : Db). x.stays) p);
        })
        b

  pub correct-Balanced :
      (id : String) (n : ℕ) (operator why : String)
      → correct sink db id n operator why now key ≡ ok db'
      → Balanced db'.inventory db'.stays f d
  unfolding correct
  correct-Balanced id n operator why h =
      let (st, got, h1) = >>=-eq-ok (get_stay_for_update db.stays id) _ h in
      let (_, live, h2) = >>=-eq-ok (reject_if (not (is_live st.state)) _) _ h1 in
      let (_, some_left, h3) = >>=-eq-ok (reject_if (ltb n 1) _) _ h2 in
      let (_, less, h4) = >>=-eq-ok (reject_if (ltb st.party_size n) _) _ h3 in
      let alive = not-false _ (reject_if-eq-ok _ _ live) in
      let hd = held_delta st.state (neg (st.party_size - n)) in
      let od = occupied_delta st.state (neg (st.party_size - n)) in
      elim (Bool-cases (n == st.party_size)) [
        | inl e ↦ unchanged (rw e at h4)
        | inr e ↦
            let (inv, swept, h5) =
              >>=-eq-ok
                (shift_interval db.inventory st.facility_id st.start_date st.end_date hd od now) _
                (rw e at h4) in
            let (stays, upd, h6) =
              >>=-eq-ok (exec_conditional db.stays id st.version (touched (resized n) now)) _ h5 in
            Balanced-of_same {db = record db { inventory = inv; stays = stays }} {db' = db'} f d
              (append_to-SameAccounts sink _ _ db' h6)
              (Balanced-update db.stays stays db.inventory inv id (touched (resized n) now) st
                st.facility_id st.start_date st.end_date hd od f d (get_stay-find db.stays id got)
                upd
                (shift_interval-Swept db.inventory st.facility_id st.start_date st.end_date hd od
                  now swept f d)
                (correct-Matches st n now f d alive (reject_if-eq-ok _ _ some_left)
                  (reject_if-eq-ok _ _ less))
                b)
      ]
