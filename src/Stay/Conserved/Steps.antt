-- ===== src/Stay/Conserved/Steps.antt =====
-- The parts that the operations of backend/internal/store/stay.go share keep the capacity accounts.
use sthira.Prelude.{
  ℕ, ◌+◌, ◌-◌, ◌≡◌, sym, ◌∙◌, subst, String, Option, none, some, List, arith, ap, All,
}
use sthira.Prelude.Int.{ℤ}
use sthira.Prelude.Result.{ok, >>=-eq-ok}
use sthira.Stay.Model.{Stay, StayState, Inventory, Db, StayResult, AuditSink, AuditEvent, AuditRow}
use sthira.Stay.Inventory.{date_range, lock_inventory, adjust_all, as_exhausted}
use sthira.Stay.Inventory.Laws.{Swept, adjust_all-Swept}
use sthira.Stay.Rows.{
  find_stay, get_stay_for_update, exec_conditional, total, total-update_stay, update_stay-All,
  find_stay-All,
}
use sthira.Stay.Ops.{shift_interval, append_to, appended, transition, touched}
use sthira.Stay.Conserved.{
  IsRow, Balanced, Balanced-sweep, Matches, held_by, occupied_by, covers_until,
}

pub get_stay-find :
    (stays : List Stay) (id : String) {s : Stay}
    → get_stay_for_update stays id ≡ ok s
    → find_stay id stays ≡ some s
unfolding get_stay_for_update
get_stay-find stays id h = ground arith

pub adjust_range-Swept :
    (inv : Inventory) (g : String) (s t : ℕ) (hd od : ℤ) (now : ℕ) {inv' : Inventory}
    → adjust_all inv g (date_range s t) hd od now ≡ ok inv'
    → (f : String) (d : ℕ) → Swept inv inv' g s t hd od f d
unfolding date_range
adjust_range-Swept inv g s t hd od now h f d =
    let w = adjust_all-Swept inv g s (t - s) hd od now h f d in
    record {
      inside = λ c. w.inside (covers_until g s t f d ∙ c);
      outside = λ c. w.outside (covers_until g s t f d ∙ c);
    }

pub as_exhausted-eq-ok :
    (r : StayResult Inventory) {i : Inventory} → as_exhausted r ≡ ok i → r ≡ ok i
as_exhausted-eq-ok r h = ground arith

pub shift_interval-Swept :
    (inv : Inventory) (g : String) (s t : ℕ) (hd od : ℤ) (now : ℕ) {inv' : Inventory}
    → shift_interval inv g s t hd od now ≡ ok inv'
    → (f : String) (d : ℕ) → Swept inv inv' g s t hd od f d
unfolding shift_interval
shift_interval-Swept inv g s t hd od now h =
    let (u, p, q) = >>=-eq-ok (lock_inventory inv g (date_range s t)) _ h in
    adjust_range-Swept inv g s t hd od now q

-- The accounts of two states are the same.
pub record SameAccounts (db db' : Db) : Type 0 where
  pub inventory : db'.inventory ≡ db.inventory
  pub stays : db'.stays ≡ db.stays

same_of_trail :
    (db : Db) (trail : List AuditRow) (db' : Db)
    → ◌≡◌ {A = StayResult Db} (ok (record db { trail = trail })) (ok db')
    → SameAccounts db db'
same_of_trail db trail db' h =
    let p : record db { trail = trail } ≡ db' = cc in
    record {
      inventory = sym (ap (λ (x : Db). x.inventory) p);
      stays = sym (ap (λ (x : Db). x.stays) p);
    }

appended-SameAccounts :
    (db : Db) (o : Option (List AuditRow)) (db' : Db) → appended db o ≡ ok db' → SameAccounts db db'
appended-SameAccounts db none db' h = cc
appended-SameAccounts db (some trail) db' h = same_of_trail db trail db' h

pub append_to-SameAccounts :
    (sink : Option AuditSink) (db : Db) (ev : AuditEvent) (db' : Db)
    → append_to sink db ev ≡ ok db'
    → SameAccounts db db'
append_to-SameAccounts none db ev db' h =
    let p : db ≡ db' = cc in
    record {
      inventory = sym (ap (λ (x : Db). x.inventory) p);
      stays = sym (ap (λ (x : Db). x.stays) p);
    }
append_to-SameAccounts (some f) db ev db' h = appended-SameAccounts db (f db.trail ev) db' h

pub Balanced-of_same :
    {db db' : Db} (f : String) (d : ℕ)
    → SameAccounts db db'
    → Balanced db.inventory db.stays f d
    → Balanced db'.inventory db'.stays f d
Balanced-of_same f d same b = record {
  rows = rw same.stays b.rows;
  held = rw (same.inventory, same.stays) b.held;
  occupied = rw (same.inventory, same.stays) b.occupied;
  fits = rw same.inventory b.fits;
}

-- The version-guarded update of a row just read succeeds, and every total moves with that row.
pub exec_conditional-total :
    (w : Stay → ℕ) (stays : List Stay) (id : String) (set : Stay → Stay) (s : Stay)
    {stays' : List Stay}
    → find_stay id stays ≡ some s
    → exec_conditional stays id s.version set ≡ ok stays'
    → total w stays' + w s ≡ total w stays + w (set s)
unfolding exec_conditional
exec_conditional-total w stays id set s {stays' = stays'} found h =
    let (ss, p, q) = total-update_stay w id set stays s found in
    let e : ◌≡◌ {A = StayResult (List Stay)} (ok ss) (ok stays') =
      (rw (p, exec_conditional) at h) in
    let same : ss ≡ stays' = cc in subst (λ x. total w x + w s ≡ total w stays + w (set s)) same q

pub exec_conditional-All :
    (P : Stay → Type 0) (stays : List Stay) (id : String) (set : Stay → Stay) (s : Stay)
    {stays' : List Stay}
    → find_stay id stays ≡ some s
    → exec_conditional stays id s.version set ≡ ok stays'
    → P (set s)
    → All P stays
    → All P stays'
unfolding exec_conditional
exec_conditional-All P stays id set s {stays' = stays'} found h p a =
    update_stay-All P id s.version set stays s stays' found (ground arith) p a

module _ (stays stays' : List Stay) (inv inv' : Inventory) (id : String) (set : Stay → Stay)
    (s : Stay) (g : String) (a b : ℕ) (hd od : ℤ) (f : String) (d : ℕ) where
  -- A sweep of an interval and a version-guarded update of the row just read, where they match.
  pub Balanced-update :
      find_stay id stays ≡ some s
      → exec_conditional stays id s.version set ≡ ok stays'
      → Swept inv inv' g a b hd od f d
      → Matches hd od s (set s) g a b f d
      → Balanced inv stays f d
      → Balanced inv' stays' f d
  Balanced-update found done swept matches bal =
      Balanced-sweep inv inv' stays stays' g a b hd od s (set s) f d swept
        (exec_conditional-All IsRow stays id set s found done
          (matches.row (find_stay-All IsRow id stays s bal.rows found)) bal.rows)
        (exec_conditional-total (held_by f d) stays id set s found done)
        (exec_conditional-total (occupied_by f d) stays id set s found done) matches bal

module _ (sink : Option AuditSink) where
  pub transition-Balanced :
      (db : Db) (id : String) (st : Stay) (hd od : ℤ) (set : Stay → Stay) (action : String)
      (target : StayState) (now : ℕ) (key : String) {db' : Db} (f : String) (d : ℕ)
      → find_stay id db.stays ≡ some st
      → transition sink db id st hd od set action target now key ≡ ok db'
      → Matches hd od st (touched set now st) st.facility_id st.start_date st.end_date f d
      → Balanced db.inventory db.stays f d
      → Balanced db'.inventory db'.stays f d
  unfolding transition
  transition-Balanced db id st hd od set action target now key {db' = db'} f d found h matches b =
      let (inv, p, q) =
        >>=-eq-ok (shift_interval db.inventory st.facility_id st.start_date st.end_date hd od now) _
          h in
      let (stays, r, t) =
        >>=-eq-ok (exec_conditional db.stays id st.version (touched set now)) _ q in
      Balanced-of_same {db = record db { inventory = inv; stays = stays }} {db' = db'} f d
        (append_to-SameAccounts sink _ _ db' t)
        (Balanced-update db.stays stays db.inventory inv id (touched set now) st st.facility_id
          st.start_date st.end_date hd od f d found r
          (shift_interval-Swept db.inventory st.facility_id st.start_date st.end_date hd od now p f
            d)
          matches b)
