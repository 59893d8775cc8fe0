-- ===== src/Stay/Progress.antt =====
-- When the capacity accounts let an operation of backend/internal/store/stay.go through.
use sthira.Prelude.{
  ℕ, zero, suc, ◌+◌, ◌-◌, ◌≤◌, ◌<◌, ◌≡◌, refl, subst, String, true, Option, none, some, List, [],
  ◌∷◌, arith, ◌==◌, str_eq, Bool-cases, Option-cases, inl, inr,
}
use sthira.Prelude.Int.{ℤ, pos, neg}
use sthira.Prelude.Result.{ok, err}
use sthira.Stay.Model.{
  Stay, StayState, Db, InventoryRow, Inventory, version_conflict, AuditRow, AuditEvent, AuditSink,
}
use sthira.Stay.Inventory.Laws.{held_of, occupied_of, capacity_of}
use sthira.Stay.Rows.{find_stay, total, total-update_stay, exec_conditional}
use sthira.Stay.Ops.{
  shift_interval, transition, touched, append_to, audit_event_id, record_transition,
}
use sthira.Stay.Inventory.{
  dates_from, date_range, lock_inventory, adjusted, adjust_inventory, adjust_all, write, exists,
}

-- The conditional update's guard matches the row at this key.
abbrev pub HasRoom : Inventory → String → ℕ → ℤ → ℤ → ℕ → Type 0
HasRoom inv f e hd od now = (r : InventoryRow) × (adjusted (inv f e) hd od now ≡ some r)

adjust_some :
    (inv : Inventory) (f : String) (d : ℕ) (hd od : ℤ) (now : ℕ) (r : InventoryRow)
    → adjusted (inv f d) hd od now ≡ some r
    → adjust_inventory inv f d hd od now ≡ ok (write inv f d r)
unfolding adjust_inventory
adjust_some inv f d hd od now r h = rw h

adjust_none :
    (inv : Inventory) (f : String) (d : ℕ) (hd od : ℤ) (now : ℕ)
    → adjusted (inv f d) hd od now ≡ none
    → adjust_inventory inv f d hd od now ≡ err version_conflict
unfolding adjust_inventory
adjust_none inv f d hd od now h = rw h

write_later :
    (inv : Inventory) (f : String) (d e : ℕ) (r : InventoryRow)
    → d < e
    → write inv f d r f e ≡ inv f e
write_later inv f d e r h = ground arith

-- Where every date has room the loop of updates goes through.
pub adjust_all_total :
    (inv : Inventory) (f : String) (s n : ℕ) (hd od : ℤ) (now : ℕ)
    → ((e : ℕ) → s ≤ e → e < s + n → HasRoom inv f e hd od now)
    → (inv' : Inventory) × (adjust_all inv f (dates_from s n) hd od now ≡ ok inv')
unfolding adjust_all dates_from
adjust_all_total inv f s zero hd od now room = (inv, refl)
adjust_all_total inv f s (suc n) hd od now room =
    let (r, p) = room s (omega arith) (omega arith) in
    let inv1 = write inv f s r in
    let (inv', q) = adjust_all_total inv1 f (s + 1) n hd od now (λ e lo hi.
      let (r', p') = room e (omega arith) (omega arith) in
      (r', rw (write_later inv f s e r (omega arith)) p')) in
    (inv', rw (adjust_some inv f s hd od now r p) q)

-- Where one date has none the loop ends in a version conflict.
pub adjust_all_full :
    (inv : Inventory) (f : String) (s n : ℕ) (hd od : ℤ) (now e : ℕ)
    → s ≤ e
    → e < s + n
    → adjusted (inv f e) hd od now ≡ none
    → adjust_all inv f (dates_from s n) hd od now ≡ err version_conflict
unfolding adjust_all dates_from
adjust_all_full inv f s zero hd od now e lo hi full = absurd (omega arith)
adjust_all_full inv f s (suc n) hd od now e lo hi full = elim (Bool-cases (s == e)) [
  | inl here ↦
      let same : e ≡ s = ground arith in
      rw
        (adjust_none inv f s hd od now (subst (λ x. adjusted (inv f x) hd od now ≡ none) same full))
  | inr later ↦ elim (Option-cases (adjusted (inv f s) hd od now)) [
    | inl p ↦ rw (adjust_none inv f s hd od now p)
    | inr (r, p) ↦ rw (adjust_some inv f s hd od now r p) (
        adjust_all_full (write inv f s r) f (s + 1) n hd od now e (ground arith) (omega arith)
          (rw (write_later inv f s e r (ground arith)) full))
  ]
]

room_exists :
    (o : Option InventoryRow) (hd od : ℤ) (now : ℕ) (r : InventoryRow)
    → adjusted o hd od now ≡ some r
    → exists o ≡ true
room_exists none hd od now r h = cc
room_exists (some q) hd od now r h = refl

pub lock_from :
    (inv : Inventory) (f : String) (s n : ℕ)
    → ((e : ℕ) → s ≤ e → e < s + n → exists (inv f e) ≡ true)
    → lock_inventory inv f (dates_from s n) ≡ ok tt
unfolding lock_inventory dates_from
lock_from inv f s zero all = refl
lock_from inv f s (suc n) all =
    rw (all s (omega arith) (omega arith))
      (lock_from inv f (s + 1) n (λ e lo hi. all e (omega arith) (omega arith)))

-- A whole interval with room on every date is locked and updated.
pub shift_interval_total :
    (inv : Inventory) (f : String) (s t : ℕ) (hd od : ℤ) (now : ℕ)
    → ((e : ℕ) → s ≤ e → e < t → HasRoom inv f e hd od now)
    → (inv' : Inventory) × (shift_interval inv f s t hd od now ≡ ok inv')
unfolding shift_interval date_range
shift_interval_total inv f s t hd od now room =
    let (inv', p) =
      adjust_all_total inv f s (t - s) hd od now (λ e lo hi. room e lo (omega arith)) in
    let locked =
      lock_from inv f s (t - s)
        (λ e lo hi. let (r, q) = room e lo (omega arith) in room_exists (inv f e) hd od now r q) in
    (inv', rw locked p)

-- The row that is found counts in every total.
pub le-total :
    (w : Stay → ℕ) (id : String) (stays : List Stay) (s : Stay)
    → find_stay id stays ≡ some s
    → w s ≤ total w stays
unfolding find_stay total
le-total w id [] s h = cc
le-total w id (r ∷ rs) s h = elim (Bool-cases (str_eq r.stay_id id)) [
  | inl e ↦
      let same : r ≡ s = (let p : some r ≡ some s = (rw e at h) in cc) in
      subst (λ x. w x ≤ w r + total w rs) same (omega arith)
  | inr e ↦ omega (arith, le-total w id rs s (rw e at h))
]

-- A version-guarded update of the row just read affects it.
exec_conditional_total :
    (stays : List Stay) (id : String) (set : Stay → Stay) (s : Stay)
    → find_stay id stays ≡ some s
    → (ss : List Stay) × (exec_conditional stays id s.version set ≡ ok ss)
unfolding exec_conditional
exec_conditional_total stays id set s h =
    let (ss, p, q) = total-update_stay (λ x. 0) id set stays s h in (ss, rw (p, exec_conditional))

-- The audit sink, where there is one, takes the event after that trail.
abbrev pub Taken : Option AuditSink → List AuditRow → AuditEvent → Type 0
Taken none trail ev = Unit
Taken (some record_event) trail ev = (after : List AuditRow) × (record_event trail ev ≡ some after)

-- The event of a move of the stay `id` to another state.
abbrev pub moved_event : String → Stay → String → StayState → ℕ → String → AuditEvent
moved_event id st action target now key = record {
  event_id = audit_event_id id action st.session_id key;
  occurred_at = now;
  actor_id = st.session_id;
  action = action;
  subject_id = id;
  outcome = "OK";
  reason = "";
  from_state = some st.state;
  to_state = some target;
}

append_total :
    (sink : Option AuditSink) (db : Db) (ev : AuditEvent)
    → Taken sink db.trail ev
    → (db' : Db) × (append_to sink db ev ≡ ok db')
append_total none db ev taken = (db, refl)
append_total (some record_event) db ev (after, e) = (record db { trail = after }, rw e refl)

module _ (sink : Option AuditSink) (db : Db) (id : String) (st : Stay)
    (found : find_stay id db.stays ≡ some st) where
  pub transition_total :
      (hd od : ℤ) (set : Stay → Stay) (action : String) (target : StayState) (now : ℕ)
      (key : String)
      → ((e : ℕ)
          → st.start_date ≤ e
          → e < st.end_date
          → HasRoom db.inventory st.facility_id e hd od now)
      → Taken sink db.trail (moved_event id st action target now key)
      → (db' : Db) × (transition sink db id st hd od set action target now key ≡ ok db')
  unfolding transition record_transition
  transition_total hd od set action target now key room taken =
      let (inv, p) =
        shift_interval_total db.inventory st.facility_id st.start_date st.end_date hd od now room in
      let (ss, q) = exec_conditional_total db.stays id (touched set now) st found in
      let (db', a) =
        append_total sink (record db { inventory = inv; stays = ss })
          (moved_event id st action target now key) taken in
      (db', rw (p, q) a)

pub held_room :
    (o : Option InventoryRow) (p now : ℕ) (to : ℕ)
    → 1 ≤ p
    → p ≤ held_of o
    → held_of o + occupied_of o ≤ capacity_of o
    → to ≤ p
    → (r : InventoryRow) × (adjusted o (neg p) (pos to) now ≡ some r)
held_room none p now to pos_p h fits le = absurd (omega arith)
held_room (some q) zero now to pos_p h fits le = absurd (omega arith)
held_room (some q) (suc p) now to pos_p h fits le = (
  record q {
    held = q.held - suc p;
    occupied = q.occupied + to;
    version = q.version + 1;
    updated_at = now;
  },
  ground arith,
)

pub occupied_room :
    (o : Option InventoryRow) (p now : ℕ)
    → 1 ≤ p
    → p ≤ occupied_of o
    → held_of o + occupied_of o ≤ capacity_of o
    → (r : InventoryRow) × (adjusted o (pos 0) (neg p) now ≡ some r)
occupied_room none p now pos_p h fits = absurd (omega arith)
occupied_room (some q) zero now pos_p h fits = absurd (omega arith)
occupied_room (some q) (suc p) now pos_p h fits = (
  record q {
    held = q.held + 0;
    occupied = q.occupied - suc p;
    version = q.version + 1;
    updated_at = now;
  },
  ground arith,
)
