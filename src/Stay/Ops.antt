-- ===== src/Stay/Ops.antt =====
-- Reserve, Arrive, Cancel, Expire and Depart of backend/internal/store/stay.go. Each runs in its caller's
-- transaction: an error leaves nothing written (`in_tx`).
use sthira.Prelude.{
  ℕ, ◌+◌, String, Bool, true, false, not, Option, none, some, List, [], ◌∷◌, leb, str_eq,
  if◌then◌else◌, any,
}
use Prim.Native.String.{compare, ◌++◌ as append_str}
use text.Mathlib.Text.{is_lt}
use sthira.Prelude.Int.{ℤ, pos, neg}
use sthira.Prelude.Result.{ok, err, ◌>>=◌, ◌>>◌, reject_if}
use sthira.Stay.Model.{
  Stay, Reservation, StayState, reserved, arrived, departed, cancelled, expired, Inventory,
  AuditEvent, AuditRow, Db, empty_interval, invalid_transition, constraint_violation, audit_failed,
  StayResult, AuditSink,
}
use sthira.Stay.Inventory.{date_range, lock_inventory, adjust_all, as_exhausted}
use sthira.Stay.Rows.{get_stay_for_update, exec_conditional, insert_stay}

abbrev pub is_empty {ℓ} : {A : Type ℓ} → List A → Bool
is_empty [] = true
is_empty (x ∷ xs) = false

abbrev pub is_reserved : StayState → Bool
is_reserved reserved = true
is_reserved _ = false

abbrev pub is_arrived : StayState → Bool
is_arrived arrived = true
is_arrived _ = false

abbrev pub has_reservation : String → Reservation → Bool
has_reservation id r = str_eq r.reservation_id id

-- st.State != StayReserved && st.State != StayArrived is the negation of this.
abbrev pub is_live : StayState → Bool
is_live reserved = true
is_live arrived = true
is_live _ = false

-- st.ExpiresAt != nil && !now.Before(*st.ExpiresAt)
abbrev pub past_expiry : Option ℕ → ℕ → Bool
past_expiry none now = false
past_expiry (some t) now = leb t now

-- strings.Join(parts, ":")
abbrev join_colon : String → List String → String
join_colon s [] = s
join_colon s (t ∷ ts) = join_colon (append_str s (append_str ":" t)) ts

-- auditEventID
abbrev pub audit_event_id : String → String → String → String → String
audit_event_id subject action actor idem_key =
    if str_eq idem_key ""
    then join_colon subject (action ∷ actor ∷ [])
    else join_colon subject (action ∷ actor ∷ idem_key ∷ [])

-- A delta for a stay's space: in `held` while it is reserved, in `occupied` once it has arrived.
abbrev pub held_delta : StayState → ℤ → ℤ
held_delta arrived z = pos 0
held_delta _ z = z

abbrev pub occupied_delta : StayState → ℤ → ℤ
occupied_delta arrived z = z
occupied_delta _ z = pos 0

-- The version guard's `version = version + 1, updated_at = now` with a further assignment.
abbrev pub touched : (Stay → Stay) → ℕ → Stay → Stay
touched set now s = let s' = set s in record s' { version = s.version + 1; updated_at = now }

abbrev pub move_to : StayState → Stay → Stay
move_to target s = record s { state = target }

abbrev pub arrive_at : ℕ → Stay → Stay
arrive_at now s = record s { state = arrived; arrived_at = some now }

abbrev pub depart_at : ℕ → Stay → Stay
depart_at now s = record s { state = departed; departed_at = some now }

-- lockOrder: the two facilities in the order of Go's `>` on strings.
abbrev pub first_facility : String → String → String
first_facility a b = if is_lt (compare b a) then b else a

abbrev pub second_facility : String → String → String
second_facility a b = if is_lt (compare b a) then a else b

-- The result of an event recorded with the sink, or of no sink.
abbrev pub appended : Db → Option (List AuditRow) → StayResult Db
appended db none = err audit_failed
appended db (some trail) = ok (record db { trail = trail })

abbrev pub append_to : Option AuditSink → Db → AuditEvent → StayResult Db
append_to none db ev = ok db
append_to (some record_event) db ev = appended db (record_event db.trail ev)

-- Moves a whole interval's space of a stay, after locking its rows.
unfoldable pub shift_interval : Inventory → String → ℕ → ℕ → ℤ → ℤ → ℕ → StayResult Inventory
shift_interval inv f start end hd od now = do
  lock_inventory inv f (date_range start end)
  adjust_all inv f (date_range start end) hd od now

-- The row that Reserve inserts: state RESERVED and version 1, whatever the caller's record says.
abbrev pub reserved_row : Stay → ℕ → Stay
reserved_row stay now = record stay {
  state = reserved;
  transferred_from = none;
  version = 1;
  updated_at = now;
  arrived_at = none;
  departed_at = none;
}

-- The `audit` field of the store: `none` is nil.
module _ (sink : Option AuditSink) where
  abbrev pub append : Db → AuditEvent → StayResult Db
  append db ev = append_to sink db ev

  unfoldable pub record_transition :
      Db
      → String
      → String
      → String
      → Option StayState
      → Option StayState
      → ℕ
      → String
      → StayResult Db
  record_transition db stay_id session_id action from to now idem_key = append db (record {
    event_id = audit_event_id stay_id action session_id idem_key;
    occurred_at = now;
    actor_id = session_id;
    action = action;
    subject_id = stay_id;
    outcome = "OK";
    reason = "";
    from_state = from;
    to_state = to;
  })

  unfoldable pub reserve : Db → Stay → ℕ → String → StayResult Db
  unfolding shift_interval record_transition
  reserve db stay now idem_key = do
    reject_if (is_empty (date_range stay.start_date stay.end_date)) empty_interval
    lock_inventory db.inventory stay.facility_id (date_range stay.start_date stay.end_date)
    inv ← as_exhausted (
        adjust_all db.inventory stay.facility_id (date_range stay.start_date stay.end_date)
          (pos stay.party_size) (pos 0) now)
    reject_if (not (any (has_reservation stay.reservation_id) db.reservations)) constraint_violation
    stays ← insert_stay db.stays (reserved_row stay now)
    record_transition (record db { inventory = inv; stays = stays }) stay.stay_id stay.session_id
        "STAY_RESERVE" none (some reserved) now idem_key

  -- A live stay's move to another state with its inventory: what Arrive, Cancel, Expire and Depart
  -- do once their guards have passed.
  unfoldable pub transition :
      Db → String → Stay → ℤ → ℤ → (Stay → Stay) → String → StayState → ℕ → String → StayResult Db
  unfolding shift_interval record_transition
  transition db stay_id st hd od set action target now idem_key = do
    inv ← shift_interval db.inventory st.facility_id st.start_date st.end_date hd od now
    stays ← exec_conditional db.stays stay_id st.version (touched set now)
    record_transition (record db { inventory = inv; stays = stays }) stay_id st.session_id action
        (some st.state) (some target) now idem_key

  unfoldable pub arrive : Db → String → ℕ → String → StayResult Db
  unfolding transition
  arrive db stay_id now idem_key = do
    st ← get_stay_for_update db.stays stay_id
    reject_if (not (is_reserved st.state)) invalid_transition
    reject_if (past_expiry st.expires_at now) invalid_transition
    transition db stay_id st (neg st.party_size) (pos st.party_size) (arrive_at now) "STAY_ARRIVE"
        arrived now idem_key

  unfoldable pub cancel : Db → String → ℕ → String → StayResult Db
  unfolding transition
  cancel db stay_id now idem_key = do
    st ← get_stay_for_update db.stays stay_id
    reject_if (not (is_reserved st.state)) invalid_transition
    transition db stay_id st (neg st.party_size) (pos 0) (move_to cancelled) "STAY_CANCEL" cancelled
        now idem_key

  unfoldable pub expire : Db → String → ℕ → String → StayResult Db
  unfolding transition
  expire db stay_id now idem_key = do
    st ← get_stay_for_update db.stays stay_id
    reject_if (not (is_reserved st.state)) invalid_transition
    reject_if (not (past_expiry st.expires_at now)) invalid_transition
    transition db stay_id st (neg st.party_size) (pos 0) (move_to expired) "STAY_EXPIRE" expired now
        idem_key

  unfoldable pub depart : Db → String → ℕ → String → StayResult Db
  unfolding transition
  depart db stay_id now idem_key = do
    st ← get_stay_for_update db.stays stay_id
    reject_if (not (is_arrived st.state)) invalid_transition
    transition db stay_id st (pos 0) (neg st.party_size) (depart_at now) "STAY_DEPART" departed now
        idem_key
