-- ===== src/Stay/Model.antt =====
-- The rows that backend/internal/store/stay.go reads and writes, and its errors. A service date is
-- the number of its day, an instant a number of nanoseconds.
use sthira.Prelude.{ℕ, String, Option, List}
use sthira.Prelude.Result.{Result}

pub data StayState : Type 0 where
  reserved arrived departed cancelled expired : StayState

-- A row of `stays`: the fields of `Stay` and the columns that only the statements write.
pub record Stay : Type 0 where
  pub stay_id : String
  pub reservation_id : String
  pub session_id : String
  pub facility_id : String
  pub party_size : ℕ
  pub start_date : ℕ
  pub end_date : ℕ
  pub state : StayState
  pub package_id : String
  pub route_id : Option String
  pub transferred_from : Option String
  pub version : ℕ
  pub updated_at : ℕ
  pub expires_at : Option ℕ
  pub arrived_at : Option ℕ
  pub departed_at : Option ℕ

-- A row of `facility_inventory`, without its key.
pub record InventoryRow : Type 0 where
  pub capacity : ℕ
  pub held : ℕ
  pub occupied : ℕ
  pub version : ℕ
  pub updated_at : ℕ

-- `facility_inventory` by its primary key, the facility and the service date.
abbrev pub Inventory : Type 0
Inventory = String → ℕ → Option InventoryRow

pub record AuditEvent : Type 0 where
  pub event_id : String
  pub occurred_at : ℕ
  pub actor_id : String
  pub action : String
  pub subject_id : String
  pub outcome : String
  pub reason : String
  pub from_state : Option StayState
  pub to_state : Option StayState

-- A row of `audit_events`; `event` has the columns as they are stored.
pub record AuditRow : Type 0 where
  pub event : AuditEvent
  pub prev_hash : String
  pub event_hash : String

-- A row of `reservations`: the columns that are read.
pub record Reservation : Type 0 where
  pub reservation_id : String
  pub session_id : String
  pub facility_id : String
  pub party_size : ℕ

pub record Db : Type 0 where
  pub inventory : Inventory
  pub stays : List Stay
  pub reservations : List Reservation
  pub trail : List AuditRow

pub data StayError : Type 0 where
  empty_interval : StayError
  no_inventory : String → ℕ → StayError
  version_conflict capacity_exhausted invalid_transition stay_not_found : StayError
  must_lengthen party_too_small party_increase : StayError
  constraint_violation audit_failed : StayError

abbrev pub StayResult : Type 0 → Type 0
StayResult A = Result StayError A

-- An implementation of `AuditSink`: it appends the event, or fails.
abbrev pub AuditSink : Type 0
AuditSink = List AuditRow → AuditEvent → Option (List AuditRow)
