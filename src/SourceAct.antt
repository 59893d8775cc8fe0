-- ===== src/SourceAct.antt =====
-- backend/internal/sourceact/activation.go: the activation lifecycle of government sources.
pub mod Steps
pub mod Laws
mod Examples
use sthira.Prelude.{
  ℕ, ◌+◌, String, Bool, true, false, not, Option, none, some, List, [], ◌∷◌, ◌++◌, str_eq,
  if◌then◌else◌, Map, lookup, insert,
}
use sthira.Prelude.Result.{Result, ok, err, ◌>>=◌, ◌>>◌, reject_if}

pub data State : Type 0 where
  discovered access_requested sample_acquired validated authorized operational : State
  suspended retired quarantined : State

-- The table `transitions`; a state with no entry has no successor.
unfoldable pub legal : State → State → Bool
legal discovered access_requested = true
legal discovered quarantined = true
legal access_requested sample_acquired = true
legal access_requested quarantined = true
legal sample_acquired validated = true
legal sample_acquired quarantined = true
legal validated authorized = true
legal validated quarantined = true
legal authorized operational = true
legal authorized quarantined = true
legal operational suspended = true
legal operational retired = true
legal operational quarantined = true
legal suspended operational = true
legal suspended retired = true
legal suspended quarantined = true
legal _ _ = false

pub record Source : Type 0 where
  pub source_id : String
  pub government_owner : String
  pub official_domain : String
  pub state : State
  pub version : ℕ
  pub updated_at : ℕ

-- The argument of `Discover`: `none` is the empty state.
pub record NewSource : Type 0 where
  pub source_id : String
  pub government_owner : String
  pub official_domain : String
  pub state : Option State

pub record AuditEvent : Type 0 where
  pub event_id : String
  pub occurred_at : ℕ
  pub actor_id : String
  pub subject_id : String
  pub reason : String
  pub from_state : State
  pub to_state : State

-- The audit sink collects its events; `none` is a nil Auditor.
pub record Service : Type 0 where
  pub by_id : Map Source
  pub audit : Option (List AuditEvent)

pub data ActivationError : Type 0 where
  id_required owner_required domain_required must_begin_discovered : ActivationError
  duplicate_source source_not_found illegal_transition not_operational : ActivationError

abbrev pub new_service : Option (List AuditEvent) → Service
new_service audit = record { by_id = []; audit = audit }

unfoldable pub may_drive_guidance : State → Bool
may_drive_guidance operational = true
may_drive_guidance _ = false

abbrev begins_elsewhere : Option State → Bool
begins_elsewhere none = false
begins_elsewhere (some discovered) = false
begins_elsewhere (some _) = true

abbrev is_some : Option Source → Bool
is_some none = false
is_some (some s) = true

abbrev pub source_of : NewSource → ℕ → Source
source_of src now = record {
  source_id = src.source_id;
  government_owner = src.government_owner;
  official_domain = src.official_domain;
  state = discovered;
  version = 1;
  updated_at = now;
}

unfoldable pub discover : Service → NewSource → ℕ → Result ActivationError Service
discover s src now = do
  reject_if (str_eq src.source_id "") id_required
  reject_if (str_eq src.government_owner "") owner_required
  reject_if (str_eq src.official_domain "") domain_required
  reject_if (begins_elsewhere src.state) must_begin_discovered
  reject_if (is_some (lookup src.source_id s.by_id)) duplicate_source
  ok (record s { by_id = insert src.source_id (source_of src now) s.by_id })

abbrev audited : Option (List AuditEvent) → AuditEvent → Option (List AuditEvent)
audited none ev = none
audited (some evs) ev = some (evs ++ ev ∷ [])

abbrev known : Option Source → Result ActivationError Source
known none = err source_not_found
known (some src) = ok src

abbrev pub moved : Source → State → ℕ → Source
moved current target now = record current {
  state = target;
  version = current.version + 1;
  updated_at = now;
}

unfoldable pub transition :
    Service → String → State → String → String → String → ℕ → Result ActivationError Service
unfolding legal
transition s source_id target actor reason event_id now = do
  current ← known (lookup source_id s.by_id)
  reject_if (not (legal current.state target)) illegal_transition
  ok (record s {
    by_id = insert source_id (moved current target now) s.by_id;
    audit = audited s.audit (record {
      event_id = event_id;
      occurred_at = now;
      actor_id = actor;
      subject_id = source_id;
      reason = reason;
      from_state = current.state;
      to_state = target;
    });
  })

unfoldable pub require_operational : Service → String → Result ActivationError Source
unfolding may_drive_guidance
require_operational s source_id = do
  src ← known (lookup source_id s.by_id)
  reject_if (not (may_drive_guidance src.state)) not_operational
  ok src
