-- ===== src/Booking/Tables.antt =====
-- The tables of the authorities that backend/internal/store/stay.go reads to revalidate a commitment, with
-- the columns that its statements name.
use sthira.Prelude.{ℕ, String, Bool, Option, List}
use sthira.Prelude.Int.{ℤ}

pub record StayPolicy : Type 0 where
  pub reservation_expiry_seconds : Option ℤ
  pub temporary_stay_min_days : Option ℤ
  pub temporary_stay_max_days : Option ℤ
  pub allow_transfers : Option Bool
  pub route_required : Option Bool

pub record Package : Type 0 where
  pub package_id : String
  pub source_id : String
  pub artifact_id : String
  pub version : ℕ
  pub jurisdiction : String
  pub evidence_class : String
  pub effective_at : ℕ
  pub expires_at : ℕ
  pub superseded_by : Option String
  pub policy : Option StayPolicy  -- `body`, `none` where it does not decode

pub record Source : Type 0 where
  pub source_id : String
  pub state : String

pub record SourceArtifact : Type 0 where
  pub artifact_id : String
  pub evidence_class : String

pub record SourceAuthorization : Type 0 where
  pub source_id : String
  pub jurisdiction : String
  pub expires_at : Option ℕ

pub record Facility : Type 0 where
  pub facility_id : String
  pub package_id : String
  pub safe_zone_id : String

pub record ZoneVersion : Type 0 where
  pub zone_id : String
  pub package_id : String
  pub status : Option String

pub record RouteVersion : Type 0 where
  pub route_id : String
  pub package_id : String
  pub to_safe_zone_id : String
  pub approval : String
  pub verified_by : Option String
  pub valid_from : Option ℕ
  pub valid_until : Option ℕ

pub record RouteClosure : Type 0 where
  pub route_id : String
  pub reopened_at : Option ℕ

pub record Authority : Type 0 where
  pub packages : List Package
  pub sources : List Source
  pub artifacts : List SourceArtifact
  pub authorizations : List SourceAuthorization
  pub facilities : List Facility
  pub zone_versions : List ZoneVersion
  pub route_versions : List RouteVersion
  pub route_closures : List RouteClosure
