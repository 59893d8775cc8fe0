-- ===== src/Publication.antt =====
-- backend/internal/store/publication.go and publisher.go: the published manifests of a jurisdiction,
-- with the columns of published_manifests, the incident cards and the resources. Revisions, which the code refuses below 1, are natural
-- numbers; a document of bytes is its text; a NULL column is `none`.
pub mod Rows
pub mod Authorities
pub mod Manifests
pub mod Publisher
pub mod Cards
pub mod Resources
pub mod Grants
pub mod Promotion
pub mod History
pub mod Immutable
pub mod Trusted
pub mod Withdrawn
pub mod Ranked
pub mod Delivered
pub mod Effective
pub mod CardAuthority
pub mod CardPublisher
pub mod ResourceTrips
pub mod Fixtures
mod Examples
use sthira.Prelude.{ℕ, String, Bool, Option, none, some}
use sthira.Prelude.Result.{Result, ok, err}

-- The argument of the two PublishManifest; `source_id` is "" where it is not given.
pub record PublishedManifest : Type 0 where
  pub manifest_id : String
  pub jurisdiction : String
  pub revision : ℕ
  pub package_id : String
  pub source_id : String
  pub raw_json : String
  pub checksum_sha256 : String
  pub source_status : String
  pub quarantined : Bool

pub record ManifestRow : Type 0 where
  pub manifest_id : String
  pub jurisdiction : String
  pub revision : ℕ
  pub package_id : String
  pub source_id : Option String
  pub raw_json : String
  pub checksum_sha256 : String
  pub source_status : String
  pub quarantined : Bool
  pub created_at : ℕ

pub data PublishError : Type 0 where
  manifest_id_required jurisdiction_required revision_required package_id_required : PublishError
  version_required resource_id_required content_type_required content_required : PublishError
  content_length_mismatch : PublishError
  raw_json_required raw_json_too_large bad_checksum_length unparsable : PublishError
  bad_checksum conflict not_found is_quarantined is_withdrawn : PublishError
  publication_authority trust_missing identity_mismatch invalid_metadata untrusted : PublishError
  sql_error : PublishError

abbrev pub or_else {ℓ} : {A : Type ℓ} → PublishError → Option A → Result PublishError A
or_else e none = err e
or_else e (some a) = ok a
