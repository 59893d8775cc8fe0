-- ===== src/OfflinePkg.antt =====
-- backend/internal/offlinepkg: the wire format of the regional manifest (types.go). Instants are
-- nanoseconds; the counts and sizes, which the code refuses below 1, are natural numbers; a document
-- of bytes is its text.
pub mod Structure
pub mod Trust
pub mod WellFormed
pub mod Signed
pub mod Revoked
pub mod Revocation
pub mod Fixtures
mod Examples
use sthira.Prelude.{ℕ, String, Bool, Option, List}

pub record Signature : Type 0 where
  pub algorithm : String
  pub key_id : String
  pub value : String

pub record CriticalCardDescriptor : Type 0 where
  pub package_id : String
  pub version : ℕ
  pub uri : String
  pub checksum_sha256 : String
  pub uncompressed_bytes : ℕ
  pub compressed_bytes : ℕ
  pub content_type : String

pub record ResourceDescriptor : Type 0 where
  pub resource_id : String
  pub type : String
  pub uri : String
  pub checksum_sha256 : String
  pub byte_size : ℕ
  pub content_type : String
  pub required : Bool
  pub attribution : String

pub record SupersededVersion : Type 0 where
  pub package_id : String
  pub version : ℕ

pub record RevocationBlock : Type 0 where
  pub revoked_packages : List String
  pub cancelled_routes : List String
  pub superseded_versions : List SupersededVersion

pub record ManifestProvenance : Type 0 where
  pub authority : String
  pub dataset_id : String
  pub evidence_class : String

pub record Manifest : Type 0 where
  pub schema_version : String
  pub manifest_id : String
  pub jurisdiction : String
  pub revision : ℕ
  pub generated_at : String
  pub valid_until : String
  pub source_status : String
  pub critical_card : CriticalCardDescriptor
  pub resources : List ResourceDescriptor
  pub revocations : RevocationBlock
  pub provenance : ManifestProvenance
  pub checksum_sha256 : String
  pub signature : Option Signature

-- The sentinels that errors.Is tells apart.
pub data PkgError : Type 0 where
  invalid_signature signer_unauthorized key_expired checksum_mismatch : PkgError
  version_rollback malformed_data unknown_key key_revoked : PkgError

-- What the package takes from Go's library: the length of a text in bytes, time.Parse of RFC 3339,
-- the decoding of one JSON document with no unknown, repeated or trailing part, the JSON of a
-- manifest with its keys sorted, the hex of sha256, and the base64 and ed25519 of a signature; the
-- store takes strings.TrimSpace.
pub record Library : Type 0 where
  pub byte_len : String → ℕ
  pub parse_time : String → Option ℕ
  pub decode_manifest : String → Option Manifest
  pub marshal : Manifest → String
  pub sha256_hex : String → String
  pub decode_base64 : String → Option String
  pub trim_space : String → String
  pub ed25519_verify : String → String → String → Bool
