-- ===== src/OfflinePkg/Fixtures.antt =====
-- Test data for the documents of backend/internal/offlinepkg: one signed manifest, its key, and a
-- library that knows these texts.
use sthira.Prelude.{false, ◌&&◌, none, some, [], ◌∷◌, str_eq, if◌then◌else◌}
use sthira.OfflinePkg.{Manifest, Library}
use sthira.OfflinePkg.Trust.{TrustedKey, TrustStore}

abbrev pub district_key : TrustedKey
district_key = record {
  key_id = "district";
  public_key = "public";
  permitted_jurisdiction = "IN-KA";
  valid_from = some 10;
  valid_until = some 100;
  revoked = false;
}

abbrev pub pinned_keys : TrustStore
pinned_keys = ("district", district_key) ∷ []

abbrev pub signed_manifest : Manifest
signed_manifest = record {
  schema_version = "3.0";
  manifest_id = "m7";
  jurisdiction = "IN-KA";
  revision = 7;
  generated_at = "morning";
  valid_until = "evening";
  source_status = "CURRENT";
  critical_card = record {
    package_id = "pkg";
    version = 3;
    uri = "/cards/pkg";
    checksum_sha256 = "card digest";
    uncompressed_bytes = 900;
    compressed_bytes = 500;
    content_type = "application/json";
  };
  resources = [];
  revocations = record { revoked_packages = []; cancelled_routes = []; superseded_versions = [] };
  provenance = record {
    authority = "district";
    dataset_id = "flood";
    evidence_class = "AUTHORIZED_OPERATIONAL";
  };
  checksum_sha256 = "digest";
  signature = some (record { algorithm = "Ed25519"; key_id = "district"; value = "signed" });
}

abbrev pub test_library : Library
test_library = record {
  byte_len = λ s. if str_eq s "" then 0 else if str_eq s "public" then 32 else 64;
  parse_time = λ s. if str_eq s "morning" then some 20 else some 90;
  decode_manifest = λ s. if str_eq s "document" then some signed_manifest else none;
  marshal = λ m. "canonical";
  sha256_hex = λ s. "digest";
  decode_base64 = λ s. some s;
  trim_space = λ s. s;
  ed25519_verify = λ k c s. str_eq k "public" && (str_eq c "canonical" && str_eq s "signed");
}
