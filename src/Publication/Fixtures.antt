-- ===== src/Publication/Fixtures.antt =====
-- Test data for the publication of manifests: an authority over one district, and the rows of one
-- manifest in each of its states.
use sthira.Prelude.{false, none, some, [], ◌∷◌}
use sthira.Booking.Tables.{Authority}
use sthira.Publication.{PublishedManifest, ManifestRow}

abbrev pub authority : Authority
authority = record {
  packages =
      record {
        package_id = "pkg";
        source_id = "src";
        artifact_id = "art";
        version = 3;
        jurisdiction = "IN-KA";
        evidence_class = "AUTHORIZED_OPERATIONAL";
        effective_at = 10;
        expires_at = 100;
        superseded_by = none;
        policy = none;
      }
      ∷ [];
  sources = record { source_id = "src"; state = "OPERATIONAL" } ∷ [];
  artifacts = [];
  authorizations = record { source_id = "src"; jurisdiction = "IN-KA"; expires_at = none } ∷ [];
  facilities = [];
  zone_versions = [];
  route_versions = [];
  route_closures = [];
}

abbrev pub quarantined_source : Authority
quarantined_source = record authority {
  sources = record { source_id = "src"; state = "QUARANTINED" } ∷ [];
}

abbrev pub manifest : PublishedManifest
manifest = record {
  manifest_id = "m7";
  jurisdiction = "IN-KA";
  revision = 7;
  package_id = "";
  source_id = "src";
  raw_json = "document";
  checksum_sha256 = "";
  source_status = "CURRENT";
  quarantined = false;
}

abbrev pub staged_row : ManifestRow
staged_row = record {
  manifest_id = "m7";
  jurisdiction = "IN-KA";
  revision = 7;
  package_id = "pkg";
  source_id = some "src";
  raw_json = "document";
  checksum_sha256 = "digest";
  source_status = "STAGED";
  quarantined = false;
  created_at = 50;
}

abbrev pub current_row : ManifestRow
current_row = record staged_row { source_status = "CURRENT" }

abbrev pub withdrawn_row : ManifestRow
withdrawn_row = record staged_row { source_status = "WITHDRAWN" }

-- The revision before, which is current.
abbrev pub old_row : ManifestRow
old_row = record staged_row { manifest_id = "m6"; revision = 6; source_status = "CURRENT" }

abbrev pub superseded_row : ManifestRow
superseded_row = record old_row { source_status = "SUPERSEDED" }
