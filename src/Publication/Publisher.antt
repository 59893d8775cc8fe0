-- ===== src/Publication/Publisher.antt =====
-- The trusted publication of manifests, backend/internal/store/publisher.go.
use sthira.Prelude.{
  ℕ, false, not, ◌&&◌, ◌||◌, Option, none, some, List, ltb, ◌==◌, str_eq, if◌then◌else◌,
}
use sthira.Prelude.Result.{Result, ok, err, ◌>>=◌, ◌>>◌, reject_if}
use sthira.Booking.Tables.{Authority}
use sthira.Booking.Authority.{select}
use sthira.OfflinePkg.{Library, Manifest, PkgError}
use sthira.OfflinePkg.Structure.{parse_manifest}
use sthira.OfflinePkg.Trust.{TrustStore, verify_manifest}
use sthira.Publication.{
  PublishedManifest, ManifestRow, PublishError, invalid_metadata, raw_json_too_large,
  identity_mismatch, untrusted, trust_missing, conflict,
}
use sthira.Publication.Authorities.{check_source, check_authorization, check_current_package}
use sthira.Publication.Manifests.{at, same_content, insert_manifest, parsed}

abbrev pub trusted : Result PkgError (Unit {0}) → Result PublishError (Unit {0})
trusted (ok u) = ok tt
trusted (err e) = err untrusted

-- The identity of the record is that of the signed document.
abbrev pub check_identity : Manifest → PublishedManifest → Result PublishError (Unit {0})
check_identity doc m = do
  reject_if (not (str_eq doc.jurisdiction m.jurisdiction)) identity_mismatch
  reject_if (not (doc.revision == m.revision)) identity_mismatch
  reject_if (not (str_eq doc.manifest_id m.manifest_id)) identity_mismatch
  reject_if (not (str_eq m.package_id "") && not (str_eq doc.critical_card.package_id m.package_id))
      identity_mismatch
  reject_if (str_eq doc.checksum_sha256 "") identity_mismatch

-- The row as the transaction inserts it.
abbrev pub staged : Manifest → PublishedManifest → PublishedManifest
staged doc m = record m {
  checksum_sha256 = doc.checksum_sha256;
  package_id = doc.critical_card.package_id;
  source_status = "STAGED";
  quarantined = false;
}

unfoldable pub save_trusted :
    List ManifestRow → ℕ → PublishedManifest → Result PublishError (List ManifestRow)
unfolding insert_manifest
save_trusted rows now m = elim (select (at m.jurisdiction m.revision) rows) [
  | none ↦ insert_manifest rows now m
  | some x ↦ if not (same_content x m) then err conflict else ok rows
]

module _ (lib : Library) where
  -- The transaction, on the document that was verified.
  unfoldable pub publish_verified :
      Authority
      → ℕ
      → List ManifestRow
      → Manifest
      → PublishedManifest
      → Result PublishError (List ManifestRow)
  unfolding check_source check_authorization check_current_package save_trusted
  publish_verified auth now rows doc m = do
    check_source auth m.source_id
    check_authorization auth m.source_id m.jurisdiction now
    check_current_package auth m.source_id doc.critical_card.package_id now
    save_trusted rows now (staged doc m)

  -- Publisher.PublishManifest under a trust store; `verified_at` is the clock of the trust store.
  unfoldable pub publish_under :
      TrustStore
      → ℕ
      → Authority
      → ℕ
      → List ManifestRow
      → PublishedManifest
      → Result PublishError (List ManifestRow)
  unfolding publish_verified
  publish_under ts verified_at auth now rows m = do
    reject_if
        (str_eq m.manifest_id ""
          || (str_eq m.jurisdiction "" || (ltb m.revision 1 || lib.byte_len m.raw_json == 0)))
        invalid_metadata
    reject_if (ltb 262144 (lib.byte_len m.raw_json)) raw_json_too_large
    reject_if (str_eq m.source_id "") identity_mismatch
    doc ← parsed (parse_manifest lib 262144 m.raw_json)
    trusted (verify_manifest lib ts verified_at doc)
    check_identity doc m
    publish_verified auth now rows doc m

  unfoldable pub publish :
      Option TrustStore
      → ℕ
      → Authority
      → ℕ
      → List ManifestRow
      → PublishedManifest
      → Result PublishError (List ManifestRow)
  unfolding publish_under
  publish none verified_at auth now rows m = err trust_missing
  publish (some ts) verified_at auth now rows m = publish_under ts verified_at auth now rows m
