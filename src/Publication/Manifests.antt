-- ===== src/Publication/Manifests.antt =====
-- The manifests of backend/internal/store/publication.go.
use sthira.Prelude.{
  ℕ, String, Bool, true, false, not, ◌&&◌, ◌||◌, Option, none, some, List, [], ◌∷◌, ◌++◌, ltb, ◌==◌,
  str_eq, if◌then◌else◌, any,
}
use sthira.Prelude.Result.{Result, ok, err, ◌>>=◌, ◌>>◌, reject_if}
use sthira.Booking.Tables.{Authority}
use sthira.Booking.Authority.{select}
use sthira.OfflinePkg.{Library, Manifest, PkgError, malformed_data}
use sthira.OfflinePkg.Structure.{parse_manifest}
use sthira.Publication.{
  PublishedManifest, ManifestRow, PublishError, manifest_id_required, jurisdiction_required,
  revision_required, package_id_required, raw_json_required, raw_json_too_large,
  bad_checksum_length, unparsable, bad_checksum, conflict, not_found, is_quarantined, is_withdrawn,
  publication_authority, sql_error, or_else,
}
use sthira.Publication.Rows.{update, update_found}
use sthira.Publication.Authorities.{check_source, check_authorization, active_package}

-- WHERE jurisdiction = $1 AND revision = $2
abbrev pub at : String → ℕ → ManifestRow → Bool
at jurisdiction revision x = str_eq x.jurisdiction jurisdiction && x.revision == revision

abbrev pub nullable : String → Option String
nullable s = if str_eq s "" then none else some s

abbrev pub row_of : ℕ → PublishedManifest → ManifestRow
row_of now m = record {
  manifest_id = m.manifest_id;
  jurisdiction = m.jurisdiction;
  revision = m.revision;
  package_id = m.package_id;
  source_id = nullable m.source_id;
  raw_json = m.raw_json;
  checksum_sha256 = m.checksum_sha256;
  source_status = m.source_status;
  quarantined = m.quarantined;
  created_at = now;
}

abbrev pub collides : PublishedManifest → ManifestRow → Bool
collides m x = str_eq x.manifest_id m.manifest_id || at m.jurisdiction m.revision x

-- INSERT INTO published_manifests, with the primary key and the unique index of the table.
unfoldable pub insert_manifest :
    List ManifestRow → ℕ → PublishedManifest → Result PublishError (List ManifestRow)
insert_manifest rows now m =
    if any (collides m) rows then err sql_error else ok (rows ++ (row_of now m ∷ []))

abbrev pub same_content : ManifestRow → PublishedManifest → Bool
same_content x m = str_eq x.checksum_sha256 m.checksum_sha256 && str_eq x.raw_json m.raw_json

abbrev pub bool_eq : Bool → Bool → Bool
bool_eq true b = b
bool_eq false b = not b

abbrev pub set_meta : PublishedManifest → ManifestRow → ManifestRow
set_meta m x = record x { quarantined = m.quarantined; source_status = m.source_status }

abbrev pub or_current : String → String
or_current status = if str_eq status "" then "CURRENT" else status

abbrev pub set_quarantined : Bool → ManifestRow → ManifestRow
set_quarantined q x = record x { quarantined = q }

abbrev pub set_status : String → ManifestRow → ManifestRow
set_status status x = record x { source_status = status }

-- What PublishManifest does with the row that the check query found.
unfoldable pub republish :
    List ManifestRow → PublishedManifest → ManifestRow → Result PublishError (List ManifestRow)
unfolding update
republish rows m x =
    if not (same_content x m)
    then err conflict
    else if not (bool_eq x.quarantined m.quarantined)
        || not (str_eq x.source_status m.source_status)
    then ok (update (at m.jurisdiction m.revision) (set_meta m) rows)
    else ok rows

unfoldable pub save_manifest :
    List ManifestRow → ℕ → PublishedManifest → Result PublishError (List ManifestRow)
unfolding republish insert_manifest
save_manifest rows now m = elim (select (at m.jurisdiction m.revision) rows) [
  | none ↦ insert_manifest rows now m
  | some x ↦ republish rows m x
]

abbrev pub parsed {ℓ} : {A : Type ℓ} → Result PkgError A → Result PublishError A
parsed (ok a) = ok a
parsed (err e) = err unparsable

-- The lower-level Store.PublishManifest.
unfoldable pub publish_manifest :
    Library → List ManifestRow → ℕ → PublishedManifest → Result PublishError (List ManifestRow)
unfolding save_manifest
publish_manifest lib rows now m = do
  reject_if (str_eq m.manifest_id "") manifest_id_required
  reject_if (str_eq m.jurisdiction "") jurisdiction_required
  reject_if (ltb m.revision 1) revision_required
  reject_if (str_eq m.package_id "") package_id_required
  reject_if (lib.byte_len m.raw_json == 0) raw_json_required
  reject_if (ltb 262144 (lib.byte_len m.raw_json)) raw_json_too_large
  reject_if (not (lib.byte_len m.checksum_sha256 == 64)) bad_checksum_length
  doc ← parsed (parse_manifest lib 262144 m.raw_json)
  reject_if (not (str_eq doc.checksum_sha256 m.checksum_sha256)) bad_checksum
  save_manifest rows now (record m { source_status = or_current m.source_status })

unfoldable pub quarantine_manifest :
    List ManifestRow → String → ℕ → Bool → Result PublishError (List ManifestRow)
unfolding update_found
quarantine_manifest rows jurisdiction revision q =
    update_found (at jurisdiction revision) (set_quarantined q) rows

unfoldable pub set_manifest_status :
    List ManifestRow → String → ℕ → String → Result PublishError (List ManifestRow)
unfolding update_found
set_manifest_status rows jurisdiction revision status =
    update_found (at jurisdiction revision) (set_status status) rows

-- WHERE jurisdiction = $1 AND source_status != 'STAGED'
abbrev pub deliverable : String → ManifestRow → Bool
deliverable jurisdiction x =
    str_eq x.jurisdiction jurisdiction && not (str_eq x.source_status "STAGED")

abbrev pub is_current : ManifestRow → Bool
is_current x = str_eq x.source_status "CURRENT"

-- ORDER BY (CASE WHEN source_status = 'CURRENT' THEN 1 ELSE 0 END) DESC, revision DESC
abbrev pub key_before : Bool → ℕ → Bool → ℕ → Bool
key_before current revision other_current other =
    if current
    then (if other_current then ltb other revision else true)
    else (if other_current then false else ltb other revision)

abbrev pub ranks_before : ManifestRow → ManifestRow → Bool
ranks_before x y = key_before (is_current x) x.revision (is_current y) y.revision

-- The first of the rows that a condition selects, in that order.
unfoldable pub first_ranked : (ManifestRow → Bool) → List ManifestRow → Option ManifestRow
first_ranked p [] = none
first_ranked p (x ∷ xs) =
    let rest = first_ranked p xs in
    if p x
    then elim rest [ none ↦ some x | some y ↦ some (if ranks_before y x then y else x) ]
    else rest

unfoldable pub get_published_manifest : List ManifestRow → String → Result PublishError ManifestRow
unfolding first_ranked
get_published_manifest rows jurisdiction =
    or_else not_found (first_ranked (deliverable jurisdiction) rows)

-- UPDATE ... SET source_status = 'SUPERSEDED' WHERE ... revision < $2 AND source_status = 'CURRENT'
abbrev pub superseded_by_revision : String → ℕ → ManifestRow → Bool
superseded_by_revision jurisdiction revision x =
    str_eq x.jurisdiction jurisdiction && (ltb x.revision revision && is_current x)

-- The two writes of PromoteManifest.
unfoldable pub promoted : String → ℕ → List ManifestRow → List ManifestRow
unfolding update
promoted jurisdiction revision rows =
    update (at jurisdiction revision) (set_status "CURRENT")
      (update (superseded_by_revision jurisdiction revision) (set_status "SUPERSEDED") rows)

module _ (lib : Library) where
  -- The source of the row, where strings.TrimSpace leaves something of it.
  abbrev pub attributed : Option String → Result PublishError String
  attributed none = err publication_authority
  attributed (some s) = if str_eq (lib.trim_space s) "" then err publication_authority else ok s

  -- The critical card that the document names, where the document can be parsed.
  abbrev pub check_critical : Result PkgError Manifest → String → ℕ → Result PublishError (Unit {0})
  check_critical (err e) package_id version = ok tt
  check_critical (ok doc) package_id version = do
    reject_if (not (str_eq doc.critical_card.package_id package_id)) publication_authority
    reject_if (not (doc.critical_card.version == version)) publication_authority

  -- The document of the row, which is not parsed where it is empty.
  abbrev pub document : ManifestRow → Result PkgError Manifest
  document x =
      if lib.byte_len x.raw_json == 0
      then err malformed_data
      else parse_manifest lib 262144 x.raw_json

  -- What PromoteManifest does from the lock on the source to the check of the critical card.
  unfoldable pub check_promotable :
      Authority → ℕ → String → ManifestRow → Result PublishError (Unit {0})
  unfolding check_source check_authorization active_package
  check_promotable auth now jurisdiction x = do
    source_id ← attributed x.source_id
    check_source auth source_id
    check_authorization auth source_id jurisdiction now
    p ← active_package auth source_id x.package_id now
    check_critical (document x) x.package_id p.version

  -- PromoteManifest: `seen` is the table as its first, unlocked reads find it, and `rows` the table
  -- from the moment that it holds the lock on the row.
  unfoldable pub promote_manifest :
      Authority
      → ℕ
      → List ManifestRow
      → List ManifestRow
      → String
      → ℕ
      → Result PublishError (List ManifestRow)
  unfolding check_promotable promoted
  promote_manifest auth now seen rows jurisdiction revision = do
    x ← or_else not_found (select (at jurisdiction revision) seen)
    reject_if x.quarantined is_quarantined
    reject_if (str_eq x.source_status "WITHDRAWN") is_withdrawn
    if is_current x
        then ok rows
        else (check_promotable auth now jurisdiction x
            >> (or_else sql_error (select (at jurisdiction revision) rows) >>= λ y.
                reject_if (y.quarantined || str_eq y.source_status "WITHDRAWN")
                  publication_authority
                >> ok (promoted jurisdiction revision rows)))
