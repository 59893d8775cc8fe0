-- ===== src/Publication/Cards.antt =====
-- The incident cards of backend/internal/store/publication.go, with the columns of published_cards.
use sthira.Prelude.{
  ℕ, String, Bool, not, ◌&&◌, ◌||◌, Option, none, some, List, [], ◌∷◌, ◌++◌, ltb, ◌==◌, str_eq,
  if◌then◌else◌, any,
}
use sthira.Prelude.Result.{Result, ok, err, ◌>>=◌, ◌>>◌, reject_if}
use sthira.Booking.Tables.{Authority}
use sthira.Booking.Authority.{select, is_null}
use sthira.OfflinePkg.{Library, PkgError}
use sthira.Publication.{
  PublishError, package_id_required, version_required, raw_json_required, raw_json_too_large,
  bad_checksum_length, bad_checksum, conflict, not_found, is_quarantined, is_withdrawn,
  publication_authority, sql_error, or_else,
}
use sthira.Publication.Rows.{update, update_found}
use sthira.Publication.Authorities.{check_source, check_authorization, package_of, in_effect}
use sthira.Publication.Manifests.{nullable, bool_eq, or_current, parsed, attributed}

-- The argument of PublishCard; `jurisdiction` and `source_id` are "" where they are not given.
pub record PublishedCard : Type 0 where
  pub package_id : String
  pub version : ℕ
  pub jurisdiction : String
  pub source_id : String
  pub raw_json : String
  pub checksum_sha256 : String
  pub source_status : String
  pub quarantined : Bool

pub record CardRow : Type 0 where
  pub package_id : String
  pub version : ℕ
  pub source_id : Option String
  pub jurisdiction : Option String
  pub raw_json : String
  pub checksum_sha256 : String
  pub source_status : String
  pub quarantined : Bool
  pub created_at : ℕ

-- What the code reads of the card that ParseCard returns.
pub record ParsedCard : Type 0 where
  pub package_id : String
  pub version : ℕ
  pub jurisdiction : String
  pub checksum_sha256 : String

-- WHERE package_id = $1 AND version = $2
abbrev pub card_at : String → ℕ → CardRow → Bool
card_at package_id version x = str_eq x.package_id package_id && x.version == version

abbrev pub card_row : ℕ → PublishedCard → CardRow
card_row now c = record {
  package_id = c.package_id;
  version = c.version;
  source_id = nullable c.source_id;
  jurisdiction = nullable c.jurisdiction;
  raw_json = c.raw_json;
  checksum_sha256 = c.checksum_sha256;
  source_status = c.source_status;
  quarantined = c.quarantined;
  created_at = now;
}

-- INSERT INTO published_cards, with the primary key of the table.
unfoldable pub insert_card : List CardRow → ℕ → PublishedCard → Result PublishError (List CardRow)
insert_card rows now c =
    if any (card_at c.package_id c.version) rows
    then err sql_error
    else ok (rows ++ (card_row now c ∷ []))

abbrev pub same_card : CardRow → PublishedCard → Bool
same_card x c = str_eq x.checksum_sha256 c.checksum_sha256 && str_eq x.raw_json c.raw_json

abbrev pub set_card_meta : PublishedCard → CardRow → CardRow
set_card_meta c x = record x { quarantined = c.quarantined; source_status = c.source_status }

unfoldable pub republish_card :
    List CardRow → PublishedCard → CardRow → Result PublishError (List CardRow)
unfolding update
republish_card rows c x =
    if not (same_card x c)
    then err conflict
    else if not (bool_eq x.quarantined c.quarantined)
        || not (str_eq x.source_status c.source_status)
    then ok (update (card_at c.package_id c.version) (set_card_meta c) rows)
    else ok rows

unfoldable pub save_card : List CardRow → ℕ → PublishedCard → Result PublishError (List CardRow)
unfolding republish_card insert_card
save_card rows now c = elim (select (card_at c.package_id c.version) rows) [
  | none ↦ insert_card rows now c
  | some x ↦ republish_card rows c x
]

abbrev pub or_parsed : String → String → String
or_parsed given signed = if str_eq given "" && not (str_eq signed "") then signed else given

-- The lower-level Store.PublishCard; `parse_card` is offlinepkg.ParseCard under 64 KiB.
unfoldable pub publish_card :
    Library
    → (String → Result PkgError ParsedCard)
    → List CardRow
    → ℕ
    → PublishedCard
    → Result PublishError (List CardRow)
unfolding save_card
publish_card lib parse_card rows now c = do
  reject_if (str_eq c.package_id "") package_id_required
  reject_if (ltb c.version 1) version_required
  reject_if (lib.byte_len c.raw_json == 0) raw_json_required
  reject_if (ltb 65536 (lib.byte_len c.raw_json)) raw_json_too_large
  reject_if (not (lib.byte_len c.checksum_sha256 == 64)) bad_checksum_length
  doc ← parsed (parse_card c.raw_json)
  reject_if (not (str_eq doc.checksum_sha256 c.checksum_sha256)) bad_checksum
  save_card rows now (record c {
    source_status = or_current c.source_status;
    jurisdiction = or_parsed c.jurisdiction doc.jurisdiction;
  })

unfoldable pub get_published_card : List CardRow → String → ℕ → Result PublishError CardRow
get_published_card rows package_id version =
    or_else not_found (select (card_at package_id version) rows)

abbrev pub set_card_quarantined : Bool → CardRow → CardRow
set_card_quarantined q x = record x { quarantined = q }

abbrev pub with_card_status : String → CardRow → CardRow
with_card_status status x = record x { source_status = status }

unfoldable pub quarantine_card :
    List CardRow → String → ℕ → Bool → Result PublishError (List CardRow)
unfolding update_found
quarantine_card rows package_id version q =
    update_found (card_at package_id version) (set_card_quarantined q) rows

unfoldable pub set_card_status :
    List CardRow → String → ℕ → String → Result PublishError (List CardRow)
unfolding update_found
set_card_status rows package_id version status =
    update_found (card_at package_id version) (with_card_status status) rows

-- WHERE package_id = $1 AND version < $2 AND source_status = 'CURRENT'
abbrev pub superseded_by_version : String → ℕ → CardRow → Bool
superseded_by_version package_id version x =
    str_eq x.package_id package_id && (ltb x.version version && str_eq x.source_status "CURRENT")

-- The two writes of PromoteCard.
unfoldable pub promoted_card : String → ℕ → List CardRow → List CardRow
unfolding update
promoted_card package_id version rows =
    update (card_at package_id version) (with_card_status "CURRENT")
      (update (superseded_by_version package_id version) (with_card_status "SUPERSEDED") rows)

-- The String of a sql.NullString.
abbrev pub string_of : Option String → String
string_of none = ""
string_of (some s) = s

module _ (lib : Library) where
  -- What PromoteCard does from the lock on the source to the checks of the package.
  unfoldable pub check_card_promotable :
      Authority → ℕ → String → ℕ → CardRow → Result PublishError (Unit {0})
  unfolding check_source check_authorization
  check_card_promotable auth now package_id version x = do
    source_id ← attributed lib x.source_id
    check_source auth source_id
    if str_eq (string_of x.jurisdiction) ""
        then ok tt
        else check_authorization auth source_id (string_of x.jurisdiction) now
    p ← or_else publication_authority (select (package_of source_id package_id) auth.packages)
    reject_if (not (p.version == version)) publication_authority
    reject_if
        (not (str_eq (string_of x.jurisdiction) "")
          && not (str_eq p.jurisdiction (string_of x.jurisdiction)))
        publication_authority
    reject_if (not (is_null p.superseded_by)) publication_authority
    reject_if (not (in_effect now p)) publication_authority

  -- PromoteCard, with the table as its first read finds it and as it is under the lock.
  unfoldable pub promote_card :
      Authority → ℕ → List CardRow → List CardRow → String → ℕ → Result PublishError (List CardRow)
  unfolding check_card_promotable promoted_card
  promote_card auth now seen rows package_id version = do
    x ← or_else not_found (select (card_at package_id version) seen)
    reject_if x.quarantined is_quarantined
    reject_if (str_eq x.source_status "WITHDRAWN") is_withdrawn
    if str_eq x.source_status "CURRENT"
        then ok rows
        else (check_card_promotable auth now package_id version x
            >> (or_else sql_error (select (card_at package_id version) rows) >>= λ y.
                reject_if (y.quarantined || str_eq y.source_status "WITHDRAWN")
                  publication_authority
                >> ok (promoted_card package_id version rows)))
