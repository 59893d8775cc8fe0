-- ===== src/Publication/CardPublisher.antt =====
-- The trusted publication of cards, backend/internal/store/publisher.go. ParseCard under 64 KiB and
-- VerifyCard with the trust store are arguments.
use sthira.Prelude.{
  ◌≡◌, sym, ◌⊎◌, inl, inr, ℕ, String, Bool, true, false, not, ◌&&◌, ◌||◌, Option, none, some, List,
  [], ◌∷◌, ◌++◌, ltb, ◌==◌, str_eq, if◌then◌else◌, any,
}
use sthira.Prelude.Result.{Result, ok, err, ◌>>=◌, ◌>>◌, reject_if, >>=-eq-ok, past}
use sthira.Booking.Tables.{Package, Authority}
use sthira.Booking.Authority.{select, is_null, has_package}
use sthira.OfflinePkg.{Library, PkgError}
use sthira.Publication.{
  PublishError, invalid_metadata, raw_json_too_large, identity_mismatch, publication_authority,
  conflict, sql_error, or_else,
}
use sthira.Publication.Authorities.{check_source, authorized_in, check_authorization, in_effect}
use sthira.Publication.Manifests.{parsed}
use sthira.Publication.Publisher.{trusted}
use sthira.Publication.Grants.{
  stops, not-eq-false, or_else-eq-ok, check_authorization-eq-ok, ok-injective,
}
use sthira.Publication.Cards.{
  PublishedCard, CardRow, ParsedCard, card_at, card_row, same_card, insert_card,
}

abbrev pub check_card_identity : ParsedCard → PublishedCard → Result PublishError (Unit {0})
check_card_identity doc c = do
  reject_if (not (str_eq doc.package_id c.package_id)) identity_mismatch
  reject_if (not (doc.version == c.version)) identity_mismatch
  reject_if
      (not (str_eq doc.jurisdiction "")
        && (not (str_eq c.jurisdiction "") && not (str_eq doc.jurisdiction c.jurisdiction)))
      identity_mismatch
  reject_if (str_eq doc.checksum_sha256 "") identity_mismatch

abbrev pub or_signed : String → String → String
or_signed given signed = if str_eq given "" then signed else given

-- The row as the transaction inserts it, with the jurisdiction of the package.
abbrev pub staged_card : ParsedCard → Package → PublishedCard → PublishedCard
staged_card doc p c = record c {
  checksum_sha256 = doc.checksum_sha256;
  jurisdiction = p.jurisdiction;
  source_status = "STAGED";
  quarantined = false;
}

abbrev pub save_trusted_card :
    List CardRow → ℕ → PublishedCard → Option CardRow → Result PublishError (List CardRow)
save_trusted_card rows now c none = insert_card rows now c
save_trusted_card rows now c (some x) = if not (same_card x c) then err conflict else ok rows

-- The transaction, on the card that was verified.
unfoldable pub publish_verified_card :
    Authority → ℕ → List CardRow → ParsedCard → PublishedCard → Result PublishError (List CardRow)
unfolding check_source check_authorization
publish_verified_card auth now rows doc c = do
  check_source auth c.source_id
  p ← or_else publication_authority (select (has_package c.package_id) auth.packages)
  reject_if (not (is_null p.superseded_by)) publication_authority
  reject_if (not (in_effect now p)) publication_authority
  reject_if (not (p.version == c.version)) publication_authority
  reject_if (not (str_eq p.source_id c.source_id)) publication_authority
  reject_if
      (not (str_eq (or_signed c.jurisdiction doc.jurisdiction) "")
        && not (str_eq p.jurisdiction (or_signed c.jurisdiction doc.jurisdiction)))
      publication_authority
  check_authorization auth c.source_id p.jurisdiction now
  save_trusted_card rows now (staged_card doc p c) (select (card_at c.package_id c.version) rows)

-- Publisher.PublishCard under a trust store.
unfoldable pub publish_trusted_card :
    Library
    → (String → Result PkgError ParsedCard)
    → (ParsedCard → Result PkgError (Unit {0}))
    → Authority
    → ℕ
    → List CardRow
    → PublishedCard
    → Result PublishError (List CardRow)
unfolding publish_verified_card
publish_trusted_card lib parse_card verify_card auth now rows c = do
  reject_if (str_eq c.package_id "" || (ltb c.version 1 || lib.byte_len c.raw_json == 0))
      invalid_metadata
  reject_if (ltb 65536 (lib.byte_len c.raw_json)) raw_json_too_large
  reject_if (str_eq c.source_id "") identity_mismatch
  doc ← parsed (parse_card c.raw_json)
  trusted (verify_card doc)
  check_card_identity doc c
  publish_verified_card auth now rows doc c

-- What a trusted publication that added a card found of its package and wrote.
pub record Staged (auth : Authority) (now : ℕ) (rows : List CardRow) (doc : ParsedCard)
    (c : PublishedCard) (after : List CardRow) : Type 0 where
  pub pkg : Package
  pub listed : select (has_package c.package_id) auth.packages ≡ some pkg
  pub latest : is_null pkg.superseded_by ≡ true
  pub effective : in_effect now pkg ≡ true
  pub version_matches : (pkg.version == c.version) ≡ true
  pub source_matches : str_eq pkg.source_id c.source_id ≡ true
  pub authorized : any (authorized_in c.source_id pkg.jurisdiction now) auth.authorizations ≡ true
  pub stored : (after ≡ rows) ⊎ (after ≡ rows ++ (card_row now (staged_card doc pkg c) ∷ []))

saved :
    (rows after : List CardRow) (now : ℕ) (c : PublishedCard) (o : Option CardRow)
    → save_trusted_card rows now c o ≡ ok after
    → (after ≡ rows) ⊎ (after ≡ rows ++ (card_row now c ∷ []))
unfolding insert_card
saved rows after now c none h = inr (inserted (any (card_at c.package_id c.version) rows) h)
  where
    inserted :
        (b : Bool)
        → (if b then err sql_error else ok (rows ++ (card_row now c ∷ []))) ≡ ok after
        → after ≡ rows ++ (card_row now c ∷ [])
    inserted true g = cc
    inserted false g = sym (ok-injective _ _ g)
saved rows after now c (some x) h = inl (same (not (same_card x c)) h)
  where
    same : (b : Bool) → (if b then err conflict else ok rows) ≡ ok after → after ≡ rows
    same true g = cc
    same false g = sym (ok-injective _ _ g)

-- A verified card whose transaction succeeds is of a package that is in effect and not superseded, of the
-- card's version and of its source, which is authorized in the package's jurisdiction; the table is
-- unchanged, with the status of a card that was there, or the card is added, staged and not
-- quarantined.
pub publish_verified_card-Staged :
    (auth : Authority) (now : ℕ) (rows after : List CardRow) (doc : ParsedCard) (c : PublishedCard)
    → publish_verified_card auth now rows doc c ≡ ok after
    → Staged auth now rows doc c after
unfolding publish_verified_card
publish_verified_card-Staged auth now rows after doc c h =
    let (u, sourced, h1) = >>=-eq-ok (check_source auth c.source_id) _ h in
    let (p, found, h2) =
      >>=-eq-ok (or_else publication_authority (select (has_package c.package_id) auth.packages)) _
        h1 in
    let jur = or_signed c.jurisdiction doc.jurisdiction in
    let h3 = past (not (is_null p.superseded_by)) _ _ h2 in
    let h4 = past (not (in_effect now p)) _ _ h3 in
    let h5 = past (not (p.version == c.version)) _ _ h4 in
    let h6 = past (not (str_eq p.source_id c.source_id)) _ _ h5 in
    let h7 = past (not (str_eq jur "") && not (str_eq p.jurisdiction jur)) _ _ h6 in
    let (v, allowed, h8) =
      >>=-eq-ok (check_authorization auth c.source_id p.jurisdiction now) _ h7 in
    record {
      pkg = p;
      listed = or_else-eq-ok publication_authority _ p found;
      latest = not-eq-false _ (stops (not (is_null p.superseded_by)) _ _ h2);
      effective = not-eq-false _ (stops (not (in_effect now p)) _ _ h3);
      version_matches = not-eq-false _ (stops (not (p.version == c.version)) _ _ h4);
      source_matches = not-eq-false _ (stops (not (str_eq p.source_id c.source_id)) _ _ h5);
      authorized = check_authorization-eq-ok auth c.source_id p.jurisdiction now allowed;
      stored =
          saved rows after now (staged_card doc p c) (select (card_at c.package_id c.version) rows)
            h8;
    }
