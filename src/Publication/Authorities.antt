-- ===== src/Publication/Authorities.antt =====
-- The authority over a publication: the statements on sources, source_authorizations and packages that
-- publication.go and publisher.go share.
use sthira.Prelude.{ℕ, String, Bool, not, ◌&&◌, leb, ltb, str_eq, any}
use sthira.Prelude.Result.{Result, ok, ◌>>=◌, ◌>>◌, reject_if}
use sthira.Booking.Tables.{Package, SourceAuthorization, Authority}
use sthira.Booking.Authority.{select, is_null, null_or_after, has_source}
use sthira.Publication.{PublishError, publication_authority, or_else}

-- SELECT state FROM sources WHERE source_id = $1 FOR UPDATE, and the test of the state.
unfoldable pub check_source : Authority → String → Result PublishError (Unit {0})
check_source auth source_id = do
  s ← or_else publication_authority (select (has_source source_id) auth.sources)
  reject_if (not (str_eq s.state "OPERATIONAL")) publication_authority

abbrev pub authorized_in : String → String → ℕ → SourceAuthorization → Bool
authorized_in source_id jurisdiction now a =
    str_eq a.source_id source_id
    && (str_eq a.jurisdiction jurisdiction && null_or_after a.expires_at now)

-- SELECT EXISTS (SELECT 1 FROM source_authorizations ...)
unfoldable pub check_authorization :
    Authority → String → String → ℕ → Result PublishError (Unit {0})
check_authorization auth source_id jurisdiction now =
    reject_if (not (any (authorized_in source_id jurisdiction now) auth.authorizations))
      publication_authority

abbrev pub package_of : String → String → Package → Bool
package_of source_id package_id p = str_eq p.source_id source_id && str_eq p.package_id package_id

-- effective_at <= $3 AND expires_at > $3
abbrev pub in_effect : ℕ → Package → Bool
in_effect now p = leb p.effective_at now && ltb now p.expires_at

-- The package that PromoteManifest locks.
unfoldable pub active_package : Authority → String → String → ℕ → Result PublishError Package
active_package auth source_id package_id now = do
  p ← or_else publication_authority (select (package_of source_id package_id) auth.packages)
  reject_if (not (is_null p.superseded_by)) publication_authority
  reject_if (not (in_effect now p)) publication_authority
  ok p

abbrev pub current_of : String → String → ℕ → Package → Bool
current_of source_id package_id now p =
    package_of source_id package_id p && (is_null p.superseded_by && in_effect now p)

-- The package row that Publisher.PublishManifest requires.
unfoldable pub check_current_package :
    Authority → String → String → ℕ → Result PublishError (Unit {0})
check_current_package auth source_id package_id now = do
  p ← or_else publication_authority (select (current_of source_id package_id now) auth.packages)
  ok tt
