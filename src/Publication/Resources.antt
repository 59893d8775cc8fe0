-- ===== src/Publication/Resources.antt =====
-- The resources of backend/internal/store/publication.go, stored under the digest of their content.
use sthira.Prelude.{
  ℕ, String, Bool, not, ◌&&◌, Option, none, some, List, [], ◌∷◌, ◌++◌, ◌==◌, str_eq, if◌then◌else◌,
}
use sthira.Prelude.Result.{Result, ok, err, ◌>>◌, reject_if}
use sthira.Booking.Authority.{select}
use sthira.OfflinePkg.{Library}
use sthira.Publication.{
  PublishError, resource_id_required, content_type_required, content_required,
  content_length_mismatch, bad_checksum_length, bad_checksum, conflict, not_found, or_else,
}

pub record PublishedResource : Type 0 where
  pub resource_id : String
  pub content_type : String
  pub content_length : ℕ
  pub checksum_sha256 : String
  pub content : String
  pub created_at : ℕ

abbrev pub has_resource : String → PublishedResource → Bool
has_resource id x = str_eq x.resource_id id

abbrev pub same_resource : PublishedResource → PublishedResource → Bool
same_resource x r = str_eq x.checksum_sha256 r.checksum_sha256 && str_eq x.content r.content

abbrev pub save_resource :
    List PublishedResource
    → ℕ
    → PublishedResource
    → Option PublishedResource
    → Result PublishError (List PublishedResource)
save_resource rows now r none = ok (rows ++ (record r { created_at = now } ∷ []))
save_resource rows now r (some x) = if not (same_resource x r) then err conflict else ok rows

unfoldable pub publish_resource :
    Library
    → List PublishedResource
    → ℕ
    → PublishedResource
    → Result PublishError (List PublishedResource)
publish_resource lib rows now r = do
  reject_if (str_eq r.resource_id "") resource_id_required
  reject_if (str_eq r.content_type "") content_type_required
  reject_if (lib.byte_len r.content == 0) content_required
  reject_if (not (r.content_length == lib.byte_len r.content)) content_length_mismatch
  reject_if (not (lib.byte_len r.checksum_sha256 == 64)) bad_checksum_length
  reject_if (not (str_eq (lib.sha256_hex r.content) r.checksum_sha256)) bad_checksum
  save_resource rows now r (select (has_resource r.resource_id) rows)

unfoldable pub get_published_resource :
    List PublishedResource → String → Result PublishError PublishedResource
get_published_resource rows id = or_else not_found (select (has_resource id) rows)
