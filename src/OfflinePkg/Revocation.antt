-- ===== src/OfflinePkg/Revocation.antt =====
-- The checks on revocations and rollback of backend/internal/offlinepkg/validate.go.
use sthira.Prelude.{ℕ, String, Bool, false, ◌&&◌, ◌||◌, Option, none, some, ltb, ◌==◌, str_eq, any}
use sthira.Prelude.Result.{Result, reject_if}
use sthira.OfflinePkg.{SupersededVersion, RevocationBlock, PkgError, version_rollback}

unfoldable pub check_revision_rollback : ℕ → ℕ → Result PkgError (Unit {0})
check_revision_rollback incoming active = reject_if (ltb incoming active) version_rollback

abbrev pub names_version : String → ℕ → SupersededVersion → Bool
names_version id version sv = str_eq sv.package_id id && sv.version == version

unfoldable pub is_package_revoked : String → ℕ → Option RevocationBlock → Bool
is_package_revoked id version none = false
is_package_revoked id version (some rev) =
    any (λ p. str_eq p id) rev.revoked_packages
    || any (names_version id version) rev.superseded_versions

unfoldable pub is_route_cancelled : String → Option RevocationBlock → Bool
is_route_cancelled id none = false
is_route_cancelled id (some rev) = any (λ p. str_eq p id) rev.cancelled_routes
