-- ===== src/Delivery/Tracker.antt =====
-- backend/internal/offlinedelivery/monotonic.go. Instants are nanoseconds; the zero time is `none`.
pub mod Tombstones
pub mod Races
mod Examples
use sthira.Prelude.{
  ℕ, String, Bool, true, false, not, Option, none, some, List, ltb, ◌==◌, str_eq, if◌then◌else◌,
  Map, lookup, insert,
}
use sthira.Prelude.Result.{Result, ok, err, ◌>>=◌, ◌>>◌, reject_if}
use sthira.Prelude.Sets.{contains, all_in}

-- What the tracker reads of an offlinepkg.Manifest; `valid_until` is what time.Parse makes of it.
pub record Manifest : Type 0 where
  pub jurisdiction : String
  pub revision : ℕ
  pub checksum_sha256 : String
  pub valid_until : Option ℕ
  pub card_package_id : String
  pub revoked_packages : List String
  pub cancelled_routes : List String

pub record JurisdictionManifestState : Type 0 where
  pub jurisdiction : String
  pub revision : ℕ
  pub checksum_sha256 : String
  pub valid_until : ℕ
  pub revoked_packages : List String
  pub cancelled_routes : List String
  pub last_committed_at : Option ℕ

abbrev pub Tracker : Type 0
Tracker = Map JurisdictionManifestState

pub data TrackerError : Type 0 where
  nil_manifest invalid_valid_until manifest_expired : TrackerError
  revision_rollback identical_revision_modified tombstone_violated tombstone_dropped : TrackerError

abbrev pub Checked : Type 0
Checked = Result TrackerError (Unit {0})

abbrev after : Option ℕ → ℕ → Bool
after none t = false
after (some now) t = ltb t now

abbrev parse_time : Option ℕ → Result TrackerError ℕ
parse_time none = err invalid_valid_until
parse_time (some t) = ok t

-- The checks 1 to 4, against the current state of the jurisdiction.
unfoldable pub check_successor : JurisdictionManifestState → Manifest → Checked
check_successor current next = do
  reject_if (ltb next.revision current.revision) revision_rollback
  if next.revision == current.revision
      then reject_if (not (str_eq next.checksum_sha256 current.checksum_sha256))
          identical_revision_modified
      else do
        reject_if (contains current.revoked_packages next.card_package_id) tombstone_violated
        reject_if (contains next.revoked_packages next.card_package_id) tombstone_violated
        reject_if (not (all_in current.revoked_packages next.revoked_packages)) tombstone_dropped
        reject_if (not (all_in current.cancelled_routes next.cancelled_routes)) tombstone_dropped

unfoldable pub check_against : Option JurisdictionManifestState → Manifest → Checked
unfolding check_successor
check_against none next =
    reject_if (contains next.revoked_packages next.card_package_id) tombstone_violated
check_against (some current) next = check_successor current next

unfoldable pub validate_next : Tracker → Option Manifest → Option ℕ → Checked
unfolding check_against
validate_next t none now = err nil_manifest
validate_next t (some next) now = do
  valid_until ← parse_time next.valid_until
  reject_if (after now valid_until) manifest_expired
  check_against (lookup next.jurisdiction t) next

abbrev until_of : Option ℕ → ℕ
until_of none = 0
until_of (some u) = u

abbrev pub state_of : Manifest → Option ℕ → JurisdictionManifestState
state_of next now = record {
  jurisdiction = next.jurisdiction;
  revision = next.revision;
  checksum_sha256 = next.checksum_sha256;
  valid_until = until_of next.valid_until;
  revoked_packages = next.revoked_packages;
  cancelled_routes = next.cancelled_routes;
  last_committed_at = now;
}

abbrev recheck : Option JurisdictionManifestState → Manifest → Checked
recheck none next = ok tt
recheck (some current) next = do
  reject_if (ltb next.revision current.revision) revision_rollback
  if next.revision == current.revision
      then reject_if (not (str_eq next.checksum_sha256 current.checksum_sha256))
          identical_revision_modified
      else ok tt

-- The part of `Commit` under the write lock: the double check and the write.
unfoldable pub write_locked : Tracker → Manifest → Option ℕ → Result TrackerError Tracker
write_locked t next now = do
  recheck (lookup next.jurisdiction t) next
  ok (insert next.jurisdiction (state_of next now) t)

-- `Commit` with no other commit between its validation and its write.
unfoldable pub commit : Tracker → Manifest → Option ℕ → Result TrackerError Tracker
unfolding validate_next write_locked
commit t next now = do validate_next t (some next) now; write_locked t next now

-- `GetState`
unfoldable pub get_state : Tracker → String → Option JurisdictionManifestState
get_state t jurisdiction = lookup jurisdiction t
