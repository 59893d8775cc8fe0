-- ===== src/OfflinePkg/Examples.antt =====
-- Tests of the trust in offline documents, and its theorems at concrete inputs.
use sthira.Prelude.{◌≡◌, refl, true, List, [], ◌∷◌, ◌↔◌, lookup, insert}
use sthira.Prelude.Result.{ok, err}
use sthira.OfflinePkg.{signer_unauthorized, checksum_mismatch, malformed_data, key_expired}
use sthira.OfflinePkg.Structure.{parse_manifest}
use sthira.OfflinePkg.Trust.{TrustStore, revoke_key, verify_signature_at, verify_manifest}
use sthira.OfflinePkg.Fixtures.{district_key, pinned_keys, signed_manifest, test_library}
use sthira.OfflinePkg.Signed.{IsVerified, verify_manifest-IsVerified}
use sthira.OfflinePkg.Revoked.{Change, add, revoke, changes, revoked_refused}

verifies : verify_manifest test_library pinned_keys 50 signed_manifest ≡ ok tt
unfolding verify_manifest lookup
verifies = refl

too_late : verify_manifest test_library pinned_keys 101 signed_manifest ≡ err key_expired
unfolding verify_manifest lookup
too_late = refl

altered :
    verify_manifest test_library pinned_keys 50
      (record signed_manifest { checksum_sha256 = "other" })
    ≡ err checksum_mismatch
unfolding verify_manifest lookup
altered = refl

elsewhere :
    verify_manifest test_library pinned_keys 50 (record signed_manifest { jurisdiction = "IN-TN" })
    ≡ err signer_unauthorized
unfolding verify_manifest lookup
elsewhere = refl

garbled : parse_manifest test_library 262144 "garbage" ≡ err malformed_data
unfolding parse_manifest
garbled = refl

verify_manifest-IsVerified_example :
    (verify_manifest test_library pinned_keys 50 signed_manifest ≡ ok tt)
    ↔ IsVerified test_library pinned_keys 50 signed_manifest
verify_manifest-IsVerified_example =
    verify_manifest-IsVerified test_library pinned_keys 50 signed_manifest

abbrev revoked_keys : TrustStore
revoked_keys = ("district", record district_key { revoked = true }) ∷ []

abbrev later_changes : List Change
later_changes =
    add (record district_key { key_id = "state" }) ∷ revoke "district" ∷ revoke "none" ∷ []

revokes : revoke_key pinned_keys "district" ≡ ok revoked_keys
unfolding revoke_key lookup insert
revokes = refl

revoked_refused_example :
    verify_signature_at test_library
      (changes test_library revoked_keys later_changes)
      "district"
      "IN-KA"
      "canonical"
      "signed"
      50
    ≡ err signer_unauthorized
revoked_refused_example =
    revoked_refused test_library "district" pinned_keys revoked_keys later_changes "IN-KA"
      "canonical" "signed" 50 revokes (refl, (tt, (tt, tt)))
