-- ===== src/Delivery/Tracker/Examples.antt =====
-- The theorems on manifest revisions at concrete manifests.
use sthira.Prelude.{
  ℕ, ◌≤◌, ◌≡◌, refl, String, true, false, some, List, [], ◌∷◌, arith, lookup, insert, str_eq,
  if◌then◌else◌,
}
use sthira.Prelude.Result.{ok}
use sthira.Prelude.Sets.{contains, all_in}
use sthira.Delivery.Tracker.{
  Manifest, JurisdictionManifestState, Tracker, validate_next, state_of, write_locked, commit,
  get_state, check_successor, check_against,
}
use sthira.Delivery.Tracker.Tombstones.{commits, tombstones_permanent}
use sthira.Delivery.Tracker.Races.{late_write_drops_revocation}

abbrev manifest : ℕ → String → List String → Manifest
manifest revision checksum revoked = record {
  jurisdiction = "IN-OD";
  revision = revision;
  checksum_sha256 = checksum;
  valid_until = some 100;
  card_package_id = "p9";
  revoked_packages = revoked;
  cancelled_routes = "r1" ∷ [];
}

abbrev first_state : JurisdictionManifestState
first_state = state_of (manifest 1 "a" ("p1" ∷ [])) (some 5)

abbrev tracker : Tracker
tracker = ("IN-OD", first_state) ∷ []

-- The revocations of the two checksums used here.
abbrev packages_of : String → List String
packages_of c = if str_eq c "a" then "p1" ∷ [] else "p1" ∷ "p2" ∷ []

abbrev routes_of : String → List String
routes_of c = "r1" ∷ []

tombstones_permanent_example :
    (s : JurisdictionManifestState) × (get_state
        (commits tracker ((manifest 2 "b" ("p1" ∷ "p2" ∷ []), some 6) ∷ []))
        "IN-OD"
      ≡ some s)
    × (1 ≤ s.revision)
    × ((p : String) → contains ("p1" ∷ []) p ≡ true → contains s.revoked_packages p ≡ true)
    × ((r : String) → contains ("r1" ∷ []) r ≡ true → contains s.cancelled_routes r ≡ true)
unfolding lookup
tombstones_permanent_example =
    tombstones_permanent packages_of routes_of tracker
      ((manifest 2 "b" ("p1" ∷ "p2" ∷ []), some 6) ∷ []) "IN-OD" first_state
      (record { packages = refl; routes = refl }, tt) refl refl refl

abbrev after_first : Tracker
after_first = insert "IN-OD" (state_of (manifest 2 "b" ("p1" ∷ "p2" ∷ [])) (some 6)) tracker

late_write_drops_revocation_example :
    (t : Tracker) × (write_locked after_first (manifest 3 "c" ("p1" ∷ [])) (some 7) ≡ ok t)
    × (get_state t "IN-OD" ≡ some (state_of (manifest 3 "c" ("p1" ∷ [])) (some 7)))
    × (contains ("p1" ∷ []) "p2" ≡ false)
    × ¬ (commit after_first (manifest 3 "c" ("p1" ∷ [])) (some 7) ≡ ok t)
unfolding validate_next check_against check_successor commit write_locked lookup all_in
late_write_drops_revocation_example =
    late_write_drops_revocation tracker (manifest 2 "b" ("p1" ∷ "p2" ∷ []))
      (manifest 3 "c" ("p1" ∷ [])) (some 6) (some 7) after_first "p2" refl refl refl (omega arith)
      refl refl
