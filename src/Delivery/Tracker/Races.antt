-- ===== src/Delivery/Tracker/Races.antt =====
-- Two commits at once in backend/internal/offlinedelivery/monotonic.go: a commit validates under the
-- read lock, and rechecks and writes under the write lock; another may write in between.
use sthira.Prelude.{
  ℕ, ◌<◌, ◌≡◌, ◌⊎◌, String, true, false, Option, some, arith, lookup, insert, lookup-insert, eq_iff,
}
use sthira.Prelude.Result.{ok}
use sthira.Prelude.Sets.{contains}
use sthira.Delivery.Tracker.{
  Manifest, JurisdictionManifestState, Tracker, validate_next, state_of, write_locked, commit,
  get_state,
}
use sthira.Delivery.Tracker.Tombstones.{committed, commit-Succeeds}

-- Whenever the validation was made, and whatever has been written since, the write under the lock
-- never lowers the revision of its jurisdiction, and at the same revision keeps its checksum.
pub write_never_rolls_back :
    (t : Tracker) (next : Manifest) (now : Option ℕ) (t' : Tracker) (s : JurisdictionManifestState)
    → write_locked t next now ≡ ok t'
    → get_state t next.jurisdiction ≡ some s
    → (get_state t' next.jurisdiction ≡ some (state_of next now))
      × ((s.revision < next.revision)
          ⊎ ((s.revision ≡ next.revision) × (s.checksum_sha256 ≡ next.checksum_sha256)))
unfolding write_locked get_state
write_never_rolls_back t next now t' s h there = ground (
  arith,
  there,
  lookup-insert next.jurisdiction next.jurisdiction (state_of next now) t,
  eq_iff next.jurisdiction next.jurisdiction,
  eq_iff next.checksum_sha256 s.checksum_sha256,
)

after_first :
    (t : Tracker) (first : Manifest) (now : Option ℕ) (t1 : Tracker)
    → commit t first now ≡ ok t1
    → lookup first.jurisdiction t1 ≡ some (state_of first now)
after_first t first now t1 h =
    rw ((committed t first now t1 h).1, lookup-insert)
      (ground (arith, eq_iff first.jurisdiction first.jurisdiction))

late_write :
    (t1 : Tracker) (s : JurisdictionManifestState) (second : Manifest) (now' : Option ℕ)
    → lookup second.jurisdiction t1 ≡ some s
    → s.revision < second.revision
    → write_locked t1 second now' ≡ ok (insert second.jurisdiction (state_of second now') t1)
unfolding write_locked
late_write t1 s second now' there lower = ground (arith, there)

in_turn_refused :
    (t1 : Tracker) (s : JurisdictionManifestState) (second : Manifest) (now' : Option ℕ)
    (p : String) (t2 : Tracker)
    → lookup second.jurisdiction t1 ≡ some s
    → s.revision < second.revision
    → contains s.revoked_packages p ≡ true
    → contains second.revoked_packages p ≡ false
    → ¬ (commit t1 second now' ≡ ok t2)
in_turn_refused t1 s second now' p t2 there lower old new h =
    let c = commit-Succeeds t1 second now' t2 s h there in
    let kept = c.1.packages lower p old in ground (arith, kept)

-- A commit that validated before another one of its jurisdiction wrote a lower revision, and that
-- drops a package which the other one revokes, is refused when it comes in turn; but the write under
-- the lock takes it, and then the package is no longer revoked.
pub late_write_drops_revocation :
    (t : Tracker) (first second : Manifest) (now now' : Option ℕ) (t1 : Tracker) (p : String)
    → validate_next t (some second) now' ≡ ok tt
    → commit t first now ≡ ok t1
    → first.jurisdiction ≡ second.jurisdiction
    → first.revision < second.revision
    → contains first.revoked_packages p ≡ true
    → contains second.revoked_packages p ≡ false
    → (t2 : Tracker) × (write_locked t1 second now' ≡ ok t2)
      × (get_state t2 second.jurisdiction ≡ some (state_of second now'))
      × (contains (state_of second now').revoked_packages p ≡ false)
      × ¬ (commit t1 second now' ≡ ok t2)
unfolding get_state
late_write_drops_revocation t first second now now' t1 p valid done same lower old new =
    let there : lookup second.jurisdiction t1 ≡ some (state_of first now) =
      (rw (← same) (after_first t first now t1 done)) in
    let t2 = insert second.jurisdiction (state_of second now') t1 in
    (
      t2,
      late_write t1 (state_of first now) second now' there lower,
      rw lookup-insert (ground (arith, eq_iff second.jurisdiction second.jurisdiction)),
      new,
      in_turn_refused t1 (state_of first now) second now' p t2 there lower old new,
    )
