-- ===== src/Delivery/Tracker/Tombstones.antt =====
-- Revisions and tombstones under backend/internal/offlinedelivery/monotonic.go, commit after commit.
use sthira.Prelude.{
  ℕ, ◌≤◌, ◌<◌, ◌≡◌, refl, String, true, false, Option, some, List, [], ◌∷◌, arith, ◌==◌, str_eq,
  lookup, insert, lookup-insert, eq_iff, Bool-cases, inl, inr, All, subst,
}
use sthira.Prelude.Result.{Result, ok, err}
use sthira.Prelude.Sets.{contains, all_in, all_in-contains}
use sthira.Delivery.Tracker.{
  Manifest, JurisdictionManifestState, Tracker, TrackerError, check_successor, check_against,
  state_of, commit, get_state,
}

-- The new state of a jurisdiction keeps what the old one said.
pub record Succeeds (old new : JurisdictionManifestState) : Type 0 where
  pub revision : old.revision ≤ new.revision
  pub same_content : old.revision ≡ new.revision → new.checksum_sha256 ≡ old.checksum_sha256
  pub packages :
      old.revision < new.revision
      → (p : String) → contains old.revoked_packages p ≡ true
      → contains new.revoked_packages p ≡ true
  pub routes :
      old.revision < new.revision
      → (r : String) → contains old.cancelled_routes r ≡ true
      → contains new.cancelled_routes r ≡ true

accepted_newer :
    (current : JurisdictionManifestState) (next : Manifest) {u : Unit {0}}
    → check_successor current next ≡ ok u
    → current.revision < next.revision
    → (all_in current.revoked_packages next.revoked_packages ≡ true)
      × (all_in current.cancelled_routes next.cancelled_routes ≡ true)
unfolding check_successor
accepted_newer current next h lt = (ground arith, ground arith)

check_successor-Succeeds :
    (current : JurisdictionManifestState) (next : Manifest) (now : Option ℕ) {u : Unit {0}}
    → check_successor current next ≡ ok u
    → Succeeds current (state_of next now)
unfolding check_successor
check_successor-Succeeds current next now {u = u} h = record {
  revision = ground arith;
  same_content = ground (arith, eq_iff next.checksum_sha256 current.checksum_sha256);
  packages = λ lt p.
      all_in-contains current.revoked_packages next.revoked_packages p
        (accepted_newer current next {u = u} h lt).0;
  routes = λ lt r.
      all_in-contains current.cancelled_routes next.cancelled_routes r
        (accepted_newer current next {u = u} h lt).1;
}

-- What a commit that is accepted did: it checked against the state that was there, and wrote.
pub committed :
    (t : Tracker) (next : Manifest) (now : Option ℕ) (t' : Tracker)
    → commit t next now ≡ ok t'
    → (check_against (lookup next.jurisdiction t) next ≡ ok tt)
      × (t' ≡ insert next.jurisdiction (state_of next now) t)
unfolding commit
committed t next now t' h = (ground arith, ground arith)

-- An accepted commit succeeds the state that its jurisdiction had, and leaves the others alone.
pub commit-Succeeds :
    (t : Tracker) (next : Manifest) (now : Option ℕ) (t' : Tracker) (s : JurisdictionManifestState)
    → commit t next now ≡ ok t'
    → lookup next.jurisdiction t ≡ some s
    → (get_state t' next.jurisdiction ≡ some (state_of next now)) × Succeeds s (state_of next now)
unfolding get_state check_against
commit-Succeeds t next now t' s h there =
    let (checked, wrote) = committed t next now t' h in
    (
      rw (wrote, lookup-insert) (ground (arith, eq_iff next.jurisdiction next.jurisdiction)),
      check_successor-Succeeds s next now {u = tt} (rw (there, check_against) at checked),
    )

commit_elsewhere :
    (t : Tracker) (next : Manifest) (now : Option ℕ) (t' : Tracker) (j : String)
    → commit t next now ≡ ok t'
    → str_eq next.jurisdiction j ≡ false
    → lookup j t' ≡ lookup j t
commit_elsewhere t next now t' j h ne = rw ((committed t next now t' h).1, lookup-insert, ne)

-- A manifest whose checksum identifies its revocations, by two functions of the checksum.
pub record IsIdentified (packages_of routes_of : String → List String) (m : Manifest) : Type 0 where
  pub packages : m.revoked_packages ≡ packages_of m.checksum_sha256
  pub routes : m.cancelled_routes ≡ routes_of m.checksum_sha256

-- The state of a jurisdiction, at the revision of `start` or a later one, with every package still
-- revoked and every route still cancelled that was so in `start`.
pub record Retains (packages_of routes_of : String → List String) (t : Tracker) (j : String)
    (start : JurisdictionManifestState) : Type 0 where
  pub state : JurisdictionManifestState
  pub there : lookup j t ≡ some state
  pub later : start.revision ≤ state.revision
  pub revoked :
      (p : String)
      → contains start.revoked_packages p ≡ true
      → contains state.revoked_packages p ≡ true
  pub cancelled :
      (r : String)
      → contains start.cancelled_routes r ≡ true
      → contains state.cancelled_routes r ≡ true
  pub packages : state.revoked_packages ≡ packages_of state.checksum_sha256
  pub routes : state.cancelled_routes ≡ routes_of state.checksum_sha256

-- A commit whose error the caller drops.
abbrev kept : Tracker → Result TrackerError Tracker → Tracker
kept t (ok t') = t'
kept t (err e) = t

unfoldable pub commits : Tracker → List (Manifest × Option ℕ) → Tracker
commits t [] = t
commits t ((m, now) ∷ ms) = commits (kept t (commit t m now)) ms

module _ (packages_of routes_of : String → List String) (j : String)
    (start : JurisdictionManifestState) where
  successor-Retains :
      (t t' : Tracker) (m : Manifest) (now : Option ℕ)
      → IsIdentified packages_of routes_of m
      → commit t m now ≡ ok t'
      → m.jurisdiction ≡ j
      → Retains packages_of routes_of t j start
      → Retains packages_of routes_of t' j start
  unfolding get_state
  successor-Retains t t' m now ident h same k =
      let at_m : lookup m.jurisdiction t ≡ some k.state = rw same k.there in
      let (wrote, s) = commit-Succeeds t m now t' k.state h at_m in
      let e = Bool-cases (k.state.revision == m.revision) in
      record {
        state = state_of m now;
        there = subst (λ x. lookup x t' ≡ some (state_of m now)) same wrote;
        later = omega (arith, s.revision, k.later);
        revoked = λ p before. elim e [
          | inl eq ↦
              rw (ident.packages, s.same_content (ground arith), ← k.packages) (k.revoked p before)
          | inr ne ↦ s.packages (ground (arith, s.revision)) p (k.revoked p before)
        ];
        cancelled = λ r before. elim e [
          | inl eq ↦
              rw (ident.routes, s.same_content (ground arith), ← k.routes) (k.cancelled r before)
          | inr ne ↦ s.routes (ground (arith, s.revision)) r (k.cancelled r before)
        ];
        packages = ident.packages;
        routes = ident.routes;
      }

  commit-Retains :
      (t : Tracker) (m : Manifest) (now : Option ℕ) (o : Result TrackerError Tracker)
      → IsIdentified packages_of routes_of m
      → commit t m now ≡ o
      → Retains packages_of routes_of t j start
      → Retains packages_of routes_of (kept t o) j start
  commit-Retains t m now (err e) ident h k = k
  commit-Retains t m now (ok t') ident h k = elim (Bool-cases (str_eq m.jurisdiction j)) [
    | inl e ↦ successor-Retains t t' m now ident h ((eq_iff m.jurisdiction j).0 e) k
    | inr ne ↦ record {
      state = k.state;
      there = rw (commit_elsewhere t m now t' j h ne) k.there;
      later = k.later;
      revoked = k.revoked;
      cancelled = k.cancelled;
      packages = k.packages;
      routes = k.routes;
    }
  ]

  commits-Retains :
      (t : Tracker) (ms : List (Manifest × Option ℕ))
      → All (λ c. IsIdentified packages_of routes_of c.0) ms
      → Retains packages_of routes_of t j start
      → Retains packages_of routes_of (commits t ms) j start
  unfolding commits
  commits-Retains t [] ids k = k
  commits-Retains t ((m, now) ∷ ms) ids k =
      commits-Retains (kept t (commit t m now)) ms ids.1
        (commit-Retains t m now (commit t m now) ids.0 refl k)

-- Where a checksum identifies a manifest's revocations, over any further commits, of any jurisdiction,
-- accepted or refused, each made with no other one in between: the revision of a jurisdiction never
-- falls, each package revoked in it stays revoked, and each route cancelled in it stays cancelled.
pub tombstones_permanent :
    (packages_of routes_of : String → List String) (t : Tracker) (ms : List (Manifest × Option ℕ))
    (j : String) (s : JurisdictionManifestState)
    → All (λ c. IsIdentified packages_of routes_of c.0) ms
    → lookup j t ≡ some s
    → s.revoked_packages ≡ packages_of s.checksum_sha256
    → s.cancelled_routes ≡ routes_of s.checksum_sha256
    → (s' : JurisdictionManifestState) × (get_state (commits t ms) j ≡ some s')
      × (s.revision ≤ s'.revision)
      × ((p : String)
          → contains s.revoked_packages p ≡ true
          → contains s'.revoked_packages p ≡ true)
      × ((r : String)
          → contains s.cancelled_routes r ≡ true
          → contains s'.cancelled_routes r ≡ true)
unfolding get_state
tombstones_permanent packages_of routes_of t ms j s ids there ps rs =
    let k = commits-Retains packages_of routes_of j s t ms ids (record {
      state = s;
      there = there;
      later = omega arith;
      revoked = λ p h. h;
      cancelled = λ r h. h;
      packages = ps;
      routes = rs;
    }) in
    (k.state, k.there, k.later, k.revoked, k.cancelled)
