-- ===== src/Publication/Trusted.antt =====
-- Every published manifest was verified, over all histories of the trusted operations.
use mathlib.Core.List.{Memᴰ}
use mathlib.Core.List.Memᴰ
use sthira.Booking.Tables.{Authority}
use sthira.Prelude.{
  ◌≡◌, refl, sym, ℕ, String, Bool, true, not, List, [], ◌∷◌, ◌==◌, str_eq, eq_iff, All, arith,
}
use sthira.Prelude.Result.{ok, past}
use sthira.OfflinePkg.{Library, Manifest}
use sthira.OfflinePkg.Structure.{parse_manifest}
use sthira.OfflinePkg.Trust.{TrustStore, verify_manifest}
use sthira.Publication.{PublishedManifest, ManifestRow, identity_mismatch}
use sthira.Publication.Rows.{All-update, All-append}
use sthira.Publication.Manifests.{at, set_quarantined, set_status, superseded_by_revision, promoted}
use sthira.Publication.Publisher.{check_identity}
use sthira.Publication.Grants.{stops, not-eq-false}
use sthira.Publication.History.{
  Event, published, kept, kept-elim, call, run, Written, unchanged, appended, raised, restated,
  barred, call-Written,
}

-- A publication among `history` wrote the row: its record has the row's text and key, its second clock
-- is the row's date, and the text is a manifest that the trust store verified by its first clock,
-- with the identity, the package and the checksum of the row.
pub record IsTrusted (lib : Library) (ts : TrustStore) (history : List Event) (x : ManifestRow)
    : Type 0 where
  pub verified_at : ℕ
  pub auth : Authority
  pub published_at : ℕ
  pub m : PublishedManifest
  pub event : Memᴰ (published verified_at auth published_at m) history
  pub text : x.raw_json ≡ m.raw_json
  pub written : x.created_at ≡ published_at
  pub doc : Manifest
  pub parses : parse_manifest lib 262144 x.raw_json ≡ ok doc
  pub verifies : verify_manifest lib ts verified_at doc ≡ ok tt
  pub manifest_id : doc.manifest_id ≡ x.manifest_id
  pub jurisdiction : doc.jurisdiction ≡ x.jurisdiction
  pub revision : doc.revision ≡ x.revision
  pub package_id : doc.critical_card.package_id ≡ x.package_id
  pub checksum : doc.checksum_sha256 ≡ x.checksum_sha256

check_identity-eq-ok :
    (doc : Manifest) (m : PublishedManifest)
    → check_identity doc m ≡ ok tt
    → (doc.manifest_id ≡ m.manifest_id)
      × (doc.jurisdiction ≡ m.jurisdiction)
      × (doc.revision ≡ m.revision)
check_identity-eq-ok doc m h =
    let t1 = not (str_eq doc.jurisdiction m.jurisdiction) in
    let h1 = past t1 identity_mismatch _ h in
    let h2 = past (not (doc.revision == m.revision)) identity_mismatch _ h1 in
    (
      (eq_iff doc.manifest_id m.manifest_id).0 (
          not-eq-false _
            (stops (not (str_eq doc.manifest_id m.manifest_id)) identity_mismatch _ h2)),
      (eq_iff doc.jurisdiction m.jurisdiction).0 (not-eq-false _ (stops t1 identity_mismatch _ h)),
      number doc.revision m.revision
          (not-eq-false _ (stops (not (doc.revision == m.revision)) identity_mismatch _ h1)),
    )
  where
    number : (a b : ℕ) → (a == b) ≡ true → a ≡ b
    number a b e = ground arith

module _ (lib : Library) (ts : TrustStore) (history : List Event) where
  -- A write that changes the status or the quarantine of a row.
  restated-IsTrusted :
      (status : String) (q : Bool) (x : ManifestRow)
      → IsTrusted lib ts history x
      → IsTrusted lib ts history (set_status status (set_quarantined q x))
  restated-IsTrusted status q x t = record {
    verified_at = t.verified_at;
    auth = t.auth;
    published_at = t.published_at;
    m = t.m;
    event = t.event;
    text = t.text;
    written = t.written;
    doc = t.doc;
    parses = t.parses;
    verifies = t.verifies;
    manifest_id = t.manifest_id;
    jurisdiction = t.jurisdiction;
    revision = t.revision;
    package_id = t.package_id;
    checksum = t.checksum;
  }

  set_status-IsTrusted :
      (status : String) (x : ManifestRow)
      → IsTrusted lib ts history x
      → IsTrusted lib ts history (set_status status x)
  set_status-IsTrusted status x t = restated-IsTrusted status x.quarantined x t

  set_quarantined-IsTrusted :
      (q : Bool) (x : ManifestRow)
      → IsTrusted lib ts history x
      → IsTrusted lib ts history (set_quarantined q x)
  set_quarantined-IsTrusted q x t = restated-IsTrusted x.source_status q x t

  call-IsTrusted :
      (rows after : List ManifestRow) (event : Event)
      → Memᴰ event history
      → Written lib ts rows after event
      → All (IsTrusted lib ts history) rows
      → All (IsTrusted lib ts history) after
  unfolding promoted
  call-IsTrusted rows after event here (unchanged e) all = rw e all
  call-IsTrusted rows after event here (appended doc verified_at now auth m o p v i free e) all =
      let (id, j, r) = check_identity-eq-ok doc m i in
      rw e (
        All-append (IsTrusted lib ts history) rows _ all (
          record {
            verified_at = verified_at;
            auth = auth;
            published_at = now;
            m = m;
            event = Memᴰ.cast (sym o) here;
            text = refl;
            written = refl;
            doc = doc;
            parses = p;
            verifies = v;
            manifest_id = id;
            jurisdiction = j;
            revision = r;
            package_id = refl;
            checksum = refl;
          },
          tt,
        ))
  call-IsTrusted rows after event here (raised auth now seen j r p) all = rw p.written (
      All-update (IsTrusted lib ts history) (at j r) (set_status "CURRENT") _
        (set_status-IsTrusted "CURRENT")
        (All-update (IsTrusted lib ts history) (superseded_by_revision j r)
          (set_status "SUPERSEDED") rows (set_status-IsTrusted "SUPERSEDED") all))
  call-IsTrusted rows after event here (restated j r e) all = rw e (
      All-update (IsTrusted lib ts history) (at j r) (set_status "WITHDRAWN") rows
        (set_status-IsTrusted "WITHDRAWN") all)
  call-IsTrusted rows after event here (barred j r e) all = rw e (
      All-update (IsTrusted lib ts history) (at j r) (set_quarantined true) rows
        (set_quarantined-IsTrusted true) all)

  kept-IsTrusted :
      (rows : List ManifestRow) (e : Event)
      → Memᴰ e history
      → All (IsTrusted lib ts history) rows
      → All (IsTrusted lib ts history) (kept rows (call lib ts rows e))
  kept-IsTrusted rows e here all =
      kept-elim (All (IsTrusted lib ts history)) rows (call lib ts rows e) all
        (λ after h. call-IsTrusted rows after e here (call-Written lib ts rows after e h) all)

  pub run-IsTrusted :
      (rows : List ManifestRow) (es : List Event)
      → ((e : Event) → Memᴰ e es → Memᴰ e history)
      → All (IsTrusted lib ts history) rows
      → All (IsTrusted lib ts history) (run lib ts rows es)
  unfolding run
  run-IsTrusted rows [] part all = all
  run-IsTrusted rows (e ∷ es) part all =
      run-IsTrusted (kept rows (call lib ts rows e)) es (λ d m. part d (Memᴰ.tail m))
        (kept-IsTrusted rows e (part e (Memᴰ.head refl)) all)
