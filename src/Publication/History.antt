-- ===== src/Publication/History.antt =====
-- Histories of the trusted operations on the published manifests: Publisher.PublishManifest,
-- PromoteManifest, and the writes of WithdrawManifestAndInvalidate and
-- QuarantineManifestAndInvalidate. An operation that returns an error has written nothing.
use sthira.Prelude.{
  ◌≡◌, refl, sym, ap, ℕ, String, Bool, true, false, not, ◌||◌, Option, none, some, List, [], ◌∷◌,
  ◌++◌, ltb, ◌==◌, str_eq, any, inl, inr, if◌then◌else◌,
}
use sthira.Prelude.Result.{Result, ok, err, >>=-eq-ok, past}
use sthira.Booking.Tables.{Authority}
use sthira.Booking.Authority.{select}
use sthira.OfflinePkg.{Library, Manifest, PkgError}
use sthira.OfflinePkg.Structure.{parse_manifest}
use sthira.OfflinePkg.Trust.{TrustStore, verify_manifest}
use sthira.Publication.{
  PublishedManifest, ManifestRow, PublishError, invalid_metadata, raw_json_too_large,
  identity_mismatch, conflict, sql_error, not_found,
}
use sthira.Publication.Authorities.{check_source, check_authorization, check_current_package}
use sthira.Publication.Rows.{update, update_found}
use sthira.Publication.Manifests.{
  at, row_of, collides, same_content, insert_manifest, parsed, set_quarantined, set_status,
  quarantine_manifest, set_manifest_status, promote_manifest,
}
use sthira.Publication.Publisher.{
  trusted, check_identity, staged, save_trusted, publish_verified, publish_under, publish,
}
use sthira.Publication.Promotion.{Promotion, promote_manifest-Promotion}
use sthira.Publication.Grants.{ok-injective}

pub data Event : Type 0 where
  -- the two clocks, the tables of the authorities and the record
  published : ℕ → Authority → ℕ → PublishedManifest → Event
  -- the tables of the authorities, the clock, and what the unlocked first read finds
  promotes : Authority → ℕ → List ManifestRow → String → ℕ → Event
  withdraws : String → ℕ → Event
  quarantines : String → ℕ → Event

abbrev pub kept : List ManifestRow → Result PublishError (List ManifestRow) → List ManifestRow
kept rows (ok after) = after
kept rows (err e) = rows

-- What holds of the rows and of the rows after a success holds after the call.
pub kept-elim :
    (C : List ManifestRow → Type 0) (rows : List ManifestRow)
    (o : Result PublishError (List ManifestRow))
    → C rows
    → ((after : List ManifestRow) → o ≡ ok after → C after)
    → C (kept rows o)
kept-elim C rows (ok after) before written = written after refl
kept-elim C rows (err e) before written = before

module _ (lib : Library) (ts : TrustStore) where
  unfoldable pub call : List ManifestRow → Event → Result PublishError (List ManifestRow)
  unfolding publish promote_manifest set_manifest_status quarantine_manifest
  call rows (published verified_at auth now m) = publish lib (some ts) verified_at auth now rows m
  call rows (promotes auth now seen jurisdiction revision) =
      promote_manifest lib auth now seen rows jurisdiction revision
  call rows (withdraws jurisdiction revision) =
      set_manifest_status rows jurisdiction revision "WITHDRAWN"
  call rows (quarantines jurisdiction revision) =
      quarantine_manifest rows jurisdiction revision true

  unfoldable pub run : List ManifestRow → List Event → List ManifestRow
  unfolding call
  run rows [] = rows
  run rows (e ∷ es) = run (kept rows (call rows e)) es

-- A write that succeeded leaves the rows as they are, adds a verified document, promotes, withdraws or
-- quarantines.
pub data Written (lib : Library) (ts : TrustStore) (rows after : List ManifestRow) (event : Event)
    : Type 0 where
  unchanged : after ≡ rows → Written lib ts rows after event
  appended :
      (doc : Manifest) (verified_at now : ℕ) (auth : Authority) (m : PublishedManifest)
      → event ≡ published verified_at auth now m
      → parse_manifest lib 262144 m.raw_json ≡ ok doc
      → verify_manifest lib ts verified_at doc ≡ ok tt
      → check_identity doc m ≡ ok tt
      → any (collides (staged doc m)) rows ≡ false
      → after ≡ rows ++ (row_of now (staged doc m) ∷ [])
      → Written lib ts rows after event
  raised :
      (auth : Authority) (now : ℕ) (seen : List ManifestRow) (jurisdiction : String) (revision : ℕ)
      → Promotion lib auth now seen rows jurisdiction revision after
      → Written lib ts rows after event
  restated :
      (jurisdiction : String) (revision : ℕ)
      → after ≡ update (at jurisdiction revision) (set_status "WITHDRAWN") rows
      → Written lib ts rows after event
  barred :
      (jurisdiction : String) (revision : ℕ)
      → after ≡ update (at jurisdiction revision) (set_quarantined true) rows
      → Written lib ts rows after event

parsed-eq-ok : (r : Result PkgError Manifest) (doc : Manifest) → parsed r ≡ ok doc → r ≡ ok doc
parsed-eq-ok (ok d) doc h = ap (λ x. ok x) (ok-injective d doc h)
parsed-eq-ok (err e) doc h = cc

trusted-eq-ok : (r : Result PkgError (Unit {0})) (u : Unit {0}) → trusted r ≡ ok u → r ≡ ok tt
trusted-eq-ok (ok v) u h = refl
trusted-eq-ok (err e) u h = cc

chosen {ℓ} :
    {A : Type ℓ} (t : Bool) (e : PublishError) (a b : A)
    → (if t then err e else ok a) ≡ ok b
    → (t ≡ false) × (b ≡ a)
chosen true e a b h = cc
chosen false e a b h = (refl, sym (ok-injective a b h))

update_found-eq-ok :
    (p : ManifestRow → Bool) (f : ManifestRow → ManifestRow) (rows after : List ManifestRow)
    → update_found p f rows ≡ ok after
    → after ≡ update p f rows
unfolding update_found
update_found-eq-ok p f rows after h = taken (any p rows) h
  where
    taken :
        (t : Bool)
        → (if t then ok (update p f rows) else err not_found) ≡ ok after
        → after ≡ update p f rows
    taken true g = sym (ok-injective _ _ g)
    taken false g = cc

module _ (lib : Library) (ts : TrustStore) where
  save_trusted-Written :
      (rows after : List ManifestRow) (doc : Manifest) (verified_at now : ℕ) (auth : Authority)
      (m : PublishedManifest)
      → parse_manifest lib 262144 m.raw_json ≡ ok doc
      → verify_manifest lib ts verified_at doc ≡ ok tt
      → check_identity doc m ≡ ok tt
      → save_trusted rows now (staged doc m) ≡ ok after
      → Written lib ts rows after (published verified_at auth now m)
  unfolding save_trusted insert_manifest
  save_trusted-Written rows after doc verified_at now auth m p v i h =
      by_row (select (at m.jurisdiction m.revision) rows) h
    where
      by_row :
          (o : Option ManifestRow)
          → (elim o [
            | none ↦ insert_manifest rows now (staged doc m)
            | some x ↦ if not (same_content x (staged doc m)) then err conflict else ok rows
          ])
            ≡ ok after
          → Written lib ts rows after (published verified_at auth now m)
      by_row none g =
          let (free, same) = chosen (any (collides (staged doc m)) rows) sql_error _ after g in
          appended doc verified_at now auth m refl p v i free same
      by_row (some x) g =
          unchanged (chosen (not (same_content x (staged doc m))) conflict rows after g).1

  -- What an operation that succeeds has written.
  pub call-Written :
      (rows after : List ManifestRow) (e : Event)
      → call lib ts rows e ≡ ok after
      → Written lib ts rows after e
  unfolding call publish publish_under publish_verified set_manifest_status quarantine_manifest
  call-Written rows after (published verified_at auth now m) h =
      let t1 =
        str_eq m.manifest_id ""
        || (str_eq m.jurisdiction "" || (ltb m.revision 1 || lib.byte_len m.raw_json == 0)) in
      let h1 = past t1 invalid_metadata _ h in
      let h2 = past (ltb 262144 (lib.byte_len m.raw_json)) raw_json_too_large _ h1 in
      let h3 = past (str_eq m.source_id "") identity_mismatch _ h2 in
      let (doc, parses, h4) = >>=-eq-ok (parsed (parse_manifest lib 262144 m.raw_json)) _ h3 in
      let (u, verifies, h5) = >>=-eq-ok (trusted (verify_manifest lib ts verified_at doc)) _ h4 in
      let (v, identified, h6) = >>=-eq-ok (check_identity doc m) _ h5 in
      let (w, a, h7) = >>=-eq-ok (check_source auth m.source_id) _ h6 in
      let (x, b, h8) = >>=-eq-ok (check_authorization auth m.source_id m.jurisdiction now) _ h7 in
      let (y, c, h9) =
        >>=-eq-ok (check_current_package auth m.source_id doc.critical_card.package_id now) _ h8 in
      save_trusted-Written rows after doc verified_at now auth m
        (parsed-eq-ok (parse_manifest lib 262144 m.raw_json) doc parses)
        (trusted-eq-ok (verify_manifest lib ts verified_at doc) u verifies) identified h9
  call-Written rows after (promotes auth now seen j r) h =
      elim (promote_manifest-Promotion lib auth now seen rows j r after h) [
        | inl c ↦ unchanged c.same
        | inr p ↦ raised auth now seen j r p
      ]
  call-Written rows after (withdraws j r) h =
      restated j r (update_found-eq-ok (at j r) (set_status "WITHDRAWN") rows after h)
  call-Written rows after (quarantines j r) h =
      barred j r (update_found-eq-ok (at j r) (set_quarantined true) rows after h)
