-- ===== src/Publication/Delivered.antt =====
-- Which manifest of a jurisdiction GetPublishedManifest delivers.
use mathlib.Core.List.{Memᴰ}
use sthira.Prelude.{
  ◌≡◌, ◌≢◌, refl, subst, ◌≤◌, eq_iff, String, Bool, true, false, Option, none, some, List, [], ◌∷◌,
  All, arith,
}
use sthira.Prelude.Result.{ok, err}
use sthira.OfflinePkg.{Library}
use sthira.OfflinePkg.Trust.{TrustStore}
use sthira.Publication.{ManifestRow, not_found, or_else}
use sthira.Publication.Manifests.{deliverable, ranks_before, first_ranked, get_published_manifest}
use sthira.Publication.Grants.{or_else-eq-ok}
use sthira.Publication.History.{Event, run}
use sthira.Publication.Trusted.{IsTrusted, run-IsTrusted}
use sthira.Publication.Ranked.{FirstOf, first_ranked-FirstOf, OnSome, first_ranked-OnSome}

-- The row `x` is one of the table that may be delivered for the jurisdiction, and the best of them:
-- where one of them is current, so is `x`, and with a revision no less; where `x` is not current, it
-- has the greatest revision of them all.
pub record IsBest (rows : List ManifestRow) (jurisdiction : String) (x : ManifestRow) : Type 0 where
  pub listed : Memᴰ x rows
  pub in_jurisdiction : x.jurisdiction ≡ jurisdiction
  pub not_staged : x.source_status ≢ "STAGED"
  pub best :
      All
        (λ y.
          y.jurisdiction ≡ jurisdiction
          → y.source_status ≢ "STAGED"
          → (y.source_status ≡ "CURRENT"
              → (x.source_status ≡ "CURRENT") × (y.revision ≤ x.revision))
            × (x.source_status ≢ "CURRENT" → y.revision ≤ x.revision))
        rows

deliverable-parts :
    (j : String) (x : ManifestRow)
    → deliverable j x ≡ true
    → (x.jurisdiction ≡ j) × (x.source_status ≢ "STAGED")
deliverable-parts j x h =
    (ground (arith, eq_iff x.jurisdiction j), ground (arith, eq_iff x.source_status "STAGED"))

deliverable-whole :
    (j : String) (x : ManifestRow)
    → x.jurisdiction ≡ j
    → x.source_status ≢ "STAGED"
    → deliverable j x ≡ true
deliverable-whole j x e n = ground (arith, eq_iff x.jurisdiction j, eq_iff x.source_status "STAGED")

not_ahead :
    (x y : ManifestRow)
    → ranks_before y x ≡ false
    → (y.source_status ≡ "CURRENT" → (x.source_status ≡ "CURRENT") × (y.revision ≤ x.revision))
      × (x.source_status ≢ "CURRENT" → y.revision ≤ x.revision)
not_ahead x y h = (
  (λ c. (
    ground (arith, eq_iff x.source_status "CURRENT", eq_iff y.source_status "CURRENT"),
    ground (arith, eq_iff x.source_status "CURRENT", eq_iff y.source_status "CURRENT"),
  )),
  (λ n. ground (arith, eq_iff x.source_status "CURRENT", eq_iff y.source_status "CURRENT")),
)

All-part {ℓ κ} :
    {A : Type ℓ} (P Q : A → Type κ) (xs : List A) → ((x : A) → P x → Q x) → All P xs → All Q xs
All-part P Q [] f all = tt
All-part P Q (x ∷ xs) f (h, all) = (f x h, All-part P Q xs f all)

All-Mem {ℓ} :
    {A : Type ℓ} (xs ys : List A) → ((x : A) → Memᴰ x xs → Memᴰ x ys) → All (λ x. Memᴰ x ys) xs
All-Mem [] ys f = tt
All-Mem (x ∷ xs) ys f = (f x (Memᴰ.head refl), All-Mem xs ys (λ y m. f y (Memᴰ.tail m)))

-- What GetPublishedManifest delivers is a manifest of the table, of the jurisdiction and not staged,
-- that comes first in the order of its query: where such a manifest is current, it is current
-- too, with a revision no less, and where it is not current, none of them has a greater revision.
-- Where it delivers nothing, every manifest of the jurisdiction is staged.
pub get_published_manifest-IsBest :
    (rows : List ManifestRow) (jurisdiction : String)
    → ((x : ManifestRow)
        → get_published_manifest rows jurisdiction ≡ ok x
        → IsBest rows jurisdiction x)
      × (get_published_manifest rows jurisdiction ≡ err not_found
          → All (λ y. y.jurisdiction ≡ jurisdiction → y.source_status ≡ "STAGED") rows)
unfolding get_published_manifest
get_published_manifest-IsBest rows jurisdiction = (
  (λ x h.
      let found = or_else-eq-ok not_found (first_ranked p rows) x h in
      let (px, none_before) = subst (λ o. FirstOf p o rows) found (first_ranked-FirstOf p rows) in
      let (here, shown) = deliverable-parts jurisdiction x px in
      record {
        listed =
            subst (OnSome p (λ z. Memᴰ z rows)) found
              (first_ranked-OnSome p (λ z. Memᴰ z rows) rows (All-Mem rows rows (λ z m. m)));
        in_jurisdiction = here;
        not_staged = shown;
        best =
            All-part _ _ rows (λ y f e n. not_ahead x y (f (deliverable-whole jurisdiction y e n)))
              none_before;
      }),
  λ h. delivers_none (first_ranked p rows) (first_ranked-FirstOf p rows) h,
)
  where
    p : ManifestRow → Bool
    p = deliverable jurisdiction

    hidden :
        (y : ManifestRow) → p y ≡ false → y.jurisdiction ≡ jurisdiction → y.source_status ≡ "STAGED"
    hidden y h e =
        ground (arith, eq_iff y.jurisdiction jurisdiction, eq_iff y.source_status "STAGED")

    delivers_none :
        (o : Option ManifestRow)
        → FirstOf p o rows
        → or_else not_found o ≡ err not_found
        → All (λ y. y.jurisdiction ≡ jurisdiction → y.source_status ≡ "STAGED") rows
    delivers_none none f h = All-part _ _ rows hidden f
    delivers_none (some y) f h = cc

-- After every history of trusted operations on an empty table, the manifest that is delivered for a
-- jurisdiction is of that jurisdiction and not staged, and was written by a publication of the history
-- with that text, which is a manifest that the trust store verified by the publication's first
-- clock, with the identity, the revision, the package and the checksum of the row.
pub delivered-IsTrusted :
    (lib : Library) (ts : TrustStore) (es : List Event) (jurisdiction : String) (x : ManifestRow)
    → get_published_manifest (run lib ts [] es) jurisdiction ≡ ok x
    → (x.jurisdiction ≡ jurisdiction) × (x.source_status ≢ "STAGED") × IsTrusted lib ts es x
unfolding get_published_manifest
delivered-IsTrusted lib ts es jurisdiction x h =
    let best = (get_published_manifest-IsBest rows jurisdiction).0 x h in
    (
      best.in_jurisdiction,
      best.not_staged,
      subst (OnSome p (IsTrusted lib ts es)) (or_else-eq-ok not_found (first_ranked p rows) x h) (
          first_ranked-OnSome p (IsTrusted lib ts es) rows
            (run-IsTrusted lib ts es [] es (λ e m. m) tt)),
    )
  where
    rows : List ManifestRow
    rows = run lib ts [] es

    p : ManifestRow → Bool
    p = deliverable jurisdiction
