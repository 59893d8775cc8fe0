-- ===== src/Publication/Immutable.antt =====
-- No history of the trusted operations changes the document of a published manifest.
use sthira.Prelude.{◌≡◌, refl, sym, ◌∙◌, ap, ℕ, String, true, Option, List, [], ◌∷◌, ◌++◌, map}
use sthira.OfflinePkg.{Library}
use sthira.OfflinePkg.Trust.{TrustStore}
use sthira.Publication.{ManifestRow}
use sthira.Publication.Rows.{map-update, map-append}
use sthira.Publication.Manifests.{
  at, row_of, set_quarantined, set_status, superseded_by_revision, promoted,
}
use sthira.Publication.Publisher.{staged}
use sthira.Publication.History.{
  Event, kept, kept-elim, call, run, Written, unchanged, appended, raised, restated, barred,
  call-Written,
}

-- The columns of a manifest other than its status and its quarantine.
abbrev pub document_of :
    ManifestRow → String × String × ℕ × String × Option String × String × String × ℕ
document_of x = (
  x.manifest_id, x.jurisdiction, x.revision, x.package_id, x.source_id, x.raw_json,
  x.checksum_sha256, x.created_at,
)

document_of-promoted :
    (j : String) (r : ℕ) (rows : List ManifestRow)
    → map document_of (promoted j r rows) ≡ map document_of rows
unfolding promoted
document_of-promoted j r rows =
    map-update document_of (at j r) (set_status "CURRENT") _ (λ x. refl)
    ∙ map-update document_of (superseded_by_revision j r) (set_status "SUPERSEDED") rows (λ x. refl)

append-nil {ℓ} : {A : Type ℓ} (xs : List A) → xs ++ [] ≡ xs
append-nil [] = refl
append-nil (x ∷ xs) = ap (λ l. x ∷ l) (append-nil xs)

append-append {ℓ} : {A : Type ℓ} (xs ys zs : List A) → (xs ++ ys) ++ zs ≡ xs ++ (ys ++ zs)
append-append [] ys zs = refl
append-append (x ∷ xs) ys zs = ap (λ l. x ∷ l) (append-append xs ys zs)

-- The documents of `after` are those of `rows` with more behind them.
abbrev pub Extends : List ManifestRow → List ManifestRow → Type 0
Extends rows after =
    (added : List ManifestRow) × (map document_of after
      ≡ map document_of rows ++ map document_of added)

same_documents :
    (rows after : List ManifestRow)
    → map document_of after ≡ map document_of rows
    → Extends rows after
same_documents rows after h = ([], h ∙ sym (append-nil (map document_of rows)))

module _ (lib : Library) (ts : TrustStore) where
  call-Extends :
      (rows after : List ManifestRow) {event : Event}
      → Written lib ts rows after event
      → Extends rows after
  call-Extends rows after (unchanged e) = same_documents rows after (ap (map document_of) e)
  call-Extends rows after (appended doc verified_at now auth m o p v i free e) =
      (row_of now (staged doc m) ∷ [], ap (map document_of) e ∙ map-append document_of rows _)
  call-Extends rows after (raised auth now seen j r p) =
      same_documents rows after (ap (map document_of) p.written ∙ document_of-promoted j r rows)
  call-Extends rows after (restated j r e) = same_documents rows after (
      ap (map document_of) e
      ∙ map-update document_of (at j r) (set_status "WITHDRAWN") rows (λ x. refl))
  call-Extends rows after (barred j r e) = same_documents rows after (
      ap (map document_of) e
      ∙ map-update document_of (at j r) (set_quarantined true) rows (λ x. refl))

  kept-Extends :
      (rows : List ManifestRow) (e : Event) → Extends rows (kept rows (call lib ts rows e))
  kept-Extends rows e =
      kept-elim (Extends rows) rows (call lib ts rows e) (same_documents rows rows refl)
        (λ after h. call-Extends rows after (call-Written lib ts rows after e h))

  -- Over every history of trusted publications, promotions, withdrawals and quarantines, on every table,
  -- no manifest is removed and no column of one changes but its status and its quarantine:
  -- manifests are only added.
  pub run-Extends : (rows : List ManifestRow) (es : List Event) → Extends rows (run lib ts rows es)
  unfolding run
  run-Extends rows [] = same_documents rows rows refl
  run-Extends rows (e ∷ es) =
      let (added, first) = kept-Extends rows e in
      let (more, later) = run-Extends (kept rows (call lib ts rows e)) es in
      (
        added ++ more,
        later
            ∙ ap (λ l. l ++ map document_of more) first
            ∙ append-append (map document_of rows) _ _
            ∙ ap (λ l. map document_of rows ++ l) (sym (map-append document_of added more)),
      )
