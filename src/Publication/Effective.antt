-- ===== src/Publication/Effective.antt =====
-- What a promotion changes in the delivery of a jurisdiction.
use sthira.Prelude.{
  ◌≡◌, refl, ◌∙◌, ap, ℕ, ◌≤◌, String, Bool, true, false, some, List, eq_iff, inl, inr,
  if◌then◌else◌, arith,
}
use sthira.Prelude.Result.{ok}
use sthira.Booking.Tables.{Authority}
use sthira.Booking.Authority.{select}
use sthira.OfflinePkg.{Library}
use sthira.Publication.{ManifestRow, not_found, or_else}
use sthira.Publication.Rows.{select-update, on_some, if_else}
use sthira.Publication.Manifests.{
  at, is_current, set_status, deliverable, key_before, first_ranked, get_published_manifest,
  superseded_by_revision, promoted, promote_manifest,
}
use sthira.Publication.Promotion.{promote_manifest-Promotion}
use sthira.Publication.Withdrawn.{find-at}
use sthira.Publication.Ranked.{first_ranked-FirstOf, not_before_first}

current_first :
    (a b : Bool) (m n : ℕ) → a ≡ true → key_before a m b n ≡ false → (b ≡ true) × (m ≤ n)
current_first true true m n e h = (refl, ground arith)
current_first true false m n e h = cc
current_first false b m n e h = cc

is_deliverable :
    (j : String) (r : ℕ) (x : ManifestRow)
    → at j r x ≡ true
    → is_current x ≡ true
    → deliverable j x ≡ true
is_deliverable j r x a c = rw ((eq_iff x.source_status "CURRENT").0 c) (ground arith)

-- The manifest that a successful promotion leaves under its key.
promoted_row :
    (j : String) (r : ℕ) (rows : List ManifestRow) (y : ManifestRow)
    → select (at j r) rows ≡ some y
    → (x : ManifestRow) × (select (at j r) (promoted j r rows) ≡ some x)
      × (at j r x ≡ true)
      × (is_current x ≡ true)
unfolding promoted
promoted_row j r rows y found = (
  set_status "CURRENT" z,
  (select-update (at j r) (at j r) (set_status "CURRENT") _ (λ x. refl)
      ∙ ap (on_some _) (
          select-update (at j r) (superseded_by_revision j r) (set_status "SUPERSEDED") rows
            (λ x. refl)
          ∙ ap (on_some _) found)
      ∙ rw here refl),
  here,
  refl,
)
  where
    z : ManifestRow
    z = if superseded_by_revision j r y then set_status "SUPERSEDED" y else y

    here : at j r z ≡ true
    here =
        if_else (superseded_by_revision j r y) (at j r) (set_status "SUPERSEDED" y) y refl
        ∙ find-at j r rows y found

-- A current manifest of the table is not ahead of the one that is delivered.
current_delivered :
    (j : String) (r : ℕ) (rows : List ManifestRow) (y : ManifestRow)
    → select (at j r) rows ≡ some y
    → is_current y ≡ true
    → (x : ManifestRow) × (get_published_manifest rows j ≡ ok x)
      × (is_current x ≡ true)
      × (r ≤ x.revision)
unfolding get_published_manifest
current_delivered j r rows y found current =
    let here = find-at j r rows y found in
    let (x, first, px, behind) =
      not_before_first (deliverable j) (first_ranked (deliverable j) rows) (at j r) rows y
        (first_ranked-FirstOf (deliverable j) rows) found (is_deliverable j r y here current) in
    let (c, le) =
      current_first (is_current y) (is_current x) y.revision x.revision current behind in
    (x, ap (or_else not_found) first, c, no_less here le)
  where
    no_less : {k : ℕ} → at j r y ≡ true → y.revision ≤ k → r ≤ k
    no_less h le = ground arith

module _ (lib : Library) where
  -- After a promotion of a revision has succeeded, on a table that did not change between its two
  -- reads, a current manifest of that revision or a later one is delivered for the jurisdiction.
  pub promote_delivers :
      (auth : Authority) (now : ℕ) (rows after : List ManifestRow) (j : String) (r : ℕ)
      → promote_manifest lib auth now rows rows j r ≡ ok after
      → (x : ManifestRow) × (get_published_manifest after j ≡ ok x)
        × (is_current x ≡ true)
        × (r ≤ x.revision)
  promote_delivers auth now rows after j r h =
      elim (promote_manifest-Promotion lib auth now rows rows j r after h) [
        | inl c ↦ rw c.same (current_delivered j r rows c.x c.first_read c.current)
        | inr p ↦
            let (x, found, here, current) = promoted_row j r rows p.y p.locked in
            rw p.written (current_delivered j r (promoted j r rows) x found current)
      ]
