-- ===== src/Publication/Withdrawn.antt =====
-- A withdrawn manifest stays withdrawn.
use sthira.Prelude.{
  ◌≡◌, refl, sym, ◌∙◌, ap, ℕ, String, Bool, true, false, ◌&&◌, some, List, [], ◌∷◌, str_eq, eq_iff,
  any, All, inl, inr, Bool-cases, if◌then◌else◌, arith,
}
use sthira.Prelude.Result.{Result, ok, err}
use sthira.Booking.Authority.{select}
use sthira.OfflinePkg.{Library}
use sthira.OfflinePkg.Trust.{TrustStore}
use sthira.Publication.{ManifestRow, PublishError, not_found}
use sthira.Publication.Rows.{
  update, update_found, select-update, select-append, select-All, on_some, if_else,
}
use sthira.Publication.Manifests.{
  at, is_current, set_quarantined, set_status, set_manifest_status, superseded_by_revision,
  promoted,
}
use sthira.Publication.History.{
  Event, kept, kept-elim, call, run, Written, unchanged, appended, raised, restated, barred,
  call-Written,
}

-- The table holds the manifest, withdrawn.
pub record IsGone (jurisdiction : String) (revision : ℕ) (rows : List ManifestRow) : Type 0 where
  pub x : ManifestRow
  pub found : select (at jurisdiction revision) rows ≡ some x
  pub withdrawn : x.source_status ≡ "WITHDRAWN"

pub find-at :
    (j : String) (r : ℕ) (rows : List ManifestRow) (x : ManifestRow)
    → select (at j r) rows ≡ some x
    → at j r x ≡ true
find-at j r rows x h = (select-All (λ y. Unit {0}) (at j r) rows x h (units rows)).1
  where
    units : (ys : List ManifestRow) → All (λ y. Unit {0}) ys
    units [] = tt
    units (y ∷ ys) = (tt, units ys)

-- Two keys that one row has are one key.
at_unique :
    (j i : String) (r s : ℕ) (x : ManifestRow)
    → at j r x ≡ true
    → at i s x ≡ true
    → (j ≡ i) × (r ≡ s)
at_unique j i r s x p q = ground (arith, eq_iff x.jurisdiction j, eq_iff x.jurisdiction i)

not_current : (status : String) → status ≡ "WITHDRAWN" → str_eq status "CURRENT" ≡ false
not_current status e = rw e refl

last_of : (a b c : Bool) → (a && (b && c)) ≡ true → c ≡ true
last_of a b c h = ground arith

some-injective : (x y : ManifestRow) → some x ≡ some y → x ≡ y
some-injective x y h = cc

any-select :
    (p : ManifestRow → Bool) (rows : List ManifestRow)
    → any p rows ≡ true
    → (x : ManifestRow) × (select p rows ≡ some x)
unfolding select
any-select p [] h = cc
any-select p (x ∷ xs) h = elim (Bool-cases (p x)) [
  | inl e ↦ (x, rw e refl)
  | inr e ↦ rw e (any-select p xs (later (p x) e h))
]
  where
    later :
        (b : Bool) → b ≡ false → elim b [ true ↦ true | false ↦ any p xs ] ≡ true → any p xs ≡ true
    later true f g = cc
    later false f g = g

module _ (j : String) (r : ℕ) where
  -- A write that is not to the status of a withdrawn row.
  update-IsGone :
      (p : ManifestRow → Bool) (f : ManifestRow → ManifestRow) (rows : List ManifestRow)
      → ((x : ManifestRow) → at j r (f x) ≡ at j r x)
      → (gone : IsGone j r rows)
      → (if p gone.x then f gone.x else gone.x).source_status ≡ "WITHDRAWN"
      → IsGone j r (update p f rows)
  update-IsGone p f rows same gone stays = record {
    x = if p gone.x then f gone.x else gone.x;
    found = select-update (at j r) p f rows same ∙ ap (on_some _) gone.found;
    withdrawn = stays;
  }

  status_kept :
      (b : Bool) (x y : ManifestRow)
      → (b ≡ true → x.source_status ≡ "WITHDRAWN")
      → y.source_status ≡ "WITHDRAWN"
      → (if b then x else y).source_status ≡ "WITHDRAWN"
  status_kept true x y hx hy = hx refl
  status_kept false x y hx hy = hy

  promoted-IsGone :
      (i : String) (s : ℕ) (rows : List ManifestRow) (y : ManifestRow)
      → select (at i s) rows ≡ some y
      → str_eq y.source_status "WITHDRAWN" ≡ false
      → IsGone j r rows
      → IsGone j r (promoted i s rows)
  unfolding promoted
  promoted-IsGone i s rows y locked live gone =
      update-IsGone (at i s) (set_status "CURRENT") _ (λ x. refl) spared
        (status_kept (at i s spared.x) _ spared.x (λ t. absurd_of _ t elsewhere) spared.withdrawn)
    where
      absurd_of : {A : Type 0} (b : Bool) → b ≡ true → b ≡ false → A
      absurd_of b t f = cc

      not_superseded :
          superseded_by_revision i s gone.x ≡ true → ◌≡◌ {A = String} "SUPERSEDED" "WITHDRAWN"
      not_superseded t =
          absurd_of (is_current gone.x) (last_of _ _ (is_current gone.x) t)
            (not_current gone.x.source_status gone.withdrawn)

      spared : IsGone j r (update (superseded_by_revision i s) (set_status "SUPERSEDED") rows)
      spared =
          update-IsGone (superseded_by_revision i s) (set_status "SUPERSEDED") rows (λ x. refl) gone
            (status_kept (superseded_by_revision i s gone.x) _ gone.x not_superseded gone.withdrawn)

      -- The row under the lock was not withdrawn, so the promotion is of another manifest.
      other : (b : Bool) → at i s gone.x ≡ b → b ≡ false
      other false e = refl
      other true e =
          let (ji, rs) = at_unique j i r s gone.x (find-at j r rows gone.x gone.found) e in
          let same : gone.x ≡ y = some-injective gone.x y (
            sym gone.found
            ∙ ap (λ k. select (at k r) rows) ji
            ∙ ap (λ k. select (at i k) rows) rs
            ∙ locked) in
          absurd_of (str_eq y.source_status "WITHDRAWN") (rw (← same, gone.withdrawn) refl) live

      same_x :
          (if superseded_by_revision i s gone.x then set_status "SUPERSEDED" gone.x else gone.x)
          ≡ spared.x
      same_x = some-injective _ spared.x (
          sym (
            select-update (at j r) (superseded_by_revision i s) (set_status "SUPERSEDED") rows
              (λ x. refl)
            ∙ ap (on_some _) gone.found)
          ∙ spared.found)

      elsewhere : at i s spared.x ≡ false
      elsewhere =
          ap (at i s) (sym same_x)
          ∙ if_else (superseded_by_revision i s gone.x) (at i s) (set_status "SUPERSEDED" gone.x)
              gone.x refl
          ∙ other (at i s gone.x) refl

module _ (lib : Library) (ts : TrustStore) (j : String) (r : ℕ) where
  call-IsGone :
      (rows after : List ManifestRow) {event : Event}
      → Written lib ts rows after event
      → IsGone j r rows
      → IsGone j r after
  call-IsGone rows after (unchanged e) gone = rw e gone
  call-IsGone rows after (appended doc verified_at now auth m o p v i free e) gone = rw e (record {
    x = gone.x;
    found = select-append (at j r) rows _ gone.x gone.found;
    withdrawn = gone.withdrawn;
  })
  call-IsGone rows after (raised auth now seen i s p) gone =
      rw p.written (promoted-IsGone j r i s rows p.y p.locked p.not_withdrawn gone)
  call-IsGone rows after (restated i s e) gone = rw e (
      update-IsGone j r (at i s) (set_status "WITHDRAWN") rows (λ x. refl) gone
        (status_kept j r (at i s gone.x) _ gone.x (λ t. refl) gone.withdrawn))
  call-IsGone rows after (barred i s e) gone = rw e (
      update-IsGone j r (at i s) (set_quarantined true) rows (λ x. refl) gone
        (status_kept j r (at i s gone.x) _ gone.x (λ t. gone.withdrawn) gone.withdrawn))

  run-IsGone :
      (rows : List ManifestRow) (es : List Event)
      → IsGone j r rows
      → IsGone j r (run lib ts rows es)
  unfolding run
  run-IsGone rows [] gone = gone
  run-IsGone rows (e ∷ es) gone = run-IsGone (kept rows (call lib ts rows e)) es (
      kept-elim (IsGone j r) rows (call lib ts rows e) gone
        (λ after h. call-IsGone rows after (call-Written lib ts rows after e h) gone))

  set_manifest_status-IsGone :
      (rows after : List ManifestRow)
      → set_manifest_status rows j r "WITHDRAWN" ≡ ok after
      → IsGone j r after
  unfolding set_manifest_status update_found
  set_manifest_status-IsGone rows after h =
      let (found, same) = taken (any (at j r) rows) h in
      let (x, selected) = any-select (at j r) rows found in
      rw same (record {
        x = set_status "WITHDRAWN" x;
        found =
            select-update (at j r) (at j r) (set_status "WITHDRAWN") rows (λ y. refl)
            ∙ ap (on_some _) selected
            ∙ rw (find-at j r rows x selected) refl;
        withdrawn = refl;
      })
    where
      result_of :
          (a b : List ManifestRow)
          → ◌≡◌ {A = Result PublishError (List ManifestRow)} (ok a) (ok b)
          → b ≡ a
      result_of a b g = cc

      taken :
          (t : Bool)
          → (if t then ok (update (at j r) (set_status "WITHDRAWN") rows) else err not_found)
            ≡ ok after
          → (t ≡ true) × (after ≡ update (at j r) (set_status "WITHDRAWN") rows)
      taken true g = (refl, result_of _ _ g)
      taken false g = cc

  -- Once a withdrawal of a manifest has succeeded, the manifest is in the table and withdrawn after
  -- every later history of trusted publications of any record, promotions whatever their first
  -- read had found, withdrawals and quarantines.
  pub withdrawn_final :
      (rows after : List ManifestRow) (es : List Event)
      → set_manifest_status rows j r "WITHDRAWN" ≡ ok after
      → IsGone j r (run lib ts after es)
  withdrawn_final rows after es h = run-IsGone after es (set_manifest_status-IsGone rows after h)
