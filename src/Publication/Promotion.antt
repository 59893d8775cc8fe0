-- ===== src/Publication/Promotion.antt =====
-- What a promotion of a manifest needs and does.
use sthira.Prelude.{
  ◌≡◌, ◌==◌, sym, subst, ap, ℕ, String, Bool, true, false, ◌||◌, Option, none, some, List, ◌⊎◌, inl,
  inr, str_eq, Bool-cases, if◌then◌else◌,
}
use sthira.Prelude.Result.{ok, err, >>=-eq-ok, past}
use sthira.Booking.Tables.{Package, Authority}
use sthira.Booking.Authority.{select}
use sthira.OfflinePkg.{Library, Manifest}
use sthira.OfflinePkg.Structure.{parse_manifest}
use sthira.Publication.{ManifestRow, publication_authority, not_found, or_else, sql_error}
use sthira.Publication.Authorities.{check_source, check_authorization, active_package}
use sthira.Publication.Manifests.{
  at, is_current, promoted, attributed, document, check_critical, check_promotable,
  promote_manifest,
}
use sthira.Publication.Grants.{
  stops, or_else-eq-ok, or-eq-false, ok-injective, then_branch, else_branch, HasAuthority,
  has_authority, check_source-eq-ok, check_authorization-eq-ok, active_package-eq-ok, card_of,
}

-- What a promotion that had nothing to write found.
pub record Current (seen rows : List ManifestRow) (jurisdiction : String) (revision : ℕ)
    (after : List ManifestRow) : Type 0 where
  pub x : ManifestRow
  pub first_read : select (at jurisdiction revision) seen ≡ some x
  pub current : is_current x ≡ true
  pub same : after ≡ rows

module _ (lib : Library) where
  pub attributed-eq-ok : (o : Option String) (s : String) → attributed lib o ≡ ok s → o ≡ some s
  attributed-eq-ok none s h = cc
  attributed-eq-ok (some t) s h = ap some (named (str_eq (lib.trim_space t) "") h)
    where
      named : (b : Bool) → (if b then err publication_authority else ok t) ≡ ok s → t ≡ s
      named true g = cc
      named false g = cc

  -- The authority behind the promotion of the row `x`, and the critical card that its document names,
  -- where the document is not empty and can be parsed.
  pub record MayPromote (auth : Authority) (now : ℕ) (jurisdiction : String) (x : ManifestRow)
      : Type 0 where
    pub source_id : String
    pub attribution : x.source_id ≡ some source_id
    pub authority : HasAuthority auth now source_id jurisdiction x.package_id
    pub card :
        (doc : Manifest)
        → (lib.byte_len x.raw_json == 0) ≡ false
        → parse_manifest lib 262144 x.raw_json ≡ ok doc
        → (doc.critical_card.package_id ≡ x.package_id)
          × (doc.critical_card.version ≡ authority.pkg.version)

  pub check_promotable-MayPromote :
      (auth : Authority) (now : ℕ) (jurisdiction : String) (x : ManifestRow)
      → check_promotable lib auth now jurisdiction x ≡ ok tt
      → MayPromote auth now jurisdiction x
  unfolding check_promotable
  check_promotable-MayPromote auth now jurisdiction x h =
      let (id, named, h1) = >>=-eq-ok (attributed lib x.source_id) _ h in
      let (u, sourced, h2) = >>=-eq-ok (check_source auth id) _ h1 in
      let (v, allowed, h3) = >>=-eq-ok (check_authorization auth id jurisdiction now) _ h2 in
      let (p, active, card) = >>=-eq-ok (active_package auth id x.package_id now) _ h3 in
      let (s, registered, operational) = check_source-eq-ok auth id sourced in
      let (listed, latest, effective) = active_package-eq-ok auth id x.package_id now p active in
      let (authority, same) =
        has_authority auth now id jurisdiction x.package_id s p registered operational
          (check_authorization-eq-ok auth id jurisdiction now allowed) listed latest effective in
      record {
        source_id = id;
        attribution = attributed-eq-ok x.source_id id named;
        authority = authority;
        card = λ doc. card_of lib doc x x.package_id authority.pkg.version (
            subst
              (λ (q : Package). check_critical lib (document lib x) x.package_id q.version ≡ ok tt)
              (sym same) card);
      }

  -- What a promotion that wrote found: `x` before its locks and `y` under them.
  pub record Promotion (auth : Authority) (now : ℕ) (seen rows : List ManifestRow)
      (jurisdiction : String) (revision : ℕ) (after : List ManifestRow) : Type 0 where
    pub x : ManifestRow
    pub first_read : select (at jurisdiction revision) seen ≡ some x
    pub may_promote : MayPromote auth now jurisdiction x
    pub y : ManifestRow
    pub locked : select (at jurisdiction revision) rows ≡ some y
    pub not_quarantined : y.quarantined ≡ false
    pub not_withdrawn : str_eq y.source_status "WITHDRAWN" ≡ false
    pub written : after ≡ promoted jurisdiction revision rows

  -- A promotion that succeeds writes nothing where the manifest was current already. Where it
  -- writes, the manifest has a source that is operational, authorized in the jurisdiction and the
  -- owner of the manifest's package, which is in effect and not superseded; where the manifest's
  -- document is not empty and parses, its critical card is of that package and has its version; and
  -- the row was neither quarantined nor withdrawn under the lock, whatever the unlocked first read
  -- had found.
  pub promote_manifest-Promotion :
      (auth : Authority) (now : ℕ) (seen rows : List ManifestRow) (jurisdiction : String)
      (revision : ℕ) (after : List ManifestRow)
      → promote_manifest lib auth now seen rows jurisdiction revision ≡ ok after
      → Current seen rows jurisdiction revision after
        ⊎ Promotion auth now seen rows jurisdiction revision after
  unfolding promote_manifest
  promote_manifest-Promotion auth now seen rows jurisdiction revision after h =
      let (x, seen_x, h1) =
        >>=-eq-ok (or_else not_found (select (at jurisdiction revision) seen)) _ h in
      let h2 = past x.quarantined _ _ h1 in
      let h3 = past (str_eq x.source_status "WITHDRAWN") _ _ h2 in
      elim (Bool-cases (is_current x)) [
        | inl e ↦ inl (record {
          x = x;
          first_read = or_else-eq-ok not_found _ x seen_x;
          current = e;
          same = sym (ok-injective _ _ (then_branch _ _ (is_current x) e h3));
        })
        | inr e ↦
            let h4 = else_branch _ _ (is_current x) e h3 in
            let (u, checked, h5) = >>=-eq-ok (check_promotable lib auth now jurisdiction x) _ h4 in
            let (y, locked_y, h6) =
              >>=-eq-ok (or_else sql_error (select (at jurisdiction revision) rows)) _ h5 in
            let barred = y.quarantined || str_eq y.source_status "WITHDRAWN" in
            let (free, live) = or-eq-false y.quarantined _ (stops barred _ _ h6) in
            inr (record {
              x = x;
              first_read = or_else-eq-ok not_found _ x seen_x;
              may_promote = check_promotable-MayPromote auth now jurisdiction x checked;
              y = y;
              locked = or_else-eq-ok sql_error _ y locked_y;
              not_quarantined = free;
              not_withdrawn = live;
              written = sym (ok-injective _ _ (past barred _ _ h6));
            })
      ]
