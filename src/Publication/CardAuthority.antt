-- ===== src/Publication/CardAuthority.antt =====
-- What a promotion of a card needs.
use sthira.Prelude.{
  ◌≡◌, refl, sym, ℕ, String, Bool, true, false, not, ◌&&◌, ◌||◌, some, List, ◌⊎◌, inl, inr, ◌==◌,
  str_eq, any, Bool-cases, if◌then◌else◌,
}
use sthira.Prelude.Result.{ok, >>=-eq-ok, past, reject_if-eq-ok}
use sthira.Booking.Tables.{Package, Source, Authority}
use sthira.Booking.Authority.{select, is_null, has_source}
use sthira.OfflinePkg.{Library}
use sthira.Publication.{publication_authority, not_found, or_else, sql_error}
use sthira.Publication.Authorities.{
  check_source, authorized_in, check_authorization, package_of, in_effect,
}
use sthira.Publication.Manifests.{attributed}
use sthira.Publication.Promotion.{attributed-eq-ok}
use sthira.Publication.Grants.{
  stops, or_else-eq-ok, not-eq-false, or-eq-false, check_source-eq-ok, check_authorization-eq-ok,
  then_branch, else_branch, ok-injective,
}
use sthira.Publication.Cards.{
  CardRow, card_at, promoted_card, string_of, check_card_promotable, promote_card,
}

module _ (lib : Library) where
  -- The authority behind the promotion of the card `x`. A card without a jurisdiction needs no
  -- authorization in one.
  pub record MayPromoteCard (auth : Authority) (now : ℕ) (package_id : String) (version : ℕ)
      (x : CardRow) : Type 0 where
    pub source_id : String
    pub attribution : x.source_id ≡ some source_id
    pub source : Source
    pub registered : select (has_source source_id) auth.sources ≡ some source
    pub operational : str_eq source.state "OPERATIONAL" ≡ true
    pub authorized :
        (str_eq (string_of x.jurisdiction) "" ≡ true)
        ⊎ (any (authorized_in source_id (string_of x.jurisdiction) now) auth.authorizations ≡ true)
    pub pkg : Package
    pub listed : select (package_of source_id package_id) auth.packages ≡ some pkg
    pub version_matches : (pkg.version == version) ≡ true
    pub jurisdiction_matches :
        (not (str_eq (string_of x.jurisdiction) "")
          && not (str_eq pkg.jurisdiction (string_of x.jurisdiction)))
        ≡ false
    pub latest : is_null pkg.superseded_by ≡ true
    pub effective : in_effect now pkg ≡ true

  check_card_promotable-MayPromoteCard :
      (auth : Authority) (now : ℕ) (package_id : String) (version : ℕ) (x : CardRow)
      → check_card_promotable lib auth now package_id version x ≡ ok tt
      → MayPromoteCard auth now package_id version x
  unfolding check_card_promotable
  check_card_promotable-MayPromoteCard auth now package_id version x h =
      let jur = string_of x.jurisdiction in
      let (id, named, h1) = >>=-eq-ok (attributed lib x.source_id) _ h in
      let (u, sourced, h2) = >>=-eq-ok (check_source auth id) _ h1 in
      let (v, allowed, h3) =
        >>=-eq-ok (if str_eq jur "" then ok tt else check_authorization auth id jur now) _ h2 in
      let (p, found, h4) =
        >>=-eq-ok (or_else publication_authority (select (package_of id package_id) auth.packages))
          _ h3 in
      let t = not (str_eq jur "") && not (str_eq p.jurisdiction jur) in
      let h5 = past (not (p.version == version)) _ _ h4 in
      let h6 = past t _ _ h5 in
      let h7 = past (not (is_null p.superseded_by)) _ _ h6 in
      let (s, registered, operational) = check_source-eq-ok auth id sourced in
      record {
        source_id = id;
        attribution = attributed-eq-ok lib x.source_id id named;
        source = s;
        registered = registered;
        operational = operational;
        authorized = by_jurisdiction id (str_eq jur "") allowed;
        pkg = p;
        listed = or_else-eq-ok publication_authority _ p found;
        version_matches = not-eq-false _ (stops (not (p.version == version)) _ _ h4);
        jurisdiction_matches = stops t _ _ h5;
        latest = not-eq-false _ (stops (not (is_null p.superseded_by)) _ _ h6);
        effective = not-eq-false _ (reject_if-eq-ok (not (in_effect now p)) _ h7);
      }
    where
      by_jurisdiction :
          (id : String) (b : Bool) {w : Unit {0}}
          → (if b then ok tt else check_authorization auth id (string_of x.jurisdiction) now) ≡ ok w
          → (b ≡ true)
            ⊎ (any (authorized_in id (string_of x.jurisdiction) now) auth.authorizations ≡ true)
      by_jurisdiction id true g = inl refl
      by_jurisdiction id false g =
          inr (check_authorization-eq-ok auth id (string_of x.jurisdiction) now g)

  -- What a promotion of a card that wrote found: `x` before its locks and `y` under them.
  pub record CardPromotion (auth : Authority) (now : ℕ) (seen rows : List CardRow)
      (package_id : String) (version : ℕ) (after : List CardRow) : Type 0 where
    pub x : CardRow
    pub first_read : select (card_at package_id version) seen ≡ some x
    pub may_promote : MayPromoteCard auth now package_id version x
    pub y : CardRow
    pub locked : select (card_at package_id version) rows ≡ some y
    pub not_quarantined : y.quarantined ≡ false
    pub not_withdrawn : str_eq y.source_status "WITHDRAWN" ≡ false
    pub written : after ≡ promoted_card package_id version rows

  -- A promotion of a card that succeeds changes nothing, or the card has a source that is operational and
  -- the owner of its package, which has the version of the card and is in effect and not
  -- superseded; where the card has a jurisdiction, the package has the same one and the source is
  -- authorized in it; and under the lock the card was neither quarantined nor withdrawn.
  pub promote_card-CardPromotion :
      (auth : Authority) (now : ℕ) (seen rows : List CardRow) (package_id : String) (version : ℕ)
      (after : List CardRow)
      → promote_card lib auth now seen rows package_id version ≡ ok after
      → (after ≡ rows) ⊎ CardPromotion auth now seen rows package_id version after
  unfolding promote_card
  promote_card-CardPromotion auth now seen rows package_id version after h =
      let (x, seen_x, h1) =
        >>=-eq-ok (or_else not_found (select (card_at package_id version) seen)) _ h in
      let h2 = past x.quarantined _ _ h1 in
      let h3 = past (str_eq x.source_status "WITHDRAWN") _ _ h2 in
      elim (Bool-cases (str_eq x.source_status "CURRENT")) [
        | inl e ↦
            inl (sym (ok-injective _ _ (then_branch _ _ (str_eq x.source_status "CURRENT") e h3)))
        | inr e ↦
            let h4 = else_branch _ _ (str_eq x.source_status "CURRENT") e h3 in
            let (u, checked, h5) =
              >>=-eq-ok (check_card_promotable lib auth now package_id version x) _ h4 in
            let (y, locked_y, h6) =
              >>=-eq-ok (or_else sql_error (select (card_at package_id version) rows)) _ h5 in
            let barred = y.quarantined || str_eq y.source_status "WITHDRAWN" in
            let (free, live) = or-eq-false y.quarantined _ (stops barred _ _ h6) in
            inr (record {
              x = x;
              first_read = or_else-eq-ok not_found _ x seen_x;
              may_promote =
                  check_card_promotable-MayPromoteCard auth now package_id version x checked;
              y = y;
              locked = or_else-eq-ok sql_error _ y locked_y;
              not_quarantined = free;
              not_withdrawn = live;
              written = sym (ok-injective _ _ (past barred _ _ h6));
            })
      ]
