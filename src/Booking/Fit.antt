-- ===== src/Booking/Fit.antt =====
-- What the revalidation in backend/internal/store/stay.go has checked when it lets a commitment through.
use sthira.Prelude.{
  ◌⊎◌, ◌<◌, any, ℕ, ◌≤◌, ◌≡◌, refl, ap, ◌∙◌, inl, inr, String, Bool, true, false, not, ◌&&◌, Option,
  none, some, arith, str_eq, eq_iff, subst, Bool-cases,
}
use sthira.Prelude.Result.{ok, >>=-eq-ok, reject_if, reject_if-eq-ok}
use sthira.Booking.Keys.{BookingResult, reservation_context, no_route}
use sthira.Booking.Authority.{
  select, has_package, has_artifact, in_package, zone_of, zone_accepted, zone_status,
  is_operational, is_null, has_source, authorizes, operational_source, locked_package,
  evidence_refused, check_route, has_route, route_policy_required, decoded, or_mismatch, or_context,
  revalidate_reservation_context,
}
use sthira.Booking.Tables.{
  Authority, Package, SourceArtifact, Facility, ZoneVersion, StayPolicy, Source,
}
use sthira.Stay.Conserved.Moves.{not-false}

ok-injective : {A : Type 0} (a b : A) → ◌≡◌ {A = BookingResult A} (ok a) (ok b) → a ≡ b
ok-injective a b h = cc

or_context-eq-ok : {A : Type 0} (o : Option A) (a : A) → or_context o ≡ ok a → o ≡ some a
or_context-eq-ok none a h = cc
or_context-eq-ok (some b) a h = cc

or_mismatch-eq-ok : (o : Option Facility) (a : Facility) → or_mismatch o ≡ ok a → o ≡ some a
or_mismatch-eq-ok none a h = cc
or_mismatch-eq-ok (some b) a h = cc

decoded-eq-ok : (o : Option StayPolicy) (a : StayPolicy) → decoded o ≡ ok a → o ≡ some a
decoded-eq-ok none a h = cc
decoded-eq-ok (some b) a h = cc

no_real_route :
    (auth : Authority) (package_id : String) (now : ℕ) (f : Facility) (synthetic : Bool)
    (route_id : Option String) {u : Unit {0}}
    → check_route auth synthetic f package_id route_id now ≡ ok u
    → synthetic ≡ false
    → has_route route_id ≡ false
no_real_route auth package_id now f synthetic none h e = refl
no_real_route auth package_id now f synthetic (some route_id) h e =
    elim (Bool-cases (str_eq route_id "")) [ inl q ↦ rw q refl | inr q ↦ ground arith ]

source_found :
    (o : Option Source)
    → operational_source o ≡ true
    → (s : Source) × (o ≡ some s) × (s.state ≡ "OPERATIONAL")
source_found none h = cc
source_found (some s) h = (s, refl, (eq_iff s.state "OPERATIONAL").0 h)

null_none : (o : Option String) → is_null o ≡ true → o ≡ none
null_none none h = refl
null_none (some s) h = cc

zone_cases : (s : String) → zone_accepted s ≡ true → (s ≡ "") ⊎ ((s ≡ "OPEN") ⊎ (s ≡ "PUBLISHED"))
zone_cases s h = elim (Bool-cases (str_eq s "")) [
  | inl e ↦ inl ((eq_iff s "").0 e)
  | inr e ↦ elim (Bool-cases (str_eq s "OPEN")) [
    | inl e' ↦ inr (inl ((eq_iff s "OPEN").0 e'))
    | inr e' ↦ inr (inr (ground (arith, eq_iff s "PUBLISHED")))
  ]
]

-- What the conditions of the first statement say.
operational_facts :
    (auth : Authority) (now : ℕ) (p : Package)
    → is_operational auth now p ≡ true
    → ((p.effective_at ≤ now) × (now < p.expires_at) × (p.superseded_by ≡ none))
      × ((s : Source) × (select (has_source p.source_id) auth.sources ≡ some s)
          × (s.state ≡ "OPERATIONAL"))
      × (any (authorizes p now) auth.authorizations ≡ true)
operational_facts auth now p h = (
  (ground arith, ground arith, null_none p.superseded_by (ground arith)),
  source_found (select (has_source p.source_id) auth.sources) (ground arith),
  ground arith,
)

-- A package and a facility that were found fit for a commitment at an instant.
pub record Fit (auth : Authority) (facility_id package_id : String) (now : ℕ) (pol : StayPolicy)
    : Type 0 where
  pub pkg : Package
  pub facility : Facility
  pub zone : ZoneVersion
  pub found : select (has_package package_id) auth.packages ≡ some pkg
  pub in_force : (pkg.effective_at ≤ now) × (now < pkg.expires_at) × (pkg.superseded_by ≡ none)
  pub source : Source
  pub sourced : select (has_source pkg.source_id) auth.sources ≡ some source
  pub source_operational : source.state ≡ "OPERATIONAL"
  pub authorized : any (authorizes pkg now) auth.authorizations ≡ true
  pub inside : select (in_package facility_id package_id) auth.facilities ≡ some facility
  pub zoned : select (zone_of facility) auth.zone_versions ≡ some zone
  pub zone_open :
      (zone_status zone ≡ "") ⊎ ((zone_status zone ≡ "OPEN") ⊎ (zone_status zone ≡ "PUBLISHED"))
  pub policy : pkg.policy ≡ some pol

module _ (auth : Authority) (facility_id package_id : String) (route_id : Option String)
    (now : ℕ) where
  locked-found :
      (p : Package) (a : SourceArtifact)
      → locked_package auth package_id now ≡ ok (p, a)
      → (select (has_package package_id) auth.packages ≡ some p)
        × (is_operational auth now p ≡ true)
  unfolding locked_package
  locked-found p a h =
      let (p', found, h1) =
        >>=-eq-ok (or_context (select (has_package package_id) auth.packages)) _ h in
      let (a', _, h2) =
        >>=-eq-ok (or_context (select (has_artifact p'.artifact_id) auth.artifacts)) _ h1 in
      let (_, good, h3) =
        >>=-eq-ok (reject_if (not (is_operational auth now p')) reservation_context) _ h2 in
      let q : p' ≡ p = ap (λ o. o.0) (ok-injective (p', a') (p, a) h3) in
      subst
        (λ (x : Package).
          (select (has_package package_id) auth.packages ≡ some x)
          × (is_operational auth now x ≡ true))
        q
        (
          or_context-eq-ok _ p' found,
          ground
              (arith, reject_if-eq-ok (not (is_operational auth now p')) reservation_context good),
        )

  -- A revalidation without the option for synthetic evidence goes through only without a route, for
  -- operational evidence.
  pub revalidated-Fit :
      (synthetic : Bool) (j : String) (pol : StayPolicy)
      → revalidate_reservation_context auth synthetic facility_id package_id route_id now
        ≡ ok (j, pol)
      → (fit : Fit auth facility_id package_id now pol) × (synthetic ≡ false
          → str_eq fit.pkg.evidence_class "AUTHORIZED_OPERATIONAL" ≡ true)
        × (synthetic ≡ false → has_route route_id ≡ false)
  unfolding revalidate_reservation_context
  revalidated-Fit synthetic j pol h =
      let ((p, a), locked, h1) = >>=-eq-ok (locked_package auth package_id now) _ h in
      let (_, evidence, h2) =
        >>=-eq-ok
          (reject_if (not synthetic && evidence_refused p.evidence_class a.evidence_class)
            reservation_context)
          _ h1 in
      let (f, inside, h3) =
        >>=-eq-ok (or_mismatch (select (in_package facility_id package_id) auth.facilities)) _ h2 in
      let (z, zoned, h4) = >>=-eq-ok (or_context (select (zone_of f) auth.zone_versions)) _ h3 in
      let (_, accepted, h5) =
        >>=-eq-ok (reject_if (not (zone_accepted (zone_status z))) reservation_context) _ h4 in
      let (_, routed, h6) = >>=-eq-ok (check_route auth synthetic f package_id route_id now) _ h5 in
      let (pol', read, h7) = >>=-eq-ok (decoded p.policy) _ h6 in
      let (required, _, h8) = >>=-eq-ok (route_policy_required pol') _ h7 in
      let (_, _, h9) = >>=-eq-ok (reject_if (required && not (has_route route_id)) no_route) _ h8 in
      let q : pol' ≡ pol = ap (λ o. o.1) (ok-injective (p.jurisdiction, pol') (j, pol) h9) in
      let (found, operational) = locked-found p a locked in
      let (force, (source, sourced, state), authorized) =
        operational_facts auth now p operational in
      let fit : Fit auth facility_id package_id now pol = record {
        pkg = p;
        facility = f;
        zone = z;
        found = found;
        in_force = force;
        source = source;
        sourced = sourced;
        source_operational = state;
        authorized = authorized;
        inside = or_mismatch-eq-ok _ f inside;
        zoned = or_context-eq-ok _ z zoned;
        zone_open = zone_cases (zone_status z) (not-false _ (reject_if-eq-ok _ _ accepted));
        policy = decoded-eq-ok _ pol' read ∙ ap some q;
      } in
      (
        fit,
        λ e. ground (
          arith,
          reject_if-eq-ok (not synthetic && evidence_refused p.evidence_class a.evidence_class)
              reservation_context evidence,
        ),
        λ e. no_real_route auth package_id now f synthetic route_id routed e,
      )
