-- ===== src/Booking/Authority.antt =====
-- The revalidation of a commitment in backend/internal/store/stay.go, on the tables it reads, and the
-- stay policy of a package. The columns are those that its statements name.
use sthira.Prelude.{
  ℕ, ◌+◌, ◌*◌, String, Bool, true, false, not, ◌&&◌, ◌||◌, Option, none, some, List, [], ◌∷◌, leb,
  ltb, ◌==◌, str_eq, if◌then◌else◌, any,
}
use sthira.Prelude.Int.{ℤ, pos_part, neg_part}
use sthira.Prelude.Result.{ok, err, ◌>>=◌, ◌>>◌, reject_if}
use sthira.Booking.Tables.{
  StayPolicy, Package, Source, SourceArtifact, SourceAuthorization, Facility, ZoneVersion,
  RouteVersion, RouteClosure, Authority,
}
use sthira.Booking.Keys.{
  BookingResult, reservation_context, facility_package_mismatch, route_unavailable, no_route,
  no_stay_policy, stay_out_of_policy, sql_error, stale_snapshot,
}

-- The first row that a condition selects.
unfoldable pub select {ℓ} : {A : Type ℓ} → (A → Bool) → List A → Option A
select p [] = none
select p (x ∷ xs) = let rest = select p xs in if p x then some x else rest

abbrev pub is_null {ℓ} : {A : Type ℓ} → Option A → Bool
is_null none = true
is_null (some x) = false

-- expires_at IS NULL OR expires_at > $2
abbrev pub null_or_after : Option ℕ → ℕ → Bool
null_or_after none now = true
null_or_after (some t) now = ltb now t

-- valid_from IS NULL OR valid_from <= $3
abbrev pub null_or_begun : Option ℕ → ℕ → Bool
null_or_begun none now = true
null_or_begun (some t) now = leb t now

abbrev pub has_source : String → Source → Bool
has_source id s = str_eq s.source_id id

abbrev pub has_artifact : String → SourceArtifact → Bool
has_artifact id a = str_eq a.artifact_id id

abbrev pub authorizes : Package → ℕ → SourceAuthorization → Bool
authorizes p now a =
    str_eq a.source_id p.source_id
    && (str_eq a.jurisdiction p.jurisdiction && null_or_after a.expires_at now)

abbrev pub operational_source : Option Source → Bool
operational_source none = false
operational_source (some s) = str_eq s.state "OPERATIONAL"

-- The conditions of the first statement on a package and its source.
abbrev pub is_operational : Authority → ℕ → Package → Bool
is_operational auth now p =
    operational_source (select (has_source p.source_id) auth.sources)
    && (leb p.effective_at now
        && (ltb now p.expires_at
            && (is_null p.superseded_by && any (authorizes p now) auth.authorizations)))

abbrev pub has_package : String → Package → Bool
has_package id p = str_eq p.package_id id

abbrev pub or_context : {A : Type 0} → Option A → BookingResult A
or_context none = err reservation_context
or_context (some a) = ok a

-- SELECT ... FROM packages p JOIN sources s JOIN source_artifacts sa ... FOR UPDATE OF s, p
unfoldable pub locked_package : Authority → String → ℕ → BookingResult (Package × SourceArtifact)
locked_package auth package_id now = do
  p ← or_context (select (has_package package_id) auth.packages)
  a ← or_context (select (has_artifact p.artifact_id) auth.artifacts)
  reject_if (not (is_operational auth now p)) reservation_context
  ok (p, a)

abbrev pub is_synthetic : String → Bool
is_synthetic evidence = str_eq evidence "SYNTHETIC_DEMO" || str_eq evidence "SYNTHETIC"

abbrev pub evidence_refused : String → String → Bool
evidence_refused pkg art =
    (is_synthetic pkg || is_synthetic art)
    || (not (str_eq pkg "AUTHORIZED_OPERATIONAL") || not (str_eq art "AUTHORIZED_OPERATIONAL"))

abbrev pub in_package : String → String → Facility → Bool
in_package facility_id package_id f =
    str_eq f.facility_id facility_id && str_eq f.package_id package_id

abbrev pub zone_of : Facility → ZoneVersion → Bool
zone_of f z = str_eq z.zone_id f.safe_zone_id && str_eq z.package_id f.package_id

-- COALESCE(zv.status, '')
abbrev pub zone_status : ZoneVersion → String
zone_status z = elim z.status [ none ↦ "" | some s ↦ s ]

abbrev pub zone_accepted : String → Bool
zone_accepted status = str_eq status "" || (str_eq status "OPEN" || str_eq status "PUBLISHED")

abbrev pub still_closed : String → RouteClosure → Bool
still_closed route_id c = str_eq c.route_id route_id && is_null c.reopened_at

-- The conditions of the statement that counts routes.
abbrev pub usable_route : Authority → Facility → String → String → ℕ → RouteVersion → Bool
usable_route auth f package_id route_id now r =
    str_eq r.package_id package_id
    && (str_eq r.route_id route_id
        && (str_eq r.to_safe_zone_id f.safe_zone_id
            && ((str_eq r.approval "SYNTHETIC_DEMO" || str_eq r.approval "AUTHORIZED_OPERATIONAL")
                && (not (is_null r.verified_by)
                    && (null_or_begun r.valid_from now
                        && (null_or_after r.valid_until now
                            && not (any (still_closed r.route_id) auth.route_closures)))))))

-- routeID != nil && *routeID != ""
abbrev pub has_route : Option String → Bool
has_route none = false
has_route (some route_id) = not (str_eq route_id "")

abbrev pub check_route :
    Authority → Bool → Facility → String → Option String → ℕ → BookingResult (Unit {0})
check_route auth synthetic f package_id none now = ok tt
check_route auth synthetic f package_id (some route_id) now =
    if str_eq route_id ""
    then ok tt
    else reject_if
        (not (synthetic && any (usable_route auth f package_id route_id now) auth.route_versions))
        route_unavailable

-- RoutePolicyRequired
abbrev pub route_policy_required : StayPolicy → BookingResult Bool
route_policy_required pol = elim pol.route_required [
  | none ↦ err no_stay_policy
  | some required ↦ ok required
]

abbrev pub decoded : Option StayPolicy → BookingResult StayPolicy
decoded none = err sql_error
decoded (some pol) = ok pol

abbrev pub or_mismatch : Option Facility → BookingResult Facility
or_mismatch none = err facility_package_mismatch
or_mismatch (some f) = ok f

-- RevalidateReservationContext; `synthetic` is the option WithAllowSynthetic.
unfoldable pub revalidate_reservation_context :
    Authority → Bool → String → String → Option String → ℕ → BookingResult (String × StayPolicy)
unfolding locked_package
revalidate_reservation_context auth synthetic facility_id package_id route_id now = do
  (p, a) ← locked_package auth package_id now
  reject_if (not synthetic && evidence_refused p.evidence_class a.evidence_class)
      reservation_context
  f ← or_mismatch (select (in_package facility_id package_id) auth.facilities)
  z ← or_context (select (zone_of f) auth.zone_versions)
  reject_if (not (zone_accepted (zone_status z))) reservation_context
  check_route auth synthetic f package_id route_id now
  pol ← decoded p.policy
  required ← route_policy_required pol
  reject_if (required && not (has_route route_id)) no_route
  ok (p.jurisdiction, pol)

-- The number of days from `start` to `stop`, which may be negative, is below `z`.
abbrev pub days_below : ℕ → ℕ → ℤ → Bool
days_below start stop z = ltb (stop + neg_part z) (start + pos_part z)

abbrev pub days_above : ℕ → ℕ → ℤ → Bool
days_above start stop z = ltb (start + pos_part z) (stop + neg_part z)

abbrev pub bounds : Option ℤ → Option ℤ → BookingResult (ℤ × ℤ)
bounds none hi = err no_stay_policy
bounds (some lo) none = err no_stay_policy
bounds (some lo) (some hi) = ok (lo, hi)

unfoldable pub check_stay_bounds : StayPolicy → ℕ → ℕ → BookingResult (Unit {0})
check_stay_bounds pol start stop =
    bounds pol.temporary_stay_min_days pol.temporary_stay_max_days >>= λ b.
    reject_if (days_below start stop b.0 || days_above start stop b.1) stay_out_of_policy

abbrev expiry_after : ℕ → Option ℤ → BookingResult ℕ
expiry_after now none = err no_stay_policy
expiry_after now (some z) =
    if pos_part z == 0 then err no_stay_policy else ok (now + pos_part z * 1000000000)

unfoldable pub hold_expiry : StayPolicy → ℕ → BookingResult ℕ
hold_expiry pol now = expiry_after now pol.reservation_expiry_seconds

abbrev current_version : Option Package → ℕ → BookingResult (Unit {0})
current_version none expected = err sql_error
current_version (some p) expected = reject_if (not (p.version == expected)) stale_snapshot

-- revalidateSnapshotVersion
unfoldable pub revalidate_snapshot_version : Authority → String → ℕ → BookingResult (Unit {0})
revalidate_snapshot_version auth package_id expected =
    reject_if (expected == 0) stale_snapshot
    >> current_version (select (has_package package_id) auth.packages) expected
