-- ===== src/Booking/Commitments.antt =====
-- What the revalidation in backend/internal/store/stay.go has checked for a reservation that
-- backend/internal/httpserver/stay_handlers.go answers as created.
use sthira.Prelude.{ℕ, ◌+◌, ◌≤◌, ◌≡◌, false, ◌||◌, Option, none, some, arith}
use sthira.Prelude.Int.{ℤ, pos_part, neg_part}
use sthira.Prelude.Result.{ok, >>=-eq-ok, reject_if-eq-ok}
use sthira.Booking.Keys.{stay_out_of_policy}
use sthira.Booking.Authority.{has_route, check_stay_bounds, bounds, days_below, days_above}
use sthira.Booking.Tables.{Authority, StayPolicy}
use sthira.Booking.Handlers.{or_null}
use sthira.Booking.Requests.{CreateRequest, Library}
use sthira.Booking.Fit.{Fit}

-- The stay is within the bounds of the policy, in whole days.
pub record Within (pol : StayPolicy) (start stop : ℕ) : Type 0 where
  pub least : ℤ
  pub most : ℤ
  pub least_set : pol.temporary_stay_min_days ≡ some least
  pub most_set : pol.temporary_stay_max_days ≡ some most
  pub not_shorter : start + pos_part least ≤ stop + neg_part least
  pub not_longer : stop + neg_part most ≤ start + pos_part most

bounds-eq-ok :
    (a b : Option ℤ) (lo hi : ℤ) → bounds a b ≡ ok (lo, hi) → (a ≡ some lo) × (b ≡ some hi)
bounds-eq-ok none b lo hi h = cc
bounds-eq-ok (some x) none lo hi h = cc
bounds-eq-ok (some x) (some y) lo hi h = (cc, cc)

pub check_stay_bounds-Within :
    (pol : StayPolicy) (start stop : ℕ)
    → check_stay_bounds pol start stop ≡ ok tt
    → Within pol start stop
unfolding check_stay_bounds
check_stay_bounds-Within pol start stop h =
    let ((lo, hi), set, h1) =
      >>=-eq-ok (bounds pol.temporary_stay_min_days pol.temporary_stay_max_days) _ h in
    let (lo_set, hi_set) = bounds-eq-ok _ _ lo hi set in
    let r =
      reject_if-eq-ok (days_below start stop lo || days_above start stop hi) stay_out_of_policy
        h1 in
    record {
      least = lo;
      most = hi;
      least_set = lo_set;
      most_set = hi_set;
      not_shorter = ground arith;
      not_longer = ground arith;
    }

-- What holds of a created reservation.
pub record Commitment (lib : Library) (auth : Authority) (req : CreateRequest) (now : ℕ)
    : Type 0 where
  pub policy : StayPolicy
  pub fit : Fit auth req.facility_id req.package_id now policy
  pub start : ℕ
  pub stop : ℕ
  pub starts : lib.parse_date req.start_date ≡ some start
  pub stops : lib.parse_date req.end_date ≡ some stop
  pub within : Within policy start stop
  pub version : fit.pkg.version ≡ req.snapshot_version
  pub evidence : fit.pkg.evidence_class ≡ "AUTHORIZED_OPERATIONAL"
  pub no_route : has_route (or_null req.route_id) ≡ false
