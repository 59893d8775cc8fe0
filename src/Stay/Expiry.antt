-- ===== src/Stay/Expiry.antt =====
-- backend/internal/store/expiry.go: one tick of the worker that expires due holds.
use sthira.Prelude.{
  ℕ, zero, suc, ◌+◌, ◌≤◌, ◌≡◌, refl, String, Bool, false, ◌&&◌, Option, none, some, List, [], ◌∷◌,
  arith, if◌then◌else◌, leb, length,
}
use sthira.Stay.Model.{Stay, Db, StayError, AuditSink}
use sthira.Stay.Ops.{is_reserved, expire}
use sthira.Stay.Changes.{in_tx}
use sthira.Stay.Conserved.{Balanced, held_by, occupied_by}
use sthira.Stay.History.{Request, expires, perform, run, capacity_conserved}
use sthira.Stay.Rows.{total}
use sthira.Stay.Inventory.Laws.{held_at, occupied_at, capacity_at}

-- expires_at IS NOT NULL AND expires_at <= $1
abbrev due_by : Option ℕ → ℕ → Bool
due_by none now = false
due_by (some t) now = leb t now

-- The stays that the query selects, before its ORDER BY.
unfoldable pub due_ids : List Stay → ℕ → List String
due_ids [] now = []
due_ids (s ∷ ss) now =
    let rest = due_ids ss now in
    if is_reserved s.state && due_by s.expires_at now then s.stay_id ∷ rest else rest

-- LIMIT $2
abbrev pub limit : ℕ → List String → List String
limit zero ids = []
limit (suc n) [] = []
limit (suc n) (id ∷ ids) = id ∷ limit n ids

abbrev pub counted : Db × Option StayError → ℕ → Db × ℕ
counted (db, none) n = (db, n + 1)
counted (db, some e) n = (db, n)

-- The loop of `Tick`: the tables left, and the number expired.
unfoldable pub expire_each : Option AuditSink → List String → Db → ℕ → ℕ → Db × ℕ
expire_each sink [] db now n = (db, n)
expire_each sink (id ∷ ids) db now n =
    let (db', n') = counted (in_tx db (expire sink db id now "")) n in
    expire_each sink ids db' now n'

-- `Tick`, where `order_by_id` is the order of the database on ids.
unfoldable pub tick : Option AuditSink → (List String → List String) → ℕ → Db → ℕ → Db × ℕ
unfolding due_ids expire_each
tick sink order_by_id batch_size db now =
    expire_each sink (limit batch_size (order_by_id (due_ids db.stays now))) db now 0

-- The requests of the loop.
abbrev expiries : List String → ℕ → List Request
expiries [] now = []
expiries (id ∷ ids) now = expires id now "" ∷ expiries ids now

counted-db : (r : Db × Option StayError) (n : ℕ) → (counted r n).0 ≡ r.0
counted-db (db, none) n = refl
counted-db (db, some e) n = refl

counted-le : (r : Db × Option StayError) (n : ℕ) → (counted r n).1 ≤ n + 1
counted-le (db, none) n = omega arith
counted-le (db, some e) n = omega arith

expire_each-run :
    (sink : Option AuditSink) (ids : List String) (db : Db) (now n : ℕ)
    → (expire_each sink ids db now n).0 ≡ run sink db (expiries ids now)
unfolding expire_each run perform
expire_each-run sink [] db now n = refl
expire_each-run sink (id ∷ ids) db now n =
    let r = in_tx db (expire sink db id now "") in
    rw (expire_each-run sink ids (counted r n).0 now (counted r n).1, counted-db r n) refl

expire_each-le :
    (sink : Option AuditSink) (ids : List String) (db : Db) (now n : ℕ)
    → (expire_each sink ids db now n).1 ≤ n + length ids
unfolding expire_each
expire_each-le sink [] db now n = omega arith
expire_each-le sink (id ∷ ids) db now n =
    let r = in_tx db (expire sink db id now "") in
    omega (arith, expire_each-le sink ids (counted r n).0 now (counted r n).1, counted-le r n)

limit-le : (n : ℕ) (ids : List String) → length (limit n ids) ≤ n
limit-le zero ids = omega arith
limit-le (suc n) [] = omega arith
limit-le (suc n) (id ∷ ids) = omega (arith, limit-le n ids)

-- A tick of the expiry worker expires at most its batch size, whatever order the database selects
-- by, and at every facility and date in balance the held and occupied columns are still the sums of
-- the party sizes of the reserved and of the arrived stays that cover the date, and fit the capacity.
pub tick_conserves :
    (sink : Option AuditSink) (order_by_id : List String → List String) (batch_size : ℕ) (db : Db)
    (now : ℕ) (f : String) (d : ℕ)
    → Balanced db.inventory db.stays f d
    → (let (db', n) = tick sink order_by_id batch_size db now in
        (n ≤ batch_size)
        × (held_at db'.inventory f d ≡ total (held_by f d) db'.stays)
        × (occupied_at db'.inventory f d ≡ total (occupied_by f d) db'.stays)
        × (total (held_by f d) db'.stays + total (occupied_by f d) db'.stays
            ≤ capacity_at db'.inventory f d))
unfolding tick
tick_conserves sink order_by_id batch_size db now f d b =
    let ids = limit batch_size (order_by_id (due_ids db.stays now)) in
    let (held, occupied, fits) = capacity_conserved sink db (expiries ids now) f d b in
    let same = expire_each-run sink ids db now 0 in
    (
      omega (
        arith,
        expire_each-le sink ids db now 0,
        limit-le batch_size (order_by_id (due_ids db.stays now)),
      ),
      rw same held,
      rw same occupied,
      rw same fits,
    )
