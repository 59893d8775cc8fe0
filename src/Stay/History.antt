-- ===== src/Stay/History.antt =====
-- Histories of transactions on the stay tables of backend/internal/store/stay.go.
use sthira.Prelude.{ℕ, ◌+◌, ◌≤◌, ◌≡◌, refl, String, Option, List, [], ◌∷◌}
use sthira.Prelude.Result.{ok, err}
use sthira.Stay.Model.{Stay, Db, StayResult, AuditSink}
use sthira.Stay.Inventory.Laws.{held_at, occupied_at, capacity_at}
use sthira.Stay.Rows.{total}
use sthira.Stay.Ops.{reserve, arrive, cancel, expire, depart}
use sthira.Stay.Changes.{extend, transfer, correct, in_tx}
use sthira.Stay.Conserved.{Balanced, held_by, occupied_by}
use sthira.Stay.Conserved.Moves.{arrive-Balanced, cancel-Balanced, expire-Balanced, depart-Balanced}
use sthira.Stay.Conserved.Changes.{reserve-Balanced, extend-Balanced}
use sthira.Stay.Conserved.Transfer.{transfer-Balanced, correct-Balanced}

-- A request to the store, with its clock and its idempotency key.
pub data Request : Type 0 where
  reserves : Stay → ℕ → String → Request
  arrives cancels expires departs : String → ℕ → String → Request
  extends : String → ℕ → ℕ → String → Request
  transfers : String → String → String → String → Option String → Option ℕ → ℕ → String → Request
  corrects : String → ℕ → String → String → ℕ → String → Request

module _ (sink : Option AuditSink) where
  unfoldable pub perform : Db → Request → StayResult Db
  perform db (reserves stay now key) = reserve sink db stay now key
  perform db (arrives id now key) = arrive sink db id now key
  perform db (cancels id now key) = cancel sink db id now key
  perform db (expires id now key) = expire sink db id now key
  perform db (departs id now key) = depart sink db id now key
  perform db (extends id new_end now key) = extend sink db id new_end now key
  perform db (transfers id new_id reservation facility route expiry now key) =
      transfer sink db id new_id reservation facility route expiry now key
  perform db (corrects id n operator why now key) = correct sink db id n operator why now key

  -- Each request in a transaction of its own; a failed one is rolled back.
  unfoldable pub run : Db → List Request → Db
  run db [] = db
  run db (r ∷ rs) = run (in_tx db (perform db r)).0 rs

  pub perform-Balanced :
      (db : Db) (r : Request) (db' : Db) (f : String) (d : ℕ)
      → perform db r ≡ ok db'
      → Balanced db.inventory db.stays f d
      → Balanced db'.inventory db'.stays f d
  unfolding perform
  perform-Balanced db (reserves stay now key) db' f d h b =
      reserve-Balanced sink db now key db' f d b stay h
  perform-Balanced db (arrives id now key) db' f d h b =
      arrive-Balanced sink db id now key db' f d b h
  perform-Balanced db (cancels id now key) db' f d h b =
      cancel-Balanced sink db id now key db' f d b h
  perform-Balanced db (expires id now key) db' f d h b =
      expire-Balanced sink db id now key db' f d b h
  perform-Balanced db (departs id now key) db' f d h b =
      depart-Balanced sink db id now key db' f d b h
  perform-Balanced db (extends id new_end now key) db' f d h b =
      extend-Balanced sink db now key db' f d b id new_end h
  perform-Balanced db (transfers id new_id reservation facility route expiry now key) db' f d h b =
      transfer-Balanced sink db now key db' f d b id new_id reservation facility route expiry h
  perform-Balanced db (corrects id n operator why now key) db' f d h b =
      correct-Balanced sink db now key db' f d b id n operator why h

  pub in_tx-Balanced :
      (db : Db) (r : Request) (o : StayResult Db) (f : String) (d : ℕ)
      → perform db r ≡ o
      → Balanced db.inventory db.stays f d
      → Balanced (in_tx db o).0.inventory (in_tx db o).0.stays f d
  unfolding in_tx
  in_tx-Balanced db r (ok db') f d h b = perform-Balanced db r db' f d h b
  in_tx-Balanced db r (err e) f d h b = b

  pub run-Balanced :
      (db : Db) (rs : List Request) (f : String) (d : ℕ)
      → Balanced db.inventory db.stays f d
      → Balanced (run db rs).inventory (run db rs).stays f d
  unfolding run
  run-Balanced db [] f d b = b
  run-Balanced db (r ∷ rs) f d b =
      run-Balanced (in_tx db (perform db r)).0 rs f d
        (in_tx-Balanced db r (perform db r) f d refl b)

-- After any requests, failed ones included, with any audit sink: at every facility and date that was
-- in balance, the held column is the sum of the party sizes of the reserved stays that cover the
-- date, the occupied column that of the arrived ones, and together they do not pass the capacity.
pub capacity_conserved :
    (sink : Option AuditSink) (db : Db) (rs : List Request) (f : String) (d : ℕ)
    → Balanced db.inventory db.stays f d
    → (let db' = run sink db rs in
        (held_at db'.inventory f d ≡ total (held_by f d) db'.stays)
        × (occupied_at db'.inventory f d ≡ total (occupied_by f d) db'.stays)
        × (total (held_by f d) db'.stays + total (occupied_by f d) db'.stays
            ≤ capacity_at db'.inventory f d))
capacity_conserved sink db rs f d b =
    let a = run-Balanced sink db rs f d b in
    (a.held, a.occupied, rw (← a.held, ← a.occupied) a.fits)
