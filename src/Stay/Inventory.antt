-- ===== src/Stay/Inventory.antt =====
-- `dateRange`, `lockInventory` and `adjustInventory` of backend/internal/store/stay.go.
pub mod Laws
use sthira.Prelude.{
  ℕ, zero, suc, ◌+◌, ◌-◌, String, Bool, true, false, ◌&&◌, Option, none, some, List, [], ◌∷◌, ◌==◌,
  leb, str_eq, if◌then◌else◌,
}
use sthira.Prelude.Int.{ℤ, add}
use sthira.Prelude.Result.{Result, ok, err, ◌>>=◌, ◌>>◌}
use sthira.Stay.Model.{
  InventoryRow, Inventory, StayError, no_inventory, version_conflict, capacity_exhausted,
  StayResult,
}

-- The loop of `dateRange` with `n` rounds left.
unfoldable pub dates_from : ℕ → ℕ → List ℕ
dates_from d zero = []
dates_from d (suc n) = d ∷ dates_from (d + 1) n

-- The loop ends after as many rounds as there are days before `end`.
unfoldable pub date_range : ℕ → ℕ → List ℕ
unfolding dates_from
date_range start end = dates_from start (end - start)

abbrev pub exists : Option InventoryRow → Bool
exists none = false
exists (some r) = true

-- SELECT ... FOR UPDATE on each date's row: nothing changes, and a missing row is an error.
unfoldable pub lock_inventory : Inventory → String → List ℕ → StayResult (Unit {0})
lock_inventory inv f [] = ok tt
lock_inventory inv f (d ∷ ds) =
    let rest = lock_inventory inv f ds in if exists (inv f d) then rest else err (no_inventory f d)

-- The conditional UPDATE on the row that the key selects: `none` where the guard matches no row.
abbrev pub adjusted : Option InventoryRow → ℤ → ℤ → ℕ → Option InventoryRow
adjusted none held_delta occupied_delta now = none
adjusted (some r) held_delta occupied_delta now = elim (add r.held held_delta) [
  | none ↦ none
  | some h ↦ elim (add r.occupied occupied_delta) [
    | none ↦ none
    | some o ↦
        if leb (h + o) r.capacity
        then some (record r { held = h; occupied = o; version = r.version + 1; updated_at = now })
        else none
  ]
]

abbrev pub write : Inventory → String → ℕ → InventoryRow → Inventory
write inv f d r g e = if str_eq f g && (d == e) then some r else inv g e

abbrev pub written : Inventory → String → ℕ → Option InventoryRow → StayResult Inventory
written inv f d none = err version_conflict
written inv f d (some r) = ok (write inv f d r)

unfoldable pub adjust_inventory : Inventory → String → ℕ → ℤ → ℤ → ℕ → StayResult Inventory
adjust_inventory inv f d held_delta occupied_delta now =
    written inv f d (adjusted (inv f d) held_delta occupied_delta now)

-- for _, d := range dates { adjustInventory(...) }
unfoldable pub adjust_all : Inventory → String → List ℕ → ℤ → ℤ → ℕ → StayResult Inventory
unfolding adjust_inventory
adjust_all inv f [] hd od now = ok inv
adjust_all inv f (d ∷ ds) hd od now =
    adjust_inventory inv f d hd od now >>= λ inv'. adjust_all inv' f ds hd od now

-- if errors.Is(err, ErrVersionConflict) { return ErrCapacityExhausted }
abbrev pub as_exhausted {ℓ} : {A : Type ℓ} → Result StayError A → Result StayError A
as_exhausted (ok a) = ok a
as_exhausted (err version_conflict) = err capacity_exhausted
as_exhausted (err e) = err e
