-- ===== src/Stay/Conserved.antt =====
-- The capacity accounts of backend/internal/store/stay.go at one facility and date, and the rule by
-- which an operation keeps them.
pub mod Steps
pub mod Moves
pub mod Changes
pub mod Transfer
use sthira.Prelude.{
  ℕ, zero, ◌+◌, ◌-◌, ◌≤◌, ◌<◌, ◌≡◌, String, Bool, true, false, ◌&&◌, List, [], ◌∷◌, arith, inl, inr,
  Bool-cases, if◌then◌else◌, All,
}
use sthira.Prelude.Int.{ℤ, pos_part, neg_part}
use sthira.Stay.Model.{Stay, Inventory, Db}
use sthira.Stay.Inventory.Laws.{held_at, occupied_at, capacity_at, covers, Swept}
use sthira.Stay.Rows.{total}
use sthira.Stay.Ops.{is_reserved, is_arrived}

-- What a stay holds, or occupies, at the facility `f` on the date `d`.
abbrev pub held_by : String → ℕ → Stay → ℕ
held_by f d s =
    if is_reserved s.state && covers s.facility_id s.start_date s.end_date f d
    then s.party_size
    else 0

abbrev pub occupied_by : String → ℕ → Stay → ℕ
occupied_by f d s =
    if is_arrived s.state && covers s.facility_id s.start_date s.end_date f d
    then s.party_size
    else 0

-- The CHECK constraints of `stays`.
pub record IsRow (s : Stay) : Type 0 where
  pub party : 1 ≤ s.party_size
  pub interval : s.start_date < s.end_date

-- The rows satisfy their constraints, and the inventory's columns are the sums over the stays and
-- fit in the capacity.
pub record Balanced (inv : Inventory) (stays : List Stay) (f : String) (d : ℕ) : Type 0 where
  pub rows : All IsRow stays
  pub held : held_at inv f d ≡ total (held_by f d) stays
  pub occupied : occupied_at inv f d ≡ total (occupied_by f d) stays
  pub fits : held_at inv f d + occupied_at inv f d ≤ capacity_at inv f d

-- The change of one row matches the deltas on the swept keys, and is none elsewhere.
pub record Matches (hd od : ℤ) (old new : Stay) (g : String) (s t : ℕ) (f : String) (d : ℕ)
    : Type 0 where
  pub row : IsRow old → IsRow new
  pub held_inside :
      covers g s t f d ≡ true → held_by f d new + neg_part hd ≡ held_by f d old + pos_part hd
  pub occupied_inside :
      covers g s t f d ≡ true
      → occupied_by f d new + neg_part od ≡ occupied_by f d old + pos_part od
  pub held_outside : covers g s t f d ≡ false → held_by f d new ≡ held_by f d old
  pub occupied_outside : covers g s t f d ≡ false → occupied_by f d new ≡ occupied_by f d old

module _ (inv inv' : Inventory) (stays stays' : List Stay) (g : String) (s t : ℕ) (hd od : ℤ)
    (old new : Stay) (f : String) (d : ℕ) (swept : Swept inv inv' g s t hd od f d)
    (rows' : All IsRow stays')
    (held_total : total (held_by f d) stays' + held_by f d old
      ≡ total (held_by f d) stays + held_by f d new)
    (occupied_total : total (occupied_by f d) stays' + occupied_by f d old
      ≡ total (occupied_by f d) stays + occupied_by f d new)
    (matches : Matches hd od old new g s t f d) where
  -- One sweep of the inventory with one matching row change keeps the accounts.
  pub Balanced-sweep : Balanced inv stays f d → Balanced inv' stays' f d
  Balanced-sweep b = elim (Bool-cases (covers g s t f d)) [
    | inl c ↦
        let h = swept.inside c in
        let p = matches.held_inside c in
        let q = matches.occupied_inside c in
        record {
          rows = rows';
          held = omega (arith, h.held, p, held_total, b.held);
          occupied = omega (arith, h.occupied, q, occupied_total, b.occupied);
          fits = h.fits;
        }
    | inr c ↦
        let e = swept.outside c in
        let p = matches.held_outside c in
        let q = matches.occupied_outside c in
        record {
          rows = rows';
          held = rw e (omega (arith, p, held_total, b.held));
          occupied = rw e (omega (arith, q, occupied_total, b.occupied));
          fits = rw e b.fits;
        }
  ]

pub covers_until :
    (g : String) (s t : ℕ) (f : String) (d : ℕ) → covers g s (s + (t - s)) f d ≡ covers g s t f d
covers_until g s t f d = ground arith
