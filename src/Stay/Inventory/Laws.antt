-- ===== src/Stay/Inventory/Laws.antt =====
-- What a loop of `adjustInventory` over a range of dates does to the inventory.
use sthira.Prelude.{
  ℕ, zero, suc, ◌+◌, ◌≤◌, ◌≡◌, refl, ap, sym, ◌∙◌, subst, String, Bool, true, false, ◌&&◌, Option,
  none, some, arith, eq_iff, ◌==◌, leb, ltb, str_eq, Bool-cases, inl, inr,
}
use sthira.Prelude.Int.{ℤ, pos, negsuc, pos_part, neg_part}
use sthira.Prelude.Result.{ok, >>=-eq-ok}
use sthira.Stay.Model.{InventoryRow, Inventory, StayResult}
use sthira.Stay.Inventory.{dates_from, adjust_inventory, adjust_all, adjusted, written, write}

abbrev pub held_of : Option InventoryRow → ℕ
held_of none = 0
held_of (some r) = r.held

abbrev pub occupied_of : Option InventoryRow → ℕ
occupied_of none = 0
occupied_of (some r) = r.occupied

abbrev pub capacity_of : Option InventoryRow → ℕ
capacity_of none = 0
capacity_of (some r) = r.capacity

-- What is held, occupied and provided at a facility on a date; nothing where there is no row.
abbrev pub held_at : Inventory → String → ℕ → ℕ
held_at inv f d = held_of (inv f d)

abbrev pub occupied_at : Inventory → String → ℕ → ℕ
occupied_at inv f d = occupied_of (inv f d)

abbrev pub capacity_at : Inventory → String → ℕ → ℕ
capacity_at inv f d = capacity_of (inv f d)

-- The inventory at one key before and after: both columns shifted by the deltas.
pub record Shifted (inv inv' : Inventory) (f : String) (d : ℕ) (hd od : ℤ) : Type 0 where
  pub held : held_at inv' f d + neg_part hd ≡ held_at inv f d + pos_part hd
  pub occupied : occupied_at inv' f d + neg_part od ≡ occupied_at inv f d + pos_part od
  pub capacity : capacity_at inv' f d ≡ capacity_at inv f d
  pub fits : held_at inv' f d + occupied_at inv' f d ≤ capacity_at inv' f d

-- One row before and after.
record RowShifted (o : Option InventoryRow) (r : InventoryRow) (hd od : ℤ) : Type 0 where
  held : r.held + neg_part hd ≡ held_of o + pos_part hd
  occupied : r.occupied + neg_part od ≡ occupied_of o + pos_part od
  capacity : r.capacity ≡ capacity_of o
  fits : r.held + r.occupied ≤ r.capacity

adjusted-RowShifted :
    (o : Option InventoryRow) (hd od : ℤ) (now : ℕ) (r : InventoryRow)
    → adjusted o hd od now ≡ some r
    → RowShifted o r hd od
adjusted-RowShifted none hd od now r h = cc
adjusted-RowShifted (some q) (pos a) (pos b) now r h = ground arith
adjusted-RowShifted (some q) (pos a) (negsuc b) now r h = ground arith
adjusted-RowShifted (some q) (negsuc a) (pos b) now r h = ground arith
adjusted-RowShifted (some q) (negsuc a) (negsuc b) now r h = ground arith

written-eq-ok :
    (inv : Inventory) (f : String) (d : ℕ) (o : Option InventoryRow) {inv' : Inventory}
    → written inv f d o ≡ ok inv'
    → (r : InventoryRow) × (o ≡ some r) × (write inv f d r ≡ inv')
written-eq-ok inv f d none h = cc
written-eq-ok inv f d (some r) h = (r, refl, cc)

-- `f` and the interval [s, t) cover the facility `g` on the date `e`.
abbrev pub covers : String → ℕ → ℕ → String → ℕ → Bool
covers f s t g e = str_eq f g && (leb s e && ltb e t)

Shifted-of_row :
    (inv inv' : Inventory) (g : String) (e : ℕ) (hd od : ℤ) (r : InventoryRow)
    → RowShifted (inv g e) r hd od
    → inv' g e ≡ some r
    → Shifted inv inv' g e hd od
Shifted-of_row inv inv' g e hd od r h p = record {
  held = rw p h.held;
  occupied = rw p h.occupied;
  capacity = rw p h.capacity;
  fits = rw p h.fits;
}

key_eq : (f g : String) (d e : ℕ) → (str_eq f g && (d == e)) ≡ true → (f ≡ g) × (d ≡ e)
key_eq f g d e h = ground (arith, eq_iff f g)

row_at : (inv : Inventory) (f g : String) (d e : ℕ) → f ≡ g → d ≡ e → inv f d ≡ inv g e
row_at inv f g d e p q = cc

-- The conditional update at every key.
adjust_at :
    (inv : Inventory) (f : String) (d : ℕ) (hd od : ℤ) (now : ℕ) {inv' : Inventory}
    → adjust_inventory inv f d hd od now ≡ ok inv'
    → (g : String) (e : ℕ)
    → (((str_eq f g && (d == e)) ≡ true) → Shifted inv inv' g e hd od)
      × (((str_eq f g && (d == e)) ≡ false) → inv' g e ≡ inv g e)
unfolding adjust_inventory
adjust_at inv f d hd od now {inv' = inv'} h g e =
    let (r, p, q) = written-eq-ok inv f d (adjusted (inv f d) hd od now) h in
    let same = ap (λ (i : Inventory). i g e) q in
    (
      λ t.
          let (fg, de) = key_eq f g d e t in
          Shifted-of_row inv inv' g e hd od r
            (subst (λ o. RowShifted o r hd od) (row_at inv f g d e fg de)
              (adjusted-RowShifted (inv f d) hd od now r p))
            (sym same ∙ rw t),
      λ t. sym same ∙ rw t,
    )

covers_head :
    (f g : String) (s n e : ℕ)
    → (str_eq f g && (s == e)) ≡ true
    → (covers f s (s + suc n) g e ≡ true) × (covers f (s + 1) (s + 1 + n) g e ≡ false)
covers_head f g s n e h = ground (arith, eq_iff f g)

covers_tail :
    (f g : String) (s n e : ℕ)
    → (str_eq f g && (s == e)) ≡ false
    → covers f s (s + suc n) g e ≡ covers f (s + 1) (s + 1 + n) g e
covers_tail f g s n e h = ground (arith, eq_iff f g)

covers_nothing : (f g : String) (s e : ℕ) → ¬ (covers f s (s + zero) g e ≡ true)
covers_nothing f g s e h = ground arith

true-false : (b : Bool) → b ≡ true → ¬ (b ≡ false)
true-false b p q = cc

ok_injective : (i j : Inventory) → ◌≡◌ {A = StayResult Inventory} (ok i) (ok j) → i ≡ j
ok_injective i j h = cc

module _ (inv inv1 inv' : Inventory) (g : String) (e : ℕ) (hd od : ℤ) where
  Shifted-after : Shifted inv inv1 g e hd od → inv' g e ≡ inv1 g e → Shifted inv inv' g e hd od
  Shifted-after h p = record {
    held = rw p h.held;
    occupied = rw p h.occupied;
    capacity = rw p h.capacity;
    fits = rw p h.fits;
  }

  Shifted-before : inv1 g e ≡ inv g e → Shifted inv1 inv' g e hd od → Shifted inv inv' g e hd od
  Shifted-before p h = record {
    held = rw (← p) h.held;
    occupied = rw (← p) h.occupied;
    capacity = rw (← p) h.capacity;
    fits = h.fits;
  }

-- The loop of conditional updates, over the `n` dates from `s`: each key that it covers is shifted
-- once, and no other key changes.
pub record Swept (inv inv' : Inventory) (f : String) (s t : ℕ) (hd od : ℤ) (g : String) (e : ℕ)
    : Type 0 where
  pub inside : covers f s t g e ≡ true → Shifted inv inv' g e hd od
  pub outside : covers f s t g e ≡ false → inv' g e ≡ inv g e

pub adjust_all-Swept :
    (inv : Inventory) (f : String) (s n : ℕ) (hd od : ℤ) (now : ℕ) {inv' : Inventory}
    → adjust_all inv f (dates_from s n) hd od now ≡ ok inv'
    → (g : String) (e : ℕ) → Swept inv inv' f s (s + n) hd od g e
unfolding adjust_all dates_from
adjust_all-Swept inv f s zero hd od now {inv' = inv'} h g e = record {
  inside = λ c. absurd (covers_nothing f g s e c);
  outside = λ _. ap (λ (i : Inventory). i g e) (ok_injective inv' inv (sym h));
}
adjust_all-Swept inv f s (suc n) hd od now {inv' = inv'} h g e =
    let (inv1, p, q) = >>=-eq-ok (adjust_inventory inv f s hd od now) _ h in
    let (hit, miss) = adjust_at inv f s hd od now p g e in
    let rest = adjust_all-Swept inv1 f (s + 1) n hd od now q g e in
    elim (Bool-cases (str_eq f g && (s == e))) [
      | inl here ↦
          let (now_in, later_out) = covers_head f g s n e here in
          record {
            inside = λ _. Shifted-after inv inv1 inv' g e hd od (hit here) (rest.outside later_out);
            outside = λ c. absurd (true-false _ now_in c);
          }
      | inr there ↦
          let same = covers_tail f g s n e there in
          record {
            inside = λ c.
                Shifted-before inv inv1 inv' g e hd od (miss there) (rest.inside (sym same ∙ c));
            outside = λ c. rest.outside (sym same ∙ c) ∙ miss there;
          }
    ]
