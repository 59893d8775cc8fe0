-- ===== src/Publication/Ranked.antt =====
-- The order of the query of GetPublishedManifest, and the first row in it.
use sthira.Prelude.{
  ◌≡◌, refl, ℕ, Bool, true, false, Option, none, some, List, [], ◌∷◌, All, inl, inr, Bool-cases,
  if◌then◌else◌, arith,
}
use sthira.Booking.Authority.{select}
use sthira.Publication.{ManifestRow}
use sthira.Publication.Rows.{select-All}
use sthira.Publication.Manifests.{is_current, key_before, ranks_before, first_ranked}

-- No row that the condition selects comes before `x`.
abbrev pub NoneBefore : (ManifestRow → Bool) → ManifestRow → List ManifestRow → Type 0
NoneBefore p x rows = All (λ y. p y ≡ true → ranks_before y x ≡ false) rows

key_before_asym : (a b : Bool) (m n : ℕ) → key_before a m b n ≡ true → key_before b n a m ≡ false
key_before_asym true true m n h = ground arith
key_before_asym true false m n h = refl
key_before_asym false true m n h = cc
key_before_asym false false m n h = ground arith

key_before_irrefl : (a : Bool) (m : ℕ) → key_before a m a m ≡ false
key_before_irrefl true m = ground arith
key_before_irrefl false m = ground arith

-- What does not come before `b` does not come before what `b` does not come before.
key_before_trans :
    (a b c : Bool) (m n k : ℕ)
    → key_before a m b n ≡ false
    → key_before b n c k ≡ false
    → key_before a m c k ≡ false
key_before_trans true true true m n k h g = ground arith
key_before_trans true true false m n k h g = cc
key_before_trans true false c m n k h g = cc
key_before_trans false b true m n k h g = refl
key_before_trans false true false m n k h g = cc
key_before_trans false false false m n k h g = ground arith

module _ (p : ManifestRow → Bool) where
  NoneBefore-trans :
      (x y : ManifestRow) (rows : List ManifestRow)
      → ranks_before y x ≡ false
      → NoneBefore p y rows
      → NoneBefore p x rows
  NoneBefore-trans x y [] h all = tt
  NoneBefore-trans x y (z ∷ rows) h (first, all) = (
    λ t.
        key_before_trans (is_current z) (is_current y) (is_current x) z.revision y.revision
          x.revision (first t) h,
    NoneBefore-trans x y rows h all,
  )

  -- The first of the rows, or no row where the condition selects none.
  abbrev pub FirstOf : Option ManifestRow → List ManifestRow → Type 0
  FirstOf none rows = All (λ y. p y ≡ false) rows
  FirstOf (some x) rows = (p x ≡ true) × NoneBefore p x rows

  -- A row ahead of the first of the others.
  better-FirstOf :
      (x y : ManifestRow) (rows : List ManifestRow) (b : Bool)
      → ranks_before y x ≡ b
      → p x ≡ true
      → FirstOf (some y) rows
      → FirstOf (some (if b then y else x)) (x ∷ rows)
  better-FirstOf x y rows true h e (py, all) =
      (py, ((λ t. key_before_asym (is_current y) (is_current x) y.revision x.revision h), all))
  better-FirstOf x y rows false h e (py, all) =
      (e, ((λ t. key_before_irrefl (is_current x) x.revision), NoneBefore-trans x y rows h all))

  All-false :
      (rows : List ManifestRow) (x : ManifestRow)
      → All (λ y. p y ≡ false) rows
      → NoneBefore p x rows
  All-false [] x all = tt
  All-false (y ∷ rows) x (e, all) = (λ t. cc, All-false rows x all)

  ahead :
      (x : ManifestRow) (o : Option ManifestRow) (rows : List ManifestRow)
      → p x ≡ true
      → FirstOf o rows
      → FirstOf
          (elim o [ none ↦ some x | some y ↦ some (if ranks_before y x then y else x) ])
          (x ∷ rows)
  ahead x none rows e all =
      (e, ((λ t. key_before_irrefl (is_current x) x.revision), All-false rows x all))
  ahead x (some y) rows e first = better-FirstOf x y rows (ranks_before y x) refl e first

  behind :
      (x : ManifestRow) (o : Option ManifestRow) (rows : List ManifestRow)
      → p x ≡ false
      → FirstOf o rows
      → FirstOf o (x ∷ rows)
  behind x none rows e all = (e, all)
  behind x (some y) rows e (py, all) = (py, ((λ t. cc), all))

  pub first_ranked-FirstOf : (rows : List ManifestRow) → FirstOf (first_ranked p rows) rows
  unfolding first_ranked
  first_ranked-FirstOf [] = tt
  first_ranked-FirstOf (x ∷ rows) = elim (Bool-cases (p x)) [
    | inl e ↦ rw e (ahead x (first_ranked p rows) rows e (first_ranked-FirstOf rows))
    | inr e ↦ rw e (behind x (first_ranked p rows) rows e (first_ranked-FirstOf rows))
  ]

  -- A row that the condition selects is not ahead of the first.
  pub not_before_first :
      (o : Option ManifestRow) (q : ManifestRow → Bool) (rows : List ManifestRow) (y : ManifestRow)
      → FirstOf o rows
      → select q rows ≡ some y
      → p y ≡ true
      → (x : ManifestRow) × (o ≡ some x) × (p x ≡ true) × (ranks_before y x ≡ false)
  not_before_first none q rows y all found e =
      let f = (select-All (λ z. p z ≡ false) q rows y found all).0 in cc
  not_before_first (some x) q rows y (px, all) found e = (
    x,
    refl,
    px,
    (select-All (λ z. p z ≡ true → ranks_before z x ≡ false) q rows y found all).0 e,
  )

  -- What holds of every row holds of the first.
  abbrev pub OnSome : (ManifestRow → Type 0) → Option ManifestRow → Type 0
  OnSome P none = Unit
  OnSome P (some x) = P x

  ahead-OnSome :
      (P : ManifestRow → Type 0) (x : ManifestRow) (o : Option ManifestRow)
      → P x
      → OnSome P o
      → OnSome P (elim o [ none ↦ some x | some y ↦ some (if ranks_before y x then y else x) ])
  ahead-OnSome P x none px po = px
  ahead-OnSome P x (some y) px po = one_of (ranks_before y x)
    where
      one_of : (b : Bool) → P (if b then y else x)
      one_of true = po
      one_of false = px

  pub first_ranked-OnSome :
      (P : ManifestRow → Type 0) (rows : List ManifestRow)
      → All P rows
      → OnSome P (first_ranked p rows)
  unfolding first_ranked
  first_ranked-OnSome P [] all = tt
  first_ranked-OnSome P (x ∷ rows) (px, all) = elim (Bool-cases (p x)) [
    | inl e ↦ rw e (ahead-OnSome P x (first_ranked p rows) px (first_ranked-OnSome P rows all))
    | inr e ↦ rw e (first_ranked-OnSome P rows all)
  ]
