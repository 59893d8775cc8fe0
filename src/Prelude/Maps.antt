-- ===== src/Prelude/Maps.antt =====
-- Go's maps with string keys, as association lists.
use Prim.Native.String.{String}
use mathlib.Core.Path.{◌≡◌, refl}
use mathlib.Core.List.{List, [], ◌∷◌}
use mathlib.Core.Option.{Option, none, some}
use native.Mathlib.Omega.{arith}
use text.Mathlib.TextEquality.{eq_iff}
use mathlib.Core.Logic.{inl, inr}
use Prim.Native.Nat.{ℕ, ◌+◌, ◌≤◌}
use sthira.Prelude.Tests.{str_eq, if◌then◌else◌, Bool-cases}

abbrev pub Map {ℓ} : Type ℓ → Type ℓ
Map V = List (String × V)

module _ {ℓ} {V : Type ℓ} where
  -- m[k], with the second result of Go's comma-ok form.
  unfoldable pub lookup : String → Map V → Option V
  lookup k [] = none
  lookup k ((j, v) ∷ m) = if str_eq j k then some v else lookup k m

  -- m[k] = v
  unfoldable pub insert : String → V → Map V → Map V
  insert k v [] = (k, v) ∷ []
  insert k v ((j, w) ∷ m) = if str_eq j k then (k, v) ∷ m else (j, w) ∷ insert k v m

  -- delete(m, k)
  unfoldable pub remove : String → Map V → Map V
  remove k [] = []
  remove k ((j, w) ∷ m) = let rest = remove k m in if str_eq j k then rest else (j, w) ∷ rest

  pub lookup-insert :
      (at key : String) (new : V) (entries : Map V)
      → lookup key (insert at new entries)
        ≡ (if str_eq at key then some new else lookup key entries)
  unfolding insert lookup
  lookup-insert at key new [] = refl
  lookup-insert at key new ((head, old) ∷ tail) =
      ground (arith, lookup-insert at key new tail, eq_iff head at, eq_iff head key, eq_iff at key)

  pub lookup-remove :
      (k j : String) (m : Map V) → lookup j (remove k m) ≡ (if str_eq k j then none else lookup j m)
  unfolding lookup remove
  lookup-remove k j [] = ground arith
  lookup-remove k j ((i, w) ∷ m) =
      ground (arith, eq_iff k j, eq_iff i k, eq_iff i j, lookup-remove k j m)

module _ {ℓ} {V : Type ℓ} where
  -- The values, for Go's `range` over a map.
  abbrev pub values : Map V → List V
  values [] = []
  values ((k, v) ∷ m) = v ∷ values m

  -- The sum of a weight over a list.
  unfoldable pub sum : (V → ℕ) → List V → ℕ
  sum w [] = 0
  sum w (x ∷ xs) = w x + sum w xs

  abbrev pub weight_of : (V → ℕ) → Option V → ℕ
  weight_of w none = 0
  weight_of w (some v) = w v

  -- A write replaces the weight of what stood under the key.
  pub sum-insert :
      (w : V → ℕ) (k : String) (v : V) (m : Map V)
      → sum w (values (insert k v m)) + weight_of w (lookup k m) ≡ sum w (values m) + w v
  unfolding sum insert lookup
  sum-insert w k v [] = omega arith
  sum-insert w k v ((j, x) ∷ m) = elim (Bool-cases (str_eq j k)) [
    | inl e ↦ rw e (omega arith)
    | inr e ↦ rw e (omega (arith, sum-insert w k v m))
  ]

  pub sum-remove :
      (w : V → ℕ) (k : String) (m : Map V) → sum w (values (remove k m)) ≤ sum w (values m)
  unfolding sum remove
  sum-remove w k [] = omega arith
  sum-remove w k ((j, x) ∷ m) = elim (Bool-cases (str_eq j k)) [
    | inl e ↦ rw e (omega (arith, sum-remove w k m))
    | inr e ↦ rw e (omega (arith, sum-remove w k m))
  ]

  pub le-sum : (w : V → ℕ) (k : String) (m : Map V) → weight_of w (lookup k m) ≤ sum w (values m)
  unfolding sum lookup
  le-sum w k [] = omega arith
  le-sum w k ((j, x) ∷ m) = elim (Bool-cases (str_eq j k)) [
    | inl e ↦ rw e (omega arith)
    | inr e ↦ rw e (omega (arith, le-sum w k m))
  ]

pub lookup-empty {ℓ} : {V : Type ℓ} (k : String) → lookup {V = V} k [] ≡ none
unfolding lookup
lookup-empty k = refl

pub ruleset map_laws = (lookup-insert, lookup-remove, lookup-empty)
