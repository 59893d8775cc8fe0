-- ===== src/Prelude/Sets.antt =====
-- Go's sets of strings, `map[string]struct{}` and the slices they are built from, as lists.
use sthira.Prelude.{String, Bool, true, false, ◌≡◌, List, [], ◌∷◌, arith, str_eq, eq_iff}

abbrev pub contains : List String → String → Bool
contains [] p = false
contains (x ∷ xs) p = let rest = contains xs p in elim (str_eq x p) [ true ↦ true | false ↦ rest ]

-- for p := range xs { if _, ok := ys[p]; !ok { return false } }
unfoldable pub all_in : List String → List String → Bool
all_in [] ys = true
all_in (x ∷ xs) ys = let rest = all_in xs ys in elim (contains ys x) [ true ↦ rest | false ↦ false ]

pub all_in-contains :
    (xs ys : List String) (p : String)
    → all_in xs ys ≡ true
    → contains xs p ≡ true
    → contains ys p ≡ true
unfolding all_in
all_in-contains [] ys p h c = cc
all_in-contains (x ∷ xs) ys p h c = ground (arith, eq_iff x p, all_in-contains xs ys p)
