-- ===== src/Stay/Rows.antt =====
-- The statements of backend/internal/store/stay.go on the table `stays`. Its primary key is
-- `stay_id`, so a statement that selects by it concerns the one row that has it.
use sthira.Prelude.{
  ℕ, ◌+◌, ◌≤◌, ◌<◌, ◌≡◌, refl, sym, ap, ◌∙◌, eq_iff, String, Bool, true, false, Option, none, some,
  List, [], ◌∷◌, arith, ◌==◌, leb, ltb, str_eq, if◌then◌else◌, Bool-cases, inl, inr, subst, All,
}
use sthira.Prelude.Result.{ok, err}
use sthira.Stay.Model.{Stay, StayResult, stay_not_found, version_conflict, constraint_violation}

-- SELECT ... FROM stays WHERE stay_id = $1 FOR UPDATE
unfoldable pub find_stay : String → List Stay → Option Stay
find_stay id [] = none
find_stay id (s ∷ ss) = if str_eq s.stay_id id then some s else find_stay id ss

unfoldable pub get_stay_for_update : List Stay → String → StayResult Stay
get_stay_for_update stays id = elim (find_stay id stays) [
  | none ↦ err stay_not_found
  | some s ↦ ok s
]

abbrev prepend : Stay → Option (List Stay) → Option (List Stay)
prepend s none = none
prepend s (some ss) = some (s ∷ ss)

-- UPDATE stays SET ... WHERE stay_id = $1 AND version = $2: `none` where no row is affected.
unfoldable pub update_stay : String → ℕ → (Stay → Stay) → List Stay → Option (List Stay)
update_stay id version set [] = none
update_stay id version set (s ∷ ss) =
    let rest = update_stay id version set ss in
    if str_eq s.stay_id id
    then (if s.version == version then some (set s ∷ ss) else none)
    else prepend s rest

-- execConditional on such an update
unfoldable pub exec_conditional : List Stay → String → ℕ → (Stay → Stay) → StayResult (List Stay)
exec_conditional stays id version set = elim (update_stay id version set stays) [
  | none ↦ err version_conflict
  | some ss ↦ ok ss
]

abbrev is_some : Option Stay → Bool
is_some none = false
is_some (some s) = true

-- INSERT INTO stays: the primary key and the CHECK constraints of migrations/0002_p4_stays.sql.
unfoldable pub insert_stay : List Stay → Stay → StayResult (List Stay)
insert_stay stays s =
    if is_some (find_stay s.stay_id stays)
    then err constraint_violation
    else if ltb s.party_size 1
    then err constraint_violation
    else if leb s.end_date s.start_date
    then err constraint_violation
    else ok (s ∷ stays)

-- The sum of a weight over the table.
unfoldable pub total : (Stay → ℕ) → List Stay → ℕ
total w [] = 0
total w (s ∷ ss) = w s + total w ss

find_here :
    (id : String) (r : Stay) (rs : List Stay) (s : Stay)
    → str_eq r.stay_id id ≡ true
    → find_stay id (r ∷ rs) ≡ some s
    → r ≡ s
unfolding find_stay
find_here id r rs s e h = let p : some r ≡ some s = rw e at h in cc

find_later :
    (id : String) (r : Stay) (rs : List Stay) (s : Stay)
    → str_eq r.stay_id id ≡ false
    → find_stay id (r ∷ rs) ≡ some s
    → find_stay id rs ≡ some s
unfolding find_stay
find_later id r rs s e h = rw e at h

update_here :
    (w : Stay → ℕ) (id : String) (set : Stay → Stay) (r : Stay) (rs : List Stay)
    → str_eq r.stay_id id ≡ true
    → (ss : List Stay) × (update_stay id r.version set (r ∷ rs) ≡ some ss)
      × (total w ss + w r ≡ total w (r ∷ rs) + w (set r))
unfolding update_stay total
update_here w id set r rs e = (set r ∷ rs, ground arith, omega arith)

-- The update of a row that was read at its own version affects that row: every total changes by
-- what the row's weight changes.
pub total-update_stay :
    (w : Stay → ℕ) (id : String) (set : Stay → Stay) (stays : List Stay) (s : Stay)
    → find_stay id stays ≡ some s
    → (ss : List Stay) × (update_stay id s.version set stays ≡ some ss)
      × (total w ss + w s ≡ total w stays + w (set s))
unfolding find_stay update_stay total
total-update_stay w id set [] s h = cc
total-update_stay w id set (r ∷ rs) s h = elim (Bool-cases (str_eq r.stay_id id)) [
  | inl e ↦
      subst
        (λ x.
          (ss : List Stay) × (update_stay id x.version set (r ∷ rs) ≡ some ss)
          × (total w ss + w x ≡ total w (r ∷ rs) + w (set x)))
        (find_here id r rs s e h) (update_here w id set r rs e)
  | inr e ↦
      let (ss, p, q) = total-update_stay w id set rs s (find_later id r rs s e h) in
      (r ∷ ss, rw (e, p), omega (arith, q))
]

is_some-none : (o : Option Stay) → is_some o ≡ false → o ≡ none
is_some-none none h = refl
is_some-none (some s) h = cc

-- An accepted INSERT had a new key and a row that passes the CHECK constraints.
pub record Inserted (stays : List Stay) (s : Stay) (stays' : List Stay) : Type 0 where
  pub rows : stays' ≡ s ∷ stays
  pub fresh : find_stay s.stay_id stays ≡ none
  pub party : 1 ≤ s.party_size
  pub interval : s.start_date < s.end_date

pub insert_stay-Inserted :
    (stays : List Stay) (s : Stay) (stays' : List Stay)
    → insert_stay stays s ≡ ok stays'
    → Inserted stays s stays'
unfolding insert_stay
insert_stay-Inserted stays s stays' h = record {
  rows = ground arith;
  fresh = is_some-none (find_stay s.stay_id stays) (ground arith);
  party = ground arith;
  interval = ground arith;
}

-- A row with a new key does not hide one that is there.
pub find_stay-insert :
    (id : String) (row : Stay) (stays : List Stay) (s : Stay)
    → find_stay row.stay_id stays ≡ none
    → find_stay id stays ≡ some s
    → find_stay id (row ∷ stays) ≡ some s
unfolding find_stay
find_stay-insert id row stays s fresh found = elim (Bool-cases (str_eq row.stay_id id)) [
  | inl e ↦
      let same : row.stay_id ≡ id = (eq_iff row.stay_id id).0 e in
      absurd (none_some (sym fresh ∙ ap (λ k. find_stay k stays) same ∙ found))
  | inr e ↦ rw e found
]
  where
    none_some : none ≡ some s → ⊥
    none_some p = cc

-- What every row satisfies, the row that is found satisfies.
pub find_stay-All :
    (P : Stay → Type 0) (id : String) (stays : List Stay) (s : Stay)
    → All P stays
    → find_stay id stays ≡ some s
    → P s
unfolding find_stay
find_stay-All P id [] s a h = cc
find_stay-All P id (r ∷ rs) s a h = elim (Bool-cases (str_eq r.stay_id id)) [
  | inl e ↦ subst P (find_here id r rs s e h) a.0
  | inr e ↦ find_stay-All P id rs s a.1 (find_later id r rs s e h)
]

updated_head :
    (id : String) (version : ℕ) (set : Stay → Stay) (r : Stay) (rs ss : List Stay)
    → str_eq r.stay_id id ≡ true
    → update_stay id version set (r ∷ rs) ≡ some ss
    → set r ∷ rs ≡ ss
unfolding update_stay
updated_head id version set r rs ss e h = ground arith

prepend-eq-some :
    (r : Stay) (o : Option (List Stay)) (ss : List Stay)
    → prepend r o ≡ some ss
    → (tail : List Stay) × (o ≡ some tail) × (r ∷ tail ≡ ss)
prepend-eq-some r none ss h = cc
prepend-eq-some r (some tail) ss h = (tail, refl, cc)

updated_tail :
    (id : String) (version : ℕ) (set : Stay → Stay) (r : Stay) (rs ss : List Stay)
    → str_eq r.stay_id id ≡ false
    → update_stay id version set (r ∷ rs) ≡ some ss
    → (tail : List Stay) × (update_stay id version set rs ≡ some tail) × (r ∷ tail ≡ ss)
unfolding update_stay
updated_tail id version set r rs ss e h =
    prepend-eq-some r (update_stay id version set rs) ss (rw e at h)

-- It is kept by the update of a row, if the new row satisfies it.
pub update_stay-All :
    (P : Stay → Type 0) (id : String) (version : ℕ) (set : Stay → Stay) (stays : List Stay)
    (s : Stay) (ss : List Stay)
    → find_stay id stays ≡ some s
    → update_stay id version set stays ≡ some ss
    → P (set s)
    → All P stays
    → All P ss
unfolding update_stay
update_stay-All P id version set [] s ss found h p a = cc
update_stay-All P id version set (r ∷ rs) s ss found h p a =
    elim (Bool-cases (str_eq r.stay_id id)) [
      | inl e ↦
          let same = find_here id r rs s e found in
          let q : set r ∷ rs ≡ ss = updated_head id version set r rs ss e h in
          subst (All P) q (subst (λ x. P (set x)) (sym same) p, a.1)
      | inr e ↦
          let (tail, q, u) = updated_tail id version set r rs ss e h in
          let later = find_later id r rs s e found in
          subst (All P) u (a.0, update_stay-All P id version set rs s tail later q p a.1)
    ]
