-- ===== src/Publication/Rows.antt =====
-- UPDATE statements on a table of rows, and what they leave.
use mathlib.Core.List.{Memᴰ}
use sthira.Prelude.{
  ◌≡◌, refl, sym, ◌∙◌, subst, ap, Bool, true, false, Option, none, some, List, [], ◌∷◌, ◌++◌, map,
  inl, inr, any, if◌then◌else◌, Bool-cases, All,
}
use sthira.Prelude.Result.{Result, ok, err}
use sthira.Booking.Authority.{select}
use sthira.Publication.{PublishError, not_found}

module _ {ℓ} {A : Type ℓ} where
  -- UPDATE ... SET f WHERE p
  unfoldable pub update : (A → Bool) → (A → A) → List A → List A
  update p f [] = []
  update p f (x ∷ xs) = (if p x then f x else x) ∷ update p f xs

  -- The same, where no row affected is ErrNotFound.
  unfoldable pub update_found : (A → Bool) → (A → A) → List A → Result PublishError (List A)
  unfolding update
  update_found p f rows = if any p rows then ok (update p f rows) else err not_found

  pub if_else {κ} :
      {B : Type κ} (b : Bool) (c : A → B) (x y : A) → c x ≡ c y → c (if b then x else y) ≡ c y
  if_else true c x y h = h
  if_else false c x y h = refl

  -- A write that leaves a column leaves it in every row.
  pub map-update {κ} :
      {B : Type κ} (c : A → B) (p : A → Bool) (f : A → A) (rows : List A)
      → ((x : A) → c (f x) ≡ c x)
      → map c (update p f rows) ≡ map c rows
  unfolding update
  map-update c p f [] same = refl
  map-update c p f (x ∷ xs) same =
      rw (if_else (p x) c (f x) x (same x), map-update c p f xs same) refl

  pub All-update {κ} :
      (P : A → Type κ) (p : A → Bool) (f : A → A) (rows : List A)
      → ((x : A) → P x → P (f x))
      → All P rows
      → All P (update p f rows)
  unfolding update
  All-update P p f [] keeps all = tt
  All-update P p f (x ∷ xs) keeps (px, rest) = elim (Bool-cases (p x)) [
    | inl e ↦ rw e (keeps x px, All-update P p f xs keeps rest)
    | inr e ↦ rw e (px, All-update P p f xs keeps rest)
  ]

  pub All-append {κ} : (P : A → Type κ) (xs ys : List A) → All P xs → All P ys → All P (xs ++ ys)
  All-append P [] ys px py = py
  All-append P (x ∷ xs) ys (h, px) py = (h, All-append P xs ys px py)

  pub map-append {κ} :
      {B : Type κ} (c : A → B) (xs ys : List A) → map c (xs ++ ys) ≡ map c xs ++ map c ys
  map-append c [] ys = refl
  map-append c (x ∷ xs) ys = ap (λ l. c x ∷ l) (map-append c xs ys)

  -- The row that a condition selects.
  pub select-All {κ} :
      (P : A → Type κ) (p : A → Bool) (rows : List A) (x : A)
      → select p rows ≡ some x
      → All P rows
      → P x × (p x ≡ true)
  unfolding select
  select-All P p [] x h all = cc
  select-All P p (y ∷ ys) x h (py, rest) = elim (Bool-cases (p y)) [
    | inl e ↦
        let q : y ≡ x =
          some_eq y x (subst (λ b. (if b then some y else select p ys) ≡ some x) e h) in
        (subst P q py, ap p (sym q) ∙ e)
    | inr e ↦
        select-All P p ys x (subst (λ b. (if b then some y else select p ys) ≡ some x) e h) rest
  ]
    where
      some_eq : (a b : A) → some a ≡ some b → a ≡ b
      some_eq a b g = cc

  abbrev pub on_some : (A → A) → Option A → Option A
  on_some f none = none
  on_some f (some x) = some (f x)

  -- A write that no condition sees is seen in the row that the condition selects.
  pub select-update :
      (p q : A → Bool) (f : A → A) (rows : List A)
      → ((x : A) → p (f x) ≡ p x)
      → select p (update q f rows) ≡ on_some (λ x. if q x then f x else x) (select p rows)
  unfolding select update
  select-update p q f [] same = refl
  select-update p q f (x ∷ xs) same = elim (Bool-cases (p x)) [
    | inl e ↦ rw (if_else (q x) p (f x) x (same x), e) refl
    | inr e ↦ rw (if_else (q x) p (f x) x (same x), e) (select-update p q f xs same)
  ]

  pub select-append :
      (p : A → Bool) (xs ys : List A) (x : A) → select p xs ≡ some x → select p (xs ++ ys) ≡ some x
  unfolding select
  select-append p [] ys x h = cc
  select-append p (y ∷ xs) ys x h = elim (Bool-cases (p y)) [
    | inl e ↦ rw e (subst (λ b. (if b then some y else select p xs) ≡ some x) e h)
    | inr e ↦
        rw e
          (select-append p xs ys x (subst (λ b. (if b then some y else select p xs) ≡ some x) e h))
  ]

  -- The row that a condition selects is in the table and meets it.
  pub select-Memᴰ :
      (p : A → Bool) (rows : List A) (x : A) → select p rows ≡ some x → Memᴰ x rows × (p x ≡ true)
  unfolding select
  select-Memᴰ p [] x h = cc
  select-Memᴰ p (y ∷ rows) x h = elim (Bool-cases (p y)) [
    | inl e ↦
        (let q : y ≡ x = some_of y x (rw (e, select) at h) in
          (Memᴰ.head (sym q), subst (λ z. p z ≡ true) q e))
    | inr e ↦ (let (m, t) = select-Memᴰ p rows x (rw (e, select) at h) in (Memᴰ.tail m, t))
  ]
    where
      some_of : (a b : A) → ◌≡◌ {A = Option A} (some a) (some b) → a ≡ b
      some_of a b g = cc

  any-cons :
      (p : A → Bool) (y : A) (rows : List A) (b : Bool)
      → p y ≡ b
      → (any p rows ≡ true → (x : A) × Memᴰ x rows × (p x ≡ true))
      → ◌≡◌ {A = Bool} (elim b [ true ↦ true | false ↦ any p rows ]) true
      → (x : A) × Memᴰ x (y ∷ rows) × (p x ≡ true)
  any-cons p y rows true e rest h = (y, Memᴰ.head refl, e)
  any-cons p y rows false e rest h = let (x, m, t) = rest h in (x, Memᴰ.tail m, t)

  pub any-Memᴰ :
      (p : A → Bool) (rows : List A) → any p rows ≡ true → (x : A) × Memᴰ x rows × (p x ≡ true)
  any-Memᴰ p [] h = cc
  any-Memᴰ p (y ∷ rows) h = any-cons p y rows (p y) refl (any-Memᴰ p rows) h
