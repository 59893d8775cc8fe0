-- ===== src/Prelude/Result.antt =====
-- Go's pair of a value and an error, where the value means nothing beside an error.
use sthira.Prelude.{◌≡◌, refl, Bool, true, false}

pub data Result {ℓ κ} (E : Type ℓ) (A : Type κ) : Type (ℓ ⊔ κ) where
  ok : A → Result E A
  err : E → Result E A

-- if cond { return e }
abbrev pub reject_if {ℓ} : {E : Type ℓ} → Bool → E → Result E (Unit {0})
reject_if true e = err e
reject_if false e = ok tt

-- What comes after `if err != nil { return err }`, with the value that was returned.
infixl 5 ◌>>=◌
abbrev pub ◌>>=◌ {ℓ κ μ} :
    {A : Type κ} {E : Type ℓ} {B : Type μ} → Result E A → (A → Result E B) → Result E B
err failure >>= next = err failure
ok value >>= next = next value

-- The same, where there is no value.
infixl 5 ◌>>◌
abbrev pub ◌>>◌ {ℓ κ} : {B : Type κ} {E : Type ℓ} → Result E (Unit {0}) → Result E B → Result E B
check >> after = check >>= λ nothing. after

-- A call that succeeded did so in both of its parts.
pub >>=-eq-ok {ℓ κ μ} :
    {A : Type κ} {E : Type ℓ} {B : Type μ} (first : Result E A) (next : A → Result E B) {final : B}
    → (first >>= next) ≡ ok final
    → (value : A) × (first ≡ ok value) × (next value ≡ ok final)
>>=-eq-ok (err failure) next outcome = cc
>>=-eq-ok (ok value) next outcome = (value, refl, outcome)

pub reject_if-eq-ok {ℓ} :
    {E : Type ℓ} (t : Bool) (e : E) {u : Unit {0}} → reject_if t e ≡ ok u → t ≡ false
reject_if-eq-ok true e h = cc
reject_if-eq-ok false e h = refl

-- What follows a check that let the call through.
pub past {ℓ κ} :
    {E : Type ℓ} {B : Type κ} (t : Bool) (e : E) (k : Result E B) {b : B}
    → (reject_if t e >> k) ≡ ok b
    → k ≡ ok b
past true e k h = cc
past false e k h = h
