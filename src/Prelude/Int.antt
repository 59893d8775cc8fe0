-- ===== src/Prelude/Int.antt =====
-- Go's signed integers, over the native numbers; `negsuc n` is -(n + 1).
use sthira.Prelude.{◌≡◌, refl, ℕ, zero, suc, ◌+◌, ◌-◌, Option, none, some, ltb, if◌then◌else◌}

pub data ℤ : Type 0 where
  pos : ℕ → ℤ
  negsuc : ℕ → ℤ

-- -n
abbrev pub neg : ℕ → ℤ
neg zero = pos 0
neg (suc n) = negsuc n

-- n + z for a column that may not go below zero: `none` where the sum is negative.
abbrev pub add : ℕ → ℤ → Option ℕ
add n (pos k) = some (n + k)
add n (negsuc k) = if ltb k n then some (n - suc k) else none

-- if z <= 0 { z = d }
abbrev pub positive_or : ℕ → ℤ → ℕ
positive_or d (pos zero) = d
positive_or d (pos (suc n)) = suc n
positive_or d (negsuc n) = d

abbrev pub pos_part : ℤ → ℕ
pos_part (pos n) = n
pos_part (negsuc n) = 0

abbrev pub neg_part : ℤ → ℕ
neg_part (pos n) = 0
neg_part (negsuc n) = suc n

pub neg_part-neg : (n : ℕ) → neg_part (neg n) ≡ n
neg_part-neg zero = refl
neg_part-neg (suc n) = refl

pub pos_part-neg : (n : ℕ) → pos_part (neg n) ≡ 0
pos_part-neg zero = refl
pos_part-neg (suc n) = refl
