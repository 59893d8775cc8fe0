-- ===== src/Queue/Worker/Backoff.antt =====
-- The delays of backend/internal/offlinequeue/worker.go.
use sthira.Prelude.{
  ℕ, zero, suc, ◌*◌, ◌^◌, ◌≤◌, ◌≡◌, ◌∙◌, refl, inl, inr, arith, ltb, leb, if◌then◌else◌, Bool-cases,
  leb→le,
}
use sthira.Queue.Worker.{ReplayConfig, backoff_loop, backoff}

-- The delay's cap.
abbrev pub capped : ℕ → ℕ → ℕ
capped most d = if ltb most d then most else d

one_le_pow : (n : ℕ) → 1 ≤ 2 ^ n
one_le_pow zero = omega arith
one_le_pow (suc n) = omega (arith, one_le_pow n)

mul_mono : (d p : ℕ) → 1 ≤ p → d ≤ d * p
mul_mono d zero h = absurd (omega arith)
mul_mono d (suc p) h = omega arith

doubled : (d n : ℕ) → d * 2 * 2 ^ n ≡ d * 2 ^ suc n
doubled d n = grind arith

-- Doubling further does not bring a delay that passed the cap below it.
at_cap : (most d p : ℕ) → most ≤ d → 1 ≤ p → most ≡ capped most (d * p)
at_cap most d p h q = let le = mul_mono d p q in ground arith

loop_lem : (most n d : ℕ) → backoff_loop most n d ≡ capped most (d * 2 ^ n)
unfolding backoff_loop
loop_lem most zero d = ground arith
loop_lem most (suc n) d = elim (Bool-cases (leb most (d * 2))) [
  | inl e ↦
      rw e
        (at_cap most (d * 2) (2 ^ n) (leb→le most (d * 2) e) (one_le_pow n) ∙ rw (doubled d n) refl)
  | inr e ↦ rw (e, loop_lem most n (d * 2), doubled d n) refl
]

-- The delay after an attempt is the base delay doubled once for each earlier attempt, capped at the
-- longest delay.
pub backoff-doubles :
    (cfg : ReplayConfig) (attempt : ℕ)
    → backoff cfg attempt ≡ capped cfg.max_delay (cfg.base_delay * 2 ^ attempt)
unfolding backoff
backoff-doubles cfg attempt = loop_lem cfg.max_delay attempt cfg.base_delay
