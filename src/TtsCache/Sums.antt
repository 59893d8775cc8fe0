-- ===== src/TtsCache/Sums.antt =====
-- Weights of the list of the audio cache of backend/internal/ttsworker/cache.go.
use sthira.Prelude.{
  ℕ, ◌+◌, ◌-◌, ◌≤◌, ◌≡◌, Bool, List, [], ◌∷◌, ◌++◌, ltb, arith, sum, Bool-cases, inl, inr,
}
use sthira.TtsCache.{CacheEntry, evict, sweep}

pub sum-++ {ℓ} : {A : Type ℓ} (w : A → ℕ) (xs ys : List A) → sum w (xs ++ ys) ≡ sum w xs + sum w ys
unfolding sum
sum-++ w [] ys = omega arith
sum-++ w (x ∷ xs) ys = omega (arith, sum-++ w xs ys)

pub sum-snoc {ℓ} :
    {A : Type ℓ} (w : A → ℕ) (xs : List A) (x : A) → sum w (xs ++ x ∷ []) ≡ sum w xs + w x
unfolding sum
sum-snoc w xs x = omega (arith, sum-++ w xs (x ∷ []))

abbrev pub bytes_of : CacheEntry → ℕ
bytes_of e = e.byte_size

-- What eviction leaves weighs at most what there was, under every measure.
pub evict-sum :
    (w : CacheEntry → ℕ) (max : ℕ) (es : List CacheEntry) (b : ℕ)
    → sum w (evict max es b).0 ≤ sum w es
unfolding evict sum
evict-sum w max [] b = omega arith
evict-sum w max (e ∷ es) b = elim (Bool-cases (ltb max b)) [
  | inl h ↦ rw (h, evict) (omega (arith, evict-sum w max es (b - e.byte_size)))
  | inr h ↦ rw (h, evict) (omega arith)
]

-- Eviction keeps the account, and stops within the budget.
pub evict-accounted :
    (max : ℕ) (es : List CacheEntry) (b : ℕ)
    → b ≡ sum bytes_of es
    → ((evict max es b).1 ≡ sum bytes_of (evict max es b).0) × ((evict max es b).1 ≤ max)
unfolding evict sum
evict-accounted max [] b h = (h, omega arith)
evict-accounted max (e ∷ es) b h = elim (Bool-cases (ltb max b)) [
  | inl t ↦ rw (t, evict) (evict-accounted max es (b - e.byte_size) (omega arith))
  | inr t ↦ rw (t, evict) (h, ground arith)
]

pub sweep-sum :
    (w : CacheEntry → ℕ) (drop : CacheEntry → Bool) (es : List CacheEntry) (b n : ℕ)
    → sum w (sweep drop es b n).0 ≤ sum w es
unfolding sweep sum
sweep-sum w drop [] b n = omega arith
sweep-sum w drop (e ∷ es) b n = elim (Bool-cases (drop e)) [
  | inl t ↦ rw (t, sweep) (omega (arith, sweep-sum w drop es (b - e.byte_size) (n + 1)))
  | inr t ↦ rw (t, sweep) (omega (arith, sweep-sum w drop es b n))
]

pub sweep-accounted :
    (drop : CacheEntry → Bool) (es : List CacheEntry) (b n c : ℕ)
    → b ≡ c + sum bytes_of es
    → (sweep drop es b n).1 ≡ c + sum bytes_of (sweep drop es b n).0
unfolding sweep sum
sweep-accounted drop [] b n c h = h
sweep-accounted drop (e ∷ es) b n c h = elim (Bool-cases (drop e)) [
  | inl t ↦ rw (t, sweep) (sweep-accounted drop es (b - e.byte_size) (n + 1) c (omega arith))
  | inr t ↦
      rw (t, sweep) (omega (arith, sweep-accounted drop es b n (c + e.byte_size) (omega arith)))
]
