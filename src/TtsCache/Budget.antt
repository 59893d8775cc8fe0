-- ===== src/TtsCache/Budget.antt =====
-- `Put` of backend/internal/ttsworker/cache.go and its byte budget.
use sthira.Prelude.{
  ℕ, ◌+◌, ◌-◌, ◌≤◌, ◌<◌, ◌≡◌, refl, String, Option, some, List, [], ◌∷◌, ◌++◌, arith, sum, lt→ltb,
}
use sthira.Prelude.Result.{ok}
use sthira.TtsCache.{CacheIdentity, CacheEntry, Codec, size, evict, fresh, replaced, fitted, put}
use sthira.TtsCache.Sums.{bytes_of}
use sthira.TtsCache.Sound.{Sound, replaced-Sound, replaced-budget}

-- An entry over the budget takes every other one with it, and then itself.
evict-all :
    (max : ℕ) (es : List CacheEntry) (e : CacheEntry) (b : ℕ)
    → max < e.byte_size
    → b ≡ sum bytes_of es + e.byte_size
    → evict max (es ++ e ∷ []) b ≡ ([], 0)
unfolding evict sum
evict-all max [] e b h p =
    rw (lt→ltb max b (omega arith), evict) (let z : b - e.byte_size ≡ 0 = omega arith in rw z refl)
evict-all max (x ∷ es) e b h p =
    rw (lt→ltb max b (omega arith), evict) (evict-all max es e (b - x.byte_size) h (omega arith))

-- The source has not moved past the version that was current at the entry; `none` is a source whose
-- version is not known.
abbrev pub NotNewer : Option ℕ → Option ℕ → Type 0
NotNewer entry now = (v : ℕ) → now ≡ some v → (w : ℕ) × (entry ≡ some w) × (v ≤ w)

module _ (marshal : CacheIdentity → Option String) (sha256_hex : List ℕ → String) where
  -- Audio larger than the budget is accepted without an error, and leaves a sound cache empty.
  pub put_over_budget :
      (id : CacheIdentity) (b : ℕ) (bs : List ℕ) (now : ℕ) (current : Option ℕ) (c : Codec)
      → Sound marshal sha256_hex c
      → c.max_bytes < size (b ∷ bs)
      → put marshal sha256_hex id (b ∷ bs) now current c
        ≡ ok (fitted (replaced marshal sha256_hex id c) ([], 0))
  unfolding put
  put_over_budget id b bs now current c s h =
      let e = fresh marshal sha256_hex id (b ∷ bs) now current in
      let r = replaced marshal sha256_hex id c in
      let rs = replaced-Sound marshal sha256_hex id c s in
      let large : r.max_bytes < e.byte_size =
        omega (arith, h, replaced-budget marshal sha256_hex id c) in
      rw (evict-all r.max_bytes r.lru e (r.bytes + e.byte_size) large (omega (arith, rs.accounted)))
        refl
