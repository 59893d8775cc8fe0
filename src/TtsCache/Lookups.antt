-- ===== src/TtsCache/Lookups.antt =====
-- What a reader of the audio cache of backend/internal/ttsworker/cache.go gets, after any calls.
use sthira.Prelude.{
  ℕ, ◌+◌, ◌≤◌, ◌≡◌, refl, sym, String, false, Option, none, some, List, [], ◌∷◌, arith, sum,
  Bool-cases, Option-cases, inl, inr,
}
use sthira.Prelude.Result.{Result, ok, err}
use sthira.TtsCache.{
  CacheIdentity, CacheError, CacheEntry, Codec, to_string, item, get, new_codec, put, remove_all,
  handle_source_advance, evict_expired, expired, withdrawn, outdated, every,
}
use sthira.TtsCache.Sound.{Sound, put-Sound, get-Sound, sweep-Sound, item-key}

-- The calls that change the cache.
pub data Request : Type 0 where
  get_it : CacheIdentity → ℕ → Option ℕ → Request
  put_it : CacheIdentity → List ℕ → ℕ → Option ℕ → Request
  advance_it : ℕ → Request
  sweep_it : ℕ → Request
  purge_it : Request

-- A call that fails leaves the cache as it was.
abbrev pub cached : Result CacheError Codec → Codec → Codec
cached (ok c') c = c'
cached (err e) c = c

module _ (marshal : CacheIdentity → Option String) (sha256_hex : List ℕ → String) where
  unfoldable pub perform : Request → Codec → Codec
  perform (get_it id now current) c = (get marshal sha256_hex id now current c).1
  perform (put_it id bs now current) c = cached (put marshal sha256_hex id bs now current c) c
  perform (advance_it version) c = handle_source_advance version c
  perform (sweep_it now) c = (evict_expired now c).1
  perform purge_it c = (remove_all c).1

  unfoldable pub run : List Request → Codec → Codec
  unfolding perform
  run [] c = c
  run (r ∷ rs) c = run rs (perform r c)

  cached-Sound :
      (r : Result CacheError Codec) (c : Codec)
      → ((c' : Codec) → r ≡ ok c' → Sound marshal sha256_hex c')
      → Sound marshal sha256_hex c
      → Sound marshal sha256_hex (cached r c)
  cached-Sound (ok c') c f s = f c' refl
  cached-Sound (err e) c f s = s

  perform-Sound :
      (r : Request) (c : Codec)
      → Sound marshal sha256_hex c
      → Sound marshal sha256_hex (perform r c)
  unfolding perform handle_source_advance evict_expired remove_all
  perform-Sound (get_it id now current) c s = get-Sound marshal sha256_hex id now current c s
  perform-Sound (put_it id bs now current) c s =
      cached-Sound _ c (λ c' h. put-Sound marshal sha256_hex id bs now current c c' h s) s
  perform-Sound (advance_it version) c s = sweep-Sound marshal sha256_hex (outdated version) c s
  perform-Sound (sweep_it now) c s = sweep-Sound marshal sha256_hex (expired c now) c s
  perform-Sound purge_it c s = sweep-Sound marshal sha256_hex every c s

  run-Sound :
      (rs : List Request) (c : Codec)
      → Sound marshal sha256_hex c
      → Sound marshal sha256_hex (run rs c)
  unfolding run
  run-Sound [] c s = s
  run-Sound (r ∷ rs) c s = run-Sound rs _ (perform-Sound r c s)

  new-Sound : (max ttl : ℕ) → Sound marshal sha256_hex (new_codec max ttl)
  unfolding new_codec sum
  new-Sound max ttl = record { accounted = refl; fits = omega arith; single = λ k. omega arith }

  -- After any calls on a new cache, the byte count is the sum of the entries' sizes and within the
  -- budget, and no two entries have one key.
  pub within_budget :
      (max ttl : ℕ) (rs : List Request) → Sound marshal sha256_hex (run rs (new_codec max ttl))
  within_budget max ttl rs = run-Sound rs _ (new-Sound max ttl)

  -- An entry that `get` returns has the identity asked for, is within its time to live, and was
  -- recorded at the source version that the clock reads or a later one.
  pub get_never_stale :
      (id : CacheIdentity) (now : ℕ) (current : Option ℕ) (c : Codec) (e : CacheEntry)
      → (get marshal sha256_hex id now current c).0 ≡ some e
      → (to_string marshal sha256_hex e.key ≡ to_string marshal sha256_hex id)
        × (now ≤ e.created_at + c.ttl)
        × (withdrawn current e ≡ false)
  unfolding get
  get_never_stale id now current c e h =
      elim (Option-cases (item marshal sha256_hex (to_string marshal sha256_hex id) c.lru)) [
        | inl n ↦ (let p : ◌≡◌ {A = Option CacheEntry} none (some e) = (rw (n, get) at h) in cc)
        | inr (x, f) ↦ elim (Bool-cases (expired c now x)) [
          | inl t ↦
              (let p : ◌≡◌ {A = Option CacheEntry} none (some e) = (rw (f, get, t) at h) in cc)
          | inr t ↦ elim (Bool-cases (withdrawn current x)) [
            | inl u ↦
                (let p : ◌≡◌ {A = Option CacheEntry} none (some e) = (rw (f, get, t, u) at h) in cc)
            | inr u ↦
                (let p : ◌≡◌ {A = Option CacheEntry} (some x) (some e) = (rw (f, get, t, u) at h) in
                  let q : x ≡ e = cc in
                  rw (sym q) (item-key marshal sha256_hex _ c.lru x f, ground arith, u))
          ]
        ]
      ]
