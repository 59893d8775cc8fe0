-- ===== src/TtsCache/Sound.antt =====
-- The accounts of the audio cache of backend/internal/ttsworker/cache.go.
use sthira.Prelude.{
  ℕ, ◌+◌, ◌≤◌, ◌≡◌, refl, sym, String, Bool, Option, none, some, List, [], ◌∷◌, ◌++◌, str_eq,
  if◌then◌else◌, arith, sum, weight_of, Bool-cases, Option-cases, inl, inr, eq_iff, eq_refl, subst,
}
use sthira.Prelude.Result.{ok}
use sthira.TtsCache.{
  CacheIdentity, CacheEntry, Codec, evict, sweep, to_string, item, unlink, remove_element, get,
  fresh, replaced, fitted, put, swept, expired, withdrawn,
}
use sthira.TtsCache.Sums.{
  sum-snoc, bytes_of, evict-sum, evict-accounted, sweep-sum, sweep-accounted,
}

module _ (marshal : CacheIdentity → Option String) (sha256_hex : List ℕ → String) where
  -- 1 for an entry with the key `k`.
  abbrev pub keyed : String → CacheEntry → ℕ
  keyed k e = if str_eq (to_string marshal sha256_hex e.key) k then 1 else 0

  -- The account is right, the budget is kept, and no two entries have one key.
  pub record Sound (c : Codec) : Type 0 where
    pub accounted : c.bytes ≡ sum bytes_of c.lru
    pub fits : c.bytes ≤ c.max_bytes
    pub single : (k : String) → sum (keyed k) c.lru ≤ 1

  -- Taking the element with a key out takes its weight out.
  pub unlink-sum :
      (w : CacheEntry → ℕ) (k : String) (es : List CacheEntry)
      → sum w (unlink marshal sha256_hex k es) + weight_of w (item marshal sha256_hex k es)
        ≡ sum w es
  unfolding unlink item sum
  unlink-sum w k [] = refl
  unlink-sum w k (e ∷ es) = elim (Bool-cases (str_eq (to_string marshal sha256_hex e.key) k)) [
    | inl t ↦ rw (t) (omega arith)
    | inr t ↦ rw (t) (omega (arith, unlink-sum w k es))
  ]

  pub item-key :
      (k : String) (es : List CacheEntry) (e : CacheEntry)
      → item marshal sha256_hex k es ≡ some e
      → to_string marshal sha256_hex e.key ≡ k
  unfolding item
  item-key k [] e h = cc
  item-key k (x ∷ es) e h = elim (Bool-cases (str_eq (to_string marshal sha256_hex x.key) k)) [
    | inl t ↦
        (let p : some x ≡ some e = (rw (t, item) at h) in
          let q : x ≡ e = cc in
          let r : to_string marshal sha256_hex x.key ≡ k =
            ground (arith, eq_iff (to_string marshal sha256_hex x.key) k) in
          rw (sym q) r)
    | inr t ↦ item-key k es e (rw (t, item) at h)
  ]

  -- The element that `items` has for its own key.
  pub remove_element-Sound :
      (c : Codec) (e : CacheEntry)
      → item marshal sha256_hex (to_string marshal sha256_hex e.key) c.lru ≡ some e
      → Sound c
      → Sound (remove_element marshal sha256_hex e c)
  unfolding remove_element
  remove_element-Sound c e h s =
      let k = to_string marshal sha256_hex e.key in
      let out : sum bytes_of (unlink marshal sha256_hex k c.lru) + e.byte_size
          ≡ sum bytes_of c.lru =
        (rw h at (unlink-sum bytes_of k c.lru)) in
      record {
        accounted = omega (arith, s.accounted);
        fits = omega (arith, s.fits);
        single = λ j. omega (arith, s.single j, unlink-sum (keyed j) k c.lru);
      }

  pub replaced-Sound :
      (id : CacheIdentity) (c : Codec) → Sound c → Sound (replaced marshal sha256_hex id c)
  replaced-Sound id c s =
      elim (Option-cases (item marshal sha256_hex (to_string marshal sha256_hex id) c.lru)) [
        | inl h ↦ rw (h, replaced) s
        | inr (e, h) ↦
            (let k = item-key _ c.lru e h in rw (h, replaced) (remove_element-Sound c e (rw k h) s))
      ]

  item-none :
      (k : String) (es : List CacheEntry)
      → item marshal sha256_hex k es ≡ none
      → sum (keyed k) es ≡ 0
  unfolding item sum
  item-none k [] h = refl
  item-none k (x ∷ es) h = elim (Bool-cases (str_eq (to_string marshal sha256_hex x.key) k)) [
    | inl t ↦ (let p : ◌≡◌ {A = Option CacheEntry} (some x) none = (rw (t, item) at h) in cc)
    | inr t ↦ rw t (omega (arith, item-none k es (rw (t, item) at h)))
  ]

  unlink-absent :
      (k : String) (es : List CacheEntry) (e : CacheEntry)
      → item marshal sha256_hex k es ≡ some e
      → sum (keyed k) es ≤ 1
      → sum (keyed k) (unlink marshal sha256_hex k es) ≡ 0
  unlink-absent k es e h one =
      let w : keyed k e ≡ 1 = rw (item-key k es e h, eq_refl k) refl in
      let u : sum (keyed k) (unlink marshal sha256_hex k es) + keyed k e ≡ sum (keyed k) es =
        (rw h at (unlink-sum (keyed k) k es)) in
      omega arith

  -- Once an identity's element is out, no entry has its key.
  pub replaced-absent :
      (id : CacheIdentity) (c : Codec)
      → Sound c
      → sum (keyed (to_string marshal sha256_hex id)) (replaced marshal sha256_hex id c).lru ≡ 0
  unfolding remove_element
  replaced-absent id c s =
      elim (Option-cases (item marshal sha256_hex (to_string marshal sha256_hex id) c.lru)) [
        | inl h ↦ rw (h, replaced) (item-none _ c.lru h)
        | inr (e, h) ↦
            rw (h, replaced, item-key _ c.lru e h) (unlink-absent _ c.lru e h (s.single _))
      ]

  pub replaced-budget :
      (id : CacheIdentity) (c : Codec) → (replaced marshal sha256_hex id c).max_bytes ≡ c.max_bytes
  unfolding remove_element
  replaced-budget id c =
      elim (Option-cases (item marshal sha256_hex (to_string marshal sha256_hex id) c.lru)) [
        | inl h ↦ rw (h, replaced) refl
        | inr (e, h) ↦ rw (h, replaced) refl
      ]

  -- An entry may be added under a key that no entry has.
  push-single :
      (e : CacheEntry) (es : List CacheEntry)
      → ((k : String) → sum (keyed k) es ≤ 1)
      → sum (keyed (to_string marshal sha256_hex e.key)) es ≡ 0
      → (k : String) → sum (keyed k) (es ++ e ∷ []) ≤ 1
  push-single e es one free k = elim (Bool-cases (str_eq (to_string marshal sha256_hex e.key) k)) [
    | inl t ↦
        (let same : to_string marshal sha256_hex e.key ≡ k =
            ground (arith, eq_iff (to_string marshal sha256_hex e.key) k) in
          let none_there : sum (keyed k) es ≡ 0 = subst (λ j. sum (keyed j) es ≡ 0) same free in
          let w : keyed k e ≡ 1 = rw t refl in omega (arith, sum-snoc (keyed k) es e))
    | inr t ↦ (let w : keyed k e ≡ 0 = rw t refl in omega (arith, sum-snoc (keyed k) es e, one k))
  ]

  pub put-Sound :
      (id : CacheIdentity) (bs : List ℕ) (now : ℕ) (current : Option ℕ) (c c' : Codec)
      → put marshal sha256_hex id bs now current c ≡ ok c'
      → Sound c
      → Sound c'
  unfolding put
  put-Sound id [] now current c c' h s = cc
  put-Sound id (b ∷ bs) now current c c' h s =
      let e = fresh marshal sha256_hex id (b ∷ bs) now current in
      let r = replaced marshal sha256_hex id c in
      let rs = replaced-Sound id c s in
      let q : fitted r (evict r.max_bytes (r.lru ++ e ∷ []) (r.bytes + e.byte_size)) ≡ c' = cc in
      let (acc, fit) =
        evict-accounted r.max_bytes (r.lru ++ e ∷ []) (r.bytes + e.byte_size)
          (omega (arith, rs.accounted, sum-snoc bytes_of r.lru e)) in
      rw (sym q) (record {
        accounted = acc;
        fits = fit;
        single = λ k. omega (
          arith,
          evict-sum (keyed k) r.max_bytes (r.lru ++ e ∷ []) (r.bytes + e.byte_size),
          push-single e r.lru (rs.single) (replaced-absent id c s) k,
        );
      })

  touch-sum :
      (w : CacheEntry → ℕ) (es : List CacheEntry) (e : CacheEntry)
      → item marshal sha256_hex (to_string marshal sha256_hex e.key) es ≡ some e
      → sum w (unlink marshal sha256_hex (to_string marshal sha256_hex e.key) es ++ e ∷ [])
        ≡ sum w es
  touch-sum w es e h =
      let k = to_string marshal sha256_hex e.key in
      let u : sum w (unlink marshal sha256_hex k es) + w e ≡ sum w es =
        (rw h at (unlink-sum w k es)) in
      omega (arith, sum-snoc w (unlink marshal sha256_hex k es) e)

  -- `Get` touches the element that it found, or takes it out.
  pub get-Sound :
      (id : CacheIdentity) (now : ℕ) (current : Option ℕ) (c : Codec)
      → Sound c
      → Sound (get marshal sha256_hex id now current c).1
  unfolding get
  get-Sound id now current c s =
      elim (Option-cases (item marshal sha256_hex (to_string marshal sha256_hex id) c.lru)) [
        | inl h ↦ rw (h, get) s
        | inr (e, h) ↦
            (let k = item-key _ c.lru e h in
              let out = remove_element-Sound c e (rw k h) s in
              elim (Bool-cases (expired c now e)) [
                | inl t ↦ rw (h, get, t) out
                | inr t ↦ elim (Bool-cases (withdrawn current e)) [
                  | inl u ↦ rw (h, get, t, u) out
                  | inr u ↦
                      rw (h, get, t, u)
                        (record {
                          accounted =
                              omega (arith, s.accounted, touch-sum bytes_of c.lru e (rw k h));
                          fits = s.fits;
                          single =
                              λ j. omega (arith, s.single j, touch-sum (keyed j) c.lru e (rw k h));
                        })
                ]
              ])
      ]

  pub sweep-Sound :
      (drop : CacheEntry → Bool) (c : Codec)
      → Sound c
      → Sound (swept c (sweep drop c.lru c.bytes 0)).1
  sweep-Sound drop c s = record {
    accounted = omega (arith, sweep-accounted drop c.lru c.bytes 0 0 (omega (arith, s.accounted)));
    fits = omega (
      arith,
      s.accounted,
      s.fits,
      sweep-accounted drop c.lru c.bytes 0 0 (omega (arith, s.accounted)),
      sweep-sum bytes_of drop c.lru c.bytes 0,
    );
    single = λ k. omega (arith, sweep-sum (keyed k) drop c.lru c.bytes 0, s.single k);
  }
