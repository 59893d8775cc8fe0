-- ===== src/Serving/History.antt =====
-- Histories of the calls that change the cache.
use sthira.Prelude.{
  ◌≡◌, refl, ◌∙◌, subst, ℕ, ◌+◌, ◌≤◌, ◌<◌, String, Bool, true, false, not, List, [], ◌∷◌, inl, inr,
  if◌then◌else◌, Map, lookup, length, arith, sum,
}
use Prim.Native.String.{◌++◌ as append_str}
use text.Mathlib.Text.{starts_with}
use sthira.Serving.{
  ManifestRecord, CardRecord, CacheEntry, MemoryCache, new_memory_cache, write_entry, candidates,
  count, evict_if_needed, is_live_status, put_manifest, put_card, invalidate_manifest,
  invalidate_card, invalidate_matching, invalidate_package, invalidate_each, on_source_withdrawn,
}
use sthira.Serving.Shelves.{weight-write_entry, write_entry-Agrees, length-insert}
use sthira.Serving.Eviction.{
  IsConsistent, Drifted, Evicted, Evicted-refl, Evicted-trans, invalidate_manifest-Evicted,
  invalidate_card-Evicted, evict_loop-Evicted,
}
use sthira.Serving.Bounded.{IsSettled, evict_loop-IsSettled}

pub data Call : Type 0 where
  puts_manifest : String → ManifestRecord → ℕ → ℕ → Call
  puts_card : String → CardRecord → ℕ → ℕ → Call
  drops_manifest drops_card drops_package : String → Call
  drops_manifests : Call

unfoldable pub apply : MemoryCache → Call → MemoryCache
unfolding put_manifest put_card invalidate_manifest invalidate_card invalidate_package
    on_source_withdrawn
apply c (puts_manifest j r ttl now) = put_manifest c j r ttl now
apply c (puts_card key r ttl now) = put_card c key r ttl now
apply c (drops_manifest j) = invalidate_manifest c j
apply c (drops_card key) = invalidate_card c key
apply c (drops_package id) = invalidate_package c id
apply c drops_manifests = on_source_withdrawn c

unfoldable pub run : MemoryCache → List Call → MemoryCache
unfolding apply
run c [] = c
run c (x ∷ xs) = run (apply c x) xs

-- The maps agree, and with a bound on the entries there are no more than it allows.
pub record IsSound (c : MemoryCache) : Type 0 where
  pub consistent : IsConsistent c
  pub bounded : 0 < c.max_entries → count c ≤ c.max_entries

-- What a call keeps: soundness, every drift of the byte count, and the bounds.
pub record Keeps (c c' : MemoryCache) : Type 0 where
  pub sound : IsSound c → IsSound c'
  pub drift : (d : ℕ) → Drifted d c → Drifted d c'
  pub max_entries : c'.max_entries ≡ c.max_entries
  pub max_bytes : c'.max_bytes ≡ c.max_bytes

Evicted-Keeps : (c c' : MemoryCache) → Evicted c c' → Keeps c c'
Evicted-Keeps c c' v = record {
  sound = λ s. record {
    consistent = v.consistent s.consistent;
    bounded = λ on.
        rw v.max_entries (omega (arith, v.fewer, s.bounded (subst (λ n. 0 < n) v.max_entries on)));
  };
  drift = v.drift;
  max_entries = v.max_entries;
  max_bytes = v.max_bytes;
}

pub evict_if_needed-Evicted : (c : MemoryCache) (size : ℕ) → Evicted c (evict_if_needed c size)
unfolding evict_if_needed
evict_if_needed-Evicted c size =
    evict_loop-Evicted (length (candidates c)) c (count c + 1) (c.current_bytes + size)

-- After the eviction there is room for one more entry.
room_for_one :
    (c : MemoryCache) (size : ℕ)
    → IsConsistent c
    → 0 < c.max_entries
    → count (evict_if_needed c size) + 1 ≤ c.max_entries
unfolding evict_if_needed
room_for_one c size k on =
    within (evict_if_needed c size) (evict_if_needed-Evicted c size).max_entries (
      evict_loop-IsSettled (length (candidates c)) c (count c + 1) (c.current_bytes + size) k
        (omega arith) (omega arith))
  where
    within :
        (c' : MemoryCache)
        → c'.max_entries ≡ c.max_entries
        → IsSettled (c.current_bytes + size) c'
        → count c' + 1 ≤ c.max_entries
    within c' same (inl h) = omega (arith, h, on)
    within c' same (inr (te, e, h)) = ground (arith, same, e, h, on)

Keeps-refl : (c : MemoryCache) → Keeps c c
Keeps-refl c = Evicted-Keeps c c (Evicted-refl c)

if_else-Keeps :
    (b : Bool) (c x y : MemoryCache) → Keeps c x → Keeps c y → Keeps c (if b then x else y)
if_else-Keeps true c x y kx ky = kx
if_else-Keeps false c x y kx ky = ky

store_manifest-Keeps :
    (c c' : MemoryCache) (key : String) (r : ManifestRecord) (size ttl now : ℕ)
    → Evicted c c'
    → (IsConsistent c → 0 < c.max_entries → count c' + 1 ≤ c.max_entries)
    → Keeps c (record c' {
      manifests = write_entry key r size ttl now c'.manifests;
      current_bytes = c'.current_bytes + size;
    })
unfolding write_entry
store_manifest-Keeps c c' key r size ttl now v room = record {
  sound = λ s.
      let k = v.consistent s.consistent in
      record {
        consistent = record {
          manifests = write_entry-Agrees key r size ttl now c'.manifests k.manifests;
          cards = k.cards;
        };
        bounded = λ on.
            let on' = subst (λ n. 0 < n) v.max_entries on in
            rw v.max_entries
              (omega (arith, room s.consistent on', length-insert key _ c'.manifests.entries));
      };
  drift = λ d k. omega (arith, v.drift d k, weight-write_entry key r size ttl now c'.manifests);
  max_entries = v.max_entries;
  max_bytes = v.max_bytes;
}

put_manifest-Keeps :
    (c : MemoryCache) (key : String) (r : ManifestRecord) (ttl now : ℕ)
    → Keeps c (put_manifest c key r ttl now)
unfolding put_manifest
put_manifest-Keeps c key r ttl now =
    let c' = evict_if_needed c (length r.raw_json) in
    if_else-Keeps (not (is_live_status r.source_status)) c c _ (Keeps-refl c) (
      store_manifest-Keeps c c' key r (length r.raw_json) ttl now
        (evict_if_needed-Evicted c (length r.raw_json)) (room_for_one c (length r.raw_json)))

store_card-Keeps :
    (c c' : MemoryCache) (key : String) (r : CardRecord) (size ttl now : ℕ)
    → Evicted c c'
    → (IsConsistent c → 0 < c.max_entries → count c' + 1 ≤ c.max_entries)
    → Keeps c (record c' {
      cards = write_entry key r size ttl now c'.cards;
      current_bytes = c'.current_bytes + size;
    })
unfolding write_entry
store_card-Keeps c c' key r size ttl now v room = record {
  sound = λ s.
      let k = v.consistent s.consistent in
      record {
        consistent = record {
          cards = write_entry-Agrees key r size ttl now c'.cards k.cards;
          manifests = k.manifests;
        };
        bounded = λ on.
            let on' = subst (λ n. 0 < n) v.max_entries on in
            rw v.max_entries
              (omega (arith, room s.consistent on', length-insert key _ c'.cards.entries));
      };
  drift = λ d k. omega (arith, v.drift d k, weight-write_entry key r size ttl now c'.cards);
  max_entries = v.max_entries;
  max_bytes = v.max_bytes;
}

put_card-Keeps :
    (c : MemoryCache) (key : String) (r : CardRecord) (ttl now : ℕ)
    → Keeps c (put_card c key r ttl now)
unfolding put_card
put_card-Keeps c key r ttl now =
    let c' = evict_if_needed c (length r.raw_json) in
    if_else-Keeps (not (is_live_status r.source_status)) c c _ (Keeps-refl c) (
      store_card-Keeps c c' key r (length r.raw_json) ttl now
        (evict_if_needed-Evicted c (length r.raw_json)) (room_for_one c (length r.raw_json)))

invalidate_matching-Evicted :
    (start : String) (c : MemoryCache) (m : Map (CacheEntry CardRecord))
    → Evicted c (invalidate_matching start c m)
unfolding invalidate_matching
invalidate_matching-Evicted start c [] = Evicted-refl c
invalidate_matching-Evicted start c ((key, e) ∷ rest) =
    Evicted-trans c _ _ (matched (starts_with key start)) (
      invalidate_matching-Evicted start (if starts_with key start then invalidate_card c key else c)
        rest)
  where
    matched : (b : Bool) → Evicted c (if b then invalidate_card c key else c)
    matched true = invalidate_card-Evicted c key
    matched false = Evicted-refl c

invalidate_each-Evicted :
    (c : MemoryCache) (m : Map (CacheEntry ManifestRecord)) → Evicted c (invalidate_each c m)
unfolding invalidate_each
invalidate_each-Evicted c [] = Evicted-refl c
invalidate_each-Evicted c ((key, e) ∷ rest) =
    Evicted-trans c _ _ (invalidate_manifest-Evicted c key)
      (invalidate_each-Evicted (invalidate_manifest c key) rest)

pub apply-Keeps : (c : MemoryCache) (x : Call) → Keeps c (apply c x)
unfolding apply invalidate_package on_source_withdrawn
apply-Keeps c (puts_manifest j r ttl now) = put_manifest-Keeps c j r ttl now
apply-Keeps c (puts_card key r ttl now) = put_card-Keeps c key r ttl now
apply-Keeps c (drops_manifest j) = Evicted-Keeps c _ (invalidate_manifest-Evicted c j)
apply-Keeps c (drops_card key) = Evicted-Keeps c _ (invalidate_card-Evicted c key)
apply-Keeps c (drops_package id) =
    Evicted-Keeps c _ (invalidate_matching-Evicted (append_str id ":") c c.cards.entries)
apply-Keeps c drops_manifests = Evicted-Keeps c _ (invalidate_each-Evicted c c.manifests.entries)

pub run-Keeps : (c : MemoryCache) (xs : List Call) → Keeps c (run c xs)
unfolding run
run-Keeps c [] = Keeps-refl c
run-Keeps c (x ∷ xs) =
    let a = apply-Keeps c x in
    let b = run-Keeps (apply c x) xs in
    record {
      sound = λ s. b.sound (a.sound s);
      drift = λ d k. b.drift d (a.drift d k);
      max_entries = b.max_entries ∙ a.max_entries;
      max_bytes = b.max_bytes ∙ a.max_bytes;
    }

-- After every history of writes and invalidations of a new cache, the number of entries is within the
-- bound on entries where there is one, the map of write times has the keys of the entries, and
-- the byte count is at least the sum of the bytes of the entries.
pub run-IsSound :
    (max_entries max_bytes : ℕ) (xs : List Call)
    → IsSound (run (new_memory_cache max_entries max_bytes) xs)
      × Drifted 0 (run (new_memory_cache max_entries max_bytes) xs)
unfolding new_memory_cache lookup sum
run-IsSound max_entries max_bytes xs =
    let k = run-Keeps (new_memory_cache max_entries max_bytes) xs in
    (
      k.sound (record {
        consistent = record { manifests = λ key. refl; cards = λ key. refl };
        bounded = λ on. omega arith;
      }),
      k.drift 0 (omega arith),
    )
