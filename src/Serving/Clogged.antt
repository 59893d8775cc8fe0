-- ===== src/Serving/Clogged.antt =====
-- The bound on bytes: what it holds for, and what a write over an entry takes from it.
use sthira.Prelude.{
  ◌≡◌, refl, sym, ◌∙◌, subst, ℕ, zero, suc, ◌+◌, ◌≤◌, ◌<◌, String, Bool, true, false, not, some,
  List, ◌⊎◌, inl, inr, if◌then◌else◌, lookup, length, weight_of, arith,
}
use sthira.Serving.{
  ManifestRecord, CacheEntry, MemoryCache, Candidate, write_entry, candidates, oldest, round, over,
  evict_loop, count, evict_if_needed, is_live_status, put_manifest,
}
use sthira.Serving.Shelves.{weight, size_of, weight-write_entry, length-insert}
use sthira.Serving.Eviction.{Drifted}
use sthira.Serving.Bounded.{IsSettled, evict_loop-IsSettled}
use sthira.Serving.History.{Call, run, IsSound, run-Keeps, evict_if_needed-Evicted}

nothing_evicted :
    (n : ℕ) (c : MemoryCache) (te tb : ℕ) → over c te tb ≡ false → evict_loop n c te tb ≡ c
unfolding evict_loop
nothing_evicted zero c te tb e = refl
nothing_evicted (suc n) c te tb e = stop _ (over c te tb) e
  where
    stop :
        (next : Candidate → MemoryCache) (b : Bool)
        → b ≡ false
        → round b (oldest (candidates c)) c next ≡ c
    stop next true e = cc
    stop next false e = refl

-- Writing a live manifest over an entry, without passing a bound, puts the byte count further ahead of
-- the bytes of the entries by the bytes of the entry that was overwritten.
pub overwrite_drifts :
    (c : MemoryCache) (j : String) (r : ManifestRecord) (ttl now d : ℕ)
    (e : CacheEntry ManifestRecord)
    → lookup j c.manifests.entries ≡ some e
    → over c (count c + 1) (c.current_bytes + length r.raw_json) ≡ false
    → is_live_status r.source_status ≡ true
    → Drifted d c
    → Drifted (d + e.byte_size) (put_manifest c j r ttl now)
unfolding put_manifest evict_if_needed write_entry
overwrite_drifts c j r ttl now d e found fits live k =
    written (is_live_status r.source_status) live _ (
      nothing_evicted (length (candidates c)) c (count c + 1) (c.current_bytes + length r.raw_json)
        fits)
  where
    size : ℕ
    size = length r.raw_json

    stored : MemoryCache → MemoryCache
    stored c' = record c' {
      manifests = write_entry j r size ttl now c'.manifests;
      current_bytes = c'.current_bytes + size;
    }

    base : Drifted (d + e.byte_size) (stored c)
    base = omega (
      arith,
      k,
      subst
          (λ o.
            weight (write_entry j r size ttl now c.manifests) + weight_of size_of o
            ≡ weight c.manifests + size)
          found (weight-write_entry j r size ttl now c.manifests),
    )

    written :
        (b : Bool)
        → b ≡ true
        → (c' : MemoryCache) → c' ≡ c
        → Drifted (d + e.byte_size) (if not b then c else stored c')
    written true t c' same = subst (λ x. Drifted (d + e.byte_size) (stored x)) (sym same) base
    written false t c' same = cc

-- Where the byte count has once been ahead of the bytes of the entries by `d`, after every later
-- history of writes and invalidations a write of a live manifest leaves no entry but that
-- manifest's, or entries whose bytes are at most the bound on bytes less `d`: the bound holds for the
-- entries, and what the count is ahead is never given back.
pub written_fits :
    (c : MemoryCache) (d : ℕ) (xs : List Call) (j : String) (r : ManifestRecord) (ttl now : ℕ)
    → IsSound c
    → Drifted d c
    → 0 < c.max_bytes
    → is_live_status r.source_status ≡ true
    → let c' = put_manifest (run c xs) j r ttl now in
      (count c' ≤ 1) ⊎ (weight c'.manifests + weight c'.cards + d ≤ c.max_bytes)
unfolding put_manifest evict_if_needed write_entry
written_fits c d xs j r ttl now s k on live =
    let h = run-Keeps c xs in
    let v = evict_if_needed-Evicted (run c xs) size in
    written (is_live_status r.source_status) live _ v.lighter (v.drift d (h.drift d k))
      (v.max_bytes ∙ h.max_bytes)
      (evict_loop-IsSettled (length (candidates (run c xs))) (run c xs) (count (run c xs) + 1)
        ((run c xs).current_bytes + size) (h.sound s).consistent (omega arith) (omega arith))
  where
    size : ℕ
    size = length r.raw_json

    stored : MemoryCache → MemoryCache
    stored c' = record c' {
      manifests = write_entry j r size ttl now c'.manifests;
      current_bytes = c'.current_bytes + size;
    }

    written :
        (b : Bool)
        → b ≡ true
        → (c' : MemoryCache) → c'.current_bytes ≤ (run c xs).current_bytes
        → Drifted d c'
        → c'.max_bytes ≡ c.max_bytes
        → IsSettled ((run c xs).current_bytes + size) c'
        → let c'' = if not b then run c xs else stored c' in
          (count c'' ≤ 1) ⊎ (weight c''.manifests + weight c''.cards + d ≤ c.max_bytes)
    written false t c' lighter ahead same settled = cc
    written true t c' lighter ahead same (inl h) =
        inl (omega (arith, h, length-insert j _ c'.manifests.entries))
    written true t c' lighter ahead same (inr (te, e, room)) =
        let bytes : (run c xs).current_bytes + size ≤ c.max_bytes = ground (arith, e, same, on) in
        inr (omega (arith, lighter, ahead, bytes, weight-write_entry j r size ttl now c'.manifests))
