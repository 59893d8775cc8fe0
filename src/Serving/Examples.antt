-- ===== src/Serving/Examples.antt =====
-- Tests of the cache in front of the publications, and its theorems at concrete inputs.
use sthira.Prelude.{
  ◌≡◌, refl, ◌≤◌, ◌+◌, none, some, List, [], ◌∷◌, ◌⊎◌, lookup, insert, remove, arith, sum,
}
use sthira.Serving.{
  ManifestRecord, MemoryCache, new_memory_cache, oldest, get_manifest, put_manifest, count,
  is_live_status,
}
use sthira.Serving.Shelves.{weight}
use sthira.Serving.Eviction.{Drifted}
use sthira.Serving.History.{Call, puts_manifest, drops_manifest, run, IsSound, run-IsSound}
use sthira.Serving.Clogged.{overwrite_drifts, written_fits}

abbrev first : ManifestRecord
first = record {
  jurisdiction = "IN-KA";
  revision = 7;
  raw_json = 1 ∷ 2 ∷ 3 ∷ [];
  checksum_sha256 = "digest";
  source_status = "CURRENT";
}

abbrev second : ManifestRecord
second = record first { jurisdiction = "IN-TN" }

abbrev withdrawn : ManifestRecord
withdrawn = record first { source_status = "WITHDRAWN" }

-- One manifest, written again and again when it has expired.
abbrev refreshes : List Call
refreshes =
    puts_manifest "IN-KA" first 10 0
    ∷ puts_manifest "IN-KA" first 10 20
    ∷ puts_manifest "IN-KA" first 10 40
    ∷ []

counts_each_refresh :
    ((run (new_memory_cache 4 10) refreshes).current_bytes ≡ 9)
    × (count (run (new_memory_cache 4 10) refreshes) ≡ 1)
unfolding run lookup insert remove oldest new_memory_cache
counts_each_refresh = (refl, refl)

-- The two manifests have six bytes, and the bound is ten.
evicts_too_much :
    get_manifest
      (put_manifest (run (new_memory_cache 4 10) refreshes) "IN-TN" second 10 41)
      42
      "IN-KA"
    ≡ none
unfolding run put_manifest get_manifest lookup insert remove oldest new_memory_cache
evicts_too_much = refl

serves : get_manifest (run (new_memory_cache 4 10) refreshes) 45 "IN-KA" ≡ some first
unfolding run get_manifest lookup insert remove oldest new_memory_cache
serves = refl

expires : get_manifest (run (new_memory_cache 4 10) refreshes) 51 "IN-KA" ≡ none
unfolding run get_manifest lookup insert remove oldest new_memory_cache
expires = refl

drops_withdrawn :
    put_manifest (new_memory_cache 4 10) "IN-KA" withdrawn 10 0 ≡ new_memory_cache 4 10
unfolding put_manifest
drops_withdrawn = refl

abbrev one_entry : MemoryCache
one_entry = record (new_memory_cache 4 10) {
  manifests = record {
    entries =
        ("IN-KA", record { value = first; expires_at = 10; written_at = 0; byte_size = 3 }) ∷ [];
    times = ("IN-KA", 0) ∷ [];
  };
  current_bytes = 3;
}

run-IsSound_example :
    IsSound (run (new_memory_cache 4 10) refreshes)
    × Drifted 0 (run (new_memory_cache 4 10) refreshes)
run-IsSound_example = run-IsSound 4 10 refreshes

overwrite_drifts_example : Drifted 3 (put_manifest one_entry "IN-KA" first 10 20)
unfolding new_memory_cache lookup sum is_live_status
overwrite_drifts_example =
    overwrite_drifts one_entry "IN-KA" first 10 20 0
      (record { value = first; expires_at = 10; written_at = 0; byte_size = 3 }) refl refl refl
      (omega arith)

six_ahead : Drifted 6 (run (new_memory_cache 4 10) refreshes)
unfolding run lookup insert remove oldest new_memory_cache sum
six_ahead = omega arith

written_fits_example :
    let c = run (new_memory_cache 4 10) refreshes in
    let c' = put_manifest (run c (drops_manifest "IN-KA" ∷ [])) "IN-TN" second 10 60 in
    (count c' ≤ 1) ⊎ (weight c'.manifests + weight c'.cards + 6 ≤ 10)
unfolding run lookup insert remove oldest new_memory_cache is_live_status
written_fits_example =
    written_fits (run (new_memory_cache 4 10) refreshes) 6 (drops_manifest "IN-KA" ∷ []) "IN-TN"
      second 10 60 (run-IsSound 4 10 refreshes).0 six_ahead (omega arith) refl

-- A fetch that read the manifest before its withdrawal writes it after the invalidation.
serves_stale_fetch :
    get_manifest
      (run
        (new_memory_cache 4 10)
        (drops_manifest "IN-KA" ∷ puts_manifest "IN-KA" first 10 20 ∷ []))
      25
      "IN-KA"
    ≡ some first
unfolding run get_manifest lookup insert remove oldest new_memory_cache
serves_stale_fetch = refl
