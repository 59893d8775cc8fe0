-- ===== src/Serving/Served.antt =====
-- What the cache serves was written.
use sthira.Prelude.{◌≡◌, ◌+◌, String, true, some, Map, lookup, length}
use Prim.Native.String.{◌++◌ as append_str}
use sthira.Serving.{ManifestRecord, CacheEntry, is_live_status}
use sthira.Serving.History.{Call, puts_manifest}

module _ (P : String → CacheEntry ManifestRecord → Type 0) where
  -- Every entry of the manifests satisfies `P` with its jurisdiction.
  abbrev Holds : Map (CacheEntry ManifestRecord) → Type 0
  Holds m = (k : String) (e : CacheEntry ManifestRecord) → lookup k m ≡ some e → P k e

  -- The entry that a write of a live manifest makes satisfies `P`.
  abbrev pub Writes : Call → Type 0
  Writes (puts_manifest j r ttl now) =
      is_live_status r.source_status ≡ true
      → P j (record {
        value = r;
        expires_at = now + ttl;
        written_at = now;
        byte_size = length r.raw_json;
      })
  Writes _ = Unit
