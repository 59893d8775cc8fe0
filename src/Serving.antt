-- ===== src/Serving.antt =====
-- backend/internal/offlinedelivery/cache.go: the memory cache in front of the publications. Instants
-- are nanoseconds and one reading of the clock serves a call. A shelf is a map of entries with the map
-- of their write times; a bound of zero, which also stands for the negative ones, is no bound. Among
-- entries written at one instant, whose order the source leaves open, the first is taken.
pub mod Shelves
pub mod Eviction
pub mod Bounded
pub mod History
pub mod Clogged
pub mod Served
mod Examples
use sthira.Prelude.{
  ℕ, zero, suc, ◌+◌, ◌-◌, String, Bool, true, false, not, ◌&&◌, ◌||◌, Option, none, some, List, [],
  ◌∷◌, ◌++◌, ltb, str_eq, if◌then◌else◌, Map, lookup, insert, remove, length,
}
use Prim.Native.String.{◌++◌ as append_str}
use text.Mathlib.Text.{starts_with}

pub record ManifestRecord : Type 0 where
  pub jurisdiction : String
  pub revision : ℕ
  pub raw_json : List ℕ
  pub checksum_sha256 : String
  pub source_status : String

pub record CardRecord : Type 0 where
  pub package_id : String
  pub version : ℕ
  pub raw_json : List ℕ
  pub checksum_sha256 : String
  pub source_status : String

pub record CacheEntry (V : Type 0) : Type 0 where
  pub value : V
  pub expires_at : ℕ
  pub written_at : ℕ
  pub byte_size : ℕ

-- `manifests` with `manifestTimes`, and `cards` with `cardTimes`.
pub record Shelf (V : Type 0) : Type 0 where
  pub entries : Map (CacheEntry V)
  pub times : Map ℕ

pub record MemoryCache : Type 0 where
  pub manifests : Shelf ManifestRecord
  pub cards : Shelf CardRecord
  pub max_entries : ℕ
  pub max_bytes : ℕ
  pub current_bytes : ℕ

unfoldable pub new_memory_cache : ℕ → ℕ → MemoryCache
new_memory_cache max_entries max_bytes = record {
  manifests = record { entries = []; times = [] };
  cards = record { entries = []; times = [] };
  max_entries = max_entries;
  max_bytes = max_bytes;
  current_bytes = 0;
}

module _ {V : Type 0} where
  -- What a read of a shelf finds that has not expired.
  abbrev pub unexpired : ℕ → Option (CacheEntry V) → Option V
  unexpired now none = none
  unexpired now (some e) = if ltb e.expires_at now then none else some e.value

  -- The body of invalidateManifestLocked and invalidateCardLocked, with the byte count, which is 0 here
  -- where it would be negative in the source.
  abbrev pub taken_out : String → Shelf V → ℕ → Option (CacheEntry V) → Shelf V × ℕ
  taken_out key shelf bytes none = (shelf, bytes)
  taken_out key shelf bytes (some e) = (
    record { entries = remove key shelf.entries; times = remove key shelf.times },
    bytes - e.byte_size,
  )

  unfoldable pub take_out : String → Shelf V → ℕ → Shelf V × ℕ
  take_out key shelf bytes = taken_out key shelf bytes (lookup key shelf.entries)

  -- The writes of PutManifest and PutCard after the eviction.
  unfoldable pub write_entry : String → V → ℕ → ℕ → ℕ → Shelf V → Shelf V
  write_entry key v size ttl now shelf = record {
    entries =
        insert key
          (record { value = v; expires_at = now + ttl; written_at = now; byte_size = size })
          shelf.entries;
    times = insert key now shelf.times;
  }

unfoldable pub get_manifest : MemoryCache → ℕ → String → Option ManifestRecord
get_manifest c now jurisdiction = unexpired now (lookup jurisdiction c.manifests.entries)

unfoldable pub get_card : MemoryCache → ℕ → String → Option CardRecord
get_card c now key = unexpired now (lookup key c.cards.entries)

unfoldable pub invalidate_manifest : MemoryCache → String → MemoryCache
unfolding take_out
invalidate_manifest c jurisdiction =
    let out = take_out jurisdiction c.manifests c.current_bytes in
    record c { manifests = out.0; current_bytes = out.1 }

unfoldable pub invalidate_card : MemoryCache → String → MemoryCache
unfolding take_out
invalidate_card c key =
    let out = take_out key c.cards c.current_bytes in
    record c { cards = out.0; current_bytes = out.1 }

-- A candidate for eviction; its kind is that of its constructor.
pub data Candidate : Type 0 where
  manifest card : String → ℕ → Candidate

abbrev pub written : Candidate → ℕ
written (manifest key t) = t
written (card key t) = t

abbrev pub manifest_candidates : Map ℕ → List Candidate
manifest_candidates [] = []
manifest_candidates ((key, t) ∷ times) = manifest key t ∷ manifest_candidates times

abbrev pub card_candidates : Map ℕ → List Candidate
card_candidates [] = []
card_candidates ((key, t) ∷ times) = card key t ∷ card_candidates times

abbrev pub candidates : MemoryCache → List Candidate
candidates c = manifest_candidates c.manifests.times ++ card_candidates c.cards.times

abbrev pub older : Candidate → Option Candidate → Candidate
older x none = x
older x (some y) = if ltb (written y) (written x) then y else x

-- cs[0] after the sort by write time.
unfoldable pub oldest : List Candidate → Option Candidate
oldest [] = none
oldest (x ∷ xs) = some (older x (oldest xs))

unfoldable pub evict : MemoryCache → Candidate → MemoryCache
unfolding invalidate_manifest invalidate_card
evict c (manifest key t) = invalidate_manifest c key
evict c (card key t) = invalidate_card c key

-- The condition of the loop.
abbrev pub over : MemoryCache → ℕ → ℕ → Bool
over c target_entries target_bytes =
    (ltb 0 c.max_entries && ltb c.max_entries target_entries)
    || (ltb 0 c.max_bytes && ltb c.max_bytes target_bytes)

-- A round of the loop: whether a bound is passed, and the oldest candidate.
abbrev pub round : Bool → Option Candidate → MemoryCache → (Candidate → MemoryCache) → MemoryCache
round false o c next = c
round true none c next = c
round true (some x) c next = next x

-- The loop of evictToFitLocked, for a number of rounds.
unfoldable pub evict_loop : ℕ → MemoryCache → ℕ → ℕ → MemoryCache
unfolding evict
evict_loop zero c target_entries target_bytes = c
evict_loop (suc n) c target_entries target_bytes =
    round (over c target_entries target_bytes) (oldest (candidates c)) c
      (λ x. evict_loop n (evict c x) (target_entries - 1) target_bytes)

abbrev pub count : MemoryCache → ℕ
count c = length c.manifests.entries + length c.cards.entries

-- evictIfNeededManifestLocked and evictIfNeededCardLocked; a round for each candidate is enough.
unfoldable pub evict_if_needed : MemoryCache → ℕ → MemoryCache
unfolding evict_loop
evict_if_needed c new_size =
    evict_loop (length (candidates c)) c (count c + 1) (c.current_bytes + new_size)

unfoldable pub is_live_status : String → Bool
is_live_status s = str_eq s "CURRENT" || str_eq s ""

unfoldable pub put_manifest : MemoryCache → String → ManifestRecord → ℕ → ℕ → MemoryCache
unfolding is_live_status evict_if_needed write_entry
put_manifest c jurisdiction r ttl now =
    let size = length r.raw_json in
    let c' = evict_if_needed c size in
    if not (is_live_status r.source_status) then c else record c' {
      manifests = write_entry jurisdiction r size ttl now c'.manifests;
      current_bytes = c'.current_bytes + size;
    }

unfoldable pub put_card : MemoryCache → String → CardRecord → ℕ → ℕ → MemoryCache
unfolding is_live_status evict_if_needed write_entry
put_card c key r ttl now =
    let size = length r.raw_json in
    let c' = evict_if_needed c size in
    if not (is_live_status r.source_status) then c else record c' {
      cards = write_entry key r size ttl now c'.cards;
      current_bytes = c'.current_bytes + size;
    }

-- The loop of InvalidatePackage over the keys of the cards.
unfoldable pub invalidate_matching :
    String → MemoryCache → Map (CacheEntry CardRecord) → MemoryCache
unfolding invalidate_card
invalidate_matching start c [] = c
invalidate_matching start c ((key, e) ∷ rest) =
    invalidate_matching start (if starts_with key start then invalidate_card c key else c) rest

unfoldable pub invalidate_package : MemoryCache → String → MemoryCache
unfolding invalidate_matching
invalidate_package c package_id = invalidate_matching (append_str package_id ":") c c.cards.entries

-- The loops of OnSourceWithdrawn and OnSourceQuarantined over cachedJurisdictions.
unfoldable pub invalidate_each : MemoryCache → Map (CacheEntry ManifestRecord) → MemoryCache
unfolding invalidate_manifest
invalidate_each c [] = c
invalidate_each c ((key, e) ∷ rest) = invalidate_each (invalidate_manifest c key) rest

unfoldable pub on_source_withdrawn : MemoryCache → MemoryCache
unfolding invalidate_each
on_source_withdrawn c = invalidate_each c c.manifests.entries
