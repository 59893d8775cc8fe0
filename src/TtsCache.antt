-- ===== src/TtsCache.antt =====
-- backend/internal/ttsworker/cache.go: the cache of synthesised audio. `lru` is the container/list,
-- read from its back (the entry used longest ago) to its front; the map `items` is the index of that
-- list by key, so a lookup in it is a search of the list. Instants are nanoseconds; a source version
-- that is negative (no clock, or none recorded) is `none`; audio is a list of its bytes.
pub mod Sums
pub mod Sound
pub mod Lookups
pub mod Budget
mod Examples
use sthira.Prelude.{
  ℕ, zero, suc, ◌+◌, ◌-◌, String, Bool, true, false, not, ◌&&◌, Option, none, some, List, [], ◌∷◌,
  ◌++◌, str_eq, ltb, leb, ◌==◌, if◌then◌else◌,
}
use sthira.Prelude.Result.{Result, ok, err, ◌>>=◌, ◌>>◌, reject_if}

pub record SynthesisSettings : Type 0 where
  pub sample_rate : ℕ
  pub bit_depth : ℕ
  pub channels : ℕ
  pub speaking_rate : ℕ  -- the bits of the float64

pub record CacheIdentity : Type 0 where
  pub text : String
  pub template_key : String
  pub template_version : ℕ
  pub source_version : ℕ
  pub template_sha256 : String
  pub language : String
  pub model_revision : String
  pub voice_revision : String
  pub synthesis_settings : SynthesisSettings

-- ErrInvalidIdentity with the field that it names, and the error of `Put`.
pub data CacheError : Type 0 where
  text template_key language model_revision voice_revision : CacheError
  source_version template_version template_sha256 empty_bytes : CacheError

unfoldable pub validate : CacheIdentity → Result CacheError (Unit {0})
validate id = do
  reject_if (str_eq id.text "") text
  reject_if (str_eq id.template_key "") template_key
  reject_if (str_eq id.language "") language
  reject_if (str_eq id.model_revision "") model_revision
  reject_if (str_eq id.voice_revision "") voice_revision
  reject_if (id.source_version == 0) source_version
  reject_if (id.template_version == 0) template_version
  reject_if (str_eq id.template_sha256 "") template_sha256

pub record CacheEntry : Type 0 where
  pub key : CacheIdentity
  pub bytes : List ℕ
  pub checksum_sha256 : String
  pub byte_size : ℕ
  pub created_at : ℕ
  pub source_version_at_entry : Option ℕ
  pub template_key : String
  pub language : String

pub record Codec : Type 0 where
  pub ttl : ℕ
  pub max_bytes : ℕ
  pub lru : List CacheEntry
  pub bytes : ℕ

abbrev or_default : ℕ → ℕ → ℕ
or_default given default = if given == 0 then default else given

-- NewCodec, with its defaults for a bound that is not positive: 16 MiB and 24 hours.
unfoldable pub new_codec : ℕ → ℕ → Codec
new_codec max_bytes ttl = record {
  ttl = or_default ttl 86400000000000;
  max_bytes = or_default max_bytes 16777216;
  lru = [];
  bytes = 0;
}

abbrev pub expired : Codec → ℕ → CacheEntry → Bool
expired c now e = ltb (e.created_at + c.ttl) now

-- current >= 0 && current > entry.SourceVersionAtEntry
abbrev pub withdrawn : Option ℕ → CacheEntry → Bool
withdrawn none e = false
withdrawn (some v) e = elim e.source_version_at_entry [ none ↦ true | some w ↦ ltb w v ]

-- len(bytes)
unfoldable pub size : List ℕ → ℕ
size [] = 0
size (b ∷ bs) = 1 + size bs

-- The loop of `Put` over the back of the list: what it keeps, and the bytes left.
unfoldable pub evict : ℕ → List CacheEntry → ℕ → List CacheEntry × ℕ
evict max [] bytes = ([], bytes)
evict max (e ∷ es) bytes = elim (ltb max bytes) [
  | true ↦ evict max es (bytes - e.byte_size)
  | false ↦ (e ∷ es, bytes)
]

-- A loop that removes the elements that `drop` names: what is kept, the bytes left and the number
-- removed.
unfoldable pub sweep : (CacheEntry → Bool) → List CacheEntry → ℕ → ℕ → List CacheEntry × ℕ × ℕ
sweep drop [] bytes n = ([], bytes, n)
sweep drop (e ∷ es) bytes n = elim (drop e) [
  | true ↦ sweep drop es (bytes - e.byte_size) (n + 1)
  | false ↦ (let (kept, left, removed) = sweep drop es bytes n in (e ∷ kept, left, removed))
]

abbrev pub swept : Codec → List CacheEntry × ℕ × ℕ → ℕ × Codec
swept c (kept, left, n) = (n, record c { lru = kept; bytes = left })

abbrev pub fitted : Codec → List CacheEntry × ℕ → Codec
fitted c (kept, left) = record c { lru = kept; bytes = left }

-- `marshal` is json.Marshal on identities, `sha256_hex` the hex of sha256.
module _ (marshal : CacheIdentity → Option String) (sha256_hex : List ℕ → String) where
  -- CacheIdentity.String
  unfoldable pub to_string : CacheIdentity → String
  to_string id = elim (marshal id) [ none ↦ "" | some s ↦ s ]

  -- c.items[key]
  unfoldable pub item : String → List CacheEntry → Option CacheEntry
  unfolding to_string
  item k [] = none
  item k (e ∷ es) = if str_eq (to_string e.key) k then some e else item k es

  -- c.lru.Remove and delete(c.items, key), on the element that `items` has for the key.
  unfoldable pub unlink : String → List CacheEntry → List CacheEntry
  unfolding to_string
  unlink k [] = []
  unlink k (e ∷ es) = let rest = unlink k es in if str_eq (to_string e.key) k then es else e ∷ rest

  -- removeElement, on an element of the list
  unfoldable pub remove_element : CacheEntry → Codec → Codec
  unfolding unlink
  remove_element e c = record c {
    lru = unlink (to_string e.key) c.lru;
    bytes = c.bytes - e.byte_size;
  }

  -- `Get` at the time `now`, where the clock reads `current`.
  unfoldable pub get : CacheIdentity → ℕ → Option ℕ → Codec → Option CacheEntry × Codec
  unfolding remove_element
  get id now current c = elim (item (to_string id) c.lru) [
    | none ↦ (none, c)
    | some e ↦
        (if expired c now e
          then (none, remove_element e c)
          else if withdrawn current e
          then (none, remove_element e c)
          else (some e, record c { lru = unlink (to_string e.key) c.lru ++ e ∷ [] }))
  ]

  unfoldable pub fresh : CacheIdentity → List ℕ → ℕ → Option ℕ → CacheEntry
  unfolding size
  fresh id bytes now current = record {
    key = id;
    bytes = bytes;
    checksum_sha256 = sha256_hex bytes;
    byte_size = size bytes;
    created_at = now;
    source_version_at_entry = current;
    template_key = id.template_key;
    language = id.language;
  }

  abbrev pub replaced : CacheIdentity → Codec → Codec
  replaced id c = elim (item (to_string id) c.lru) [ none ↦ c | some e ↦ remove_element e c ]

  unfoldable pub put : CacheIdentity → List ℕ → ℕ → Option ℕ → Codec → Result CacheError Codec
  unfolding evict fresh
  put id [] now current c = err empty_bytes
  put id (b ∷ bs) now current c =
      let e = fresh id (b ∷ bs) now current in
      let c' = replaced id c in
      ok (fitted c' (evict c'.max_bytes (c'.lru ++ e ∷ []) (c'.bytes + e.byte_size)))

abbrev pub every : CacheEntry → Bool
every e = true

-- removeAll, which InvalidateBySourceVersion calls: the number removed.
unfoldable pub remove_all : Codec → ℕ × Codec
unfolding sweep
remove_all c = swept c (sweep every c.lru c.bytes 0)

-- entry.SourceVersionAtEntry >= 0 && entry.SourceVersionAtEntry < newVersion
abbrev pub outdated : ℕ → CacheEntry → Bool
outdated version e = elim e.source_version_at_entry [ none ↦ false | some v ↦ ltb v version ]

unfoldable pub handle_source_advance : ℕ → Codec → Codec
unfolding sweep
handle_source_advance version c = (swept c (sweep (outdated version) c.lru c.bytes 0)).1

unfoldable pub evict_expired : ℕ → Codec → ℕ × Codec
unfolding sweep
evict_expired now c = swept c (sweep (expired c now) c.lru c.bytes 0)
