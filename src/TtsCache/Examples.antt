-- ===== src/TtsCache/Examples.antt =====
-- The theorems on the audio cache at concrete audio. json.Marshal is stood for by the text of the
-- identity, and the hash by a constant.
use sthira.Prelude.{ℕ, String, Option, some, List, [], ◌∷◌}
use sthira.TtsCache.{CacheIdentity, CacheEntry, Codec, new_codec}
use sthira.TtsCache.Sound.{Sound}
use sthira.TtsCache.Lookups.{Request, put_it, get_it, run, within_budget}

abbrev marshal : CacheIdentity → Option String
marshal id = some id.text

abbrev hash : List ℕ → String
hash bs = "h"

abbrev welcome : CacheIdentity
welcome = record {
  text = "welcome";
  template_key = "greeting";
  template_version = 1;
  source_version = 4;
  template_sha256 = "d";
  language = "or";
  model_revision = "m1";
  voice_revision = "v1";
  synthesis_settings = record {
    sample_rate = 22050;
    bit_depth = 16;
    channels = 1;
    speaking_rate = 0;
  };
}

abbrev calls : List Request
calls = put_it welcome (1 ∷ 2 ∷ []) 10 (some 4) ∷ get_it welcome 12 (some 4) ∷ []

within_budget_example : Sound marshal hash (run marshal hash calls (new_codec 3 100))
within_budget_example = within_budget marshal hash 3 100 calls

abbrev kept_entry : CacheEntry
kept_entry = record {
  key = welcome;
  bytes = 1 ∷ 2 ∷ [];
  checksum_sha256 = "h";
  byte_size = 2;
  created_at = 10;
  source_version_at_entry = some 4;
  template_key = "greeting";
  language = "or";
}

abbrev goodbye : CacheIdentity
goodbye = record welcome { text = "goodbye"; template_key = "farewell" }

abbrev roomy : Codec
roomy = record { ttl = 100; max_bytes = 9; lru = []; bytes = 0 }
