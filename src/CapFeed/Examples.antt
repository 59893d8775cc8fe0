-- ===== src/CapFeed/Examples.antt =====
-- The theorem on the alert lifecycle at a concrete alert and its cancellation. Nothing is trimmed,
-- split or sorted here.
use sthira.Prelude.{ℕ, ◌≡◌, some, List, [], ◌∷◌}
use sthira.CapFeed.{MessageType, msg_alert, msg_cancel, Parsed, Library, Lifecycle, new_lifecycle}
use sthira.CapFeed.Revisions.{IsOrdered}
use sthira.CapFeed.History.{Request, ingest_it, expire_it, run, revisions-IsOrdered}

abbrev plain : Library
plain = record { trim_space = λ s. s; split = λ s sep. s ∷ []; sort_strings = λ ids. ids }

abbrev cyclone : MessageType → ℕ → Parsed
cyclone kind at = record {
  alert = record {
    identifier = "a1";
    sent = at;
    msg_type = kind;
    references = "a1" ∷ [];
    expires = 90;
  };
  sha256 = "h";
}

abbrev calls : List Request
calls = ingest_it (cyclone msg_alert 1) 2 ∷ expire_it 3 ∷ ingest_it (cyclone msg_cancel 4) 5 ∷ []

revisions-IsOrdered_example :
    (l : Lifecycle) × (run plain (some new_lifecycle) calls ≡ some l) × IsOrdered l
revisions-IsOrdered_example = revisions-IsOrdered plain calls
