-- ===== src/CapFeed/History.antt =====
-- Any sequence of calls of backend/internal/capfeed/lifecycle.go.
use sthira.Prelude.{ℕ, ◌≡◌, refl, String, Option, none, some, List, [], ◌∷◌}
use sthira.CapFeed.{Parsed, Lifecycle, Library, ingest, expire, quarantine_parse, new_lifecycle}
use sthira.CapFeed.Revisions.{IsOrdered, ingest-IsOrdered, expire_from-some}

-- The calls that change the lifecycle.
pub data Request : Type 0 where
  ingest_it : Parsed → ℕ → Request
  parse_failed : String → String → String → ℕ → Request
  expire_it : ℕ → Request

abbrev after_expiry : Option (Lifecycle × List String) → Option Lifecycle
after_expiry none = none
after_expiry (some (l, ids)) = some l

-- A call; `none` is a panic.
unfoldable pub perform : Library → Lifecycle → Request → Option Lifecycle
perform lib l (ingest_it p now) = some (ingest lib l p now).0
perform lib l (parse_failed uri sha detail now) = some (quarantine_parse l uri sha detail now)
perform lib l (expire_it now) = after_expiry (expire lib l now)

unfoldable pub run : Library → Option Lifecycle → List Request → Option Lifecycle
unfolding perform
run lib l [] = l
run lib none (r ∷ rs) = none
run lib (some l) (r ∷ rs) = run lib (perform lib l r) rs

perform-IsOrdered :
    (lib : Library) (l : Lifecycle) (r : Request)
    → IsOrdered l
    → (l' : Lifecycle) × (perform lib l r ≡ some l') × IsOrdered l'
unfolding perform expire
perform-IsOrdered lib l (ingest_it p now) o = (_, refl, ingest-IsOrdered lib l p now o)
perform-IsOrdered lib l (parse_failed uri sha detail now) o = (_, refl, o)
perform-IsOrdered lib l (expire_it now) o =
    let (r, q) = expire_from-some l.by_id l.state now o in (record l { state = r.0 }, rw q refl, o)

run-IsOrdered :
    (lib : Library) (rs : List Request) (l : Lifecycle)
    → IsOrdered l
    → (l' : Lifecycle) × (run lib (some l) rs ≡ some l') × IsOrdered l'
unfolding run
run-IsOrdered lib [] l o = (l, refl, o)
run-IsOrdered lib (r ∷ rs) l o =
    let (l', q, o') = perform-IsOrdered lib l r o in
    let (l'', q', o'') = run-IsOrdered lib rs l' o' in (l'', rw q q', o'')

-- Any calls on a new lifecycle return without a panic, and leave every identifier with at least one
-- revision and its revisions in strictly increasing order of their sent times.
pub revisions-IsOrdered :
    (lib : Library) (rs : List Request)
    → (l : Lifecycle) × (run lib (some new_lifecycle) rs ≡ some l) × IsOrdered l
revisions-IsOrdered lib rs = run-IsOrdered lib rs new_lifecycle tt
