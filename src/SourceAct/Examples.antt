-- ===== src/SourceAct/Examples.antt =====
-- The theorems on source activation at a concrete source.
use sthira.Prelude.{ℕ, ◌≡◌, refl, none, some, List, [], ◌∷◌, lookup, insert}
use sthira.SourceAct.{
  State, operational, quarantined, Source, NewSource, Service, discover, transition,
  require_operational, new_service, legal, may_drive_guidance,
}
use sthira.SourceAct.Laws.{
  Request, discovers, transitions, perform, run, entered, operational_earned,
}
use sthira.SourceAct.Steps.{Within}

abbrev imd : NewSource
imd = record {
  source_id = "imd";
  government_owner = "IMD";
  official_domain = "imd.gov.in";
  state = none;
}

-- The five transitions of an activation.
abbrev activation : List Request
activation =
    discovers imd 1
    ∷ transitions "imd" State.access_requested "op" "" "e1" 2
    ∷ transitions "imd" State.sample_acquired "op" "" "e2" 3
    ∷ transitions "imd" State.validated "op" "" "e3" 4
    ∷ transitions "imd" State.authorized "op" "" "e4" 5
    ∷ transitions "imd" operational "op" "" "e5" 6
    ∷ []

abbrev imd_source : State → ℕ → ℕ → Source
imd_source state version now = record {
  source_id = "imd";
  government_owner = "IMD";
  official_domain = "imd.gov.in";
  state = state;
  version = version;
  updated_at = now;
}

operational_earned_example :
    (operational ≡ operational)
    × Within
        (operational ∷ State.authorized ∷ State.validated ∷ State.sample_acquired
          ∷ State.access_requested ∷ State.discovered ∷ [])
        (entered (new_service none) activation "imd" [])
unfolding run perform discover transition require_operational legal may_drive_guidance lookup insert
operational_earned_example =
    operational_earned none activation "imd" (imd_source operational 6 6) refl

abbrev quarantined_service : Service
quarantined_service = record { by_id = ("imd", imd_source quarantined 3 9) ∷ []; audit = some [] }
