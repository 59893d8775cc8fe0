-- ===== src/SourceAct/Steps.antt =====
-- The order of the states under the table `transitions` of backend/internal/sourceact/activation.go.
use sthira.Prelude.{◌≡◌, true, List, [], ◌∷◌}
use sthira.SourceAct.{
  State, discovered, access_requested, sample_acquired, validated, authorized, operational,
  suspended, retired, quarantined, legal,
}

-- The first states stand among the second ones, in their order.
pub data Within : List State → List State → Type 0 where
  none_left : {ss : List State} → Within [] ss
  passed : {xs ss : List State} {s : State} → Within xs ss → Within xs (s ∷ ss)
  taken : {xs ss : List State} {s : State} → Within xs ss → Within (s ∷ xs) (s ∷ ss)

-- The states that a source has been through, the last one first; of one in quarantine, none is known.
abbrev pub been_through : State → List State
been_through discovered = discovered ∷ []
been_through access_requested = access_requested ∷ discovered ∷ []
been_through sample_acquired = sample_acquired ∷ access_requested ∷ discovered ∷ []
been_through validated = validated ∷ sample_acquired ∷ access_requested ∷ discovered ∷ []
been_through authorized =
    authorized ∷ validated ∷ sample_acquired ∷ access_requested ∷ discovered ∷ []
been_through operational =
    operational ∷ authorized ∷ validated ∷ sample_acquired ∷ access_requested ∷ discovered ∷ []
been_through suspended =
    operational ∷ authorized ∷ validated ∷ sample_acquired ∷ access_requested ∷ discovered ∷ []
been_through retired =
    operational ∷ authorized ∷ validated ∷ sample_acquired ∷ access_requested ∷ discovered ∷ []
been_through quarantined = []

-- A legal transition takes the next step, or leaves the steps taken as they are.
pub legal-been_through :
    (a b : State) (ss : List State)
    → legal a b ≡ true
    → Within (been_through a) ss
    → Within (been_through b) (b ∷ ss)
unfolding legal
legal-been_through discovered access_requested ss h w = taken w
legal-been_through access_requested sample_acquired ss h w = taken w
legal-been_through sample_acquired validated ss h w = taken w
legal-been_through validated authorized ss h w = taken w
legal-been_through authorized operational ss h w = taken w
legal-been_through operational suspended ss h w = passed w
legal-been_through operational retired ss h w = passed w
legal-been_through suspended operational ss h w = passed w
legal-been_through suspended retired ss h w = passed w
legal-been_through _ quarantined ss h w = none_left
legal-been_through _ _ ss h w = cc
