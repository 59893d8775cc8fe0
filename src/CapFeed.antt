-- ===== src/CapFeed.antt =====
-- backend/internal/capfeed/lifecycle.go: the lifecycle of CAP alerts, and the part of the alert of
-- backend/internal/capfeed/cap.go that it reads. Instants are nanoseconds; a missing map entry is
-- `none`, also where the source reads the empty state.
pub mod Revisions
pub mod History
pub mod Appended
pub mod Replay
mod Examples
use sthira.Prelude.{
  ℕ, zero, suc, ◌+◌, String, Bool, true, false, not, ◌&&◌, Option, none, some, List, [], ◌∷◌, ◌++◌,
  str_eq, ltb, leb, ◌==◌, if◌then◌else◌, Map, lookup, insert,
}

pub data MessageType : Type 0 where
  msg_alert msg_update msg_cancel msg_ack msg_error : MessageType

pub data LifecycleState : Type 0 where
  active superseded cancelled expired : LifecycleState

pub record Alert : Type 0 where
  pub identifier : String
  pub sent : ℕ
  pub msg_type : MessageType
  pub references : List String
  pub expires : ℕ

pub record Parsed : Type 0 where
  pub alert : Alert
  pub sha256 : String

pub data QuarantineReason : Type 0 where
  parse_failure unknown_reference stale_update non_operational : QuarantineReason

-- `detail` without the identifier that Sprintf appends, which is `identifier`.
pub record Quarantined : Type 0 where
  pub reason : QuarantineReason
  pub detail : String
  pub identifier : String
  pub sha256 : String
  pub source_uri : String
  pub at : ℕ

pub record Stored : Type 0 where
  pub parsed : Parsed
  pub sent : ℕ

pub record Lifecycle : Type 0 where
  pub by_id : Map (List Stored)
  pub state : Map LifecycleState
  pub quarantine : List Quarantined

abbrev pub new_lifecycle : Lifecycle
new_lifecycle = record { by_id = []; state = []; quarantine = [] }

pub record IngestResult : Type 0 where
  pub identifier : String
  pub state : Option LifecycleState
  pub applied : Bool

-- Go's library, as far as the lifecycle calls it: strings.TrimSpace, strings.Split and sort.Strings.
pub record Library : Type 0 where
  pub trim_space : String → String
  pub split : String → String → List String
  pub sort_strings : List String → List String

-- l.byID[id], where a missing entry is the empty list.
abbrev pub or_empty : Option (List Stored) → List Stored
or_empty none = []
or_empty (some revs) = revs

-- revs[len(revs)-1], and `none` for the empty list
unfoldable pub last : List Stored → Option Stored
last [] = none
last (r ∷ rs) = elim (last rs) [ none ↦ some r | some s ↦ some s ]

-- sort.SliceStable by `sent`
unfoldable pub insert_by_sent : Stored → List Stored → List Stored
insert_by_sent x [] = x ∷ []
insert_by_sent x (y ∷ ys) =
    let rest = insert_by_sent x ys in if ltb y.sent x.sent then y ∷ rest else x ∷ (y ∷ ys)

unfoldable pub sort_by_sent : List Stored → List Stored
unfolding insert_by_sent
sort_by_sent [] = []
sort_by_sent (x ∷ xs) = insert_by_sent x (sort_by_sent xs)

-- The loop of isDuplicateLocked.
unfoldable pub has_sent : List Stored → ℕ → Bool
has_sent [] sent = false
has_sent (r ∷ rs) sent = let rest = has_sent rs sent in if r.sent == sent then true else rest

abbrev pub not_after : Option Stored → ℕ → Bool
not_after none sent = false
not_after (some r) sent = leb sent r.sent

-- isStaleLocked
unfoldable pub is_stale : Lifecycle → String → ℕ → Bool
unfolding last
is_stale l id sent = not_after (last (or_empty (lookup id l.by_id))) sent

-- appendRevisionLocked
unfoldable pub append_revision : Lifecycle → String → Parsed → Lifecycle
unfolding sort_by_sent
append_revision l id p = record l {
  by_id =
      insert id
        (sort_by_sent
          (or_empty (lookup id l.by_id) ++ record { parsed = p; sent = p.alert.sent } ∷ []))
        l.by_id;
}

abbrev pub with_state : String → LifecycleState → Lifecycle → Lifecycle
with_state id st l = record l { state = insert id st l.state }

-- quarantineLocked
abbrev pub quarantined : Lifecycle → QuarantineReason → Parsed → String → ℕ → Lifecycle
quarantined l why p detail now = record l {
  quarantine =
      l.quarantine
      ++ record {
        reason = why;
        detail = detail;
        identifier = p.alert.identifier;
        sha256 = p.sha256;
        source_uri = "";
        at = now;
      }
        ∷ [];
}

-- QuarantineParse
abbrev pub quarantine_parse : Lifecycle → String → String → String → ℕ → Lifecycle
quarantine_parse l source_uri sha256_hex detail now = record l {
  quarantine =
      l.quarantine
      ++ record {
        reason = parse_failure;
        detail = detail;
        identifier = "";
        sha256 = sha256_hex;
        source_uri = source_uri;
        at = now;
      }
        ∷ [];
}

abbrev pub is_known : Option (List Stored) → Bool
is_known none = false
is_known (some revs) = true

abbrev pub is_active : Option LifecycleState → Bool
is_active (some active) = true
is_active _ = false

-- p.Alert.MsgType of an update or a cancel gives the state of its target; others start an alert.
abbrev pub target_state : MessageType → Option LifecycleState
target_state msg_update = some superseded
target_state msg_cancel = some cancelled
target_state _ = none

-- The case of `Ingest` for an update or a cancel, with the reference that it resolved.
unfoldable pub revise :
    Lifecycle → Parsed → LifecycleState → Option String → ℕ → Lifecycle × IngestResult
unfolding is_stale append_revision
revise l p st none now = (
  quarantined l unknown_reference p "no known referenced alert" now,
  record {
    identifier = p.alert.identifier;
    state = lookup p.alert.identifier l.state;
    applied = false;
  },
)
revise l p st (some target) now =
    if is_stale l target p.alert.sent
    then (
      quarantined l stale_update p "revision is not newer than current" now,
      record { identifier = p.alert.identifier; state = lookup target l.state; applied = false },
    )
    else (
      with_state target st (append_revision l target p),
      record { identifier = target; state = some st; applied = true },
    )

-- The default case of `Ingest`.
unfoldable pub begin : Lifecycle → Parsed → ℕ → Lifecycle × IngestResult
unfolding is_stale append_revision has_sent
begin l p now =
    let id = p.alert.identifier in
    let refused : IngestResult = record {
      identifier = id;
      state = lookup id l.state;
      applied = false;
    } in
    if has_sent (or_empty (lookup id l.by_id)) p.alert.sent
    then (l, refused)
    else if is_stale l id p.alert.sent
    then (quarantined l stale_update p "revision is not newer than current" now, refused)
    else (
      with_state id active (append_revision l id p),
      record { identifier = id; state = some active; applied = true },
    )

module _ (lib : Library) where
  abbrev pub second : List String → String → String
  second (a ∷ b ∷ rest) ref = lib.trim_space b
  second _ ref = ref

  -- The loop of resolveReferenceLocked; no reference found is "", and so `none`.
  unfoldable pub resolve_reference : Lifecycle → List String → Option String
  resolve_reference l [] = none
  resolve_reference l (ref ∷ refs) =
      let rest = resolve_reference l refs in
      let candidate = lib.trim_space (second (lib.split ref ",") ref) in
      if is_known (lookup candidate l.by_id)
      then (if str_eq candidate "" then none else some candidate)
      else rest

  -- `Ingest`, of an alert that is not nil.
  unfoldable pub ingest : Lifecycle → Parsed → ℕ → Lifecycle × IngestResult
  unfolding resolve_reference revise begin
  ingest l p now = elim (target_state p.alert.msg_type) [
    | none ↦ begin l p now
    | some st ↦ revise l p st (resolve_reference l p.alert.references) now
  ]

-- The loop of `Expire` over byID: the states left and the identifiers that expired; `none` where
-- the source would panic, at an empty list of revisions.
unfoldable pub expire_from :
    Map (List Stored) → Map LifecycleState → ℕ → Option (Map LifecycleState × List String)
expire_from [] state now = some (state, [])
expire_from ((id, revs) ∷ m) state now = elim (is_active (lookup id state)) [
  | false ↦ expire_from m state now
  | true ↦ elim (last revs) [
    | none ↦ none
    | some latest ↦ elim (ltb now latest.parsed.alert.expires) [
      | true ↦ expire_from m state now
      | false ↦ elim (expire_from m (insert id expired state) now) [
        | none ↦ none
        | some (state', ids) ↦ some (state', id ∷ ids)
      ]
    ]
  ]
]

-- `Expire`: the lifecycle left, and the identifiers that expired.
abbrev expired_lifecycle :
    Library
    → Lifecycle
    → Option (Map LifecycleState × List String)
    → Option (Lifecycle × List String)
expired_lifecycle lib l none = none
expired_lifecycle lib l (some (state, ids)) =
    some (record l { state = state }, lib.sort_strings ids)

unfoldable pub expire : Library → Lifecycle → ℕ → Option (Lifecycle × List String)
unfolding expire_from
expire lib l now = expired_lifecycle lib l (expire_from l.by_id l.state now)

-- The loop of `Active`, and `Active`.
unfoldable pub active_ids : Map LifecycleState → List String
active_ids [] = []
active_ids ((id, st) ∷ m) =
    let rest = active_ids m in if is_active (some st) then id ∷ rest else rest

unfoldable pub list_active : Library → Lifecycle → List String
unfolding active_ids
list_active lib l = lib.sort_strings (active_ids l.state)

-- Latest
unfoldable pub latest : Lifecycle → String → Option Stored
unfolding last
latest l id = last (or_empty (lookup id l.by_id))
