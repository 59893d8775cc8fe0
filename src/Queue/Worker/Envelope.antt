-- ===== src/Queue/Worker/Envelope.antt =====
-- validateSuccessEnvelope of backend/internal/offlinequeue/worker.go, on a body that is decoded. Go's JSON
-- decoder, the trimming and splitting of a path, and fmt.Sprintf are given.
use sthira.Prelude.{
  ℕ, ◌-◌, String, Bool, not, ◌&&◌, ◌||◌, Option, none, some, List, [], ◌∷◌, ◌==◌, leb, str_eq,
  if◌then◌else◌, Map, lookup,
}
use sthira.Prelude.Sets.{contains}
use sthira.Prelude.Result.{Result, ok, err}
use Prim.Native.String.{len, slice}
use text.Mathlib.Text.{starts_with}

-- What is printed: a text, as a string or an error, or a number.
pub data Arg : Type 0 where
  quoted : String → Arg
  number : ℕ → Arg

-- `Data` of an envelope: missing or null, not an object, or an object by its members that are strings.
pub data Data : Type 0 where
  no_object : Data
  not_object : String → Data
  object : Map String → Data

pub record SuccessEnvelope : Type 0 where
  pub error_codes : List String
  pub content : Data

pub record Library : Type 0 where
  pub sprintf : String → List Arg → String
  pub duplicate_keys : String → Option String  -- checkNoDuplicateKeys: the error
  pub success_envelope : String → Result String SuccessEnvelope
  pub error_envelope : String → Option (List String)
  pub submitted : String → Option (String × String)  -- `type` and `stay_id` of a payload
  pub path_parts : String → List String  -- strings.Split(strings.Trim(path, "/"), "/")
  pub to_upper : String → String
  pub equal_fold : String → String → Bool

pub data Verdict : Type 0 where
  accepted : Verdict
  rejected : String → String → Verdict  -- the code and the reason

abbrev has_suffix : String → String → Bool
has_suffix s t = leb (len t) (len s) && str_eq (slice s (len s - len t) (len s)) t

-- data[name].(string)
abbrev pub member : String → Map String → String
member name content = elim (lookup name content) [ none ↦ "" | some s ↦ s ]

-- len(env.Errors) > 0 && env.Errors[0].Code != ""
abbrev first_error : List String → String
first_error [] = ""
first_error (c ∷ cs) = c

abbrev event_types : List String
event_types = "ARRIVE" ∷ "CANCEL" ∷ "DEPART" ∷ "EXTEND" ∷ "TRANSFER" ∷ []

-- The stay id of a path of five parts, /api/v3/reservations/{stay_id}/events.
abbrev pub event_stay_id : List String → Option String
event_stay_id (a ∷ b ∷ c ∷ d ∷ e ∷ []) =
    if str_eq a "api"
      && (str_eq b "v3" && (str_eq c "reservations" && (str_eq e "events" && not (str_eq d ""))))
    then some d
    else none
event_stay_id _ = none

module _ (lib : Library) where
  -- The binding of the answer to the submitted payload: a reason to reject.
  abbrev pub unbound : Option (String × String) → String → String → Option String
  unbound none sid kind = none
  unbound (some (type_, stay_id)) sid kind =
      if not (str_eq type_ "") && not (lib.equal_fold type_ kind)
      then some (
          lib.sprintf "response event type %q does not match submitted payload type %q"
            (quoted kind ∷ quoted type_ ∷ []))
      else if not (str_eq stay_id "") && not (str_eq stay_id sid)
      then some (
          lib.sprintf "response stay_id %q does not match submitted payload stay_id %q"
            (quoted sid ∷ quoted stay_id ∷ []))
      else none

  abbrev pub check_transfer : String → Map String → Verdict
  check_transfer kind content =
      if str_eq (lib.to_upper kind) "TRANSFER"
        && (str_eq (member "new_stay_id" content) ""
            || str_eq (member "new_reservation_id" content) "")
      then rejected "" "transfer event response missing new_stay_id or new_reservation_id"
      else accepted

  abbrev pub or_reject : Option String → Verdict → Verdict
  or_reject none v = v
  or_reject (some reason) v = rejected "" reason

  abbrev submitted_of : String → Option (String × String)
  submitted_of payload = if str_eq payload "" then none else lib.submitted payload

  unfoldable pub check_event : String → String → Map String → Verdict
  check_event path_stay_id payload content =
      if str_eq (member "stay_id" content) ""
      then rejected "" "missing stay_id"
      else if not (str_eq (member "stay_id" content) path_stay_id)
      then rejected "" (
          lib.sprintf "response stay_id %q does not match path stay_id %q"
            (quoted (member "stay_id" content) ∷ quoted path_stay_id ∷ []))
      else if not (contains event_types (lib.to_upper (member "type" content)))
      then rejected ""
          (lib.sprintf "unknown stay event type %q" (quoted (member "type" content) ∷ []))
      else or_reject
          (unbound (submitted_of payload) (member "stay_id" content) (member "type" content))
          (check_transfer (member "type" content) content)

  unfoldable pub check_reservation : Map String → Verdict
  check_reservation content =
      if str_eq (member "reservation_id" content) "" || str_eq (member "stay_id" content) ""
      then rejected "" "missing reservation_id or stay_id"
      else accepted

  abbrev check_event_path : Option String → String → String → Map String → Verdict
  check_event_path none path payload content =
      rejected "" (lib.sprintf "malformed reservations event path %q" (quoted path ∷ []))
  check_event_path (some path_stay_id) path payload content =
      check_event path_stay_id payload content

  unfoldable pub check_object : String → String → String → Map String → Verdict
  unfolding check_event check_reservation
  check_object method path payload content =
      if not (str_eq (lib.to_upper method) "POST")
      then rejected "" (lib.sprintf "unsupported method %q" (quoted method ∷ []))
      else if str_eq path "/api/v3/reservations"
      then check_reservation content
      else if starts_with path "/api/v3/reservations/" && has_suffix path "/events"
      then check_event_path (event_stay_id (lib.path_parts path)) path payload content
      else rejected "" (lib.sprintf "unsupported endpoint %q" (quoted path ∷ []))

  abbrev check_content : String → String → String → Data → Verdict
  check_content method path payload no_object = rejected "" "missing or null data field"
  check_content method path payload (not_object e) =
      rejected "" (lib.sprintf "data not a JSON object: %v" (quoted e ∷ []))
  check_content method path payload (object content) = check_object method path payload content

  abbrev check_envelope : String → String → String → Result String SuccessEnvelope → Verdict
  check_envelope method path payload (err e) =
      rejected "" (lib.sprintf "malformed JSON: %v" (quoted e ∷ []))
  check_envelope method path payload (ok env) =
      if not (str_eq (first_error env.error_codes) "")
      then rejected (first_error env.error_codes) "2xx response contains errors[].code"
      else check_content method path payload env.content

  abbrev check_structure : String → String → String → String → Option String → Verdict
  check_structure method path body payload (some e) =
      rejected "" (lib.sprintf "invalid JSON structure: %v" (quoted e ∷ []))
  check_structure method path body payload none =
      check_envelope method path payload (lib.success_envelope body)

  unfoldable pub validate_success_envelope : String → String → ℕ → String → String → Verdict
  unfolding check_object
  validate_success_envelope method path status body payload =
      if not (status == 200) && not (status == 201)
      then rejected "" (
          lib.sprintf "status %d is not a terminal success (expected 200 or 201)"
            (number status ∷ []))
      else if str_eq body ""
      then rejected "" "empty body"
      else check_structure method path body payload (lib.duplicate_keys body)
