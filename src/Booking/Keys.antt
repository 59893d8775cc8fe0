-- ===== src/Booking/Keys.antt =====
-- backend/internal/store/idempotency.go: the table `idempotency_keys`. A result is a map of strings,
-- which the JSON column gives back as it was written.
use sthira.Prelude.{
  ℕ, String, Bool, true, false, ◌&&◌, Option, none, some, List, [], ◌∷◌, ◌++◌, ltb, str_eq,
  if◌then◌else◌, any, Map,
}
use sthira.Prelude.Result.{Result, ok, err, ◌>>=◌}
use sthira.Stay.Model.{StayError}

pub data BookingError : Type 0 where
  stay_error : StayError → BookingError
  payload_conflict in_progress version_conflict : BookingError
  stale_snapshot reservation_context facility_package_mismatch : BookingError
  route_unavailable no_route no_stay_policy stay_out_of_policy : BookingError
  not_owner invalid_event sql_error : BookingError

abbrev pub BookingResult : Type 0 → Type 0
BookingResult A = Result BookingError A

pub data KeyState : Type 0 where
  claimed completed failed : KeyState  -- IN_PROGRESS, COMPLETED and FAILED

abbrev pub Answer : Type 0
Answer = Map String

pub record KeyRow : Type 0 where
  pub scope : String
  pub operation : String
  pub idem_key : String
  pub payload_hash : String
  pub state : KeyState
  pub result : Option Answer
  pub expires_at : ℕ

abbrev pub is_claimed : KeyState → Bool
is_claimed claimed = true
is_claimed _ = false

abbrev pub is_failed : KeyState → Bool
is_failed failed = true
is_failed _ = false

-- WHERE scope = $1 AND operation = $2 AND idem_key = $3, the primary key
abbrev pub has_key : String → String → String → KeyRow → Bool
has_key scope operation key r =
    str_eq r.scope scope && (str_eq r.operation operation && str_eq r.idem_key key)

unfoldable pub find_key : String → String → String → List KeyRow → Option KeyRow
find_key scope operation key [] = none
find_key scope operation key (r ∷ rs) =
    let rest = find_key scope operation key rs in
    if has_key scope operation key r then some r else rest

-- UPDATE idempotency_keys SET ... WHERE ...
unfoldable pub update_keys : (KeyRow → Bool) → (KeyRow → KeyRow) → List KeyRow → List KeyRow
update_keys p set [] = []
update_keys p set (r ∷ rs) = (if p r then set r else r) ∷ update_keys p set rs

-- A LegacyChecker, of an existing hash and a stored result.
abbrev pub LegacyChecker : Type 0
LegacyChecker = String → Option Answer → BookingResult Bool

-- What `BeginWithCompat` returns beside an error: the key is the caller's, or there is a result.
pub data Begun : Type 0 where
  begun : List KeyRow → Begun
  replayed : Option Answer → Begun

-- hashMatch
abbrev pub hash_match : Option LegacyChecker → KeyRow → String → BookingResult Bool
hash_match none row payload_hash = ok (str_eq row.payload_hash payload_hash)
hash_match (some legacy) row payload_hash =
    if str_eq row.payload_hash payload_hash then ok true else legacy row.payload_hash row.result

abbrev pub reclaim : KeyRow → KeyRow
reclaim r = record r { state = claimed }

abbrev pub reclaims : String → String → String → KeyRow → Bool
reclaims scope operation key r = has_key scope operation key r && is_failed r.state

-- The switch on the state of a row whose hash matches.
unfoldable pub resume : List KeyRow → String → String → String → KeyRow → BookingResult Begun
resume keys scope operation key row = elim row.state [
  | claimed ↦ err in_progress
  | completed ↦ ok (replayed row.result)
  | failed ↦ ok (begun (update_keys (reclaims scope operation key) reclaim keys))
]

abbrev pub matched : Bool → BookingResult Begun → BookingResult Begun
matched true go = go
matched false go = err payload_conflict

-- The row that is inserted, in state IN_PROGRESS.
abbrev pub new_row : String → String → String → String → ℕ → KeyRow
new_row scope operation key payload_hash expires_at = record {
  scope = scope;
  operation = operation;
  idem_key = key;
  payload_hash = payload_hash;
  state = claimed;
  result = none;
  expires_at = expires_at;
}

unfoldable pub begin_with_compat :
    List KeyRow → String → String → String → String → Option LegacyChecker → ℕ → BookingResult Begun
unfolding resume
begin_with_compat keys scope operation key payload_hash legacy expires_at =
    elim (find_key scope operation key keys) [
      | none ↦ ok (begun (keys ++ new_row scope operation key payload_hash expires_at ∷ []))
      | some row ↦ hash_match legacy row payload_hash >>= λ same.
          matched same (resume keys scope operation key row)
    ]

abbrev pub begin : List KeyRow → String → String → String → String → ℕ → BookingResult Begun
begin keys scope operation key payload_hash expires_at =
    begin_with_compat keys scope operation key payload_hash none expires_at

abbrev pub completes : String → String → String → KeyRow → Bool
completes scope operation key r = has_key scope operation key r && is_claimed r.state

-- execConditional: an update of no row is a version conflict.
abbrev update_some : (KeyRow → Bool) → (KeyRow → KeyRow) → List KeyRow → BookingResult (List KeyRow)
update_some p set keys = if any p keys then ok (update_keys p set keys) else err version_conflict

abbrev pub finish : Answer → KeyRow → KeyRow
finish answer r = record r { state = completed; result = some answer }

unfoldable pub complete :
    List KeyRow → String → String → String → Answer → BookingResult (List KeyRow)
complete keys scope operation key answer =
    update_some (completes scope operation key) (finish answer) keys

abbrev give_up : KeyRow → KeyRow
give_up r = record r { state = failed }

unfoldable pub fail : List KeyRow → String → String → String → BookingResult (List KeyRow)
fail keys scope operation key = update_some (completes scope operation key) give_up keys

-- DELETE FROM idempotency_keys WHERE expires_at < $1
unfoldable pub sweep : ℕ → List KeyRow → List KeyRow
sweep now [] = []
sweep now (r ∷ rs) = let rest = sweep now rs in if ltb r.expires_at now then rest else r ∷ rest
