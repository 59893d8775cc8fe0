-- ===== src/Queue/Worker/Codes.antt =====
-- The classes of answers in backend/internal/offlinequeue/worker.go, and the error code of dispatcher.go.
use sthira.Prelude.{
  ℕ, String, Bool, ◌||◌, Option, none, some, List, [], ◌∷◌, ◌==◌, str_eq, if◌then◌else◌,
}
use sthira.Prelude.Sets.{contains}

-- The codes of the errors of an envelope, `none` for a body that is none.
unfoldable pub first_code : List String → String
first_code [] = ""
first_code (c ∷ cs) = let rest = first_code cs in if str_eq c "" then rest else c

unfoldable pub extract_server_error_code : Option (List String) → String
unfolding first_code
extract_server_error_code none = ""
extract_server_error_code (some codes) = first_code codes

abbrev pub is_auth_failure : ℕ → Bool
is_auth_failure status = status == 401 || status == 403

unfoldable pub is_stale_code : String → Bool
is_stale_code code = str_eq code "STALE_VERSION" || str_eq code "EXPIRED"

unfoldable pub is_transient_client_code : ℕ → String → Bool
is_transient_client_code status code = status == 429 || str_eq code "RATE_LIMITED"

abbrev pub permanent_codes : List String
permanent_codes =
    "IDEMPOTENCY_CONFLICT" ∷ "CAPACITY_CONFLICT" ∷ "NOT_FOUND" ∷ "ROUTE_UNVERIFIED"
    ∷ "ROUTE_UNAVAILABLE" ∷ "AMBIGUOUS_PLACE" ∷ "DATA_UNAVAILABLE" ∷ "MODEL_UNAVAILABLE"
    ∷ "LANGUAGE_UNSUPPORTED" ∷ "MALFORMED_JSON" ∷ "VALIDATION_FAILED" ∷ "DUPLICATE_KEY"
    ∷ "TRAILING_DATA" ∷ "BODY_TOO_LARGE" ∷ "DEPTH_EXCEEDED" ∷ "UNKNOWN_FIELD" ∷ "INVALID_VALUE"
    ∷ "METHOD_NOT_ALLOWED" ∷ "UNSUPPORTED_MEDIA_TYPE" ∷ []

unfoldable pub is_permanent_code : String → Bool
is_permanent_code code = contains permanent_codes code
