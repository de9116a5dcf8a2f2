-- ===== src/Http/Errors.antt =====
-- server/src/http/error.rs: errors of the API, and the conversions of other errors. A status is its
-- number.
pub mod Statuses
use enseada.Prelude.{ℕ, String, List, nat_eq, if◌then◌else◌}
use enseada.Error
use enseada.Couch
use enseada.Oauth.Error as OauthError
use enseada.Oauth.Error.{ErrorKind}
use enseada.Rbac.Enforcer.{EvaluationError}

pub data ApiError : Type 0 where
  bad_request blocking_error conflict forbidden internal_server_error not_found : String → ApiError
  validation_error : List String → ApiError
  unauthorized service_unavailable : String → ApiError

-- ApiError::new
unfoldable pub new : ℕ → String → ApiError
new status reason =
    if nat_eq status 400
    then bad_request reason
    else if nat_eq status 409
    then conflict reason
    else if nat_eq status 403
    then forbidden reason
    else if nat_eq status 404
    then not_found reason
    else if nat_eq status 401
    then unauthorized reason
    else if nat_eq status 503
    then service_unavailable reason
    else internal_server_error reason

-- ApiError::unauthorized()
abbrev pub no_session : ApiError
no_session = unauthorized "unauthorized"

-- ResponseError::status_code
unfoldable pub status_code : ApiError → ℕ
status_code (bad_request _) = 400
status_code (conflict _) = 409
status_code (forbidden _) = 403
status_code (not_found _) = 404
status_code (validation_error _) = 400
status_code (unauthorized _) = 401
status_code (service_unavailable _) = 503
status_code (blocking_error _) = 500
status_code (internal_server_error _) = 500

-- The status of the response that ResponseError::error_response makes.
unfoldable pub response_status : ApiError → ℕ
response_status (bad_request _) = 400
response_status (conflict _) = 409
response_status (forbidden _) = 403
response_status (not_found _) = 404
response_status (validation_error _) = 422
response_status (unauthorized _) = 401
response_status (service_unavailable _) = 503
response_status (blocking_error _) = 500
response_status (internal_server_error _) = 500

abbrev by_status : ℕ → String → ApiError
by_status status message =
    if nat_eq status 409
    then conflict message
    else if nat_eq status 404
    then not_found message
    else internal_server_error message

-- `From<Error>`, of libenseada
unfoldable pub from_library : Error.Error → ApiError
from_library e = by_status (Error.status e) (Error.to_string e)

-- `From<CouchError>`
unfoldable pub from_couch : Couch.Error.Error → ApiError
from_couch e = by_status e.status e.message

-- `From<OAuthError>`
unfoldable pub from_oauth : OauthError.Error → ApiError
from_oauth e = elim e.error [
  | ErrorKind.access_denied ↦ forbidden e.error_description
  | ErrorKind.invalid_client ↦ unauthorized e.error_description
  | ErrorKind.server_error ↦ internal_server_error e.error_description
  | ErrorKind.unknown ↦ internal_server_error e.error_description
  | ErrorKind.temporarily_unavailable ↦ service_unavailable e.error_description
  | _ ↦ bad_request e.error_description
]

-- `From<EvaluationError>`
unfoldable pub from_evaluation : EvaluationError → ApiError
from_evaluation EvaluationError.denied = forbidden "Access denied"
