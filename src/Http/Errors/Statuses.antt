-- ===== src/Http/Errors/Statuses.antt =====
-- The statuses that errors are answered with.
use enseada.Prelude.{String, List, ◌≡◌, ◌≢◌, refl, ◌⊎◌, inl, inr, arith}
use enseada.Error
use enseada.Oauth.Error as OauthError
use enseada.Oauth.Error.{ErrorKind}
use enseada.Http.Errors.{
  ApiError, bad_request, blocking_error, conflict, forbidden, internal_server_error, not_found,
  validation_error, unauthorized, service_unavailable, status_code, response_status, from_library,
  from_oauth,
}

-- An OAuth error has the same status as an error of the API and when it is answered directly.
pub status_code-from_oauth :
    (e : OauthError.Error) → status_code (from_oauth e) ≡ OauthError.status_code e
unfolding status_code from_oauth OauthError.status_code
status_code-from_oauth e = ground arith

-- No error of the library becomes one of the API that says not found, not even its own NotFound.
pub from_library_never_not_found :
    (e : Error.Error) (message : String) → from_library e ≢ not_found message
unfolding from_library Error.status
from_library_never_not_found (Error.conflict reason) message h = ground arith
from_library_never_not_found (Error.not_found typ id) message h = ground arith
from_library_never_not_found (Error.from_utf8 source) message h = ground arith
from_library_never_not_found (Error.base64_decode source) message h = ground arith
from_library_never_not_found (Error.database source) message h = ground arith
from_library_never_not_found (Error.generic text) message h = ground arith

-- An error of the API is answered with its own status, except for errors of validation, which
-- have status 400 and are answered with 422.
pub response_status_cases :
    (e : ApiError)
    → (response_status e ≡ status_code e)
      ⊎ ((reasons : List String) × (e ≡ validation_error reasons)
          × (status_code e ≡ 400)
          × (response_status e ≡ 422))
unfolding response_status status_code
response_status_cases (bad_request _) = inl refl
response_status_cases (blocking_error _) = inl refl
response_status_cases (conflict _) = inl refl
response_status_cases (forbidden _) = inl refl
response_status_cases (internal_server_error _) = inl refl
response_status_cases (not_found _) = inl refl
response_status_cases (validation_error reasons) = inr (reasons, refl, refl, refl)
response_status_cases (unauthorized _) = inl refl
response_status_cases (service_unavailable _) = inl refl
