-- ===== src/Oauth/Error.antt =====
-- server/src/oauth/error.rs
use enseada.Prelude.{ℕ, String, append, Option, none, some}
use enseada.Platform.{Platform}

pub data ErrorKind : Type 0 where
  access_denied invalid_client invalid_grant invalid_redirect_uri invalid_request : ErrorKind
  invalid_scope server_error temporarily_unavailable unauthorized_client unknown : ErrorKind
  unsupported_grant_type unsupported_response_type : ErrorKind

pub record Error : Type 0 where
  pub error : ErrorKind
  pub error_description : String
  pub error_uri : Option String

-- Error::new
unfoldable pub new : ErrorKind → String → Error
new kind description = record { error = kind; error_description = description; error_uri = none }

unfoldable pub kind : Error → ErrorKind
kind e = e.error

unfoldable pub description : Error → String
description e = e.error_description

unfoldable pub set_error_uri : Error → String → Error
set_error_uri e url = record e { error_uri = some url }

-- `From<String>`
unfoldable pub from_message : String → Error
unfolding new
from_message message = new server_error message

-- `ResponseError`: the status of the HTTP response.
unfoldable pub status_code : Error → ℕ
status_code e = elim e.error [
  | access_denied ↦ 403
  | invalid_client ↦ 401
  | server_error ↦ 500
  | unknown ↦ 500
  | temporarily_unavailable ↦ 503
  | _ ↦ 400
]

-- The snake case names that serde derives.
unfoldable pub kind_name : ErrorKind → String
kind_name access_denied = "access_denied"
kind_name invalid_client = "invalid_client"
kind_name invalid_grant = "invalid_grant"
kind_name invalid_redirect_uri = "invalid_redirect_uri"
kind_name invalid_request = "invalid_request"
kind_name invalid_scope = "invalid_scope"
kind_name server_error = "server_error"
kind_name temporarily_unavailable = "temporarily_unavailable"
kind_name unauthorized_client = "unauthorized_client"
kind_name unknown = "unknown"
kind_name unsupported_grant_type = "unsupported_grant_type"
kind_name unsupported_response_type = "unsupported_response_type"

-- `Display`: the kind as JSON, which has its quotes, and the description.
unfoldable pub to_string : (p : Platform) → Error → String
unfolding kind_name
to_string p e = append (p.json_text (kind_name e.error)) (append ": " e.error_description)
