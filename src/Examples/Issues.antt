-- ===== src/Examples/Issues.antt =====
-- The theorem about issued codes, at a concrete input.
use enseada.Prelude.{String, Bool, Option, false, true, some, none, inl, [], ◌∷◌}
use enseada.Prelude.Exec.{Outcome, ok, err, panic}
use enseada.Oauth.Error.{Error}
use enseada.Oauth.Scope.{Scope}
use enseada.Oauth.Session.{Session}
use enseada.Oauth.Code
use enseada.Oauth.Code.{AuthorizationCode}
use enseada.Oauth.Request.{AuthorizationRequest, CodeGrant}
use enseada.Oauth.Request as Request
use enseada.Oauth.Response.{AuthorizationResponse}
use enseada.Oauth.Handler.Authorize
use enseada.Examples.Demo.{Shelf, demo, handler, shelf, read_scope}

abbrev text_of : Outcome Error (AuthorizationCode demo) → String
text_of (ok code) = Code.to_string demo code
text_of (err e) = ""
text_of panic = ""

abbrev same_scope : Scope → Scope
same_scope scope = scope

abbrev request : AuthorizationRequest
request = record {
  response_type = Request.code;
  client_id = "app";
  redirect_uri = "https://app/cb";
  scope = read_scope;
  state = none;
}

abbrev session : Session
session = record { client_id = "app"; scope = read_scope; user_id = some "user:ann" }

abbrev answer : AuthorizationResponse demo
answer = record {
  code = record { code = record { bytes = 7 ∷ [] }; session = session; expiration = 10 };
  state = none;
}

abbrev issued : Shelf
issued = (Authorize.handle demo handler request session shelf).1

abbrev grant : CodeGrant
grant = record {
  code = "iiiiiii";
  redirect_uri = "https://app/cb";
  client_id = some "app";
  client_secret = some "secret";
}

abbrev past : Option (AuthorizationCode demo) × Shelf → Bool
past (none, v) = false
past (some code, v) = (Code.is_expired demo code v).0
