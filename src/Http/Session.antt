-- ===== src/Http/Session.antt =====
-- `TokenSession` and `Scope` of server/src/http/extractor: what the token of a request authorizes.
-- The header's parts are read by the HTTP library.
pub mod Validity
pub mod Revoked
use enseada.Prelude.{String, Bool, true, false, Option, none, some, ◌==◌, if◌then◌else◌}
use enseada.Prelude.Exec.{Exec, pure, fail, total, map_err, ◌>>=◌, ◌>>◌}
use enseada.Platform.{Platform}
use enseada.Oauth.Session.{Session}
use enseada.Oauth.Scope.{Scope}
use enseada.Oauth.AccessToken
use enseada.Oauth.AccessToken.{AccessToken}
use enseada.Oauth.Handler.{BasicAuth, OAuthHandler}
use enseada.Oauth.Handler.Introspect.{get_access_token, revoke_access_token}
use enseada.Http.Errors.{ApiError, no_session}

abbrev basic_token : Option BasicAuth → Option String
basic_token none = none
basic_token (some auth) = if auth.username == "x-oauth-token" then auth.password else none

-- The token is that of a bearer header, or the password of the user `x-oauth-token`.
unfoldable pub token_of : Option String → Option BasicAuth → Option String
token_of (some bearer) basic = some bearer
token_of none basic = basic_token basic

module _ (p : Platform) (h : OAuthHandler p) where
  open p use {World}

  -- An expired token is revoked before the request is refused.
  unfoldable pub accept : String → AccessToken p → Bool → Exec World ApiError Session
  accept token access_token true = do
    map_err (λ e. no_session) (revoke_access_token p h token)
    fail no_session
  accept token access_token false = pure access_token.session

  unfoldable pub session_of : Option String → Exec World ApiError Session
  unfolding accept
  session_of none = fail no_session
  session_of (some token) = do
    access_token ← map_err (λ e. no_session) (get_access_token p h token)
    expired ← total (AccessToken.is_expired p access_token)
    accept token access_token expired

  -- TokenSession::from_request
  unfoldable pub session_from_request :
      Option String → Option BasicAuth → Exec World ApiError Session
  unfolding session_of
  session_from_request bearer basic = session_of (token_of bearer basic)

  -- Scope::from_request
  unfoldable pub scope_from_request : Option String → Option BasicAuth → Exec World ApiError Scope
  unfolding session_from_request
  scope_from_request bearer basic = do
    session ← session_from_request bearer basic
    pure session.scope
