-- ===== src/Oauth/Handler/Exchange.antt =====
-- `RequestHandler<TokenRequest, TokenResponse>` of server/src/oauth/handler.rs: a code or a refresh
-- token is exchanged for new tokens.
pub mod Validation
pub mod Issued
pub mod Rotation
pub mod SingleUse
pub mod Refresh
use enseada.Prelude.{append, String, Bool, not, Option, none, some, ◌==◌}
use enseada.Prelude.Exec.{Exec, pure, fail, lift, total, ok_or, ensure, try, ◌>>=◌, ◌>>◌}
use enseada.Platform.{Platform}
use enseada.Oauth.Error
use enseada.Oauth.Error.{
  Error, invalid_client, invalid_grant, invalid_request, invalid_scope, unsupported_grant_type,
}
use enseada.Oauth.Scope.{Scope, is_superset}
use enseada.Oauth.Session.{Session, set_scope}
use enseada.Oauth.Client.{Client}
use enseada.Oauth.Code
use enseada.Oauth.RefreshToken
use enseada.Oauth.Request.{
  TokenRequest, CodeGrant, RefreshGrant, authorization_code, refresh_token, unknown,
}
use enseada.Oauth.Response.{TokenResponse}
use enseada.Oauth.Handler.{
  BasicAuth, OAuthHandler, auth_client_id, auth_client_secret, or, invalid_client_id, signature,
  authenticate_client, validate_client, generate_token_set,
}

abbrev pub invalid_code : Error
invalid_code = Error.new invalid_request "invalid authorization code"

abbrev pub unsupported_grant : Error
unsupported_grant = Error.new unsupported_grant_type "unsupported grant type"

abbrev pub expired_refresh_token : Error
expired_refresh_token = Error.new unsupported_grant_type "invalid refresh token"

-- format!("invalid client '{}'", client_id)
abbrev pub other_client : String → Error
other_client client_id = Error.new invalid_client (append "invalid client '" (append client_id "'"))

module _ (p : Platform) where
  open p use {World}

  -- The session that a refresh is validated with: narrowed to the scope that is asked for, which
  -- the session's own scope must cover.
  unfoldable pub narrow : Session → Option Scope → Exec World Error Session
  unfolding set_scope
  narrow session none = pure session
  narrow session (some other) = do
    ensure (is_superset session.scope other) (Error.new invalid_scope "invalid scope")
    pure (set_scope session other)

  module _ (h : OAuthHandler p) where
    open h use {access_token_storage, refresh_token_storage, authorization_code_storage}

    unfoldable pub validate_code : CodeGrant → Option BasicAuth → Exec World Error (Client p)
    validate_code req client_auth = do
      client_id ← ok_or invalid_client_id (or req.client_id (auth_client_id client_auth))
      found ← total (authorization_code_storage.get_code (signature p req.code))
      code ← ok_or invalid_code found
      expired ← total (Code.is_expired p code)
      ensure (not expired) invalid_code
      ensure (code.session.client_id == client_id) (other_client client_id)
      client ← validate_client p h client_id (some req.redirect_uri) code.session.scope
      lift (authenticate_client p client (or req.client_secret (auth_client_secret client_auth)))
      pure client

    unfoldable pub validate_refresh : RefreshGrant → Option BasicAuth → Exec World Error (Client p)
    validate_refresh req client_auth = do
      client_id ← ok_or invalid_client_id (or req.client_id (auth_client_id client_auth))
      found ← total (refresh_token_storage.get_token (signature p req.refresh_token))
      token ← ok_or (Error.new invalid_request "invalid refresh token") found
      expired ← total (RefreshToken.is_expired p token)
      ensure (not expired) expired_refresh_token
      ensure (token.session.client_id == client_id) invalid_client_id
      session ← narrow token.session req.scope
      client ← validate_client p h client_id none session.scope
      lift (authenticate_client p client (or req.client_secret (auth_client_secret client_auth)))
      pure client

    unfoldable pub validate : TokenRequest → Option BasicAuth → Exec World Error (Client p)
    unfolding validate_code validate_refresh
    validate (authorization_code req) client_auth = validate_code req client_auth
    validate (refresh_token req) client_auth = validate_refresh req client_auth
    validate unknown client_auth = fail unsupported_grant

    unfoldable pub handle_code : CodeGrant → Exec World Error (TokenResponse p)
    handle_code req = do
      let code_sig = signature p req.code
      found ← total (authorization_code_storage.get_code code_sig)
      code ← ok_or invalid_code found
      res ← generate_token_set p h code.session
      authorization_code_storage.revoke_code code_sig
      pure res

    unfoldable pub handle_refresh : RefreshGrant → Exec World Error (TokenResponse p)
    handle_refresh req = do
      let refresh_token_sig = signature p req.refresh_token
      found ← total (refresh_token_storage.get_token refresh_token_sig)
      token ← ok_or (Error.new invalid_grant "invalid refresh token") found
      expired ← total (RefreshToken.is_expired p token)
      ensure (not expired) expired_refresh_token
      refresh_token_storage.revoke_token refresh_token_sig
      try (access_token_storage.revoke_token token.related_access_token_signature)
      generate_token_set p h token.session

    -- The session that the caller lends is not read.
    unfoldable pub handle : TokenRequest → Exec World Error (TokenResponse p)
    unfolding handle_code handle_refresh
    handle (authorization_code req) = handle_code req
    handle (refresh_token req) = handle_refresh req
    handle unknown = fail unsupported_grant
