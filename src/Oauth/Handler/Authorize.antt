-- ===== src/Oauth/Handler/Authorize.antt =====
-- `RequestHandler<AuthorizationRequest, AuthorizationResponse>` of server/src/oauth/handler.rs
use enseada.Prelude.{some}
use enseada.Prelude.Exec.{Exec, pure, total, expect, ◌>>=◌}
use enseada.Platform.{Platform}
use enseada.Prelude.{Option}
use enseada.Secure.{generate_token}
use enseada.Oauth.Error.{Error}
use enseada.Oauth.Session.{Session, set_scope}
use enseada.Oauth.Client.{Client}
use enseada.Oauth.Code
use enseada.Oauth.Request.{AuthorizationRequest}
use enseada.Oauth.Response.{AuthorizationResponse}
use enseada.Oauth.Handler.{BasicAuth, OAuthHandler, signature, validate_client}

module _ (p : Platform) (h : OAuthHandler p) where
  open p use {World, minutes}
  open h use {authorization_code_storage}

  unfoldable pub validate : AuthorizationRequest → Option BasicAuth → Exec World Error (Client p)
  validate req client_auth = validate_client p h req.client_id (some req.redirect_uri) req.scope

  -- The session that the caller lends comes back beside the response.
  unfoldable pub handle :
      AuthorizationRequest → Session → Exec World Error (AuthorizationResponse p × Session)
  unfolding set_scope signature
  handle req session = do
    let session' = set_scope session req.scope
    secret ← expect (generate_token p 16)
    new_code ← total (Code.new p secret session' (minutes 5))
    let code_sig = signature p (Code.to_string p new_code)
    code ← authorization_code_storage.store_code code_sig new_code
    pure (record { code = code; state = req.state }, session')
