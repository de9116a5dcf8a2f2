-- ===== src/Oauth/Endpoints.antt =====
-- server/src/oauth/routes/oauth.rs: the endpoints, as functions of the parsed request.
pub mod Login
pub mod Form
use enseada.Prelude.{String, Option, none, some, ◌⊎◌, inl, inr}
use enseada.Prelude.Exec.{
  Outcome, ok, err, panic, Exec, pure, fail, lift, ok_or, map_err, map_outcome, try, ◌>>=◌, ◌>>◌,
}
use enseada.Platform.{Platform}
use enseada.Guid
use enseada.Couch.Database.{Database}
use enseada.Oauth.Error as OauthError
use enseada.Oauth.Error.{Error, ErrorKind}
use enseada.Oauth.Session.{Session, for_client, set_user_id}
use enseada.Oauth.Client.{Client}
use enseada.Oauth.Request.{
  AuthorizationRequest, TokenRequest, IntrospectionRequest, RevocationRequest,
}
use enseada.Oauth.Response.{
  AuthorizationResponse, TokenResponse, IntrospectionResponse, RevocationResponse,
}
use enseada.Oauth.Handler.{BasicAuth, OAuthHandler}
use enseada.Oauth.Handler.Authorize
use enseada.Oauth.Handler.Exchange
use enseada.Oauth.Handler.Introspect
use enseada.Oauth.Handler.Revoke
use enseada.Users.Repository.{Codecs, find}
use enseada.Users.Service.{User, as_entity, authenticate_user}
use enseada.Http.Errors.{ApiError, bad_request, unauthorized, from_couch}

pub record LoginFormBody : Type 0 where
  pub username : String
  pub password : String
  pub auth_request : AuthorizationRequest

-- A result that is looked into.
abbrev pub attempted : {E F A : Type 0} → Outcome E A → Outcome F (E ⊎ A)
attempted (ok a) = ok (inr a)
attempted (err e) = ok (inl e)
attempted panic = panic

abbrev pub attempt : {W E F A : Type 0} → Exec W E A → Exec W F (E ⊎ A)
attempt m w = (attempted (m w).0, (m w).1)

module _ (p : Platform) where
  open p use {World, Url}

  -- A redirection to the URL with what stands in its query, and the user id that the cookie keeps.
  pub record Redirect : Type 0 where
    pub url : Url
    pub query : Error ⊎ AuthorizationResponse p
    pub user_id : Option String

  module _ (h : OAuthHandler p) where
    unfoldable pub token : TokenRequest → Option BasicAuth → Exec World Error (TokenResponse p)
    token req client_auth = do
      client ← Exchange.validate p h req client_auth
      Exchange.handle p h req

    unfoldable pub introspect :
        IntrospectionRequest → Option BasicAuth → Exec World Error (IntrospectionResponse p)
    introspect req client_auth = do
      client ← Introspect.validate p h req client_auth
      λ w. let (res, w') = Introspect.handle p h req w in (ok res, w')

    unfoldable pub revoke :
        RevocationRequest → Option BasicAuth → Exec World Error RevocationResponse
    unfolding for_client
    revoke req client_auth = do
      client ← Revoke.validate p h req client_auth
      Revoke.handle p h req (for_client client.client_id)

    module _ (c : Codecs p as_entity) (db : Database) where
      -- The user that the cookie names, or else that of the form, without the reason of a refusal.
      unfoldable pub login_user : Option String → LoginFormBody → Exec World ApiError (Option User)
      login_user (some username) form = map_err from_couch (find p as_entity c db username)
      login_user none form = try (authenticate_user p c db form.username form.password)

      -- What becomes of the handling of a valid request.
      abbrev pub reply :
          Url → String → Error ⊎ (AuthorizationResponse p × Session) → Outcome ApiError Redirect
      reply url name (inr (res, session)) =
          ok (record { url = url; query = inr res; user_id = some name })
      reply url name (inl e) = elim e.error [
        | ErrorKind.invalid_redirect_uri ↦ err (bad_request (OauthError.to_string p e))
        | _ ↦ ok (record { url = url; query = inl e; user_id = some name })
      ]

      unfoldable pub login_client :
          Url → Option String → LoginFormBody → Error ⊎ Client p → Exec World ApiError Redirect
      unfolding login_user for_client set_user_id
      login_client url cookie form (inl e) =
          pure (record { url = url; query = inl e; user_id = cookie })
      login_client url cookie form (inr client) = do
        found ← login_user cookie form
        user ← ok_or (unauthorized "authentication failed") found
        let session = set_user_id (for_client client.client_id) (Guid.to_string user.id)
        handled ← attempt (Authorize.handle p h form.auth_request session)
        lift (reply url user.id.id handled)

      -- do_login, with the user id of the cookie
      unfoldable pub do_login :
          Option String → LoginFormBody → Option BasicAuth → Exec World ApiError Redirect
      unfolding login_client
      do_login cookie form client_auth = do
        url ← lift (map_outcome bad_request (p.parse_url form.auth_request.redirect_uri))
        validated ← attempt (Authorize.validate p h form.auth_request client_auth)
        login_client url cookie form validated
