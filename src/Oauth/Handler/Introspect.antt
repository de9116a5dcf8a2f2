-- ===== src/Oauth/Handler/Introspect.antt =====
-- `RequestHandler<IntrospectionRequest, IntrospectionResponse>` and the two
-- `TokenIntrospectionHandler`s of server/src/oauth/handler.rs
pub mod Answers
use enseada.Prelude.{String, Option, none, some}
use enseada.Prelude.Exec.{Exec, pure, lift, total, ok_or, ◌>>=◌, ◌>>◌}
use enseada.Platform.{Platform}
use enseada.Oauth.Error
use enseada.Oauth.Error.{Error, access_denied, invalid_request}
use enseada.Oauth.Client.{Client}
use enseada.Oauth.AccessToken.{AccessToken}
use enseada.Oauth.AccessToken
use enseada.Oauth.RefreshToken.{RefreshToken}
use enseada.Oauth.RefreshToken
use enseada.Oauth.Token.{Token, TokenTypeHint}
use enseada.Oauth.Request.{IntrospectionRequest}
use enseada.Oauth.Response.{IntrospectionResponse, inactive, from_token}
use enseada.Oauth.Handler.{
  BasicAuth, OAuthHandler, invalid_client_id, signature, authenticate_client,
}

module _ (p : Platform) where
  open p use {World}

  -- token.as_ref().map(IntrospectionResponse::from_token)
  abbrev pub respond :
      {T : Type 0} → Token p T → Option T → World → Option (IntrospectionResponse p) × World
  respond i none w = (none, w)
  respond i (some token) w = let (res, w') = from_token p i token w in (some res, w')

  module _ (h : OAuthHandler p) where
    open h use {client_storage, access_token_storage, refresh_token_storage}

    -- What both kinds of token management ask of the client; `what` is the request's name.
    unfoldable pub validate_credentials : Error → Option BasicAuth → Exec World Error (Client p)
    validate_credentials denied client_auth = do
      auth ← ok_or denied client_auth
      found ← total (client_storage.get_client auth.username)
      client ← ok_or invalid_client_id found
      lift (authenticate_client p client auth.password)
      pure client

    unfoldable pub validate : IntrospectionRequest → Option BasicAuth → Exec World Error (Client p)
    unfolding validate_credentials
    validate req =
        validate_credentials (Error.new access_denied "introspection requires client credentials")

    unfoldable pub introspect_access : String → World → Option (IntrospectionResponse p) × World
    introspect_access sig w =
        let (found, w') = access_token_storage.get_token sig w in
        respond (AccessToken.as_token p) found w'

    unfoldable pub introspect_refresh : String → World → Option (IntrospectionResponse p) × World
    introspect_refresh sig w =
        let (found, w') = refresh_token_storage.get_token sig w in
        respond (RefreshToken.as_token p) found w'

    unfoldable pub introspect_hint :
        Option TokenTypeHint → String → World → Option (IntrospectionResponse p) × World
    unfolding introspect_access introspect_refresh
    introspect_hint none sig w = (none, w)
    introspect_hint (some TokenTypeHint.access_token) sig w = introspect_access sig w
    introspect_hint (some TokenTypeHint.refresh_token) sig w = introspect_refresh sig w
    introspect_hint (some TokenTypeHint.unknown) sig w = (none, w)

    -- An answer is returned at once; without one the next search is made.
    abbrev pub first_answer :
        Option (IntrospectionResponse p)
        → (World → IntrospectionResponse p × World)
        → World
        → IntrospectionResponse p × World
    first_answer (some res) next w = (res, w)
    first_answer none next w = next w

    -- The handler always succeeds, so that the result is no outcome here.
    unfoldable pub handle : IntrospectionRequest → World → IntrospectionResponse p × World
    unfolding introspect_hint
    handle req w =
        let sig = signature p req.token in
        let (hinted, w1) = introspect_hint req.token_type_hint sig w in
        first_answer hinted
          (λ v.
            let (access, w2) = introspect_access sig v in
            first_answer access
              (λ u.
                let (refresh, w3) = introspect_refresh sig u in
                first_answer refresh (λ t. (inactive p, t)) w3)
              w2)
          w1

    -- TokenIntrospectionHandler<AccessToken>
    unfoldable pub get_access_token : String → Exec World Error (AccessToken p)
    get_access_token token = do
      found ← total (access_token_storage.get_token (signature p token))
      ok_or (Error.new invalid_request "access token not found") found

    unfoldable pub revoke_access_token : String → Exec World Error (Unit {0})
    revoke_access_token token = access_token_storage.revoke_token (signature p token)

    -- TokenIntrospectionHandler<RefreshToken>
    unfoldable pub get_refresh_token : String → Exec World Error (RefreshToken p)
    get_refresh_token token = do
      found ← total (refresh_token_storage.get_token (signature p token))
      ok_or (Error.new invalid_request "refresh token not found") found

    unfoldable pub revoke_refresh_token : String → Exec World Error (Unit {0})
    revoke_refresh_token token = refresh_token_storage.revoke_token (signature p token)
