-- ===== src/Oauth/Handler.antt =====
-- server/src/oauth/handler.rs: the handler of the OAuth endpoints over any storages. This module
-- has what the requests share; each kind of request has a module below.
pub mod Clients
pub mod Authorize
pub mod Exchange
pub mod Introspect
pub mod Revoke
use enseada.Prelude.{String, true, false, Option, none, some, [], any}
use enseada.Prelude.Exec.{
  Outcome, ok, err, panic, Exec, pure, lift, total, ok_or, ensure, expect, ◌>>=◌, ◌>>◌,
}
use enseada.Platform.{Platform}
use enseada.Secure.{SecureSecret, generate_token, generate_signature, verify_password}
use enseada.Secure
use enseada.Oauth.Error
use enseada.Oauth.Error.{Error, invalid_client, invalid_scope, invalid_redirect_uri, from_message}
use enseada.Oauth.Scope.{Scope, is_superset}
use enseada.Oauth.Session.{Session}
use enseada.Oauth.Client.{Client, ClientKind, public, confidential}
use enseada.Oauth.AccessToken
use enseada.Oauth.AccessToken.{AccessToken}
use enseada.Oauth.RefreshToken
use enseada.Oauth.RefreshToken.{RefreshToken}
use enseada.Oauth.Response.{TokenResponse, bearer}
use enseada.Oauth.Storage.{ClientStorage, TokenStorage, AuthorizationCodeStorage}

-- HTTP basic authentication: client_id and client_secret.
pub record BasicAuth : Type 0 where
  pub username : String
  pub password : Option String

-- client_auth.map(|BasicAuth(client_id, _)| client_id)
abbrev pub auth_client_id : Option BasicAuth → Option String
auth_client_id none = none
auth_client_id (some auth) = some auth.username

-- client_auth.and_then(|BasicAuth(_, client_secret)| client_secret)
abbrev pub auth_client_secret : Option BasicAuth → Option String
auth_client_secret none = none
auth_client_secret (some auth) = auth.password

-- a.or(b)
abbrev pub or : Option String → Option String → Option String
or none b = b
or (some a) b = some a

abbrev pub invalid_client_id : Error
invalid_client_id = Error.new invalid_client "invalid client_id"

abbrev pub invalid_credentials : Error
invalid_credentials = Error.new invalid_client "invalid client credentials"

pub record OAuthHandler (p : Platform) : Type 0 where
  pub client_storage : ClientStorage p
  pub access_token_storage : TokenStorage p (AccessToken p)
  pub refresh_token_storage : TokenStorage p (RefreshToken p)
  pub authorization_code_storage : AuthorizationCodeStorage p

module _ (p : Platform) where
  open p use {World, Url, parse_url, url_eq, minutes, days, secret_key}

  -- secure::generate_signature(text, &CONFIG.secret_key()).to_string()
  unfoldable pub signature : String → String
  unfolding generate_signature Secure.to_string
  signature text = Secure.to_string p (generate_signature p text secret_key)

  unfoldable pub check_redirect_uri : Client p → Option String → Outcome Error (Unit {0})
  check_redirect_uri client none = ok tt
  check_redirect_uri client (some redirect_uri) = elim (parse_url redirect_uri) [
    | ok uri ↦ elim (any (λ u. url_eq u uri) client.allowed_redirect_uris) [
      | true ↦ ok tt
      | false ↦ err (Error.new invalid_redirect_uri "invalid redirect URI")
    ]
    | err message ↦ err (Error.new invalid_redirect_uri message)
    | panic ↦ panic
  ]

  check_secret : ClientKind → Option String → Outcome Error (Unit {0})
  check_secret public secret = ok tt
  check_secret (confidential hash) none = err invalid_credentials
  check_secret (confidential hash) (some secret) = elim (verify_password p hash secret) [
    | ok true ↦ ok tt
    | ok false ↦ err invalid_credentials
    | err message ↦ err (from_message message)
    | panic ↦ panic
  ]

  unfoldable pub authenticate_client : Client p → Option String → Outcome Error (Unit {0})
  unfolding check_secret verify_password
  authenticate_client client client_secret = check_secret client.kind client_secret

  module _ (h : OAuthHandler p) where
    open h use {client_storage, access_token_storage, refresh_token_storage}

    unfoldable pub validate_client : String → Option String → Scope → Exec World Error (Client p)
    unfolding check_redirect_uri
    validate_client client_id redirect_uri scope = do
      found ← total (client_storage.get_client client_id)
      client ← ok_or invalid_client_id found
      ensure (is_superset client.allowed_scopes scope) (Error.new invalid_scope "invalid scopes")
      lift (check_redirect_uri client redirect_uri)
      pure client

    -- `generate_token_set` in steps: the access token of a secret, with its signature, stored.
    unfoldable pub store_access : Session → SecureSecret → Exec World Error (String × AccessToken p)
    store_access session access_token_value = do
      let access_token_sig = signature (Secure.to_string p access_token_value)
      new_access_token ← total (AccessToken.new p access_token_value session (minutes 5))
      access_token ← access_token_storage.store_token access_token_sig new_access_token
      pure (access_token_sig, access_token)

    unfoldable pub issue_access : Session → Exec World Error (String × AccessToken p)
    issue_access session = do
      access_token_value ← expect (generate_token p 32)
      store_access session access_token_value

    -- The refresh token of a secret, which names the access token's signature, stored.
    unfoldable pub store_refresh :
        Session → String → SecureSecret → Exec World Error (RefreshToken p)
    store_refresh session access_token_sig refresh_token_value = do
      let refresh_token_sig = signature (Secure.to_string p refresh_token_value)
      new_refresh_token ←
          total (RefreshToken.new p refresh_token_value session (days 1) access_token_sig)
      refresh_token_storage.store_token refresh_token_sig new_refresh_token

    unfoldable pub issue_refresh : Session → String → Exec World Error (RefreshToken p)
    issue_refresh session access_token_sig = do
      refresh_token_value ← expect (generate_token p 32)
      store_refresh session access_token_sig refresh_token_value

    unfoldable pub respond_with :
        Session → AccessToken p → RefreshToken p → Exec World Error (TokenResponse p)
    respond_with session access_token refresh_token = do
      expires_in ← total (AccessToken.expires_in p access_token)
      pure (record {
        access_token = AccessToken.to_string p access_token;
        token_type = bearer;
        expires_in = expires_in;
        refresh_token = some (RefreshToken.to_string p refresh_token);
        scope = session.scope;
        extra = [];
      })

    unfoldable pub complete_token_set :
        Session → String × AccessToken p → Exec World Error (TokenResponse p)
    complete_token_set session (access_token_sig, access_token) = do
      refresh_token ← issue_refresh session access_token_sig
      respond_with session access_token refresh_token

    unfoldable pub generate_token_set : Session → Exec World Error (TokenResponse p)
    generate_token_set session = do issued ← issue_access session; complete_token_set session issued
