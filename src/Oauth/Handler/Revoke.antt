-- ===== src/Oauth/Handler/Revoke.antt =====
-- `RequestHandler<RevocationRequest, RevocationResponse>` of server/src/oauth/handler.rs
pub mod Ownership
use enseada.Prelude.{String, Option, none, some, ◌==◌}
use enseada.Prelude.Exec.{Exec, pure, total, ensure, try, ◌>>=◌, ◌>>◌}
use enseada.Platform.{Platform}
use enseada.Oauth.Error
use enseada.Oauth.Error.{Error, access_denied}
use enseada.Oauth.Session.{Session}
use enseada.Oauth.Client.{Client}
use enseada.Oauth.AccessToken.{AccessToken}
use enseada.Oauth.RefreshToken.{RefreshToken}
use enseada.Oauth.Token.{TokenTypeHint}
use enseada.Oauth.Request.{RevocationRequest}
use enseada.Oauth.Response.{RevocationResponse, revoked}
use enseada.Oauth.Handler.{BasicAuth, OAuthHandler, signature}
use enseada.Oauth.Handler.Introspect.{validate_credentials}

abbrev pub denied : Error
denied = Error.new access_denied "access denied"

module _ (p : Platform) (h : OAuthHandler p) where
  open p use {World}
  open h use {access_token_storage, refresh_token_storage}

  unfoldable pub validate : RevocationRequest → Option BasicAuth → Exec World Error (Client p)
  validate req =
      validate_credentials p h (Error.new access_denied "revocation requires client credentials")

  -- The access token that was found is revoked, if it is the requester's.
  unfoldable pub revoke_access : String → String → AccessToken p → Exec World Error (Unit {0})
  revoke_access requester sig token = do
    ensure (token.session.client_id == requester) denied
    access_token_storage.revoke_token sig

  -- The same in the search without a hint, where a failure of the storage is dropped.
  unfoldable pub revoke_found_access : String → String → AccessToken p → Exec World Error (Unit {0})
  revoke_found_access requester sig token = do
    ensure (token.session.client_id == requester) denied
    try {F = Error} (access_token_storage.revoke_token sig)
    pure tt

  -- The refresh token that was found is revoked, if it is the requester's, and then its access
  -- token, where a failure is dropped.
  unfoldable pub revoke_refresh : String → String → RefreshToken p → Exec World Error (Unit {0})
  revoke_refresh requester sig token = do
    ensure (token.session.client_id == requester) denied
    refresh_token_storage.revoke_token sig
    try {F = Error} (access_token_storage.revoke_token token.related_access_token_signature)
    pure tt

  -- Runs the action on what was found, if anything was.
  abbrev pub when_found :
      {T : Type 0} → (T → Exec World Error (Unit {0})) → Option T → Exec World Error (Unit {0})
  when_found act none = pure tt
  when_found act (some token) = act token

  search_refresh : String → String → Exec World Error RevocationResponse
  unfolding revoke_refresh revoked
  search_refresh requester sig = do
    found ← total (refresh_token_storage.get_token sig)
    when_found (revoke_refresh requester sig) found
    pure revoked

  search_from : String → String → Option (AccessToken p) → Exec World Error RevocationResponse
  unfolding revoke_found_access search_refresh
  search_from requester sig none = search_refresh requester sig
  search_from requester sig (some token) = do revoke_found_access requester sig token; pure revoked

  -- The part behind the hint: an access token is looked for, and if there is none, a refresh token.
  unfoldable pub search_both : String → String → Exec World Error RevocationResponse
  unfolding search_from
  search_both requester sig = do
    found ← total (access_token_storage.get_token sig)
    search_from requester sig found

  unfoldable pub handle_hint :
      Option TokenTypeHint → String → String → Exec World Error RevocationResponse
  unfolding search_both revoke_access
  handle_hint (some TokenTypeHint.access_token) requester sig = do
    found ← total (access_token_storage.get_token sig)
    when_found (revoke_access requester sig) found
    pure revoked
  handle_hint (some TokenTypeHint.refresh_token) requester sig = do
    found ← total (refresh_token_storage.get_token sig)
    when_found (revoke_refresh requester sig) found
    pure revoked
  handle_hint (some TokenTypeHint.unknown) requester sig = search_both requester sig
  handle_hint none requester sig = search_both requester sig

  unfoldable pub handle : RevocationRequest → Session → Exec World Error RevocationResponse
  unfolding handle_hint
  handle req session = handle_hint req.token_type_hint session.client_id (signature p req.token)
