-- ===== src/Oauth/Handler/Exchange/SingleUse.antt =====
-- What an exchange leaves behind: the code, and the scope of what is issued.
use enseada.Prelude.{String, ◌≡◌, ◌≢◌, inl, inr, arith, Option, none, some, Option-cases}
use enseada.Prelude.Exec.{ok, err}
use enseada.Platform.{Platform}
use enseada.Oauth.Session.{Session}
use enseada.Oauth.Client.{Client}
use enseada.Oauth.RefreshToken.{RefreshToken}
use enseada.Oauth.RefreshToken
use enseada.Oauth.Request.{CodeGrant, RefreshGrant}
use enseada.Oauth.Response.{TokenResponse}
use enseada.Oauth.Handler.{
  BasicAuth, OAuthHandler, signature, generate_token_set, complete_token_set, respond_with,
}
use enseada.Oauth.Handler.Exchange.{validate_code, handle_code, handle_refresh, invalid_code}

module _ (p : Platform) (h : OAuthHandler p) where
  open p use {World, utc_now}
  open h use {access_token_storage, refresh_token_storage, authorization_code_storage}

  -- A code that was revoked is not found any more.
  pub record CodeLaws : Type 0 where
    pub revoked_absent :
        (sig : String) (w w' : World)
        → authorization_code_storage.revoke_code sig w ≡ (ok tt, w')
        → (authorization_code_storage.get_code sig w').0 ≡ none

  code_absent_after :
      (laws : CodeLaws) (req : CodeGrant) (w w' : World) (res : TokenResponse p)
      → handle_code p h req w ≡ (ok res, w')
      → (authorization_code_storage.get_code (signature p req.code) w').0 ≡ none
  unfolding handle_code
  code_absent_after laws req w w' res e =
      let sig : String = signature p req.code in
      let v : World = (authorization_code_storage.get_code sig w).1 in
      elim (Option-cases (authorization_code_storage.get_code sig w).0) [
        | inl missing ↦ absurd (ground arith)
        | inr (code, stored) ↦
            laws.revoked_absent sig (generate_token_set p h code.session v).1 w' (ground arith)
      ]

  absent_not_validated :
      (req : CodeGrant) (client_auth : Option BasicAuth) (w w' : World) (client : Client p)
      → (authorization_code_storage.get_code (signature p req.code) w).0 ≡ none
      → validate_code p h req client_auth w ≢ (ok client, w')
  unfolding validate_code
  absent_not_validated req client_auth w w' client absent e = ground arith

  absent_not_handled :
      (req : CodeGrant) (w : World)
      → (authorization_code_storage.get_code (signature p req.code) w).0 ≡ none
      → (handle_code p h req w).0 ≡ err invalid_code
  unfolding handle_code
  absent_not_handled req w absent = ground arith

  -- Once a code was exchanged for tokens, a request with that code is neither validated, whatever
  -- else it says and whoever sends it, nor handled, if the storage does not find a code that it
  -- revoked.
  pub code_single_use :
      (laws : CodeLaws) (req again : CodeGrant) (client_auth : Option BasicAuth) (w w' w2 : World)
      (res : TokenResponse p) (client : Client p)
      → handle_code p h req w ≡ (ok res, w')
      → again.code ≡ req.code
      → (validate_code p h again client_auth w' ≢ (ok client, w2))
        × ((handle_code p h again w').0 ≡ err invalid_code)
  code_single_use laws req again client_auth w w' w2 res client e same =
      let absent : (authorization_code_storage.get_code (signature p again.code) w').0 ≡ none =
        rw same (code_absent_after laws req w w' res e) in
      (
        absent_not_validated again client_auth w' w2 client absent,
        absent_not_handled again w' absent,
      )

  -- The tokens that are issued have the scope of the session they are issued for.
  scope-generate_token_set :
      (session : Session) (w w' : World) (res : TokenResponse p)
      → generate_token_set p h session w ≡ (ok res, w')
      → res.scope ≡ session.scope
  unfolding generate_token_set complete_token_set respond_with
  scope-generate_token_set session w w' res e = ground arith

  -- Whatever narrower scope a refresh asks for, what is issued has the whole scope of the session
  -- that is stored with the refresh token.
  pub refresh_ignores_scope :
      (req : RefreshGrant) (token : RefreshToken p) (w w' : World) (res : TokenResponse p)
      → (refresh_token_storage.get_token (signature p req.refresh_token) w).0 ≡ some token
      → handle_refresh p h req w ≡ (ok res, w')
      → res.scope ≡ token.session.scope
  unfolding handle_refresh
  refresh_ignores_scope req token w w' res stored e =
      let sig : String = signature p req.refresh_token in
      let v : World =
        (RefreshToken.is_expired p token (refresh_token_storage.get_token sig w).1).1 in
      let u : World = (refresh_token_storage.revoke_token sig v).1 in
      let t : World =
        (access_token_storage.revoke_token token.related_access_token_signature u).1 in
      scope-generate_token_set token.session t w' res (ground arith)
