-- ===== src/Http/Session/Validity.antt =====
-- Which requests have a session, and what becomes of an expired token.
use enseada.Prelude.{
  String, true, false, Option, some, ◌≡◌, ◌≢◌, ◌↔◌, arith, inl, inr, Option-cases,
}
use enseada.Prelude.Exec.{ok}
use enseada.Platform.{Platform}
use enseada.Oauth.Session.{Session}
use enseada.Oauth.AccessToken
use enseada.Oauth.AccessToken.{AccessToken}
use enseada.Oauth.Handler.{BasicAuth, OAuthHandler, signature}
use enseada.Oauth.Handler.Introspect.{get_access_token, revoke_access_token}
use enseada.Http.Session.{token_of, session_of, session_from_request, accept}

module _ (p : Platform) (h : OAuthHandler p) where
  open p use {World}
  open h use {access_token_storage}

  -- The request has a token, which is found under its signature, has not expired, and has the session.
  pub record Authorized (bearer : Option String) (basic : Option BasicAuth) (w : World)
      (session : Session) (w' : World) : Type 0 where
    pub token : String
    pub given : token_of bearer basic ≡ some token
    pub access_token : AccessToken p
    pub stored : (access_token_storage.get_token (signature p token) w).0 ≡ some access_token
    pub fresh :
        AccessToken.is_expired p access_token
          (access_token_storage.get_token (signature p token) w).1
        ≡ (false, w')
    pub same : access_token.session ≡ session

  session_sound :
      (bearer : Option String) (basic : Option BasicAuth) (w w' : World) (session : Session)
      → session_from_request p h bearer basic w ≡ (ok session, w')
      → Authorized bearer basic w session w'
  unfolding session_from_request session_of accept get_access_token
  session_sound bearer basic w w' session e = elim (Option-cases (token_of bearer basic)) [
    | inl missing ↦ absurd (ground arith)
    | inr (token, given) ↦
        elim (Option-cases (access_token_storage.get_token (signature p token) w).0) [
          | inl unknown ↦ absurd (ground arith)
          | inr (access_token, stored) ↦ record {
            token = token;
            given = given;
            access_token = access_token;
            stored = stored;
            fresh = ground arith;
            same = ground arith;
          }
        ]
  ]

  -- A request is given a session, in a world after it, exactly if it has a token that is found under
  -- its signature, has not expired, and has that session; that world is the one after the look-up
  -- and the clock.
  pub session_from_request_iff :
      (bearer : Option String) (basic : Option BasicAuth) (w w' : World) (session : Session)
      → (session_from_request p h bearer basic w ≡ (ok session, w'))
        ↔ Authorized bearer basic w session w'
  unfolding session_from_request session_of accept get_access_token
  session_from_request_iff bearer basic w w' session =
      (session_sound bearer basic w w' session, back)
    where
      back :
          Authorized bearer basic w session w'
          → session_from_request p h bearer basic w ≡ (ok session, w')
      back a = ground (arith, a.given, a.stored, a.fresh, a.same)

  -- A request with a token that is found and has expired is given no session, and the world
  -- after it is the one after the token's revocation was tried.
  pub expired_is_revoked :
      (bearer : Option String) (basic : Option BasicAuth) (token : String)
      (access_token : AccessToken p) (w v : World) (session : Session)
      → token_of bearer basic ≡ some token
      → (access_token_storage.get_token (signature p token) w).0 ≡ some access_token
      → AccessToken.is_expired p access_token
          (access_token_storage.get_token (signature p token) w).1
        ≡ (true, v)
      → ((session_from_request p h bearer basic w).0 ≢ ok session)
        × ((session_from_request p h bearer basic w).1
            ≡ (access_token_storage.revoke_token (signature p token) v).1)
  unfolding session_from_request session_of accept get_access_token revoke_access_token
  expired_is_revoked bearer basic token access_token w v session given stored expired =
      ((λ e. ground arith), ground arith)
