-- ===== src/Oauth/Handler/Exchange/Validation.antt =====
-- When a code is accepted, and for which client: the exact conditions.
use enseada.Prelude.{String, false, Option, some, ◌≡◌, ◌↔◌, inl, inr, arith, Option-cases, eq_iff}
use enseada.Prelude.Exec.{ok}
use enseada.Platform.{Platform}
use enseada.Oauth.Client.{Client}
use enseada.Oauth.Code
use enseada.Oauth.Code.{AuthorizationCode}
use enseada.Oauth.Request.{CodeGrant}
use enseada.Oauth.Handler.{
  BasicAuth, OAuthHandler, auth_client_id, auth_client_secret, or, signature,
}
use enseada.Oauth.Handler.Clients.{
  Accepted, Authentic, validate_client_iff, authenticate_client_iff,
}
use enseada.Oauth.Handler.Exchange.{validate_code}

module _ (p : Platform) (h : OAuthHandler p) where
  open p use {World}
  open h use {refresh_token_storage, authorization_code_storage}

  module _ (req : CodeGrant) (client_auth : Option BasicAuth) (w : World) where
    abbrev code_lookup : Option (AuthorizationCode p) × World
    code_lookup = authorization_code_storage.get_code (signature p req.code) w

    -- The code is stored under its signature and has not expired; its session is that of the
    -- client that the request or the credentials name; that client is registered, may use the
    -- session's scope and the redirect URI, and is authentic.
    pub record MayRedeem (client : Client p) (w' : World) : Type 0 where
      pub client_id : String
      pub named : or req.client_id (auth_client_id client_auth) ≡ some client_id
      pub code : AuthorizationCode p
      pub stored : code_lookup.0 ≡ some code
      pub fresh : (Code.is_expired p code code_lookup.1).0 ≡ false
      pub own : code.session.client_id ≡ client_id
      pub accepted :
          Accepted p h client_id
            (some req.redirect_uri)
            code.session.scope
            (Code.is_expired p code code_lookup.1).1
            client
      pub authentic : Authentic p client (or req.client_secret (auth_client_secret client_auth))
      pub after :
          (h.client_storage.get_client client_id (Code.is_expired p code code_lookup.1).1).1 ≡ w'

    code_sound :
        (client : Client p) (w' : World)
        → validate_code p h req client_auth w ≡ (ok client, w')
        → MayRedeem client w'
    unfolding validate_code
    code_sound client w' e = elim (Option-cases (or req.client_id (auth_client_id client_auth))) [
      | inl missing ↦ absurd (ground arith)
      | inr (client_id, named) ↦ elim (Option-cases code_lookup.0) [
        | inl missing ↦ absurd (ground arith)
        | inr (code, stored) ↦
            let accepts =
              (validate_client_iff p h client_id (some req.redirect_uri) code.session.scope
                  (Code.is_expired p code code_lookup.1).1 w' client).0
                (ground arith) in
            record {
              client_id = client_id;
              named = named;
              code = code;
              stored = stored;
              fresh = ground arith;
              own = (eq_iff code.session.client_id client_id).0 (ground arith);
              accepted = accepts.0;
              authentic = (authenticate_client_iff p client _).0 (ground arith);
              after = accepts.1;
            }
      ]
    ]

    -- A code request is validated, with a client, exactly under the conditions of `MayRedeem`.
    pub validate_code_iff :
        (client : Client p) (w' : World)
        → (validate_code p h req client_auth w ≡ (ok client, w')) ↔ MayRedeem client w'
    unfolding validate_code
    validate_code_iff client w' = (code_sound client w', back)
      where
        back : MayRedeem client w' → validate_code p h req client_auth w ≡ (ok client, w')
        back m = ground (
          arith,
          m.named,
          m.stored,
          m.fresh,
          (eq_iff m.code.session.client_id m.client_id).1 m.own,
          (validate_client_iff p h m.client_id (some req.redirect_uri) m.code.session.scope
                (Code.is_expired p m.code code_lookup.1).1 w' client).1
              (m.accepted, m.after),
          (authenticate_client_iff p client
                (or req.client_secret (auth_client_secret client_auth))).1
              m.authentic,
        )
