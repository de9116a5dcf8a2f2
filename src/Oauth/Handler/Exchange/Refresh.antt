-- ===== src/Oauth/Handler/Exchange/Refresh.antt =====
-- When a refresh token is accepted, and for which client: the exact conditions.
use enseada.Prelude.{
  String, true, false, Option, none, some, ◌≡◌, refl, ◌↔◌, ◌⊎◌, inl, inr, arith, Bool-cases,
  Option-cases, eq_iff,
}
use enseada.Prelude.Exec.{ok, err}
use enseada.Platform.{Platform}
use enseada.Oauth.Error
use enseada.Oauth.Error.{Error, invalid_scope}
use enseada.Oauth.Scope.{Scope, is_superset}
use enseada.Oauth.Session.{Session}
use enseada.Oauth.Client.{Client}
use enseada.Oauth.RefreshToken
use enseada.Oauth.RefreshToken.{RefreshToken}
use enseada.Oauth.Request.{RefreshGrant}
use enseada.Oauth.Handler.{
  BasicAuth, OAuthHandler, auth_client_id, auth_client_secret, or, signature,
}
use enseada.Oauth.Handler.Clients.{
  Accepted, Authentic, validate_client_iff, authenticate_client_iff,
}
use enseada.Oauth.Handler.Exchange.{narrow, validate_refresh}

-- The scope that is asked for, or else the session's.
abbrev pub asked_scope : Session → Option Scope → Scope
asked_scope session none = session.scope
asked_scope session (some other) = other

-- What is asked for, if anything, is covered by the session's scope.
abbrev pub Covers : Session → Option Scope → Type 0
Covers session none = Unit
Covers session (some other) = is_superset session.scope other ≡ true

module _ (p : Platform) where
  open p use {World}

  narrow_covered :
      (session : Session) (asked : Option Scope) (w : World)
      → Covers session asked
      → narrow p session asked w ≡ (ok (record session { scope = asked_scope session asked }), w)
  unfolding narrow
  narrow_covered session none w c = refl
  narrow_covered session (some other) w c = ground arith

  narrow_cases :
      (session : Session) (asked : Option Scope) (w : World)
      → (Covers session asked
          × (narrow p session asked w
              ≡ (ok (record session { scope = asked_scope session asked }), w)))
        ⊎ ((e : Error) × (narrow p session asked w ≡ (err e, w)))
  narrow_cases session none w = inl (tt, narrow_covered session none w tt)
  narrow_cases session (some other) w = elim (Bool-cases (is_superset session.scope other)) [
    | inl covers ↦ inl (covers, narrow_covered session (some other) w covers)
    | inr beyond ↦ inr (Error.new invalid_scope "invalid scope", unfold narrow in ground arith)
  ]

module _ (p : Platform) (h : OAuthHandler p) where
  open p use {World}
  open h use {refresh_token_storage}

  module _ (req : RefreshGrant) (client_auth : Option BasicAuth) (w : World) where
    abbrev token_lookup : Option (RefreshToken p) × World
    token_lookup = refresh_token_storage.get_token (signature p req.refresh_token) w

    -- The token is stored under its signature and has not expired; its session is that of the
    -- client that the request or the credentials name, and covers the scope that is asked for;
    -- that client is registered, may use that scope, and is authentic.
    pub record MayRefresh (client : Client p) (w' : World) : Type 0 where
      pub client_id : String
      pub named : or req.client_id (auth_client_id client_auth) ≡ some client_id
      pub token : RefreshToken p
      pub stored : token_lookup.0 ≡ some token
      pub fresh : (RefreshToken.is_expired p token token_lookup.1).0 ≡ false
      pub own : token.session.client_id ≡ client_id
      pub covers : Covers token.session req.scope
      pub accepted :
          Accepted p h client_id none
            (asked_scope token.session req.scope)
            (RefreshToken.is_expired p token token_lookup.1).1
            client
      pub authentic : Authentic p client (or req.client_secret (auth_client_secret client_auth))
      pub after :
          (h.client_storage.get_client client_id
            (RefreshToken.is_expired p token token_lookup.1).1).1
          ≡ w'

    -- The part of the validation behind the look-up of the token.
    sound_with :
        (client : Client p) (w' : World) (client_id : String) (token : RefreshToken p)
        → or req.client_id (auth_client_id client_auth) ≡ some client_id
        → token_lookup.0 ≡ some token
        → validate_refresh p h req client_auth w ≡ (ok client, w')
        → MayRefresh client w'
    unfolding validate_refresh
    sound_with client w' client_id token named stored e =
        let v : World = (RefreshToken.is_expired p token token_lookup.1).1 in
        elim (narrow_cases p token.session req.scope v) [
          | inl (covers, narrowed) ↦
              let accepts : Accepted p h client_id none (asked_scope token.session req.scope) v
                    client
                  × ((h.client_storage.get_client client_id v).1 ≡ w') =
                (validate_client_iff p h client_id none (asked_scope token.session req.scope) v w'
                    client).0
                  (ground arith) in
              record {
                client_id = client_id;
                named = named;
                token = token;
                stored = stored;
                fresh = ground arith;
                own = (eq_iff token.session.client_id client_id).0 (ground arith);
                covers = covers;
                accepted = accepts.0;
                authentic = (authenticate_client_iff p client _).0 (ground arith);
                after = accepts.1;
              }
          | inr (error, refused) ↦ absurd (ground arith)
        ]

    refresh_sound :
        (client : Client p) (w' : World)
        → validate_refresh p h req client_auth w ≡ (ok client, w')
        → MayRefresh client w'
    unfolding validate_refresh
    refresh_sound client w' e =
        elim (Option-cases (or req.client_id (auth_client_id client_auth))) [
          | inl missing ↦ absurd (ground arith)
          | inr (client_id, named) ↦ elim (Option-cases token_lookup.0) [
            | inl missing ↦ absurd (ground arith)
            | inr (token, stored) ↦ sound_with client w' client_id token named stored e
          ]
        ]

    -- A refresh request is validated, with a client, exactly under the conditions of `MayRefresh`.
    pub validate_refresh_iff :
        (client : Client p) (w' : World)
        → (validate_refresh p h req client_auth w ≡ (ok client, w')) ↔ MayRefresh client w'
    unfolding validate_refresh
    validate_refresh_iff client w' = (refresh_sound client w', back)
      where
        back : MayRefresh client w' → validate_refresh p h req client_auth w ≡ (ok client, w')
        back m =
            let v : World = (RefreshToken.is_expired p m.token token_lookup.1).1 in
            ground (
              arith,
              m.named,
              m.stored,
              m.fresh,
              (eq_iff m.token.session.client_id m.client_id).1 m.own,
              narrow_covered p m.token.session req.scope v m.covers,
              (validate_client_iff p h m.client_id none (asked_scope m.token.session req.scope) v w'
                    client).1
                  (m.accepted, m.after),
              (authenticate_client_iff p client
                    (or req.client_secret (auth_client_secret client_auth))).1
                  m.authentic,
            )
