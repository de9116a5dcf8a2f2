-- ===== src/Oauth/Endpoints/Login.antt =====
-- What the endpoints as a whole promise.
use enseada.Prelude.{
  String, true, false, Option, some, ◌≡◌, ◌≢◌, inl, inr, arith, any, Option-cases,
}
use enseada.Prelude.Exec.{Outcome-cases, ok, err}
use enseada.Platform.{Platform}
use enseada.Couch.Database.{Database}
use enseada.Oauth.Error
use enseada.Oauth.Error.{Error, ErrorKind, invalid_redirect_uri}
use enseada.Oauth.Scope.{is_superset}
use enseada.Oauth.Session.{Session, for_client}
use enseada.Oauth.Client.{Client}
use enseada.Oauth.Request.{RevocationRequest}
use enseada.Oauth.Response.{AuthorizationResponse}
use enseada.Oauth.Handler.{BasicAuth, OAuthHandler, signature, validate_client, check_redirect_uri}
use enseada.Oauth.Handler.Authorize
use enseada.Oauth.Handler.Clients.{Accepted, validate_client_iff}
use enseada.Oauth.Handler.Revoke
use enseada.Oauth.Handler.Revoke.{denied}
use enseada.Oauth.Handler.Revoke.Ownership.{target, revoke_only_own}
use enseada.Oauth.Endpoints.{LoginFormBody, Redirect, revoke, do_login, login_client, login_user}
use enseada.Users.Repository.{Codecs}
use enseada.Users.Service.{User, as_entity}

module _ (p : Platform) (h : OAuthHandler p) where
  open p use {World, Url, parse_url, url_eq}

  -- The revocation endpoint denies a client that is validated the revocation of a token that is
  -- found and is of another client, in the world after the look-ups: nothing is revoked.
  pub endpoint_revokes_only_own :
      (req : RevocationRequest) (client_auth : Option BasicAuth) (client : Client p)
      (owner : Session) (w v : World)
      → Revoke.validate p h req client_auth w ≡ (ok client, v)
      → (target p h req.token_type_hint (signature p req.token) v).0 ≡ some owner
      → owner.client_id ≢ client.client_id
      → revoke p h req client_auth w
        ≡ (err denied, (target p h req.token_type_hint (signature p req.token) v).1)
  unfolding revoke for_client
  endpoint_revokes_only_own req client_auth client owner w v valid found other =
      ground
        (arith, valid, revoke_only_own p h req (for_client client.client_id) owner v found other)

  module _ (c : Codecs p as_entity) (db : Database) where
    -- What stands behind a code that is granted: a client that may use the redirect URI and the
    -- scope, and a user.
    pub record Granted (cookie : Option String) (form : LoginFormBody) (w : World)
        (res : Redirect p) : Type 0 where
      pub client : Client p
      pub accepted :
          Accepted p h form.auth_request.client_id
            (some form.auth_request.redirect_uri)
            form.auth_request.scope
            w
            client
      pub user : User
      pub known :
          (login_user p h c db cookie form
            (h.client_storage.get_client form.auth_request.client_id w).1).0
          ≡ ok (some user)
      pub remembered : res.user_id ≡ some user.id.id
      pub parsed : parse_url form.auth_request.redirect_uri ≡ ok res.url

    client_granted :
        (cookie : Option String) (form : LoginFormBody) (url : Url) (client : Client p)
        (v w' : World) (res : Redirect p) (answer : AuthorizationResponse p)
        → login_client p h c db url cookie form (inr client) v ≡ (ok res, w')
        → res.query ≡ inr answer
        → (user : User) × ((login_user p h c db cookie form v).0 ≡ ok (some user))
          × (res.user_id ≡ some user.id.id)
          × (res.url ≡ url)
    unfolding login_client
    client_granted cookie form url client v w' res answer e granted =
        elim (Outcome-cases (login_user p h c db cookie form v).0) [
          | inr (inl (x, failed)) ↦ absurd (ground arith)
          | inr (inr panics) ↦ absurd (ground arith)
          | inl (found, read) ↦ elim (Option-cases found) [
            | inl nobody ↦ absurd (ground arith)
            | inr (user, there) ↦ (user, ground arith, ground arith, ground arith)
          ]
        ]

    -- A login that redirects with a code is for a client that is registered and may use the redirect
    -- URI and the scope, and for a user that the cookie names or the password authenticates, whose
    -- name the cookie keeps; the redirection is to the URL of the request.
    pub login-Granted :
        (cookie : Option String) (form : LoginFormBody) (client_auth : Option BasicAuth)
        (w w' : World) (res : Redirect p) (answer : AuthorizationResponse p)
        → do_login p h c db cookie form client_auth w ≡ (ok res, w')
        → res.query ≡ inr answer
        → Granted cookie form w res
    unfolding do_login login_client Authorize.validate
    login-Granted cookie form client_auth w w' res answer e granted =
        elim (Outcome-cases (parse_url form.auth_request.redirect_uri)) [
          | inr (inl (x, bad)) ↦ absurd (ground arith)
          | inr (inr panics) ↦ absurd (ground arith)
          | inl (url, parsed) ↦
              elim (Outcome-cases (Authorize.validate p h form.auth_request client_auth w).0) [
                | inr (inl (x, refused)) ↦ absurd (ground arith)
                | inr (inr panics) ↦ absurd (ground arith)
                | inl (client, valid) ↦
                    let at : World = (Authorize.validate p h form.auth_request client_auth w).1 in
                    let accepts : Accepted p h form.auth_request.client_id
                          (some form.auth_request.redirect_uri) form.auth_request.scope w client
                        × ((h.client_storage.get_client form.auth_request.client_id w).1 ≡ at) =
                      (validate_client_iff p h form.auth_request.client_id
                          (some form.auth_request.redirect_uri) form.auth_request.scope w at
                          client).0
                        (ground arith) in
                    let (user, known, remembered, same) =
                      client_granted cookie form url client at w' res answer (ground arith)
                        granted in
                    record {
                      client = client;
                      accepted = accepts.0;
                      user = user;
                      known = rw accepts.1 known;
                      remembered = remembered;
                      parsed = ground arith;
                    }
              ]
        ]

    -- A login for a registered client that may use the scope redirects to whatever URL the request
    -- names, with an error, if the client does not allow that URL.
    pub login_redirects_anywhere :
        (cookie : Option String) (form : LoginFormBody) (client_auth : Option BasicAuth) (w : World)
        (client : Client p) (url : Url)
        → (h.client_storage.get_client form.auth_request.client_id w).0 ≡ some client
        → is_superset client.allowed_scopes form.auth_request.scope ≡ true
        → parse_url form.auth_request.redirect_uri ≡ ok url
        → any (λ u. url_eq u url) client.allowed_redirect_uris ≡ false
        → (do_login p h c db cookie form client_auth w).0
          ≡ ok (record {
            url = url;
            query = inl (Error.new invalid_redirect_uri "invalid redirect URI");
            user_id = cookie;
          })
    unfolding do_login login_client Authorize.validate validate_client check_redirect_uri
    login_redirects_anywhere cookie form client_auth w client url found covered parsed foreign =
        ground arith
