-- ===== src/Http/Session/Revoked.antt =====
-- Requests with an access token that was revoked in the database.
use enseada.Prelude.{◌==◌, String, Option, none, some, ◌≡◌, subst, arith, inl, inr, Option-cases}
use enseada.Prelude.Exec.{ok_of_bind, unwrap, map_err, ensure, ok, err}
use enseada.Platform.{Platform}
use enseada.Guid
use enseada.Guid.{Guid}
use enseada.Couch
use enseada.Couch.Database
use enseada.Couch.Database.{Database, path}
use enseada.Couch.Documents.{Missing, DocumentLaws, get-Missing, delete-Missing}
use enseada.Oauth.AccessToken.{AccessToken}
use enseada.Oauth.Storage.{ClientStorage}
use enseada.Oauth.Handler.{BasicAuth, OAuthHandler, signature}
use enseada.Oauth.Handler.Introspect.{get_access_token}
use enseada.Oauth.Handler.Revoke
use enseada.Oauth.Handler.Revoke.{denied}
use enseada.Oauth.Persistence
use enseada.Oauth.Persistence.{map_couch_err}
use enseada.Oauth.Persistence.Laws.{stored_handler}
use enseada.Oauth.Persistence.Entities.{AccessTokenEntity, access_guid}
use enseada.Users.Repository
use enseada.Users.Service.{as_entity}
use enseada.Http.Errors.{no_session}
use enseada.Http.Session.{session_from_request, scope_from_request, token_of}
use enseada.Http.User.{user_from_request}

module _ (p : Platform) (c : Persistence.Codecs p) (db : Database) (clients : ClientStorage p) where
  open p use {World}

  abbrev stored : OAuthHandler p
  stored = stored_handler p c db clients

  abbrev access_path : String → String
  access_path sig = path db (Guid.to_string (access_guid sig))

  -- A document of an access token that is read has the id that it was asked for.
  abbrev pub OwnAccessIds : Type 0
  OwnAccessIds =
      (sig : String) (w : World) (entity : AccessTokenEntity p)
      → (Couch.Database.get p c.access db (Guid.to_string (access_guid sig)) w).0 ≡ ok (some entity)
      → entity.id ≡ access_guid sig

  removed-Missing :
      (sig : String) (entity : AccessTokenEntity p) (w w' : World)
      → DocumentLaws p
      → entity.id ≡ access_guid sig
      → Persistence.remove_access p c db (some entity) w ≡ (ok tt, w')
      → Missing p w' (access_path sig)
  unfolding Persistence.remove_access
  removed-Missing sig entity w w' laws own h =
      let (rev, v, has_rev, rest) = ok_of_bind (unwrap entity.rev) _ tt w w' h in
      subst (λ (g : Guid). Missing p w' (path db (Guid.to_string g))) own
        (delete-Missing p laws db c.done (Guid.to_string entity.id) rev v w' (ground arith))

  revoked-Missing :
      (sig : String) (w w' : World)
      → DocumentLaws p
      → OwnAccessIds
      → Persistence.revoke_access p c db sig w ≡ (ok tt, w')
      → Missing p w' (access_path sig)
  unfolding Persistence.revoke_access
  revoked-Missing sig w w' laws own h =
      let looked = Couch.Database.get p c.access db (Guid.to_string (access_guid sig)) in
      let (found, v, read, rest) = ok_of_bind (map_err map_couch_err looked) _ tt w w' h in
      elim (Option-cases found) [
        | inl nothing ↦ absurd (unfold Persistence.remove_access in ground arith)
        | inr (entity, there) ↦
            removed-Missing sig entity v w' laws (own sig w entity (ground arith)) (ground arith)
      ]

  not_found :
      (sig : String) (w : World)
      → Missing p w (access_path sig)
      → (Persistence.get_access p c db sig w).0 ≡ none
  unfolding Persistence.get_access
  not_found sig w gone =
      ground (arith, get-Missing p c.access db (Guid.to_string (access_guid sig)) w gone)

  no_session_of :
      (bearer : Option String) (basic : Option BasicAuth) (text : String) (w : World)
      → token_of bearer basic ≡ some text
      → Missing p w (access_path (signature p text))
      → (session_from_request p stored bearer basic w).0 ≡ err no_session
  unfolding session_from_request get_access_token
  no_session_of bearer basic text w token gone =
      ground (arith, token, not_found (signature p text) w gone)

  handled-Missing :
      (requester text : String) (token : AccessToken p) (w w' : World)
      → DocumentLaws p
      → OwnAccessIds
      → Revoke.revoke_access p stored requester (signature p text) token w ≡ (ok tt, w')
      → Missing p w' (access_path (signature p text))
  unfolding Revoke.revoke_access
  handled-Missing requester text token w w' laws own h =
      let (_, v, owner, rest) =
        ok_of_bind (ensure (token.session.client_id == requester) denied) _ tt w w' h in
      revoked-Missing (signature p text) v w' laws own rest

  -- After the handler has revoked an access token in the database, a request with that token gets
  -- no session, no scope and no user: each is refused as unauthorized.
  pub revoked_token_refused :
      (users : Repository.Codecs p as_entity) (users_db : Database) (requester text : String)
      (token : AccessToken p) (bearer : Option String) (basic : Option BasicAuth) (w w' : World)
      → DocumentLaws p
      → OwnAccessIds
      → Revoke.revoke_access p stored requester (signature p text) token w ≡ (ok tt, w')
      → token_of bearer basic ≡ some text
      → ((session_from_request p stored bearer basic w').0 ≡ err no_session)
        × ((scope_from_request p stored bearer basic w').0 ≡ err no_session)
        × ((user_from_request p stored users users_db bearer basic w').0 ≡ err no_session)
  unfolding scope_from_request user_from_request
  revoked_token_refused users users_db requester text token bearer basic w w' laws own h given =
      let refused =
        no_session_of bearer basic text w' given
          (handled-Missing requester text token w w' laws own h) in
      (refused, ground (arith, refused), ground (arith, refused))
