-- ===== src/Oauth/Api/Lifecycle.antt =====
-- Clients that are created, changed and deleted through the endpoints.
use enseada.Prelude.{
  String, append, Option, none, some, ◌≡◌, refl, ap, subst, ◌∙◌, inl, inr, arith, Option-cases,
}
use enseada.Prelude.Exec.{Outcome-cases, ok_of_bind, ok, map_err, ok_or, unwrap}
use enseada.Platform.{Platform}
use enseada.Guid
use enseada.Guid.{Guid, simple}
use enseada.Secure.{hash_password}
use enseada.Secure.Hashes.{VerifiesOwnHashes, hash_verifies}
use enseada.Couch
use enseada.Couch.Database
use enseada.Couch.Database.{Database, path}
use enseada.Couch.Documents.{Missing, DocumentLaws, get-Missing, delete-Missing}
use enseada.Couch.Stored.{Holds, StoringLaws, get-Holds, put-Holds}
use enseada.Oauth.Error
use enseada.Oauth.Error.{invalid_client}
use enseada.Oauth.Scope.{Scope}
use enseada.Oauth.Scope
use enseada.Oauth.Client.{Client, new_public, new_confidential, confidential_with_hash}
use enseada.Oauth.Handler.{authenticate_client}
use enseada.Oauth.Handler.Clients.{authenticate_client_iff}
use enseada.Oauth.Persistence
use enseada.Oauth.Persistence.{map_couch_err, with_rev, rev_of}
use enseada.Oauth.Persistence.Clients.{client_guid_id, reread, with_scope_read, to_client-reread}
use enseada.Oauth.Persistence.Entities.{ClientEntity, client_guid, from_client, to_client}
use enseada.Oauth.Api.{
  ClientKind, public, confidential, CreateClientPayload, ClientResponse, new_client, create_client,
  delete_client, existing,
}
use enseada.Rbac.Enforcer.{Enforcer}
use enseada.Users.Service.{User}
use enseada.Http.Errors.{from_oauth}
use enseada.Http.Guard.{authorize}

module _ (p : Platform) where
  open p use {World}

  -- The client has the id that a request asks for and the given scope, and authenticates with the
  -- secret of the request.
  abbrev pub Follows : CreateClientPayload p → Scope → Client p → Type 0
  Follows body granted client =
      (client.client_id ≡ body.client_id)
      × (client.allowed_scopes ≡ granted)
      × (authenticate_client p client body.client_secret ≡ ok tt)

  confidential-Follows :
      (body : CreateClientPayload p) (secret : String) (client : Client p) (w w' : World)
      → VerifiesOwnHashes p
      → body.client_secret ≡ some secret
      → new_confidential p body.client_id secret body.allowed_scopes body.allowed_redirect_uris w
        ≡ (ok client, w')
      → Follows body body.allowed_scopes client
  unfolding new_confidential confidential_with_hash
  confidential-Follows body secret client w w' own given h =
      elim (Outcome-cases (hash_password p secret w).0) [
        | inl (hash, hashed) ↦
            let verified =
              hash_verifies p secret hash w (hash_password p secret w).1 own (ground arith) in
            (
              ground arith,
              ground arith,
              (authenticate_client_iff p client body.client_secret).1
                  (inr (hash, secret, ground arith, given, verified)),
            )
        | inr (inl (x, failed)) ↦ absurd (ground arith)
        | inr (inr panics) ↦ absurd (ground arith)
      ]

  new_client-Follows :
      (body : CreateClientPayload p) (client : Client p) (w w' : World)
      → VerifiesOwnHashes p
      → new_client p body w ≡ (ok client, w')
      → Follows body body.allowed_scopes client
  unfolding new_client new_public
  new_client-Follows body client w w' own h = go body.kind body.client_secret refl refl
    where
      go :
          (kind : ClientKind) (secret : Option String)
          → body.kind ≡ kind
          → body.client_secret ≡ secret
          → Follows body body.allowed_scopes client
      go public secret k s = (
        ground arith,
        ground arith,
        (authenticate_client_iff p client body.client_secret).1 (inl (ground arith)),
      )
      go confidential none k s = absurd (ground arith)
      go confidential (some secret) k s =
          confidential-Follows body secret client w w' own s (ground arith)

  -- The scope has no part in the authentication.
  with_scope_read_authenticates :
      (client : Client p) (secret : Option String)
      → authenticate_client p (with_scope_read p client) secret
        ≡ authenticate_client p client secret
  unfolding authenticate_client
  with_scope_read_authenticates client secret = refl

  module _ (c : Persistence.Codecs p) (db : Database) (e : Enforcer p) (scope : Scope)
      (current : User) where
    -- A document of a client that is read has the id that it was asked for.
    abbrev pub OwnClientIds : Type 0
    OwnClientIds =
        (id : String) (w : World) (entity : ClientEntity p)
        → (Couch.Database.get p c.client db (Guid.to_string (client_guid id)) w).0
          ≡ ok (some entity)
        → entity.id ≡ client_guid id

    abbrev client_path : String → String
    client_path id = path db (Guid.to_string (client_guid id))

    deleted-Missing :
        (client : Client p) (w w' : World)
        → DocumentLaws p
        → OwnClientIds
        → Persistence.delete_client p c db client w ≡ (ok tt, w')
        → Missing p w' (client_path client.client_id)
    unfolding Persistence.delete_client
    deleted-Missing client w w' laws own h =
        let id = client_guid client.client_id in
        let looked = Couch.Database.get p c.client db (Guid.to_string id) in
        let (found, w1, read, rest) = ok_of_bind (map_err map_couch_err looked) _ tt w w' h in
        let (entity, w2, there, rest2) =
          ok_of_bind
            (ok_or (Error.new invalid_client (append "client '" (append id.id "' not found")))
              found)
            _ tt w1 w' rest in
        let (rev, w3, has_rev, removed) = ok_of_bind (unwrap entity.rev) _ tt w2 w' rest2 in
        subst (λ (g : Guid). Missing p w' (path db (Guid.to_string g)))
          (own client.client_id w entity (ground arith))
          (delete-Missing p laws db c.done (Guid.to_string entity.id) rev w3 w' (ground arith))

    found_id :
        (id : String) (client : Client p) (w : World)
        → OwnClientIds
        → (Persistence.get_client p c db id w).0 ≡ ok (some client)
        → client.client_id ≡ id
    unfolding Persistence.get_client to_client new_public confidential_with_hash
    found_id id client w own h =
        elim (Outcome-cases
          (Couch.Database.get p c.client db (Guid.to_string (client_guid id)) w).0) [
            | inl (o, read) ↦ elim (Option-cases o) [
              | inl nothing ↦ absurd (ground arith)
              | inr (entity, there) ↦
                  let named = own id w entity (read ∙ ap ok there) in
                  let same : client.client_id ≡ entity.id.id = ground arith in
                  same ∙ ap (λ (g : Guid). g.id) named ∙ client_guid_id id
            ]
            | inr (inl (x, failed)) ↦ absurd (ground arith)
            | inr (inr panics) ↦ absurd (ground arith)
          ]

    existing_found :
        (id : String) (client : Client p) (w w' : World)
        → existing p c db e scope current id w ≡ (ok client, w')
        → (Persistence.get_client p c db id w).0 ≡ ok (some client)
    existing_found id client w w' h =
        let (found, v, read, rest) =
          ok_of_bind (map_err from_oauth (Persistence.get_client p c db id)) _ client w w' h in
        ground (arith, Option-cases found)

    none_found :
        (id : String) (w : World)
        → Missing p w (client_path id)
        → (Persistence.get_client p c db id w).0 ≡ ok none
    unfolding Persistence.get_client
    none_found id w gone =
        ground (arith, get-Missing p c.client db (Guid.to_string (client_guid id)) w gone)

    -- After the deletion of a client has succeeded, no client is found under its id.
    pub deleted_client_gone :
        (id : String) (res : ClientResponse p) (w w' : World)
        → DocumentLaws p
        → OwnClientIds
        → delete_client p c db e scope current id w ≡ (ok res, w')
        → (Persistence.get_client p c db id w').0 ≡ ok none
    unfolding delete_client
    deleted_client_gone id res w w' laws own h =
        let (_, w1, guarded, rest) =
          ok_of_bind (authorize p "clients:manage" scope e current (client_guid id) "delete") _ res
            w w' h in
        let (client, w2, found, rest2) =
          ok_of_bind (existing p c db e scope current id) _ res w1 w' rest in
        let (_, w3, removed, rest3) =
          ok_of_bind (map_err from_oauth (Persistence.delete_client p c db client)) _ res w2 w'
            rest2 in
        let same = found_id id client w1 own (existing_found id client w1 w2 found) in
        let gone = deleted-Missing client w2 w3 laws own (ground arith) in
        none_found id w' (
          subst (λ i. Missing p w' (client_path i)) same
            (subst (λ v. Missing p v (client_path client.client_id)) (ground arith) gone))

    abbrev ClientLaws : Type 0
    ClientLaws = StoringLaws p c.client (λ entity rev. record entity { rev = some rev }) (reread p)

    abbrev revised : Client p → Option String → ClientEntity p
    revised client rev = record (from_client p client) { rev = rev }

    held_found :
        (client : Client p) (rev : Option String) (w : World)
        → Holds p c.client
            (λ entity r. record entity { rev = some r })
            w
            (client_path client.client_id)
            (reread p (revised client rev))
        → (Persistence.get_client p c db client.client_id w).0
          ≡ ok (some (with_scope_read p client))
    unfolding Persistence.get_client to_client
    held_found client rev w there =
        let (r, read) =
          get-Holds p c.client (λ entity r. record entity { rev = some r }) db
            (Guid.to_string (client_guid client.client_id)) (reread p (revised client rev)) w
            there in
        let back : to_client p (reread p (revised client (some r)))
            ≡ some (with_scope_read p client) =
          to_client-reread p client in
        ground (arith, back)

    saved_found :
        (client saved : Client p) (w w' : World)
        → ClientLaws
        → Persistence.save_client p c db client w ≡ (ok saved, w')
        → (Persistence.get_client p c db client.client_id w').0
          ≡ ok (some (with_scope_read p client))
    unfolding Persistence.save_client from_client
    saved_found client saved w w' laws h =
        let id : String = Guid.to_string (client_guid client.client_id) in
        let (found, w1, read, rest) =
          ok_of_bind (map_err map_couch_err (Couch.Database.get p c.client db id)) _ saved w w' h in
        let next = revised client (with_rev (rev_of p c db found) none) in
        let (res, w2, sent, rest2) =
          ok_of_bind (map_err map_couch_err (Couch.Database.put p c.client c.stored db id next)) _
            saved w1 w' rest in
        let there =
          put-Holds p c.client (λ entity r. record entity { rev = some r }) (reread p) laws db
            c.stored id next res w1 w2 (ground arith) in
        subst
          (λ v.
            (Persistence.get_client p c db client.client_id v).0
            ≡ ok (some (with_scope_read p client)))
          (ground arith) (held_found client next.rev w2 there)

    -- After the creation of a client has succeeded, a client is found under the id of the request
    -- that has that id and the scope that is read from the text of the request's, and authenticates
    -- with the secret of the request.
    pub created_client_authenticates :
        (body : CreateClientPayload p) (res : ClientResponse p) (w w' : World)
        → ClientLaws
        → VerifiesOwnHashes p
        → create_client p c db e scope current body w ≡ (ok res, w')
        → (client : Client p) × ((Persistence.get_client p c db body.client_id w').0
            ≡ ok (some client))
          × Follows body (Scope.from (Scope.to_string body.allowed_scopes)) client
    unfolding create_client
    created_client_authenticates body res w w' laws own h =
        let (_, w1, guarded, rest) =
          ok_of_bind (authorize p "clients:manage" scope e current (simple "clients") "create") _
            res w w' h in
        let (client, w2, made, rest2) = ok_of_bind (new_client p body) _ res w1 w' rest in
        let (saved, w3, stored, rest3) =
          ok_of_bind (map_err from_oauth (Persistence.save_client p c db client)) _ res w2 w'
            rest2 in
        let follows = new_client-Follows body client w1 w2 own made in
        let found = saved_found client saved w2 w3 laws (ground arith) in
        (
          with_scope_read p client,
          subst (λ i. (Persistence.get_client p c db i w').0 ≡ ok (some (with_scope_read p client)))
              follows.0
              (subst
                (λ v.
                  (Persistence.get_client p c db client.client_id v).0
                  ≡ ok (some (with_scope_read p client)))
                (ground arith) found),
          (
            follows.0,
            ap (λ (s : Scope). Scope.from (Scope.to_string s)) follows.1,
            with_scope_read_authenticates client body.client_secret ∙ follows.2,
          ),
        )
