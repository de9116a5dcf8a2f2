-- ===== src/Users/Routes/Lifecycle.antt =====
-- From the registration of a user to its deletion: whether it can log in.
use enseada.Prelude.{
  String, Option, none, some, List, [], ◌∷◌, ◌≡◌, ◌≢◌, subst, inl, inr, arith, Option-cases,
}
use enseada.Prelude.Exec.{ok_of_bind, continue-keeps, pure, map_err, ok_or, ok, err}
use enseada.Platform.{Platform}
use enseada.Error.{generic}
use enseada.Secure.Hashes.{VerifiesOwnHashes}
use enseada.Guid
use enseada.Guid.{Guid, simple}
use enseada.Couch
use enseada.Couch.Database.{Codec, Database, path}
use enseada.Couch.Database
use enseada.Couch.Stored.{put_other-Holds}
use enseada.Couch.Documents.{Missing, DocumentLaws, get-Missing, delete-Missing}
use enseada.Oauth.Scope.{Scope}
use enseada.Rbac.Rule.{new_assignment}
use enseada.Rbac.Enforcer
use enseada.Rbac.Enforcer.{Enforcer}
use enseada.Users.Repository
use enseada.Users.Service
use enseada.Users.Service.{User, as_entity, user_guid, authenticate_user}
use enseada.Users.Service.Kept.{
  reread, UserLaws, HasUser, new_verifies, saved-HasUser, logs_in_of_HasUser,
}
use enseada.Users.Routes.{Registration, add_roles, register, add_given, UserResponse, delete}
use enseada.Http.Errors.{from_library, not_found, from_couch}
use enseada.Http.Guard.{authorize}

module _ (p : Platform) (c : Enforcer.Codecs p) (users : Repository.Codecs p as_entity)
    (db : Database) (e : Enforcer p) (scope : Scope) (current : User) where
  open p use {World, Json, request}

  abbrev user_path : String → String
  user_path username = path db (Guid.to_string (user_guid username))

  -- A user that is found has the id that it was looked for.
  abbrev pub OwnUserIds : Type 0
  OwnUserIds =
      (username : String) (w : World) (user : User)
      → (Repository.find p as_entity users db username w).0 ≡ ok (some user)
      → user.id ≡ user_guid username

  deleted-Missing :
      (username : String) (user : User) (w w' : World)
      → DocumentLaws p
      → user.id ≡ user_guid username
      → Repository.delete p as_entity users db user w ≡ (ok tt, w')
      → Missing p w' (user_path username)
  unfolding Repository.delete
  deleted-Missing username user w w' laws own h = elim (Option-cases user.rev) [
    | inl no_rev ↦ absurd (ground arith)
    | inr (rev, has_rev) ↦
        subst (λ (id : Guid). Missing p w' (path db (Guid.to_string id))) own
          (delete-Missing p laws db users.done (Guid.to_string user.id) rev w w' (ground arith))
  ]

  -- After the deletion of a user has succeeded, the log-in under its name is refused, whatever
  -- the password.
  pub deleted_user_cannot_log_in :
      (username password : String) (w w' : World)
      → DocumentLaws p
      → OwnUserIds
      → delete p c users db e scope current username w ≡ (ok tt, w')
      → (authenticate_user p users db username password w').0
        ≡ err (generic "authentication failed")
  unfolding delete authenticate_user Repository.find
  deleted_user_cannot_log_in username password w w' laws own h =
      let (_, w1, guarded, rest) =
        ok_of_bind (authorize p "users:manage" scope e current (user_guid username) "delete") _ tt w
          w' h in
      let (found, w2, looked, rest2) =
        ok_of_bind (map_err from_couch (Repository.find p as_entity users db username)) _ tt w1 w'
          rest in
      let (user, w3, there, removed) =
        ok_of_bind (ok_or (not_found username) found) _ tt w2 w' rest2 in
      let gone =
        deleted-Missing username user w3 w' laws (own username w1 user (ground arith))
          (ground arith) in
      ground (arith, get-Missing p users.document db (Guid.to_string (user_guid username)) w' gone)

  -- The documents of the two databases have different paths.
  abbrev pub Apart : Type 0
  Apart = (rbac_id user_id : String) → path e.db rbac_id ≢ path db user_id

  add_role-HasUser :
      (sub : Guid) (role : String) (user : User) (w : World)
      → UserLaws p users db
      → Apart
      → HasUser p users db w user
      → HasUser p users db (Enforcer.add_role_to_principal p c e sub role w).1 user
  unfolding Enforcer.add_role_to_principal
  add_role-HasUser sub role user w laws apart there =
      let assignment = new_assignment sub role in
      let id : String = Guid.to_string assignment.id in
      let there' : HasUser p users db
          (Couch.Database.put p c.assignment c.stored e.db id assignment w).1 user =
        put_other-Holds p users.document as_entity.set_rev reread laws db c.assignment c.stored e.db
          id (path db (Guid.to_string user.id)) assignment user w
          (apart id (Guid.to_string user.id)) there in
      continue-keeps (λ v. HasUser p users db v user)
        (Couch.Database.put p c.assignment c.stored e.db id assignment w).0 (λ _. pure tt) _ there'
        (λ _. there')

  add_roles-HasUser :
      (sub : Guid) (roles : List String) (user : User) (w : World)
      → UserLaws p users db
      → Apart
      → HasUser p users db w user
      → HasUser p users db (add_roles p c users db e scope current sub roles w).1 user
  unfolding add_roles Enforcer.add_role_to_principal
  add_roles-HasUser sub [] user w laws apart there = there
  add_roles-HasUser sub (role ∷ rest) user w laws apart there =
      continue-keeps (λ v. HasUser p users db v user) _
        (λ _. add_roles p c users db e scope current sub rest) _
        (add_role-HasUser sub role user w laws apart there)
        (λ _.
          add_roles-HasUser sub rest user _ laws apart
            (add_role-HasUser sub role user w laws apart there))

  given-HasUser :
      (sub : Guid) (roles : Option (List String)) (user : User) (w : World)
      → UserLaws p users db
      → Apart
      → HasUser p users db w user
      → HasUser p users db (add_given p c users db e scope current sub roles w).1 user
  given-HasUser sub none user w laws apart there = there
  given-HasUser sub (some roles) user w laws apart there =
      add_roles-HasUser sub roles user w laws apart there

  -- After the registration of a user has succeeded, with whatever roles, the log-in with its name
  -- and password succeeds, as the user of that name.
  pub registered_user_logs_in :
      (registration : Registration) (res : UserResponse) (w w' : World)
      → UserLaws p users db
      → Apart
      → VerifiesOwnHashes p
      → register p c users db e scope current registration w ≡ (ok res, w')
      → (found : User) × ((authenticate_user p users db registration.username registration.password
            w').0
          ≡ ok found)
        × (found.id ≡ user_guid registration.username)
  unfolding register
  registered_user_logs_in registration res w w' laws apart own h =
      let (_, w1, guarded, rest) =
        ok_of_bind (authorize p "users:manage" scope e current (simple "users") "create") _ res w w'
          h in
      let (made, w2, created, rest2) =
        ok_of_bind
          (map_err from_library (Service.new p registration.username registration.password)) _ res
          w1 w' rest in
      let (user, w3, saved, rest3) =
        ok_of_bind (map_err from_couch (Repository.save p as_entity users db made)) _ res w2 w'
          rest2 in
      let facts =
        new_verifies p users db registration.username registration.password made w1 w2 own
          (ground arith) in
      let stored =
        saved-HasUser p users db registration.username made user w2 w3 laws facts.1
          (ground arith) in
      let kept = given-HasUser user.id registration.roles made w3 laws apart stored.0 in
      logs_in_of_HasUser p users db registration.username registration.password made w' facts.1
        facts.0 (subst (λ x. HasUser p users db x made) (ground arith) kept)
