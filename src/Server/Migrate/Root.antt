-- ===== src/Server/Migrate/Root.antt =====
-- The root user over several starts of the server.
use enseada.Prelude.{String, false, ◌≡◌, subst, sym, ◌∙◌, inl, inr, arith}
use enseada.Prelude.Exec.{Outcome-cases, ok}
use enseada.Platform.{Platform}
use enseada.Guid
use enseada.Guid.{Guid}
use enseada.Secure.{generate_token, hash_password}
use enseada.Secure.Hashes.{VerifiesOwnHashes}
use enseada.Couch
use enseada.Couch.Database
use enseada.Couch.Database.{path, exists}
use enseada.Couch.Stored.{Holds, PresenceLaws, put-Holds, exists-Holds}
use enseada.Users.Repository
use enseada.Users.Service
use enseada.Users.Service.{User, as_entity, user_guid, authenticate_user}
use enseada.Users.Service.Kept.{
  reread, reread_same, UserLaws, HasUser, new_verifies, logs_in_of_HasUser,
}
use enseada.Server.Migrate.{MigrateCodecs, users_db, create_root_user}

module _ (p : Platform) (c : MigrateCodecs p) (users : Repository.Codecs p as_entity) where
  open p use {World}

  -- The documents of users are read and written by the same code as elsewhere.
  abbrev pub codecs : MigrateCodecs p
  codecs = record c { user = users.document; stored = users.stored }

  abbrev pub RootLaws : Type 0
  RootLaws = PresenceLaws p users.document as_entity.set_rev

  new_keeps :
      (password : String) (user : User) (w : World)
      → RootLaws
      → HasUser p users (users_db p) w user
      → HasUser p users (users_db p) (Service.new p "root" password w).1 user
  unfolding Service.new hash_password generate_token
  new_keeps password user w laws there =
      let filled = laws.after_fill (path (users_db p) (Guid.to_string user.id)) 16 user w there in
      elim (Outcome-cases (p.fill 16 w).0) [
        | inl (bytes, drawn) ↦
            subst (λ v. HasUser p users (users_db p) v user) (ground arith) filled
        | inr (inl (x, failed)) ↦
            subst (λ v. HasUser p users (users_db p) v user) (ground arith) filled
        | inr (inr panics) ↦ subst (λ v. HasUser p users (users_db p) v user) (ground arith) filled
      ]

  new_id :
      (password : String) (user : User) (w v : World)
      → Service.new p "root" password w ≡ (ok user, v)
      → user.id ≡ user_guid "root"
  unfolding Service.new
  new_id password user w v h = elim (Outcome-cases (hash_password p password w).0) [
    | inl (hash, hashed) ↦ ground arith
    | inr (inl (x, failed)) ↦ absurd (ground arith)
    | inr (inr panics) ↦ absurd (ground arith)
  ]

  created_HasUser :
      (password : String) (user : User) (w v w' : World)
      → UserLaws p users (users_db p)
      → user.id ≡ user_guid "root"
      → Service.new p "root" password w ≡ (ok user, v)
      → (exists p (users_db p) (Guid.to_string user.id) v).0 ≡ ok false
      → create_root_user p codecs (users_db p) password w ≡ (ok tt, w')
      → HasUser p users (users_db p) w' user
  unfolding create_root_user
  created_HasUser password user w v w' laws named made missing h =
      let id : String = Guid.to_string user.id in
      let looked : World = (exists p (users_db p) id v).1 in
      let sent = Couch.Database.put p users.document users.stored (users_db p) id user looked in
      elim (Outcome-cases sent.0) [
        | inl (res, done) ↦
            subst (λ x. HasUser p users (users_db p) x user) (ground arith)
              (subst (Holds p users.document as_entity.set_rev sent.1 (path (users_db p) id))
                (reread_same "root" user named)
                (put-Holds p users.document as_entity.set_rev reread laws (users_db p) users.stored
                  id user res looked sent.1 (ground arith)))
        | inr (inl (x, failed)) ↦ absurd (ground arith)
        | inr (inr panics) ↦ absurd (ground arith)
      ]

  started-HasUser :
      (password : String) (user : User) (w : World)
      → RootLaws
      → user.id ≡ user_guid "root"
      → HasUser p users (users_db p) w user
      → HasUser p users (users_db p) (create_root_user p codecs (users_db p) password w).1 user
  unfolding create_root_user
  started-HasUser password user w laws named there =
      let v : World = (Service.new p "root" password w).1 in
      let kept : HasUser p users (users_db p) v user = new_keeps password user w laws there in
      elim (Outcome-cases (Service.new p "root" password w).0) [
        | inl (fresh, made) ↦
            let same : user.id ≡ fresh.id =
              named ∙ sym (new_id password fresh w v (ground arith)) in
            let present =
              exists-Holds p users.document as_entity.set_rev (users_db p) (Guid.to_string user.id)
                user v laws kept in
            subst (λ x. HasUser p users (users_db p) x user) (ground arith) present.1
        | inr (inl (x, failed)) ↦
            subst (λ x. HasUser p users (users_db p) x user) (ground arith) kept
        | inr (inr panics) ↦ subst (λ x. HasUser p users (users_db p) x user) (ground arith) kept
      ]

  -- The creation of the root user that finds none, and succeeds, makes one with the password that it
  -- is given. After another run of it, whatever the password is then and however it ends, root logs
  -- in with the first password.
  pub first_root_password_stays :
      (first second : String) (user : User) (w v w' : World)
      → UserLaws p users (users_db p)
      → RootLaws
      → VerifiesOwnHashes p
      → Service.new p "root" first w ≡ (ok user, v)
      → (exists p (users_db p) (Guid.to_string user.id) v).0 ≡ ok false
      → create_root_user p codecs (users_db p) first w ≡ (ok tt, w')
      → (found : User) × ((authenticate_user p users
            (users_db p)
            "root"
            first
            (create_root_user p codecs (users_db p) second w').1).0
          ≡ ok found)
        × (found.id ≡ user_guid "root")
  first_root_password_stays first second user w v w' laws root own made missing h =
      let facts = new_verifies p users (users_db p) "root" first user w v own made in
      logs_in_of_HasUser p users (users_db p) "root" first user
        (create_root_user p codecs (users_db p) second w').1 facts.1 facts.0
        (started-HasUser second user w' root facts.1
          (created_HasUser first user w v w' laws facts.1 made missing h))
