-- ===== src/Users/Service/Kept.antt =====
-- A user in the database, and its log-in.
use enseada.Prelude.{String, true, some, ◌≡◌, refl, sym, ap, ◌∙◌, subst, inl, inr, arith}
use enseada.Prelude.Exec.{Outcome-cases, ok_of_bind, ok}
use enseada.Platform.{Platform}
use enseada.Secure.{hash_password, verify_password}
use enseada.Secure.Hashes.{VerifiesOwnHashes, hash_verifies}
use enseada.Guid
use enseada.Guid.{Guid}
use enseada.Guid.RoundTrip.{from-to_string}
use enseada.Couch
use enseada.Couch.Database
use enseada.Couch.Database.{Database, path}
use enseada.Couch.Stored.{Holds, StoringLaws, get-Holds, put-Holds}
use enseada.Users.Repository
use enseada.Users.Service
use enseada.Users.Service.{User, as_entity, user_guid, authenticate_user}

-- A user is written with the text of its id.
abbrev pub reread : User → User
reread user = record user { id = Guid.from (Guid.to_string user.id) }

user_guid_back :
    (username : String) → Guid.from (Guid.to_string (user_guid username)) ≡ user_guid username
unfolding user_guid Guid.partitioned enseada.Prelude.Text.contains
user_guid_back username = from-to_string (user_guid username) refl

pub reread_same :
    (username : String) (user : User) → user.id ≡ user_guid username → reread user ≡ user
reread_same username user named =
    ap (λ (g : Guid). record user { id = g })
      (ap (λ (g : Guid). Guid.from (Guid.to_string g)) named ∙ user_guid_back username ∙ sym named)

module _ (p : Platform) (users : Repository.Codecs p as_entity) (db : Database) where
  open p use {World}

  abbrev pub UserLaws : Type 0
  UserLaws = StoringLaws p users.document as_entity.set_rev reread

  abbrev pub HasUser : World → User → Type 0
  HasUser w user =
      Holds p users.document as_entity.set_rev w (path db (Guid.to_string user.id)) user

  pub new_verifies :
      (username password : String) (user : User) (w w' : World)
      → VerifiesOwnHashes p
      → Service.new p username password w ≡ (ok user, w')
      → (p.verify_encoded user.password_hash password ≡ ok true) × (user.id ≡ user_guid username)
  unfolding Service.new
  new_verifies username password user w w' own h =
      elim (Outcome-cases (hash_password p password w).0) [
        | inl (hash, hashed) ↦
            let verified : p.verify_encoded hash password ≡ ok true =
              hash_verifies p password hash w (hash_password p password w).1 own (ground arith) in
            (ground arith, ground arith)
        | inr (inl (x, failed)) ↦ absurd (ground arith)
        | inr (inr panics) ↦ absurd (ground arith)
      ]

  pub saved-HasUser :
      (username : String) (made user : User) (w w' : World)
      → UserLaws
      → made.id ≡ user_guid username
      → Repository.save p as_entity users db made w ≡ (ok user, w')
      → HasUser w' made × (user.id ≡ made.id)
  unfolding Repository.save
  saved-HasUser username made user w w' laws named h =
      let (res, v, put, rest) =
        ok_of_bind
          (Couch.Database.put p users.document users.stored db (Guid.to_string made.id) made) _ user
          w w' h in
      let there : HasUser v made =
        subst (Holds p users.document as_entity.set_rev v (path db (Guid.to_string made.id)))
          (reread_same username made named)
          (put-Holds p users.document as_entity.set_rev reread laws db users.stored
            (Guid.to_string made.id) made res w v put) in
      (subst (λ x. HasUser x made) (ground arith) there, ground arith)

  pub logs_in_of_HasUser :
      (username password : String) (user : User) (w : World)
      → user.id ≡ user_guid username
      → p.verify_encoded user.password_hash password ≡ ok true
      → HasUser w user
      → (found : User) × ((authenticate_user p users db username password w).0 ≡ ok found)
        × (found.id ≡ user_guid username)
  unfolding authenticate_user Repository.find verify_password
  logs_in_of_HasUser username password user w named verified there =
      let (rev, read) =
        get-Holds p users.document as_entity.set_rev db (Guid.to_string user.id) user w there in
      (record user { rev = some rev }, ground (arith, verified), named)
