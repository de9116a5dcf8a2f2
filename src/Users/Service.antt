-- ===== src/Users/Service.antt =====
-- server/src/user/entity.rs and service.rs: users, and their authentication.
pub mod Authentication
pub mod Kept
use enseada.Prelude.{String, Bool, Option, none, some}
use enseada.Prelude.Exec.{Outcome, Exec, pure, lift, ok_or, ensure, map_err, ◌>>=◌, ◌>>◌}
use enseada.Platform.{Platform}
use enseada.Secure.{hash_password, verify_password}
use enseada.Guid.{Guid, partitioned}
use enseada.Couch.Database.{Database}
use enseada.Error.{Error, database, generic}
use enseada.Users.Repository.{Entity, Codecs, find}

pub record User : Type 0 where
  pub id : Guid
  pub rev : Option String
  pub password_hash : String

-- User::build_guid
unfoldable pub user_guid : String → Guid
user_guid username = partitioned "user" username

abbrev pub as_entity : Entity User
as_entity = record {
  build_guid = user_guid;
  id = λ user. user.id;
  rev = λ user. user.rev;
  set_rev = λ user rev. record user { rev = some rev };
}

unfoldable pub username : User → String
username user = user.id.id

module _ (p : Platform) where
  open p use {World}

  -- User::new
  unfoldable pub new : String → String → Exec World Error User
  unfolding user_guid
  new username password = do
    password_hash ← map_err generic (hash_password p password)
    pure (record { id = user_guid username; rev = none; password_hash = password_hash })

  module _ (c : Codecs p as_entity) (db : Database) where
    unfoldable pub authenticate_user : String → String → Exec World Error User
    authenticate_user username password = do
      found ← map_err database (find p as_entity c db username)
      user ← ok_or (generic "authentication failed") found
      verified ← map_err generic (lift (verify_password p user.password_hash password))
      ensure verified (generic "authentication failed")
      pure user
