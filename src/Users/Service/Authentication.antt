-- ===== src/Users/Service/Authentication.antt =====
-- Who is authenticated.
use enseada.Prelude.{String, true, some, ◌≡◌, ◌↔◌, arith}
use enseada.Prelude.Exec.{ok}
use enseada.Platform.{Platform}
use enseada.Secure.{verify_password}
use enseada.Couch.Database.{Database}
use enseada.Users.Repository.{Codecs, find}
use enseada.Users.Service.{User, as_entity, authenticate_user}

module _ (p : Platform) (c : Codecs p as_entity) (db : Database) where
  -- A user is authenticated exactly if a user of that name is found and the password verifies
  -- against its hash; the look-up is all that happens.
  pub authenticate_user_iff :
      (username password : String) (user : User) (w w' : p.World)
      → (authenticate_user p c db username password w ≡ (ok user, w')) ↔ (
          (find p as_entity c db username w ≡ (ok (some user), w'))
          × (p.verify_encoded user.password_hash password ≡ ok true))
  unfolding authenticate_user verify_password
  authenticate_user_iff username password user w w' = ground arith
