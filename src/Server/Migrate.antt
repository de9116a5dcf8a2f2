-- ===== src/Server/Migrate.antt =====
-- server/src/couchdb/migrate.rs: what the server sets up in the databases when it starts. The texts of
-- the migrations are files that the build includes.
pub mod Root
use enseada.Prelude.{String, Bool, true, false, Option, none, List, [], ◌∷◌}
use enseada.Prelude.Exec.{Outcome, ok, Exec, pure, lift, expect, map_err, map_outcome, ◌>>=◌, ◌>>◌}
use enseada.Platform.{Platform}
use enseada.Guid
use enseada.Couch.Error.{Error}
use enseada.Couch.Responses.{PutResponse}
use enseada.Couch.Database.{Codec, Database, exists, put}
use enseada.Couch.Setup.{SetupCodecs}
use enseada.Couch.Migrator
use enseada.Couch.Migrator.{Migration, from_migration}
use enseada.Oauth.Scope
use enseada.Oauth.Client.{Client, new_public}
use enseada.Oauth.Persistence.Entities.{ClientEntity, client_guid, from_client}
use enseada.Users.Service
use enseada.Users.Service.{User}
use enseada.Server.Config.{Configuration, public_host, root_password}

module _ (p : Platform) where
  open p use {World, Url}

  -- The code that serde derives for what is read and written here.
  pub record MigrateCodecs : Type 0 where
    pub parse : String → Outcome String (Migration p)
    pub setup : SetupCodecs p
    pub client : Codec p (ClientEntity p)
    pub user : Codec p User
    pub stored : Codec p PutResponse

  abbrev pub oauth_db : Database
  oauth_db = record { name = "oauth"; partitioned = true }

  abbrev pub users_db : Database
  users_db = record { name = "users"; partitioned = true }

  module _ (c : MigrateCodecs) where
    abbrev unless_there : Bool → Exec World Error (Unit {0}) → Exec World Error (Unit {0})
    unless_there true put_it = pure tt
    unless_there false put_it = put_it

    unfoldable pub create_oauth_client : Database → Client p → Exec World Error (Unit {0})
    create_oauth_client db client = do
      let entity = from_client p client
      there ← exists p db (Guid.to_string (client_guid client.client_id))
      unless_there there (do put p c.client c.stored db (Guid.to_string entity.id) entity; pure tt)

    unfoldable pub create_root_user : Database → String → Exec World Error (Unit {0})
    create_root_user db password = do
      user ← expect (Service.new p "root" password)
      there ← exists p db (Guid.to_string user.id)
      unless_there there (do put p c.user c.stored db (Guid.to_string user.id) user; pure tt)

    -- The redirect URI is the public host joined with a path.
    unfoldable pub run :
        (Url → String → Outcome String Url)
        → List String
        → Configuration p
        → Exec World Error (Unit {0})
    unfolding create_oauth_client create_root_user new_public
    run join migrations cfg = do
      parsed ← lift (map_outcome from_migration (Migrator.new p c.parse migrations))
      map_err from_migration (Migrator.run p c.setup parsed)
      uri ← expect (lift (join (public_host p cfg) "/ui/auth/callback"))
      create_oauth_client oauth_db (new_public p "enseada" (Scope.from "*") (uri ∷ []))
      create_root_user users_db (root_password p cfg)
