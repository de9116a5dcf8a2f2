-- ===== src/Examples/Starts.antt =====
-- The theorems about the set-up of the server and the watcher, at concrete inputs.
use Prim.Native.String.{len}
use enseada.Prelude.{
  String, true, false, Bool, some, none, List, ◌≡◌, ◌≢◌, ◌≤◌, ◌++◌, refl, arith, [], ◌∷◌, eq_iff,
  ap, ◌==◌, if◌then◌else◌,
}
use enseada.Prelude.Exec.{ok, err, panic, Outcome}
use enseada.Platform.{ℤ, pos}
use enseada.Guid
use enseada.Secure.Hashes.{VerifiesOwnHashes}
use enseada.Error.{generic}
use enseada.Couch.Database.{Codec, exists}
use enseada.Couch.Setup.{SetupCodecs, DbInfo}
use enseada.Couch.Changes.{ChangeEvent, next}
use enseada.Couch.Migrator.{
  Migration, MigrationError, run_error, create_database, create_json_index, run,
}
use enseada.Couch.Migrator.Runs.{IsErrorOf, run_fails_at}
use enseada.Rbac.Model
use enseada.Rbac.Model.{Model}
use enseada.Rbac.Enforcer.{Enforcer, load_rules}
use enseada.Rbac.Watcher.{react, watch, Runs, reacts, elsewhere, stay}
use enseada.Rbac.Watcher.Freshness.{latest, run_holds_latest, watch_no_error}
use enseada.Users.Service
use enseada.Users.Service.{User, user_guid, authenticate_user}
use enseada.Users.Service.Kept.{reread}
use enseada.Server.Config
use enseada.Server.Config.{Configuration, Settings, Value}
use enseada.Server.Config.Bounds.{LookupLaws, new_bounds}
use enseada.Server.Migrate
use enseada.Server.Migrate.{MigrateCodecs, create_root_user}
use enseada.Server.Migrate.Root.{codecs, first_root_password_stays}
use enseada.Examples.Store.{Store}
use enseada.Examples.Kept.{storing, presence}
use enseada.Examples.Directory.{
  Document, ann_document, set_rev, revise, format, given, directory, users, rbac, enforcer, nobody,
}

abbrev no_info : DbInfo
no_info = record {
  cluster = record { n = pos 1; q = pos 1; r = pos 1; w = pos 1 };
  compact_running = false;
  db_name = "";
  disk_format_version = pos 8;
  doc_count = pos 0;
  doc_del_count = pos 0;
  instance_start_time = "0";
  purge_seq = "0";
  sizes = record { active = pos 0; external = pos 0; file = pos 0 };
  update_seq = "0";
  props = record { partitioned = some true };
}

abbrev setup : SetupCodecs directory
setup = record {
  info = given no_info;
  done = given (record { ok = true });
  index = given (record { index = ann_document; name = ""; ddoc = none; typ = "json" });
  indexed = given (record { result = enseada.Couch.Setup.created; id = ""; name = "" });
}

abbrev migrate_codecs : MigrateCodecs directory
migrate_codecs = record {
  parse = λ text. err "no";
  setup = setup;
  client = record {
    encode = λ x. ann_document;
    decode = λ json. err (record { message = "no"; status = none });
  };
  user = users.document;
  stored = users.stored;
}

-- The index is refused.
abbrev migration : Migration directory
migration = record {
  name = "m1";
  operations =
      create_database "users" true ∷ create_json_index "by_name" "users" ann_document none ∷ [];
}

abbrev refusal : MigrationError
refusal = run_error "m1" (record { message = "no"; status = 404 })

refused : (run directory setup (migration ∷ []) nobody).0 ≡ err refusal
unfolding run enseada.Couch.Setup.get_self enseada.Couch.Setup.create_self
    enseada.Couch.Setup.create_index enseada.Couch.Database.fetch enseada.Couch.Error.from
refused = refl

run_fails_at_example :
    (before after : List (Migration directory)) × (failing : Migration directory) × ((migration
        ∷ [])
      ≡ before ++ failing ∷ after)
    × ((run directory setup before nobody).0 ≡ ok tt)
    × IsErrorOf directory setup failing.name refusal
run_fails_at_example = run_fails_at directory setup (migration ∷ []) refusal nobody refused

abbrev made : User
made = record { id = user_guid "root"; rev = none; password_hash = "first" }

abbrev drawn : Store Document
drawn = (Service.new directory "root" "first" nobody).1

abbrev started : Store Document
started =
    (create_root_user directory (codecs directory migrate_codecs users) (Migrate.users_db directory)
      "first" nobody).1

makes : Service.new directory "root" "first" nobody ≡ (ok made, drawn)
unfolding Service.new enseada.Secure.hash_password enseada.Secure.generate_token enseada.Secure.new
makes = refl

missing :
    (exists directory (Migrate.users_db directory) (Guid.to_string made.id) drawn).0 ≡ ok false
unfolding exists Service.new enseada.Secure.hash_password enseada.Secure.generate_token
missing = refl

starts :
    create_root_user directory
      (codecs directory migrate_codecs users)
      (Migrate.users_db directory)
      "first"
      nobody
    ≡ (ok tt, started)
unfolding create_root_user exists Service.new enseada.Secure.hash_password
    enseada.Secure.generate_token enseada.Secure.new enseada.Couch.Database.put
    enseada.Couch.Database.fetch
starts = refl

verifies : VerifiesOwnHashes directory
verifies salt password hash h = ground (arith, eq_iff hash password)

first_root_password_stays_example :
    (found : User) × ((authenticate_user directory users
        (Migrate.users_db directory)
        "root"
        "first"
        (create_root_user directory
          (codecs directory migrate_codecs users)
          (Migrate.users_db directory)
          "second"
          started).1).0
      ≡ ok found)
    × (found.id ≡ user_guid "root")
first_root_password_stays_example =
    first_root_password_stays directory migrate_codecs users "first" "second" made nobody drawn
      started (storing Document ann_document set_rev revise reread format)
      (presence Document ann_document set_rev revise reread format) verifies makes missing starts

abbrev change : ChangeEvent
change = next "rule" "2" [] none

abbrev crowd : Model directory
crowd = record { principals = ("old", Model.new_principal directory "old") ∷ [] }

-- The enforcer with a model that the database has not.
abbrev stale : Enforcer directory
stale = record enforcer { model = crowd }

reloads : react directory rbac change (stale, nobody) ≡ (ok tt, (enforcer, nobody))
unfolding react load_rules enseada.Couch.Database.list_all_partitioned enseada.Couch.Database.fetch
    enseada.Rbac.Enforcer.load_rows enseada.Rbac.Enforcer.assign_roles
    enseada.Rbac.Model.set_principals
reloads = refl

runs : Runs directory rbac (stale, nobody) ((change, nobody) ∷ []) (enforcer, nobody)
runs = elsewhere {w = nobody} (reacts change reloads stay)

run_holds_latest_example : enforcer ≡ latest directory rbac stale ((change, nobody) ∷ [])
run_holds_latest_example =
    run_holds_latest directory rbac stale enforcer nobody nobody ((change, nobody) ∷ []) runs

watch_no_error_example :
    (watch directory rbac (change ∷ []) (enforcer, nobody)).0 ≢ err (generic "no")
watch_no_error_example =
    watch_no_error directory rbac (change ∷ []) (generic "no") (enforcer, nobody)

-- The table of settings is what is read from it.
pub record Table : Type 0 where
  pub port : ℤ
  pub enabled : Bool
  pub key : String
  pub password : String

abbrev configured : Table → Configuration directory
configured t = record {
  port = t.port;
  log = record { level = "info"; rootlevel = "warn"; format = none };
  couchdb = record { url = some "http://localhost:5984"; username = none; password = none };
  tls = record { enabled = t.enabled; cert = record { path = none }; key = record { path = none } };
  public = record { host = "http://localhost:9623" };
  secret = record { key = t.key };
  root = record { password = t.password };
}

abbrev table : Table
table = record {
  port = pos 9623;
  enabled = false;
  key = "0123456789abcdef0123456789abcdef";
  password = "rootroot";
}

abbrev settings : Settings directory
settings = record {
  Table = Table;
  environment = λ w. (ok table, w);
  set_default = λ t key value. ok t;
  get_int = λ t key. ok t.port;
  get_bool = λ t key. ok t.enabled;
  get_str = λ t key. ok (if key == "secret.key" then t.key else t.password);
  try_into = λ t. ok (configured t);
}

abbrev map_ok : {A B : Type 0} → (A → B) → Outcome String A → Outcome String B
map_ok f (ok a) = ok (f a)
map_ok f (err e) = err e
map_ok f panic = panic

lookups : LookupLaws directory settings
unfolding Config.secret_key Config.root_password
lookups = record {
  key_read = λ t cfg h. ap (map_ok (λ (x : Configuration directory). x.secret.key)) h;
  password_read = λ t cfg h. ap (map_ok (λ (x : Configuration directory). x.root.password)) h;
}

loads : Config.new directory settings nobody ≡ (ok (configured table), nobody)
unfolding Config.new
loads = refl

new_bounds_example :
    (32 ≤ len (Config.secret_key directory (configured table)))
    × (8 ≤ len (Config.root_password directory (configured table)))
new_bounds_example = new_bounds directory settings (configured table) nobody nobody lookups loads
