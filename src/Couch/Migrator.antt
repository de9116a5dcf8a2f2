-- ===== src/Couch/Migrator.antt =====
-- couchdb/src/migrator.rs: migrations as lists of operations on the databases. How a text is read as a
-- migration is the code that serde derives.
pub mod Runs
use Prim.Native.String.{String, ◌++◌}
use enseada.Prelude.{Bool, true, Option, none, some, List, [], ◌∷◌}
use enseada.Prelude.Exec.{Outcome, ok, err, panic, Exec, pure, map_err, try, ◌>>=◌, ◌>>◌}
use enseada.Platform.{Platform}
use enseada.Couch.Error.{Error}
use enseada.Couch.Database.{Database}
use enseada.Couch.Setup.{SetupCodecs, DbInfo, new_index, get_self, create_self, create_index}

pub data MigrationError : Type 0 where
  deserialization_error : String → MigrationError
  run_error : String → Error → MigrationError

-- `Display`, which snafu derives.
unfoldable pub to_string : MigrationError → String
to_string (deserialization_error source) = "Failed to read migration: " ++ source
to_string (run_error op source) = "Failed to run migration " ++ op ++ ": " ++ source.message

-- `From<MigrationError>` for the error of the database
unfoldable pub from_migration : MigrationError → Error
unfolding to_string
from_migration e = record { message = to_string e; status = 500 }

module _ (p : Platform) where
  open p use {World, Json}

  pub data MigrationOperation : Type 0 where
    create_database : String → Bool → MigrationOperation
    -- name, database, index, design_doc
    create_json_index : String → String → Json → Option String → MigrationOperation

  pub record Migration : Type 0 where
    pub name : String
    pub operations : List MigrationOperation

  -- Migrator::new; `parse` is serde_json::from_str. The first text that is no migration ends it.
  unfoldable pub new :
      (String → Outcome String Migration) → List String → Outcome MigrationError (List Migration)
  new parse [] = ok []
  new parse (text ∷ rest) = elim (parse text) [
    | ok migration ↦ elim (new parse rest) [
      | ok migrations ↦ ok (migration ∷ migrations)
      | err e ↦ err e
      | panic ↦ panic
    ]
    | err e ↦ err (deserialization_error e)
    | panic ↦ panic
  ]

  module _ (c : SetupCodecs p) where
    abbrev create_missing : Database → String → Option DbInfo → Exec World MigrationError (Unit {0})
    create_missing db op (some info) = pure tt
    create_missing db op none = do map_err (run_error op) (create_self p c db); pure tt

    -- Migrator::create_db
    unfoldable pub create_db : String → Bool → String → Exec World MigrationError (Unit {0})
    create_db name partitioned op = do
      let db : Database = record { name = name; partitioned = partitioned }
      found ← try (get_self p c db)
      create_missing db op found

    -- Migrator::create_index
    unfoldable pub create_index_of :
        String → String → Option String → Json → String → Exec World MigrationError (Unit {0})
    unfolding new_index
    create_index_of name database ddoc index op = do
      let db : Database = record { name = database; partitioned = true }
      map_err (run_error op) (create_index p c db (new_index p name ddoc index))
      pure tt

    unfoldable pub run_operation :
        String → MigrationOperation → Exec World MigrationError (Unit {0})
    unfolding create_db create_index_of
    run_operation op (create_database name partitioned) = create_db name partitioned op
    run_operation op (create_json_index name database index design_doc) =
        create_index_of name database design_doc index op

    unfoldable pub run_operations :
        String → List MigrationOperation → Exec World MigrationError (Unit {0})
    unfolding run_operation
    run_operations op [] = pure tt
    run_operations op (operation ∷ rest) =
        let after = run_operations op rest in run_operation op operation >> after

    -- Migrator::run
    unfoldable pub run : List (Migration) → Exec World MigrationError (Unit {0})
    unfolding run_operations
    run [] = pure tt
    run (migration ∷ rest) =
        let after = run rest in run_operations migration.name migration.operations >> after
