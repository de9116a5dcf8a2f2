-- ===== src/Couch/Migrator/Runs.antt =====
-- What a run of migrations does, operation by operation, and how it fails.
use enseada.Prelude.{String, List, [], ◌∷◌, ◌++◌, ◌≡◌, refl, ap, inl, inr, arith, Bool, true}
use enseada.Prelude.Exec.{Outcome-cases, ok, err, Exec, pure, ◌>>◌}
use enseada.Platform.{Platform}
use enseada.Couch.Error.{Error}
use enseada.Couch.Database.{Database}
use enseada.Couch.Setup.{SetupCodecs, DbInfo, new_index, get_self, create_self, create_index}
use enseada.Couch.Migrator.{
  MigrationError, run_error, MigrationOperation, create_database, create_json_index, Migration,
  create_db, create_index_of, run_operation, run_operations, run,
}

module _ (p : Platform) (c : SetupCodecs p) where
  open p use {World}

  -- The operations of all migrations, each with the name of its migration.
  abbrev named : String → List (MigrationOperation p) → List (String × MigrationOperation p)
  named name [] = []
  named name (operation ∷ rest) = (name, operation) ∷ named name rest

  abbrev pub script : List (Migration p) → List (String × MigrationOperation p)
  script [] = []
  script (migration ∷ rest) = named migration.name migration.operations ++ script rest

  abbrev pub run_script :
      List (String × MigrationOperation p) → Exec World MigrationError (Unit {0})
  run_script [] = pure tt
  run_script ((name, operation) ∷ rest) =
      let after = run_script rest in run_operation p c name operation >> after

  run_script-append :
      (name : String) (l : List (MigrationOperation p)) (r : List (String × MigrationOperation p))
      (w : World)
      → (run_operations p c name l >> run_script r) w ≡ run_script (named name l ++ r) w
  unfolding run_operations
  run_script-append name [] r w = refl
  run_script-append name (operation ∷ rest) r w =
      elim (Outcome-cases (run_operation p c name operation w).0) [
        | inl (_, done) ↦
            ground (arith, run_script-append name rest r (run_operation p c name operation w).1)
        | inr (inl (x, failed)) ↦ ground arith
        | inr (inr panics) ↦ ground arith
      ]

  -- The nested loops of a run do the operations of all migrations in their order, up to the first
  -- that fails or panics.
  pub run-script :
      (migrations : List (Migration p)) (w : World)
      → run p c migrations w ≡ run_script (script migrations) w
  unfolding run
  run-script [] w = refl
  run-script (migration ∷ rest) w =
      let first = run_operations p c migration.name migration.operations in
      let joined = run_script-append migration.name migration.operations (script rest) w in
      elim (Outcome-cases (first w).0) [
        | inl (_, done) ↦ ground (arith, joined, run-script rest (first w).1)
        | inr (inl (x, failed)) ↦ ground (arith, joined)
        | inr (inr panics) ↦ ground (arith, joined)
      ]

  -- The error is that of an operation of a migration of that name.
  abbrev pub IsErrorOf : String → MigrationError → Type 0
  IsErrorOf name x = (source : Error) × (x ≡ run_error name source)

  operation_error :
      (name : String) (operation : MigrationOperation p) (x : MigrationError) (w : World)
      → (run_operation p c name operation w).0 ≡ err x
      → IsErrorOf name x
  unfolding run_operation create_db create_index_of
  operation_error name (create_database database partitioned) x w h =
      let db : Database = record { name = database; partitioned = partitioned } in
      elim (Outcome-cases (get_self p c db w).0) [
        | inl (info, there) ↦ absurd (ground arith)
        | inr (inl (missing, e)) ↦
            elim (Outcome-cases (create_self p c db (get_self p c db w).1).0) [
              | inl (created, done) ↦ absurd (ground arith)
              | inr (inl (source, failed)) ↦ (source, ground arith)
              | inr (inr panics) ↦ absurd (ground arith)
            ]
        | inr (inr panics) ↦ absurd (ground arith)
      ]
  operation_error name (create_json_index index database body ddoc) x w h =
      let db : Database = record { name = database; partitioned = true } in
      elim (Outcome-cases (create_index p c db (new_index p index ddoc body) w).0) [
        | inl (created, done) ↦ absurd (ground arith)
        | inr (inl (source, failed)) ↦ (source, ground arith)
        | inr (inr panics) ↦ absurd (ground arith)
      ]

  operations_error :
      (name : String) (l : List (MigrationOperation p)) (x : MigrationError) (w : World)
      → (run_operations p c name l w).0 ≡ err x
      → IsErrorOf name x
  unfolding run_operations
  operations_error name [] x w h = absurd (ground arith)
  operations_error name (operation ∷ rest) x w h =
      elim (Outcome-cases (run_operation p c name operation w).0) [
        | inl (_, done) ↦
            operations_error name rest x (run_operation p c name operation w).1 (ground arith)
        | inr (inl (y, failed)) ↦ operation_error name operation x w (ground arith)
        | inr (inr panics) ↦ absurd (ground arith)
      ]

  -- A run that fails has run the migrations before some migration of the list to their ends, and
  -- its error is an error of the database, under the name of that migration.
  pub run_fails_at :
      (migrations : List (Migration p)) (x : MigrationError) (w : World)
      → (run p c migrations w).0 ≡ err x
      → (before after : List (Migration p)) × (migration : Migration p) × (migrations
          ≡ before ++ migration ∷ after)
        × ((run p c before w).0 ≡ ok tt)
        × IsErrorOf migration.name x
  unfolding run
  run_fails_at [] x w h = absurd (ground arith)
  run_fails_at (migration ∷ rest) x w h =
      let first = run_operations p c migration.name migration.operations in
      elim (Outcome-cases (first w).0) [
        | inl (_, done) ↦
            let (before, after, failing, split, ran, named_error) =
              run_fails_at rest x (first w).1 (ground arith) in
            (
              migration ∷ before,
              after,
              failing,
              ap (◌∷◌ migration) split,
              ground arith,
              named_error,
            )
        | inr (inl (y, failed)) ↦ (
          [],
          rest,
          migration,
          refl,
          refl,
          operations_error migration.name migration.operations x w (ground arith),
        )
        | inr (inr panics) ↦ absurd (ground arith)
      ]

  -- A database that answers is not created again.
  pub existing_not_created :
      (name op : String) (partitioned : Bool) (info : DbInfo) (w : World)
      → (get_self p c (record { name = name; partitioned = partitioned }) w).0 ≡ ok info
      → create_db p c name partitioned op w
        ≡ (ok tt, (get_self p c (record { name = name; partitioned = partitioned }) w).1)
  unfolding create_db
  existing_not_created name op partitioned info w h = ground arith
