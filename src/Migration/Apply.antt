-- ===== src/Migration/Apply.antt =====
-- `applyMigration` and `rollbackMigration`
pub mod Connections
use dbchan.Base.{Bool, true, false, not, Option, none, some, if◌then◌else◌}
use dbchan.Base.Text.{String, ◌==◌, ◌<>◌}
use dbchan.Base.Prog.{Error, errorf, pure, raise, wrap, when, catch, ◌>>=◌, ◌>>◌}
use dbchan.Api.{ObjectKey, SecretData, Migration, Database, Datastore}
use dbchan.Cluster.{Kind, Conn, World}
use dbchan.Cluster.Calls.{Io, get}
use dbchan.Connection.{
  build_datastore_connection_string, get_datastore_secret, connect_to_database, defer_close,
}
use dbchan.Migration.Table.{
  create_migrations_table, is_migration_applied, execute_migration, execute_rollback,
  record_migration, remove_migration_record,
}

-- `buildMigrationConnectionString`: the text of `buildDatastoreConnectionString`, with the name of
-- the database for the name of the datastore.
unfoldable pub build_migration_connection_string : String → String → SecretData → String
build_migration_connection_string = build_datastore_connection_string

module _ (w : World) where
  -- The datastore of a database, from the database's namespace.
  abbrev pub datastore_of : Database → Io Error Datastore
  datastore_of database =
      let key : ObjectKey = record {
        namespace = database.namespace;
        name = database.spec.datastore_ref.name;
      } in
      wrap "failed to get datastore" (get w Kind.datastore key)

  -- From the secret of the datastore to an open connection to the database.
  unfoldable pub connect_for : Datastore → Database → Io Error Conn
  connect_for datastore database = do
    secret ← wrap "failed to get datastore secret" (get_datastore_secret w datastore)
    let source =
        build_migration_connection_string datastore.spec.datastore_type database.name secret
    wrap "failed to connect to database"
        (connect_to_database w datastore.spec.datastore_type source)

  -- What `applyMigration` does once it knows whether the version is in the table. It changes the
  -- status of the object where it is.
  unfoldable pub apply_unless : Conn → String → Migration → Bool → Io Error Migration
  apply_unless db datastore_type m true = pure (record m {
    status = record m.status {
      applied = true;
      phase = "Applied";
      message = "Migration already applied";
    };
  })
  apply_unless db datastore_type m false = do
    wrap "failed to execute migration" (execute_migration w db m)
    wrap "failed to record migration" (record_migration w db m datastore_type)
    pure m

  -- `applyMigration` on the open connection.
  unfoldable pub apply_on : Conn → String → Migration → Io Error Migration
  apply_on db datastore_type m = do
    wrap "failed to create migrations table" (create_migrations_table w db datastore_type)
    applied ←
        wrap "failed to check if migration is applied"
          (is_migration_applied w db m.spec.version datastore_type)
    apply_unless db datastore_type m applied

  -- `applyMigration`
  unfoldable pub apply_migration : Migration → Database → Io Error Migration
  apply_migration m database = do
    datastore ← datastore_of database
    db ← connect_for datastore database
    defer_close db (apply_on db datastore.spec.datastore_type m)

  -- `rollbackMigration` on the open connection.
  unfoldable pub rollback_on : Conn → String → Migration → Io Error (Unit {0})
  rollback_on db datastore_type m = do
    when (not (m.spec.rollback_sql == ""))
        (wrap "failed to execute rollback" (execute_rollback w db m))
    wrap "failed to remove migration record"
        (remove_migration_record w db m.spec.version datastore_type)

  -- `rollbackMigration` after the database has been found.
  unfoldable pub rollback_in : Migration → Database → Io Error (Unit {0})
  rollback_in m database = do
    datastore ← datastore_of database
    db ← connect_for datastore database
    defer_close db (rollback_on db datastore.spec.datastore_type m)

  -- The database of a migration that is rolled back, or none where it does not exist any more.
  unfoldable pub find_own_database : Migration → Io Error (Option Database)
  find_own_database m =
      let key : ObjectKey = record { namespace = m.namespace; name = m.spec.database_ref.name } in
      catch (get w Kind.database key >>= λ d. pure (some d)) λ e.
        if e.not_found then pure none else raise (errorf ("failed to get database: " <> e.text))

  unfoldable pub rollback_found : Migration → Option Database → Io Error (Unit {0})
  rollback_found m none = pure tt
  rollback_found m (some database) = rollback_in m database

  -- `rollbackMigration`
  unfoldable pub rollback_migration : Migration → Io Error (Unit {0})
  rollback_migration m = do found ← find_own_database m; rollback_found m found
