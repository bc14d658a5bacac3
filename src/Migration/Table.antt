-- ===== src/Migration/Table.antt =====
-- The tracking table `schema_migrations` and the statements on it.
pub mod Rules
pub mod Hex
pub mod Column
use dbchan.Base.{ℕ, ◌/◌, ◌%◌, Bool, Option, none, some, List, [], ◌∷◌, ltb, if◌then◌else◌}
use dbchan.Base.Text.{String, ◌<>◌}
use dbchan.Base.Prog.{Error, errorf, on_none, pure, raise, wrap, ◌>>=◌}
use dbchan.Api.{Migration}
use dbchan.Cluster.{Conn, World}
use dbchan.Cluster.Calls.{Io, exec, query_count}
use dbchan.Connection.{Dialect, mysql, postgres, sqlserver, unsupported, dialect}

abbrev pub migrations_table : String
migrations_table = "schema_migrations"

unfoldable pub create_table_sql : Dialect → Option String
create_table_sql mysql = some (
    "\n\t\t\tCREATE TABLE IF NOT EXISTS " <> migrations_table
    <> " (\n\t\t\t\tversion VARCHAR(255) PRIMARY KEY,\n\t\t\t\tapplied_at TIMESTAMP DEFAULT CURRENT_TIMESTAMP,\n\t\t\t\tchecksum VARCHAR(64)\n\t\t\t)")
create_table_sql postgres = some (
    "\n\t\t\tCREATE TABLE IF NOT EXISTS " <> migrations_table
    <> " (\n\t\t\t\tversion VARCHAR(255) PRIMARY KEY,\n\t\t\t\tapplied_at TIMESTAMP DEFAULT CURRENT_TIMESTAMP,\n\t\t\t\tchecksum VARCHAR(64)\n\t\t\t)")
create_table_sql sqlserver = some (
    "\n\t\t\tCREATE TABLE IF NOT EXISTS [" <> migrations_table
    <> "] (\n\t\t\t\t[version] NVARCHAR(255) PRIMARY KEY,\n\t\t\t\t[applied_at] DATETIME2 DEFAULT GETDATE(),\n\t\t\t\t[checksum] NVARCHAR(64)\n\t\t\t)")
create_table_sql unsupported = none

unfoldable pub count_sql : Dialect → Option String
count_sql mysql = some ("SELECT COUNT(*) FROM " <> migrations_table <> " WHERE version = ?")
count_sql postgres = some ("SELECT COUNT(*) FROM " <> migrations_table <> " WHERE version = ?")
count_sql sqlserver = some ("SELECT COUNT(*) FROM [" <> migrations_table <> "] WHERE [version] = ?")
count_sql unsupported = none

unfoldable pub insert_sql : Dialect → Option String
insert_sql mysql = some ("INSERT INTO " <> migrations_table <> " (version, checksum) VALUES (?, ?)")
insert_sql postgres =
    some ("INSERT INTO " <> migrations_table <> " (version, checksum) VALUES (?, ?)")
insert_sql sqlserver =
    some ("INSERT INTO [" <> migrations_table <> "] ([version], [checksum]) VALUES (?, ?)")
insert_sql unsupported = none

unfoldable pub delete_sql : Dialect → Option String
delete_sql mysql = some ("DELETE FROM " <> migrations_table <> " WHERE version = ?")
delete_sql postgres = some ("DELETE FROM " <> migrations_table <> " WHERE version = ?")
delete_sql sqlserver = some ("DELETE FROM [" <> migrations_table <> "] WHERE [version] = ?")
delete_sql unsupported = none

-- A `switch` whose default returns an error.
unfoldable pub statement_for : (Dialect → Option String) → String → Io Error String
statement_for statement datastore_type =
    on_none (statement (dialect datastore_type))
      (raise (errorf ("unsupported datastore type: " <> datastore_type)))

-- `hex.EncodeToString`
abbrev pub hex_digit : ℕ → String
hex_digit n =
    if ltb n 1
    then "0"
    else if ltb n 2
    then "1"
    else if ltb n 3
    then "2"
    else if ltb n 4
    then "3"
    else if ltb n 5
    then "4"
    else if ltb n 6
    then "5"
    else if ltb n 7
    then "6"
    else if ltb n 8
    then "7"
    else if ltb n 9
    then "8"
    else if ltb n 10
    then "9"
    else if ltb n 11
    then "a"
    else if ltb n 12
    then "b"
    else if ltb n 13
    then "c"
    else if ltb n 14
    then "d"
    else if ltb n 15
    then "e"
    else "f"

unfoldable pub hex_encode : List ℕ → String
hex_encode [] = ""
hex_encode (b ∷ bytes) = hex_digit (b / 16) <> hex_digit (b % 16) <> hex_encode bytes

module _ (w : World) where
  -- `calculateChecksum`
  unfoldable pub calculate_checksum : String → String
  calculate_checksum sql = hex_encode (w.sha256 sql)

  -- `createMigrationsTable`
  unfoldable pub create_migrations_table : Conn → String → Io Error (Unit {0})
  create_migrations_table db datastore_type = do
    query ← statement_for create_table_sql datastore_type
    exec w db query []

  -- `isMigrationApplied`
  unfoldable pub is_migration_applied : Conn → (version datastore_type : String) → Io Error Bool
  is_migration_applied db version datastore_type = do
    query ← statement_for count_sql datastore_type
    count ← query_count w db query (version ∷ [])
    pure (ltb 0 count)

  -- `executeMigration`
  unfoldable pub execute_migration : Conn → Migration → Io Error (Unit {0})
  execute_migration db m = wrap "failed to execute migration SQL" (exec w db m.spec.sql [])

  -- `executeRollback`
  unfoldable pub execute_rollback : Conn → Migration → Io Error (Unit {0})
  execute_rollback db m = wrap "failed to execute rollback SQL" (exec w db m.spec.rollback_sql [])

  -- `recordMigration`
  unfoldable pub record_migration : Conn → Migration → String → Io Error (Unit {0})
  record_migration db m datastore_type = do
    query ← statement_for insert_sql datastore_type
    exec w db query (m.spec.version ∷ calculate_checksum m.spec.sql ∷ [])

  -- `removeMigrationRecord`
  unfoldable pub remove_migration_record :
      Conn → (version datastore_type : String) → Io Error (Unit {0})
  remove_migration_record db version datastore_type = do
    query ← statement_for delete_sql datastore_type
    exec w db query (version ∷ [])
