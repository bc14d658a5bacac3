-- ===== src/Database/Statements.antt =====
-- The statements that create, look for and drop a database, for each dialect.
use dbchan.Base.{not, [], ◌∷◌, ◌||◌, if◌then◌else◌}
use dbchan.Base.Text.{String, ◌<>◌, ◌==◌}
use dbchan.Base.Prog.{Error, errorf, raise, ◌>>=◌, ◌>>◌, catch, wrap, when, ignore}
use dbchan.Api.{Database, DatabaseSpec}
use dbchan.Cluster.{Conn, World}
use dbchan.Cluster.Calls.{Io, exec, query_bool}

-- A clause that is written only for a text that is not empty.
abbrev pub clause : (before text after : String) → String
clause before text after = if text == "" then "" else before <> text <> after

abbrev pub mysql_charset : DatabaseSpec → String
mysql_charset s =
    if not (s.charset == "") || not (s.collation == "")
    then " CHARACTER SET"
      <> (if not (s.charset == "") then " " <> s.charset else " utf8mb4")
      <> clause " COLLATE " s.collation ""
    else ""

abbrev pub mysql_create : (name : String) → DatabaseSpec → String
mysql_create name s = "CREATE DATABASE IF NOT EXISTS `" <> name <> "`" <> mysql_charset s

abbrev pub postgres_check : String
postgres_check = "SELECT EXISTS(SELECT 1 FROM pg_database WHERE datname = $1)"

abbrev pub postgres_create : (name : String) → DatabaseSpec → String
postgres_create name s =
    "CREATE DATABASE \""
    <> name
    <> "\""
    <> clause " ENCODING '" s.charset "'"
    <> clause " LC_COLLATE '" s.collation "'"

abbrev pub sqlserver_check : String
sqlserver_check = "SELECT CASE WHEN DB_ID(?) IS NOT NULL THEN 1 ELSE 0 END"

abbrev pub sqlserver_create : (name : String) → DatabaseSpec → String
sqlserver_create name s = "CREATE DATABASE [" <> name <> "]" <> clause " COLLATE " s.collation ""

abbrev pub mysql_drop : String → String
mysql_drop name = "DROP DATABASE IF EXISTS `" <> name <> "`"

abbrev pub postgres_drop : String → String
postgres_drop name = "DROP DATABASE IF EXISTS \"" <> name <> "\""

abbrev pub sqlserver_drop : String → String
sqlserver_drop name = "DROP DATABASE [" <> name <> "]"

module _ (w : World) (db : Conn) where
  -- `createOrUpdateMySQLDatabase`
  unfoldable pub create_or_update_mysql_database : Database → Io Error (Unit {0})
  create_or_update_mysql_database d =
      wrap "failed to create database" (exec w db (mysql_create d.name d.spec) [])

  -- `createOrUpdatePostgreSQLDatabase`
  unfoldable pub create_or_update_postgre_sql_database : Database → Io Error (Unit {0})
  create_or_update_postgre_sql_database d = do
    exists ←
        wrap "failed to check if database exists" (query_bool w db postgres_check (d.name ∷ []))
    when (not exists)
        (wrap "failed to create database" (exec w db (postgres_create d.name d.spec) []))

  -- What `createOrUpdateSQLServerDatabase` does after a failure.
  unfoldable pub check_sql_server_database : Database → Error → Io Error (Unit {0})
  check_sql_server_database d e = do
    exists ←
        wrap "failed to check if database exists" (query_bool w db sqlserver_check (d.name ∷ []))
    when (not exists) (raise (errorf ("failed to create database: " <> e.text)))

  -- `createOrUpdateSQLServerDatabase`
  unfoldable pub create_or_update_sql_server_database : Database → Io Error (Unit {0})
  create_or_update_sql_server_database d =
      catch (exec w db (sqlserver_create d.name d.spec) []) (λ e. check_sql_server_database d e)

  -- `deleteMySQLDatabase`
  unfoldable pub delete_mysql_database : Database → Io Error (Unit {0})
  delete_mysql_database d = wrap "failed to delete database" (exec w db (mysql_drop d.name) [])

  -- `deletePostgreSQLDatabase`
  unfoldable pub delete_postgre_sql_database : Database → Io Error (Unit {0})
  delete_postgre_sql_database d = do
    ignore (
        exec w db
          ("SELECT pg_terminate_backend(pid) FROM pg_stat_activity WHERE datname = '" <> d.name
            <> "' AND pid <> pg_backend_pid()")
          [])
    wrap "failed to delete database" (exec w db (postgres_drop d.name) [])

  -- `deleteSQLServerDatabase`
  unfoldable pub delete_sql_server_database : Database → Io Error (Unit {0})
  delete_sql_server_database d = do
    ignore
        (exec w db ("ALTER DATABASE [" <> d.name <> "] SET SINGLE_USER WITH ROLLBACK IMMEDIATE") [])
    wrap "failed to delete database" (exec w db (sqlserver_drop d.name) [])
