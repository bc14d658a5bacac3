-- ===== src/Role/Provision.antt =====
-- `createOrUpdateRole`, `deleteRole` and the `connectToDatabase` of the role controller.
pub mod Connections
pub mod Admitted
use dbchan.Base.{◌||◌, Option, none, some, [], if◌then◌else◌}
use dbchan.Base.Text.{String, ◌<>◌, ◌==◌}
use dbchan.Base.Prog.{Error, errorf, raise, pure, ◌>>=◌, ◌>>◌, catch, wrap, on_none}
use dbchan.Api.{Secret, Datastore, Database, DatabaseRole, lookup}
use dbchan.Cluster.{Conn, World}
use dbchan.Cluster.Calls.{Io, exec, open_pool, ping, close}
use dbchan.Connection.{
  Dialect, mysql, postgres, sqlserver, unsupported, driver, value_or, defer_close,
}
use dbchan.Datastore.Reconcile.{source_for}
use dbchan.Role.Statements.{
  postgres_drop, sqlserver_drop, create_or_update_mysql_role, create_or_update_postgre_sql_role,
  create_or_update_sql_server_role, drop_mysql_role,
}

-- The cases of the `switch` statements of this controller.
unfoldable pub role_dialect : String → Dialect
role_dialect t =
    if t == "mysql" || t == "mariadb"
    then mysql
    else if t == "postgresql"
    then postgres
    else if t == "sqlserver"
    then sqlserver
    else unsupported

abbrev pub unsupported_type : String → Error
unsupported_type ty = errorf ("unsupported database type: " <> ty)

-- `secret.Data[datastore.Spec.SecretRef.PasswordKey]`, which is empty for a missing key.
abbrev pub role_source : Datastore → Secret → String
role_source datastore s =
    source_for datastore (value_or "" (lookup datastore.spec.secret_ref.password_key s.entries))

module _ (w : World) where
  unfoldable pub open_and_test : (driver source : String) → Io Error Conn
  open_and_test driver source = do
    db ← wrap "failed to open database connection" (open_pool w driver source)
    catch (ping w db) (λ e. do close db; raise (errorf ("failed to ping database: " <> e.text)))
    pure db

  -- `connectToDatabase`
  unfoldable pub connect : (source datastore_type : String) → Io Error Conn
  connect source ty = do
    name ← on_none (driver (role_dialect ty)) (raise (unsupported_type ty))
    open_and_test name source

  -- The `switch` of `createOrUpdateRole`.
  unfoldable pub create_as :
      Conn
      → Dialect
      → (datastore_type : String) → DatabaseRole
      → Option Database
      → Io Error (Unit {0})
  create_as db mysql ty r database = create_or_update_mysql_role w db r database
  create_as db postgres ty r database = create_or_update_postgre_sql_role w db r database
  create_as db sqlserver ty r database = create_or_update_sql_server_role w db r
  create_as db unsupported ty r database = raise (unsupported_type ty)

  -- `createOrUpdateRole`
  unfoldable pub create_or_update_role :
      DatabaseRole → Datastore → Option Database → Secret → Io Error (Unit {0})
  create_or_update_role r datastore database s = do
    db ←
        wrap "failed to connect to database"
          (connect (role_source datastore s) datastore.spec.datastore_type)
    defer_close db (
        create_as db (role_dialect datastore.spec.datastore_type) datastore.spec.datastore_type r
          database)

  -- The `switch` of `deleteRole`.
  unfoldable pub delete_as :
      Conn → Dialect → (datastore_type : String) → DatabaseRole → Io Error (Unit {0})
  delete_as db mysql ty r = drop_mysql_role w db r
  delete_as db postgres ty r = wrap "failed to drop role" (exec w db (postgres_drop r.name) [])
  delete_as db sqlserver ty r = wrap "failed to drop role" (exec w db (sqlserver_drop r.name) [])
  delete_as db unsupported ty r = raise (unsupported_type ty)

  -- `deleteRole`
  unfoldable pub delete_role : DatabaseRole → Datastore → Secret → Io Error (Unit {0})
  delete_role r datastore s = do
    db ←
        wrap "failed to connect to database"
          (connect (role_source datastore s) datastore.spec.datastore_type)
    defer_close db
        (delete_as db (role_dialect datastore.spec.datastore_type) datastore.spec.datastore_type r)
