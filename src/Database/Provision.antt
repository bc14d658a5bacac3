-- ===== src/Database/Provision.antt =====
-- `createOrUpdateDatabase` and `cleanupDatabase`
pub mod Connections
use dbchan.Base.{Option, none, some, if◌then◌else◌}
use dbchan.Base.Text.{String, ◌<>◌}
use dbchan.Base.Prog.{Error, errorf, raise, pure, ◌>>=◌, catch}
use dbchan.Api.{ObjectKey, Datastore, Database}
use dbchan.Cluster.{Kind, Conn, World}
use dbchan.Cluster.Calls.{Io, get}
use dbchan.Connection.{
  Dialect, mysql, postgres, sqlserver, unsupported, dialect, connect_to_datastore, defer_close,
}
use dbchan.Database.Statements.{
  create_or_update_mysql_database, create_or_update_postgre_sql_database,
  create_or_update_sql_server_database, delete_mysql_database, delete_postgre_sql_database,
  delete_sql_server_database,
}

module _ (w : World) where
  -- The `switch` of `createOrUpdateDatabase`.
  unfoldable pub create_as :
      Conn → Dialect → (datastore_type : String) → Database → Io Error (Unit {0})
  create_as db mysql ty d = create_or_update_mysql_database w db d
  create_as db postgres ty d = create_or_update_postgre_sql_database w db d
  create_as db sqlserver ty d = create_or_update_sql_server_database w db d
  create_as db unsupported ty d = raise (errorf ("unsupported datastore type: " <> ty))

  -- `createOrUpdateDatabase`
  unfoldable pub create_or_update_database : Database → Datastore → Io Error (Unit {0})
  create_or_update_database d datastore = do
    db ← connect_to_datastore w datastore
    defer_close db
        (create_as db (dialect datastore.spec.datastore_type) datastore.spec.datastore_type d)

  -- The `switch` of `cleanupDatabase`.
  unfoldable pub delete_as :
      Conn → Dialect → (datastore_type : String) → Database → Io Error (Unit {0})
  delete_as db mysql ty d = delete_mysql_database w db d
  delete_as db postgres ty d = delete_postgre_sql_database w db d
  delete_as db sqlserver ty d = delete_sql_server_database w db d
  delete_as db unsupported ty d = raise (errorf ("unsupported datastore type: " <> ty))

  -- The datastore of a database that is deleted, or none where it does not exist any more.
  unfoldable pub find_own_datastore : Database → Io Error (Option Datastore)
  find_own_datastore d =
      let key : ObjectKey = record { namespace = d.namespace; name = d.spec.datastore_ref.name } in
      catch (get w Kind.datastore key >>= λ datastore. pure (some datastore)) λ e.
        if e.not_found then pure none else raise (errorf ("failed to get datastore: " <> e.text))

  unfoldable pub clean_found : Database → Option Datastore → Io Error (Unit {0})
  clean_found d none = pure tt
  clean_found d (some datastore) = do
    db ← connect_to_datastore w datastore
    defer_close db
        (delete_as db (dialect datastore.spec.datastore_type) datastore.spec.datastore_type d)

  -- `cleanupDatabase`
  unfoldable pub cleanup_database : Database → Io Error (Unit {0})
  cleanup_database d = do found ← find_own_datastore d; clean_found d found
