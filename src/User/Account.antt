-- ===== src/User/Account.antt =====
-- `createOrUpdateUser` and `cleanupUser`
pub mod Connections
use dbchan.Base.{Option, none, some, if◌then◌else◌}
use dbchan.Base.Text.{String, ◌<>◌}
use dbchan.Base.Prog.{Error, errorf, raise, pure, lift, ◌>>=◌, catch, wrap}
use dbchan.Api.{ObjectKey, User, Datastore, Database}
use dbchan.Cluster.{Kind, Conn, World}
use dbchan.Cluster.Calls.{Io, get}
use dbchan.Connection.{
  connect_to_datastore, Dialect, mysql, postgres, sqlserver, unsupported, dialect,
  build_datastore_connection_string, get_datastore_secret, connect_to_database, defer_close,
}
use dbchan.User.Statements.{
  create_or_update_mysql_user, create_or_update_postgre_sql_user, create_or_update_sql_server_user,
  delete_mysql_user, delete_postgre_sql_user, delete_sql_server_user,
}

module _ (w : World) where
  -- The `switch` of `createOrUpdateUser`.
  unfoldable pub create_as :
      Conn
      → Dialect
      → (datastore_type : String) → User
      → (password : String) → Option Database
      → Io Error (Unit {0})
  create_as db mysql ty u password database = create_or_update_mysql_user w db u password database
  create_as db postgres ty u password database =
      create_or_update_postgre_sql_user w db u password database
  create_as db sqlserver ty u password database =
      create_or_update_sql_server_user w db u password database
  create_as db unsupported ty u password database =
      raise (errorf ("unsupported datastore type: " <> ty))

  -- `createOrUpdateUser` on the open connection.
  unfoldable pub create_on : Conn → String → User → Option Database → Io Error (Unit {0})
  create_on db ty u database = do
    password ← wrap "failed to decode password" (lift (w.decode_base64 u.spec.password))
    create_as db (dialect ty) ty u password database

  -- `createOrUpdateUser`
  unfoldable pub create_or_update_user : User → Datastore → Option Database → Io Error (Unit {0})
  create_or_update_user u datastore database = do
    db ← connect_to_datastore w datastore
    defer_close db (create_on db datastore.spec.datastore_type u database)

  -- The `switch` of `cleanupUser`.
  unfoldable pub delete_as : Conn → Dialect → (datastore_type : String) → User → Io Error (Unit {0})
  delete_as db mysql ty u = delete_mysql_user w db u
  delete_as db postgres ty u = delete_postgre_sql_user w db u
  delete_as db sqlserver ty u = delete_sql_server_user w db u
  delete_as db unsupported ty u = raise (errorf ("unsupported datastore type: " <> ty))

  -- The datastore of a user that is deleted, or none where it does not exist any more.
  unfoldable pub find_own_datastore : User → Io Error (Option Datastore)
  find_own_datastore u =
      let key : ObjectKey = record { namespace = u.namespace; name = u.spec.datastore_ref.name } in
      catch (get w Kind.datastore key >>= λ d. pure (some d)) λ e.
        if e.not_found then pure none else raise (errorf ("failed to get datastore: " <> e.text))

  unfoldable pub clean_found : User → Option Datastore → Io Error (Unit {0})
  clean_found u none = pure tt
  clean_found u (some datastore) = do
    db ← connect_to_datastore w datastore
    defer_close db
        (delete_as db (dialect datastore.spec.datastore_type) datastore.spec.datastore_type u)

  -- `cleanupUser`
  unfoldable pub cleanup_user : User → Io Error (Unit {0})
  cleanup_user u = do found ← find_own_datastore u; clean_found u found
