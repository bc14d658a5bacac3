-- ===== src/Database/Provision/Connections.antt =====
-- `createOrUpdateDatabase` and `cleanupDatabase` close what they open.
use dbchan.Base.{Option, none, some, List, ◌∷◌}
use dbchan.Base.Text.{String}
use dbchan.Base.Prog.Triples.{Triple-bind, Keeps, Keeps-catch, Keeps-pure, Keeps-raise, keeps_rules}
use dbchan.Api.{Database, Datastore}
use dbchan.Cluster.{Kind, Conn, World}
use dbchan.Connection.{Dialect, mysql, postgres, sqlserver, unsupported}
use dbchan.Connection.Discipline.{
  Holding, get-Holding, exec-Holding, query_bool-Holding, defer_close-Holding,
  connect_to_datastore-Holding,
}
use dbchan.Database.Statements.{
  create_or_update_mysql_database, create_or_update_postgre_sql_database, check_sql_server_database,
  create_or_update_sql_server_database, delete_mysql_database, delete_postgre_sql_database,
  delete_sql_server_database,
}
use dbchan.Database.Provision.{
  create_as, create_or_update_database, delete_as, find_own_datastore, clean_found,
  cleanup_database,
}

module _ (w : World) (c : Conn) (cs : List Conn) where
  create_as-Holding :
      (k : Dialect) (ty : String) (d : Database) → Keeps (Holding (c ∷ cs)) (create_as w c k ty d)
  unfolding create_as create_or_update_mysql_database create_or_update_postgre_sql_database
      create_or_update_sql_server_database check_sql_server_database
  create_as-Holding mysql ty d = search (keeps_rules, exec-Holding) depth 12
  create_as-Holding postgres ty d = search (keeps_rules, exec-Holding, query_bool-Holding) depth 12
  create_as-Holding sqlserver ty d = search (keeps_rules, exec-Holding, query_bool-Holding) depth 12
  create_as-Holding unsupported ty d = Keeps-raise _

  delete_as-Holding :
      (k : Dialect) (ty : String) (d : Database) → Keeps (Holding (c ∷ cs)) (delete_as w c k ty d)
  unfolding delete_as delete_mysql_database delete_postgre_sql_database delete_sql_server_database
  delete_as-Holding mysql ty d = search (keeps_rules, exec-Holding) depth 12
  delete_as-Holding postgres ty d = search (keeps_rules, exec-Holding) depth 12
  delete_as-Holding sqlserver ty d = search (keeps_rules, exec-Holding) depth 12
  delete_as-Holding unsupported ty d = Keeps-raise _

module _ (w : World) (cs : List Conn) where
  pub create_or_update_database-Holding :
      (d : Database) (datastore : Datastore)
      → Keeps (Holding cs) (create_or_update_database w d datastore)
  unfolding create_or_update_database
  create_or_update_database-Holding d datastore =
      Triple-bind (connect_to_datastore-Holding w cs datastore)
        λ c. defer_close-Holding c cs (create_as-Holding w c cs _ _ d)

  clean_found-Holding :
      (d : Database) (o : Option Datastore) → Keeps (Holding cs) (clean_found w d o)
  unfolding clean_found
  clean_found-Holding d none = Keeps-pure tt
  clean_found-Holding d (some datastore) =
      Triple-bind (connect_to_datastore-Holding w cs datastore)
        λ c. defer_close-Holding c cs (delete_as-Holding w c cs _ _ d)

  pub cleanup_database-Holding : (d : Database) → Keeps (Holding cs) (cleanup_database w d)
  unfolding cleanup_database find_own_datastore
  cleanup_database-Holding d =
      Triple-bind
        (Keeps-catch _ _ (search (keeps_rules, get-Holding w cs Kind.datastore))
          (λ e. search keeps_rules))
        (λ o. clean_found-Holding d o)
