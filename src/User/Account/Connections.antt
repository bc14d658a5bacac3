-- ===== src/User/Account/Connections.antt =====
-- `createOrUpdateUser` and `cleanupUser` close what they open.
use dbchan.Base.{Option, none, some, List, ◌∷◌}
use dbchan.Base.Text.{String}
use dbchan.Base.Prog.Triples.{
  Triple-bind, Keeps, Keeps-catch, Keeps-pure, Keeps-raise, Keeps-lift, keeps_rules,
}
use dbchan.Api.{User, Database, Datastore}
use dbchan.Cluster.{Kind, Conn, World}
use dbchan.Connection.{Dialect, mysql, postgres, sqlserver, unsupported}
use dbchan.Connection.Discipline.{
  Holding, get-Holding, exec-Holding, defer_close-Holding, connect_to_datastore-Holding,
}
use dbchan.User.Statements.{
  grant_each, grant_mysql_role, create_or_update_mysql_user, create_or_update_postgre_sql_user,
  create_in_database, create_or_update_sql_server_user, delete_mysql_user, delete_postgre_sql_user,
  delete_sql_server_user,
}
use dbchan.User.Account.{
  create_as, create_on, create_or_update_user, delete_as, find_own_datastore, clean_found,
  cleanup_user,
}

module _ (w : World) (c : Conn) (cs : List Conn) where
  grant_each-Holding :
      (statement : String → String) (u : User)
      → Keeps (Holding (c ∷ cs)) (grant_each w c statement u)
  unfolding grant_each
  grant_each-Holding statement u = search (keeps_rules, exec-Holding) depth 12

  grant_mysql_role-Holding :
      (u : User) (role : String) → Keeps (Holding (c ∷ cs)) (grant_mysql_role w c u role)
  unfolding grant_mysql_role
  grant_mysql_role-Holding u role = search (keeps_rules, exec-Holding) depth 12

  create_in_database-Holding :
      (u : User) (d : Option Database) → Keeps (Holding (c ∷ cs)) (create_in_database w c u d)
  unfolding create_in_database
  create_in_database-Holding u none = Keeps-pure tt
  create_in_database-Holding u (some d) =
      search (keeps_rules, exec-Holding, grant_each-Holding) depth 12

  create_as-Holding :
      (k : Dialect) (ty : String) (u : User) (password : String) (d : Option Database)
      → Keeps (Holding (c ∷ cs)) (create_as w c k ty u password d)
  unfolding create_as create_or_update_mysql_user create_or_update_postgre_sql_user
      create_or_update_sql_server_user
  create_as-Holding mysql ty u password d =
      search (keeps_rules, exec-Holding, grant_each-Holding, grant_mysql_role-Holding) depth 12
  create_as-Holding postgres ty u password d =
      search (keeps_rules, exec-Holding, grant_each-Holding) depth 12
  create_as-Holding sqlserver ty u password d =
      search (keeps_rules, exec-Holding, create_in_database-Holding) depth 12
  create_as-Holding unsupported ty u password d = Keeps-raise _

  create_on-Holding :
      (ty : String) (u : User) (d : Option Database)
      → Keeps (Holding (c ∷ cs)) (create_on w c ty u d)
  unfolding create_on
  create_on-Holding ty u d = search (keeps_rules, Keeps-lift, create_as-Holding) depth 12

  delete_as-Holding :
      (k : Dialect) (ty : String) (u : User) → Keeps (Holding (c ∷ cs)) (delete_as w c k ty u)
  unfolding delete_as delete_mysql_user delete_postgre_sql_user delete_sql_server_user
  delete_as-Holding mysql ty u = search (keeps_rules, exec-Holding) depth 12
  delete_as-Holding postgres ty u = search (keeps_rules, exec-Holding) depth 12
  delete_as-Holding sqlserver ty u = search (keeps_rules, exec-Holding) depth 12
  delete_as-Holding unsupported ty u = Keeps-raise _

module _ (w : World) (cs : List Conn) where
  pub create_or_update_user-Holding :
      (u : User) (datastore : Datastore) (d : Option Database)
      → Keeps (Holding cs) (create_or_update_user w u datastore d)
  unfolding create_or_update_user
  create_or_update_user-Holding u datastore d =
      Triple-bind (connect_to_datastore-Holding w cs datastore)
        λ c. defer_close-Holding c cs (create_on-Holding w c cs _ u d)

  clean_found-Holding : (u : User) (o : Option Datastore) → Keeps (Holding cs) (clean_found w u o)
  unfolding clean_found
  clean_found-Holding u none = Keeps-pure tt
  clean_found-Holding u (some datastore) =
      Triple-bind (connect_to_datastore-Holding w cs datastore)
        λ c. defer_close-Holding c cs (delete_as-Holding w c cs _ _ u)

  pub cleanup_user-Holding : (u : User) → Keeps (Holding cs) (cleanup_user w u)
  unfolding cleanup_user find_own_datastore
  cleanup_user-Holding u =
      Triple-bind
        (Keeps-catch _ _ (search (keeps_rules, get-Holding w cs Kind.datastore))
          (λ e. search keeps_rules))
        (λ o. clean_found-Holding u o)
