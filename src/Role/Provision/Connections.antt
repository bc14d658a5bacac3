-- ===== src/Role/Provision/Connections.antt =====
-- `createOrUpdateRole` and `deleteRole` close what they open.
use dbchan.Base.{Option, List, ◌∷◌}
use dbchan.Base.Text.{String}
use dbchan.Base.Prog.Triples.{
  Triple, Triple-bind, Triple-catch, Triple-pure, Triple-raise, Triple-wrap, Keeps, Keeps-on_none,
  Keeps-raise, keeps_rules,
}
use dbchan.Api.{Secret, Database, Datastore, DatabaseRole}
use dbchan.Cluster.{Conn, World}
use dbchan.Connection.{Dialect, mysql, postgres, sqlserver, unsupported}
use dbchan.Connection.Discipline.{
  Holding, exec-Holding, open_pool-Holding, ping-Holding, close-Holding, defer_close-Holding,
}
use dbchan.Role.Statements.{
  grant_each, create_unless_exists, create_or_update_mysql_role, create_or_update_postgre_sql_role,
  create_or_update_sql_server_role, drop_mysql_role,
}
use dbchan.Role.Provision.{
  open_and_test, connect, create_as, create_or_update_role, delete_as, delete_role,
}

module _ (w : World) (c : Conn) (cs : List Conn) where
  grant_each-Holding :
      (statement : String → String) (ps : List String)
      → Keeps (Holding (c ∷ cs)) (grant_each w c statement ps)
  unfolding grant_each
  grant_each-Holding statement ps = search (keeps_rules, exec-Holding) depth 12

  create_unless_exists-Holding :
      (q : String) → Keeps (Holding (c ∷ cs)) (create_unless_exists w c q)
  unfolding create_unless_exists
  create_unless_exists-Holding q = search (keeps_rules, exec-Holding) depth 12

  create_as-Holding :
      (k : Dialect) (ty : String) (r : DatabaseRole) (d : Option Database)
      → Keeps (Holding (c ∷ cs)) (create_as w c k ty r d)
  unfolding create_as create_or_update_mysql_role create_or_update_postgre_sql_role
      create_or_update_sql_server_role
  create_as-Holding mysql ty r d = search (keeps_rules, exec-Holding, grant_each-Holding) depth 12
  create_as-Holding postgres ty r d =
      search (keeps_rules, create_unless_exists-Holding, grant_each-Holding) depth 12
  create_as-Holding sqlserver ty r d =
      search (keeps_rules, create_unless_exists-Holding, grant_each-Holding) depth 12
  create_as-Holding unsupported ty r d = Keeps-raise _

  delete_as-Holding :
      (k : Dialect) (ty : String) (r : DatabaseRole)
      → Keeps (Holding (c ∷ cs)) (delete_as w c k ty r)
  unfolding delete_as drop_mysql_role
  delete_as-Holding mysql ty r = search (keeps_rules, exec-Holding) depth 12
  delete_as-Holding postgres ty r = search (keeps_rules, exec-Holding) depth 12
  delete_as-Holding sqlserver ty r = search (keeps_rules, exec-Holding) depth 12
  delete_as-Holding unsupported ty r = Keeps-raise _

module _ (w : World) (cs : List Conn) where
  open_and_test-Holding :
      (name source : String)
      → Triple (Holding cs) (open_and_test w name source) (λ c. Holding (c ∷ cs)) (λ _. Holding cs)
  unfolding open_and_test
  open_and_test-Holding name source =
      Triple-bind (Triple-wrap _ (open_pool-Holding w cs name source)) λ c.
        Triple-bind
          (Triple-catch (ping-Holding w c cs)
            λ e. Triple-bind (close-Holding c cs) (λ _. Triple-raise _ (λ t h. h)))
          (λ _. Triple-pure c (λ t h. h))

  connect-Holding :
      (source ty : String)
      → Triple (Holding cs) (connect w source ty) (λ c. Holding (c ∷ cs)) (λ _. Holding cs)
  unfolding connect
  connect-Holding source ty =
      Triple-bind (Keeps-on_none _ _ (Keeps-raise _)) (λ name. open_and_test-Holding name source)

  pub create_or_update_role-Holding :
      (r : DatabaseRole) (datastore : Datastore) (d : Option Database) (s : Secret)
      → Keeps (Holding cs) (create_or_update_role w r datastore d s)
  unfolding create_or_update_role
  create_or_update_role-Holding r datastore d s =
      Triple-bind (Triple-wrap _ (connect-Holding _ _))
        λ c. defer_close-Holding c cs (create_as-Holding w c cs _ _ r d)

  pub delete_role-Holding :
      (r : DatabaseRole) (datastore : Datastore) (s : Secret)
      → Keeps (Holding cs) (delete_role w r datastore s)
  unfolding delete_role
  delete_role-Holding r datastore s =
      Triple-bind (Triple-wrap _ (connect-Holding _ _))
        λ c. defer_close-Holding c cs (delete_as-Holding w c cs _ _ r)
