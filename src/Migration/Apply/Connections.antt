-- ===== src/Migration/Apply/Connections.antt =====
-- `applyMigration` and `rollbackMigration` close what they open.
use dbchan.Base.{Bool, true, false, Option, none, some, List, ◌∷◌}
use dbchan.Base.Text.{String}
use dbchan.Base.Prog.Triples.{
  Triple, Triple-bind, Triple-catch, Triple-raise, Keeps, Keeps-pure, keeps_rules,
}
use dbchan.Api.{Migration, Database, Datastore}
use dbchan.Cluster.{Kind, Conn, World}
use dbchan.Connection.Discipline.{
  Holding, get-Holding, get_datastore_secret-Holding, exec-Holding, query_count-Holding,
  defer_close-Holding, connect_to_database-Holding,
}
use dbchan.Migration.Table.{
  create_migrations_table, is_migration_applied, execute_migration, execute_rollback, statement_for,
  record_migration, remove_migration_record,
}
use dbchan.Migration.Apply.{
  connect_for, apply_unless, apply_on, apply_migration, rollback_on, rollback_in, find_own_database,
  rollback_found, rollback_migration,
}

module _ (w : World) (c : Conn) (cs : List Conn) where
  apply_unless-Holding :
      (ty : String) (m : Migration) (b : Bool) → Keeps (Holding (c ∷ cs)) (apply_unless w c ty m b)
  unfolding apply_unless execute_migration record_migration statement_for
  apply_unless-Holding ty m true = search keeps_rules depth 12
  apply_unless-Holding ty m false = search (keeps_rules, exec-Holding) depth 12

  apply_on-Holding : (ty : String) (m : Migration) → Keeps (Holding (c ∷ cs)) (apply_on w c ty m)
  unfolding apply_on create_migrations_table is_migration_applied statement_for
  apply_on-Holding ty m =
      search (keeps_rules, exec-Holding, query_count-Holding, apply_unless-Holding) depth 12

  rollback_on-Holding :
      (ty : String) (m : Migration) → Keeps (Holding (c ∷ cs)) (rollback_on w c ty m)
  unfolding rollback_on execute_rollback remove_migration_record statement_for
  rollback_on-Holding ty m = search (keeps_rules, exec-Holding) depth 12

module _ (w : World) (cs : List Conn) where
  connect_for-Holding :
      (datastore : Datastore) (d : Database)
      → Triple (Holding cs) (connect_for w datastore d) (λ c. Holding (c ∷ cs)) (λ _. Holding cs)
  unfolding connect_for
  connect_for-Holding datastore d =
      Triple-bind (search (keeps_rules, get_datastore_secret-Holding)) λ secret.
        Triple-catch (connect_to_database-Holding w cs _ _) (λ e. Triple-raise _ (λ t h. h))

  pub apply_migration-Holding :
      (m : Migration) (d : Database) → Keeps (Holding cs) (apply_migration w m d)
  unfolding apply_migration
  apply_migration-Holding m d =
      Triple-bind (search (keeps_rules, get-Holding w cs Kind.datastore)) λ datastore.
        Triple-bind (connect_for-Holding datastore d)
          λ c. defer_close-Holding c cs (apply_on-Holding w c cs _ m)

  rollback_in-Holding : (m : Migration) (d : Database) → Keeps (Holding cs) (rollback_in w m d)
  unfolding rollback_in
  rollback_in-Holding m d =
      Triple-bind (search (keeps_rules, get-Holding w cs Kind.datastore)) λ datastore.
        Triple-bind (connect_for-Holding datastore d)
          λ c. defer_close-Holding c cs (rollback_on-Holding w c cs _ m)

  rollback_found-Holding :
      (m : Migration) (o : Option Database) → Keeps (Holding cs) (rollback_found w m o)
  unfolding rollback_found
  rollback_found-Holding m none = Keeps-pure tt
  rollback_found-Holding m (some d) = rollback_in-Holding m d

  pub rollback_migration-Holding : (m : Migration) → Keeps (Holding cs) (rollback_migration w m)
  unfolding rollback_migration find_own_database
  rollback_migration-Holding m =
      search (keeps_rules, get-Holding w cs Kind.database, rollback_found-Holding) depth 12
