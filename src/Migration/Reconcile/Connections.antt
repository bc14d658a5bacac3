-- ===== src/Migration/Reconcile/Connections.antt =====
-- After `Reconcile` of the migration controller no connection is left open.
use dbchan.Base.{List}
use dbchan.Base.Prog.Triples.{Keeps-bind, Keeps-catch, Keeps, keeps_rules}
use dbchan.Base.Text.{String}
use dbchan.Api.{ObjectKey, Migration}
use dbchan.Cluster.{Kind, Conn, World, Trace}
use dbchan.Connection.Discipline.{
  Holding, get-Holding, list-Holding, update-Holding, update_status-Holding, now-Holding,
}
use dbchan.Migration.Apply.Connections.{apply_migration-Holding, rollback_migration-Holding}
use dbchan.Migration.Reconcile.{
  fetch, save, save_status, park, finalize, ensure_finalizer, init_status, search_database,
  find_database, apply, finish, migrate, body, reconcile,
}
use dbchan.Controller.{Outcome}
use dbchan.Controller.Settled.{settle-keeps}

module _ (w : World) (cs : List Conn) where
  save_status-Holding : (m : Migration) → Keeps (Holding cs) (save_status w m)
  unfolding save_status
  save_status-Holding m = search (keeps_rules, update_status-Holding w cs Kind.migration)

  park-Holding :
      {A : Type 0} (m : Migration) (phase message : String) (o : Outcome)
      → Keeps (Holding cs) (park w {A = A} m phase message o)
  unfolding park
  park-Holding m phase message o = search (keeps_rules, save_status-Holding)

  finalize-Holding : (m : Migration) → Keeps (Holding cs) (finalize w m)
  unfolding finalize save
  finalize-Holding m =
      search (keeps_rules, update-Holding w cs Kind.migration, rollback_migration-Holding) depth 12

  ensure_finalizer-Holding : (m : Migration) → Keeps (Holding cs) (ensure_finalizer w m)
  unfolding ensure_finalizer save
  ensure_finalizer-Holding m = search (keeps_rules, update-Holding w cs Kind.migration)

  search_database-Holding : (m : Migration) → Keeps (Holding cs) (search_database w m)
  unfolding search_database
  search_database-Holding m =
      Keeps-bind _ _ (search (keeps_rules, list-Holding w cs Kind.database, park-Holding))
        λ items. search (keeps_rules, park-Holding)

  find_database-Holding :
      (key : ObjectKey) (m : Migration) → Keeps (Holding cs) (find_database w key m)
  unfolding find_database
  find_database-Holding key m =
      Keeps-catch _ _ (get-Holding w cs Kind.database _)
        λ e. search (keeps_rules, park-Holding, search_database-Holding)

  migrate-Holding : (key : ObjectKey) (m : Migration) → Keeps (Holding cs) (migrate w key m)
  unfolding migrate init_status apply finish
  migrate-Holding key m =
      search
        (
          keeps_rules, save_status-Holding, find_database-Holding, park-Holding, now-Holding,
          apply_migration-Holding,
        )
        depth 14

  body-Holding : (key : ObjectKey) → Keeps (Holding cs) (body w key)
  unfolding body fetch
  body-Holding key =
      search
        (
          keeps_rules,
          get-Holding w cs Kind.migration,
          finalize-Holding,
          ensure_finalizer-Holding,
          migrate-Holding,
        )
        depth 12

-- Whatever the world answers, a run of `Reconcile` closes every connection that it opened, closes
-- none twice, and sends statements to open connections only.
pub migration_reconcile-Holding :
    (w : World) (cs : List Conn) (key : ObjectKey) (t : Trace)
    → Holding cs t
    → Holding cs (reconcile w key t).1
unfolding reconcile
migration_reconcile-Holding w cs key t h = settle-keeps (body-Holding w cs key) t h
