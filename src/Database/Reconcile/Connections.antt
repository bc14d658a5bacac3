-- ===== src/Database/Reconcile/Connections.antt =====
-- After `Reconcile` of the database controller no connection is left open.
use dbchan.Base.{Option, none, some, List}
use dbchan.Base.Text.{String}
use dbchan.Base.Prog.Triples.{Keeps, Keeps-bind, Keeps-catch, Keeps-pure, keeps_rules}
use dbchan.Api.{ObjectKey, Database, Time}
use dbchan.Cluster.{Kind, Conn, World, Trace}
use dbchan.Connection.Discipline.{
  Holding, get-Holding, list-Holding, update-Holding, update_status-Holding, now-Holding,
}
use dbchan.Controller.{Outcome}
use dbchan.Controller.Settled.{settle-keeps}
use dbchan.Database.Provision.Connections.{
  create_or_update_database-Holding, cleanup_database-Holding,
}
use dbchan.Database.Reconcile.{
  fetch, save, save_status, park, finalize, ensure_finalizer, init_status, search_datastore,
  find_datastore, create, creation_time, finish, provision, body, reconcile,
}

module _ (w : World) (cs : List Conn) where
  save_status-Holding : (d : Database) → Keeps (Holding cs) (save_status w d)
  unfolding save_status
  save_status-Holding d = search (keeps_rules, update_status-Holding w cs Kind.database)

  park-Holding :
      {A : Type 0} (d : Database) (phase message : String) (o : Outcome)
      → Keeps (Holding cs) (park w {A = A} d phase message o)
  unfolding park
  park-Holding d phase message o = search (keeps_rules, save_status-Holding)

  finalize-Holding : (d : Database) → Keeps (Holding cs) (finalize w d)
  unfolding finalize save
  finalize-Holding d =
      search (keeps_rules, update-Holding w cs Kind.database, cleanup_database-Holding) depth 12

  ensure_finalizer-Holding : (d : Database) → Keeps (Holding cs) (ensure_finalizer w d)
  unfolding ensure_finalizer save
  ensure_finalizer-Holding d = search (keeps_rules, update-Holding w cs Kind.database)

  search_datastore-Holding : (d : Database) → Keeps (Holding cs) (search_datastore w d)
  unfolding search_datastore
  search_datastore-Holding d =
      Keeps-bind _ _ (search (keeps_rules, list-Holding w cs Kind.datastore, park-Holding))
        λ items. search (keeps_rules, park-Holding)

  find_datastore-Holding :
      (key : ObjectKey) (d : Database) → Keeps (Holding cs) (find_datastore w key d)
  unfolding find_datastore
  find_datastore-Holding key d =
      Keeps-catch _ _ (get-Holding w cs Kind.datastore _)
        λ e. search (keeps_rules, park-Holding, search_datastore-Holding)

  creation_time-Holding : (at : Option Time) → Keeps (Holding cs) (creation_time w at)
  unfolding creation_time
  creation_time-Holding none = search (keeps_rules, now-Holding)
  creation_time-Holding (some at) = Keeps-pure (some at)

  provision-Holding : (key : ObjectKey) (d : Database) → Keeps (Holding cs) (provision w key d)
  unfolding provision init_status create finish
  provision-Holding key d =
      search
        (
          keeps_rules, save_status-Holding, find_datastore-Holding, park-Holding,
          creation_time-Holding, create_or_update_database-Holding,
        )
        depth 14

  body-Holding : (key : ObjectKey) → Keeps (Holding cs) (body w key)
  unfolding body fetch
  body-Holding key =
      search
        (
          keeps_rules,
          get-Holding w cs Kind.database,
          finalize-Holding,
          ensure_finalizer-Holding,
          provision-Holding,
        )
        depth 12

-- Whatever the world answers, a run of `Reconcile` of a database leaves the open connections as they were,
-- sends statements to open connections only, and closes none twice.
pub database_reconcile-Holding :
    (w : World) (cs : List Conn) (key : ObjectKey) (t : Trace)
    → Holding cs t
    → Holding cs (reconcile w key t).1
unfolding reconcile
database_reconcile-Holding w cs key t h = settle-keeps (body-Holding w cs key) t h
