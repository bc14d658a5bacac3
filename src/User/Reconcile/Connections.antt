-- ===== src/User/Reconcile/Connections.antt =====
-- After `Reconcile` of the user controller no connection is left open.
use dbchan.Base.{Option, none, some, List}
use dbchan.Base.Text.{String}
use dbchan.Base.Prog.Triples.{Keeps, Keeps-bind, Keeps-catch, Keeps-pure, keeps_rules}
use dbchan.Api.{ObjectKey, LocalObjectReference, User, Time}
use dbchan.Cluster.{Kind, Conn, World, Trace}
use dbchan.Connection.Discipline.{
  Holding, get-Holding, list-Holding, update-Holding, update_status-Holding, now-Holding,
}
use dbchan.Controller.{Outcome}
use dbchan.Controller.Settled.{settle-keeps}
use dbchan.User.Account.Connections.{create_or_update_user-Holding, cleanup_user-Holding}
use dbchan.User.Reconcile.{
  fetch, save, save_status, park, finalize, ensure_finalizer, init_status, search_datastore,
  search_database, find_datastore, find_database, create, creation_time, finish, provision, body,
  reconcile,
}

module _ (w : World) (cs : List Conn) where
  save_status-Holding : (u : User) → Keeps (Holding cs) (save_status w u)
  unfolding save_status
  save_status-Holding u = search (keeps_rules, update_status-Holding w cs Kind.user)

  park-Holding :
      {A : Type 0} (u : User) (phase message : String) (o : Outcome)
      → Keeps (Holding cs) (park w {A = A} u phase message o)
  unfolding park
  park-Holding u phase message o = search (keeps_rules, save_status-Holding)

  finalize-Holding : (u : User) → Keeps (Holding cs) (finalize w u)
  unfolding finalize save
  finalize-Holding u =
      search (keeps_rules, update-Holding w cs Kind.user, cleanup_user-Holding) depth 12

  ensure_finalizer-Holding : (u : User) → Keeps (Holding cs) (ensure_finalizer w u)
  unfolding ensure_finalizer save
  ensure_finalizer-Holding u = search (keeps_rules, update-Holding w cs Kind.user)

  search_datastore-Holding : (u : User) → Keeps (Holding cs) (search_datastore w u)
  unfolding search_datastore
  search_datastore-Holding u =
      Keeps-bind _ _ (search (keeps_rules, list-Holding w cs Kind.datastore, park-Holding))
        λ items. search (keeps_rules, park-Holding)

  search_database-Holding :
      (u : User) (name : String) → Keeps (Holding cs) (search_database w u name)
  unfolding search_database
  search_database-Holding u name =
      Keeps-bind _ _ (search (keeps_rules, list-Holding w cs Kind.database, park-Holding))
        λ items. search (keeps_rules, park-Holding)

  find_datastore-Holding :
      (key : ObjectKey) (u : User) → Keeps (Holding cs) (find_datastore w key u)
  unfolding find_datastore
  find_datastore-Holding key u =
      Keeps-catch _ _ (get-Holding w cs Kind.datastore _)
        λ e. search (keeps_rules, park-Holding, search_datastore-Holding)

  find_database-Holding :
      (key : ObjectKey) (u : User) (o : Option LocalObjectReference)
      → Keeps (Holding cs) (find_database w key u o)
  unfolding find_database
  find_database-Holding key u none = Keeps-pure none
  find_database-Holding key u (some ref) =
      Keeps-bind _ _
        (Keeps-catch _ _ (get-Holding w cs Kind.database _)
          (λ e. search (keeps_rules, park-Holding, search_database-Holding)))
        (λ d. Keeps-pure (some d))

  creation_time-Holding : (at : Option Time) → Keeps (Holding cs) (creation_time w at)
  unfolding creation_time
  creation_time-Holding none = search (keeps_rules, now-Holding)
  creation_time-Holding (some at) = Keeps-pure (some at)

  provision-Holding : (key : ObjectKey) (u : User) → Keeps (Holding cs) (provision w key u)
  unfolding provision init_status create finish
  provision-Holding key u =
      search
        (
          keeps_rules, save_status-Holding, find_datastore-Holding, find_database-Holding,
          park-Holding, creation_time-Holding, create_or_update_user-Holding,
        )
        depth 14

  body-Holding : (key : ObjectKey) → Keeps (Holding cs) (body w key)
  unfolding body fetch
  body-Holding key =
      search
        (
          keeps_rules,
          get-Holding w cs Kind.user,
          finalize-Holding,
          ensure_finalizer-Holding,
          provision-Holding,
        )
        depth 12

-- Whatever the world answers, a run of `Reconcile` of a user leaves the open connections as they were,
-- sends statements to open connections only, and closes none twice.
pub user_reconcile-Holding :
    (w : World) (cs : List Conn) (key : ObjectKey) (t : Trace)
    → Holding cs t
    → Holding cs (reconcile w key t).1
unfolding reconcile
user_reconcile-Holding w cs key t h = settle-keeps (body-Holding w cs key) t h
