-- ===== src/Role/Reconcile/Connections.antt =====
-- After `Reconcile` of the role controller no connection is left open.
use dbchan.Base.{Bool, Option, none, some, List}
use dbchan.Base.Text.{String}
use dbchan.Base.Prog.Triples.{Keeps, Keeps-bind, Keeps-pure, keeps_rules}
use dbchan.Api.{ObjectKey, LocalObjectReference, Secret, Datastore, DatabaseRole}
use dbchan.Cluster.{Kind, Conn, World, Trace}
use dbchan.Connection.Discipline.{
  Holding, get-Holding, update-Holding, update_status-Holding, now-Holding,
}
use dbchan.Controller.Settled.{settle-keeps}
use dbchan.Role.Provision.Connections.{create_or_update_role-Holding, delete_role-Holding}
use dbchan.Role.Reconcile.{
  fetch, save, update_role_status, park, delete_found, delete_with_secret, delete_if_found,
  handle_deletion, ensure_finalizer, find_datastore, find_database, find_secret, create, provision,
  body, reconcile,
}

module _ (w : World) (cs : List Conn) where
  update_role_status-Holding :
      (r : DatabaseRole) (phase : String) (ready created : Bool) (message : String)
      → Keeps (Holding cs) (update_role_status w r phase ready created message)
  unfolding update_role_status
  update_role_status-Holding r phase ready created message =
      search (keeps_rules, now-Holding, update_status-Holding w cs Kind.role) depth 12

  park-Holding :
      {A : Type 0} (r : DatabaseRole) (phase message : String)
      → Keeps (Holding cs) (park w {A = A} r phase message)
  unfolding park
  park-Holding r phase message = search (keeps_rules, update_role_status-Holding)

  save-Holding : (r : DatabaseRole) → Keeps (Holding cs) (save w r)
  unfolding save
  save-Holding r = search (keeps_rules, update-Holding w cs Kind.role)

  delete_found-Holding :
      (r : DatabaseRole) (datastore : Datastore) (o : Option Secret)
      → Keeps (Holding cs) (delete_found w r datastore o)
  unfolding delete_found
  delete_found-Holding r datastore none = Keeps-pure tt
  delete_found-Holding r datastore (some s) = search (keeps_rules, delete_role-Holding)

  delete_with_secret-Holding :
      (r : DatabaseRole) (o : Option Datastore) → Keeps (Holding cs) (delete_with_secret w r o)
  unfolding delete_with_secret
  delete_with_secret-Holding r none = Keeps-pure tt
  delete_with_secret-Holding r (some datastore) =
      Keeps-bind _ _ (search (keeps_rules, get-Holding w cs Kind.secret))
        (λ o. delete_found-Holding r datastore o)

  delete_if_found-Holding : (r : DatabaseRole) → Keeps (Holding cs) (delete_if_found w r)
  unfolding delete_if_found
  delete_if_found-Holding r =
      Keeps-bind _ _ (search (keeps_rules, get-Holding w cs Kind.datastore))
        (λ o. delete_with_secret-Holding r o)

  handle_deletion-Holding : (r : DatabaseRole) → Keeps (Holding cs) (handle_deletion w r)
  unfolding handle_deletion
  handle_deletion-Holding r = search (keeps_rules, delete_if_found-Holding, save-Holding)

  ensure_finalizer-Holding : (r : DatabaseRole) → Keeps (Holding cs) (ensure_finalizer w r)
  unfolding ensure_finalizer
  ensure_finalizer-Holding r = search (keeps_rules, save-Holding)

  find_database-Holding :
      (r : DatabaseRole) (o : Option LocalObjectReference)
      → Keeps (Holding cs) (find_database w r o)
  unfolding find_database
  find_database-Holding r none = Keeps-pure none
  find_database-Holding r (some ref) =
      search (keeps_rules, get-Holding w cs Kind.database, park-Holding) depth 12

  provision-Holding : (r : DatabaseRole) → Keeps (Holding cs) (provision w r)
  unfolding provision find_datastore find_secret create
  provision-Holding r =
      search
        (
          keeps_rules,
          get-Holding w cs Kind.datastore,
          get-Holding w cs Kind.secret,
          park-Holding,
          find_database-Holding,
          create_or_update_role-Holding,
          update_role_status-Holding,
        )
        depth 14

  body-Holding : (key : ObjectKey) → Keeps (Holding cs) (body w key)
  unfolding body fetch
  body-Holding key =
      search
        (
          keeps_rules,
          get-Holding w cs Kind.role,
          handle_deletion-Holding,
          ensure_finalizer-Holding,
          provision-Holding,
        )
        depth 12

-- Whatever the world answers, a run of `Reconcile` of a role leaves the open connections as they were,
-- sends statements to open connections only, and closes none twice.
pub role_reconcile-Holding :
    (w : World) (cs : List Conn) (key : ObjectKey) (t : Trace)
    → Holding cs t
    → Holding cs (reconcile w key t).1
unfolding reconcile
role_reconcile-Holding w cs key t h = settle-keeps (body-Holding w cs key) t h
