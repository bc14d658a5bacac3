-- ===== src/Database/Reconcile/Ready.antt =====
-- In a calm cluster, `Reconcile` makes a database ready in one run.
use dbchan.Base.{◌≡◌, refl, true, false, Option, some, none, arith}
use dbchan.Base.Prog.{ok}
use dbchan.Base.Text.{◌==◌}
use dbchan.Base.Prog.Triples.{Triple, Triple-bind, Triple-weaken, Triple-pure}
use dbchan.Base.Prog.Gives.{
  Gives, Ends, Gives-weaken, Ends-bind, Ends-pure, Gives-bind, Gives-catch, Gives-pure, Gives-if,
  Ends-when, ends_rules,
}
use dbchan.Api.{ObjectKey, Time, Datastore, Database}
use dbchan.Cluster.{Kind, Conn, Event, Trace, World, status_updated}
use dbchan.Cluster.History.{Newest}
use dbchan.Cluster.Calm.{
  Gives-found, Gives-stored, Gives-stored_status, Triple-stored_status, Calm, Rest, Gives-own,
  Ends-exec, Ends-query_bool, Ends-now,
}
use dbchan.Connection.{Dialect, mysql, postgres, sqlserver, unsupported, driver}
use dbchan.Connection.Calm.{CanConnect, Ends-connect_to_datastore, Ends-defer_close}
use dbchan.Controller.{is_set, Outcome, finished}
use dbchan.Controller.Settled.{settle-Triple}
use dbchan.Database.Statements.{
  create_or_update_mysql_database, create_or_update_postgre_sql_database,
  create_or_update_sql_server_database,
}
use dbchan.Database.Provision.{create_as, create_or_update_database}
use dbchan.Database.Reconcile.{
  database_finalizer, ready_at, fetch, save, save_status, ensure_finalizer, init_status,
  find_datastore, create, creation_time, finish, provision, body, reconcile,
}

-- The database's status was written, and it says `ready`.
abbrev pub SaysReady : Event → Type 0
SaysReady (status_updated Kind.database d (ok _)) = d.status.ready ≡ true
SaysReady _ = ⊥

abbrev datastore_key : ObjectKey → Database → ObjectKey
datastore_key key d = record { namespace = key.namespace; name = d.spec.datastore_ref.name }

-- A database that can be made: it is not being deleted, and its datastore is ready.
pub record CanMake {w : World} (calm : Calm w) (start : Trace) (key : ObjectKey) (d : Database)
    : Type 0 where
  pub exists : calm.objects start Kind.database key ≡ some d
  pub alive : is_set d.deletion_timestamp ≡ false
  pub datastore : Datastore
  pub has_datastore : calm.objects start Kind.datastore (datastore_key key d) ≡ some datastore
  pub datastore_ready : datastore.status.ready ≡ true
  pub can_connect : CanConnect calm start datastore

module _ {w : World} (calm : Calm w) (start : Trace) where
  abbrev Rests : Trace → Type 0
  Rests = Rest calm Kind.database start

  create_as-Ends :
      (c : Conn) (a : Dialect) (ty : _) (d : Database) (name : _)
      → driver a ≡ some name
      → Ends Rests (create_as w c a ty d)
  unfolding create_as create_or_update_mysql_database create_or_update_postgre_sql_database
      create_or_update_sql_server_database
  create_as-Ends c mysql ty d name known = search (ends_rules, Ends-exec calm Kind.database start)
  create_as-Ends c postgres ty d name known =
      search
        (ends_rules, Ends-exec calm Kind.database start, Ends-query_bool calm Kind.database start)
  create_as-Ends c sqlserver ty d name known =
      search (ends_rules, Ends-exec calm Kind.database start)
  create_as-Ends c unsupported ty d name known = cc

  create-Ends : (d : Database) (s : Datastore) → CanConnect calm start s → Ends Rests (create w d s)
  unfolding create create_or_update_database
  create-Ends d s can = Gives-catch _ (
      Gives-bind (Ends-connect_to_datastore calm Kind.database start refl s can) λ c h.
        Ends-defer_close calm Kind.database start c _
          (create_as-Ends c _ _ d can.driver_name can.has_driver))

  ensure_finalizer-Gives :
      (d : Database) → Gives Rests (ensure_finalizer w d) (λ a. a.spec ≡ d.spec)
  unfolding ensure_finalizer save
  ensure_finalizer-Gives d =
      Gives-if (w.contains_finalizer d.finalizers database_finalizer) (Gives-pure d refl)
        (Gives-weaken (Gives-stored calm Kind.database start _ _) (λ a e. rw e refl))

  init_status-Gives : (d : Database) → Gives Rests (init_status w d) (λ a. a.spec ≡ d.spec)
  unfolding init_status save_status
  init_status-Gives d =
      Gives-if (d.status.phase == "")
        (Gives-weaken (Gives-stored_status calm Kind.database start _ _) (λ a e. rw e refl))
        (Gives-pure d refl)

  creation_time-Ends : (at : Option Time) → Ends Rests (creation_time w at)
  unfolding creation_time
  creation_time-Ends none = Ends-bind _ _ (Ends-now calm Kind.database start) (λ at. Ends-pure _)
  creation_time-Ends (some at) = Ends-pure _

  abbrev Done : Outcome → Trace → Type 0
  Done o t = (o ≡ finished) × Newest SaysReady t

  finish-Done : (d : Database) → Triple Rests (finish w d) Done (λ e t. ⊥)
  unfolding finish save_status
  finish-Done d = Gives-bind (creation_time-Ends d.status.created_at) λ at known.
      Triple-bind
        (Triple-stored_status calm Kind.database start _ {P = SaysReady} (ready_at d at) refl)
        (λ a. Triple-pure finished (λ t h. (refl, h.1)))

  provision-Done :
      (key : ObjectKey) (d a : Database)
      → CanMake calm start key d
      → a.spec ≡ d.spec
      → Triple Rests (provision w key a) Done (λ e t. ⊥)
  unfolding provision find_datastore
  provision-Done key d a can same = Gives-bind (init_status-Gives a) λ b e.
      Gives-bind
        (Gives-found calm Kind.database start Kind.datastore refl _ _ can.datastore
          (rw (e, same) can.has_datastore))
        λ s e'.
          Gives-bind (Ends-when _ (λ waits. let ready = can.datastore_ready in ground arith))
            λ u h. Gives-bind (create-Ends b s (rw e' can.can_connect)) λ u' h'. finish-Done b

  body-Done :
      (key : ObjectKey) (d : Database)
      → CanMake calm start key d
      → Triple (λ t. t ≡ start) (body w key) Done (λ e t. ⊥)
  unfolding body fetch
  body-Done key d can = Gives-bind (Gives-own calm Kind.database start _ key d can.exists) λ a e.
      Gives-bind (Ends-when _ (λ dead. let alive = can.alive in cc)) λ u h.
        Gives-bind (ensure_finalizer-Gives a) (λ b same. provision-Done key d b can (rw e at same))

-- In a cluster that nobody else changes, and where every write is stored and every call to a
-- database succeeds, one run of `Reconcile` makes a database ready that exists and is not being
-- deleted, and whose datastore is in its namespace and ready, has a supported type and a secret in
-- its namespace with a username, a host and a password: the run ends without an error and asks for
-- no other one, and the last thing it does is to write a status that says `ready`.
pub database_reconcile-Ready :
    (w : World) (calm : Calm w) (start : Trace) (key : ObjectKey) (d : Database)
    → CanMake calm start key d
    → ((reconcile w key start).0 ≡ finished) × Newest SaysReady (reconcile w key start).1
unfolding reconcile
database_reconcile-Ready w calm start key d can =
    settle-Triple {Q = Done calm start}
      (Triple-weaken (body-Done calm start key d can) (λ t h. h) (λ a t h. h) (λ e t h. absurd h))
      start refl
