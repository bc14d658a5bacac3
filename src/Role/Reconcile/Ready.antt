-- ===== src/Role/Reconcile/Ready.antt =====
-- In a calm cluster, `Reconcile` makes a role that has its finalizer ready in one run.
use dbchan.Base.{◌≡◌, ◌≢◌, Bool, refl, sym, true, false, not, ◌||◌, Option, some, none, arith}
use dbchan.Base.Text.{String, ◌==◌}
use dbchan.Base.Prog.{ok}
use dbchan.Base.Prog.Triples.{Triple, Triple-bind, Triple-weaken, Triple-pure}
use dbchan.Base.Prog.Gives.{
  Ends, Ends-bind, Ends-pure, Gives-bind, Gives-catch, Gives-wrap, Gives-on_none, Ends-when,
  ends_rules,
}
use dbchan.Api.{ObjectKey, LocalObjectReference, Secret, Datastore, Database, DatabaseRole}
use dbchan.Cluster.{Kind, Conn, Event, Trace, World, status_updated}
use dbchan.Cluster.History.{Newest}
use dbchan.Cluster.Calm.{
  Calm, Rest, Gives-own, Gives-found, Triple-stored_status, Ends-open_pool, Ends-ping, Ends-exec,
  Ends-now,
}
use dbchan.Connection.{Dialect, mysql, postgres, sqlserver, unsupported, driver}
use dbchan.Connection.Calm.{Ends-defer_close}
use dbchan.Controller.{Outcome, finished}
use dbchan.Controller.Settled.{settle-Triple}
use dbchan.Role.Statements.{
  create_or_update_mysql_role, create_or_update_postgre_sql_role, create_or_update_sql_server_role,
  grant_each, create_unless_exists,
}
use dbchan.Role.Provision.{role_dialect, open_and_test, connect, create_as, create_or_update_role}
use dbchan.Role.Reconcile.{
  role_finalizer, contains_string, is_deleted, fetch, update_role_status, ensure_finalizer,
  find_datastore, find_database, find_secret, create, provision, body, reconcile,
}

-- The role's status was written, and it says `ready`.
abbrev pub SaysReady : Event → Type 0
SaysReady (status_updated Kind.role r (ok _)) = r.status.ready ≡ true
SaysReady _ = ⊥

abbrev key_of : DatabaseRole → String → ObjectKey
key_of r name = record { namespace = r.namespace; name = name }

-- A role that can be made: it has its finalizer, its datastore is ready and of a type that the role
-- controller knows, and the database that it names, if any, is ready.
pub record CanMake {w : World} (calm : Calm w) (start : Trace) (key : ObjectKey) (r : DatabaseRole)
    : Type 0 where
  pub exists : calm.objects start Kind.role key ≡ some r
  pub alive : is_deleted r.deletion_timestamp ≡ false
  pub has_finalizer : contains_string r.finalizers role_finalizer ≡ true
  pub datastore : Datastore
  pub has_datastore :
      calm.objects start Kind.datastore (key_of r r.spec.datastore_ref.name) ≡ some datastore
  pub datastore_phase : (datastore.status.phase == "Ready") ≡ true
  pub datastore_ready : datastore.status.ready ≡ true
  pub driver_name : String
  pub has_driver : driver (role_dialect datastore.spec.datastore_type) ≡ some driver_name
  pub secret : Secret
  pub has_secret :
      calm.objects start Kind.secret (key_of r datastore.spec.secret_ref.name) ≡ some secret
  pub has_database :
      (ref : LocalObjectReference)
      → r.spec.database_ref ≡ some ref
      → (d : Database) × (calm.objects start Kind.database (key_of r ref.name) ≡ some d)
        × ((d.status.phase == "Ready") ≡ true)
        × (d.status.ready ≡ true)

module _ {w : World} (calm : Calm w) (start : Trace) where
  abbrev Rests : Trace → Type 0
  Rests = Rest calm Kind.role start

  connect-Ends :
      (source ty name : String)
      → driver (role_dialect ty) ≡ some name
      → Ends Rests (connect w source ty)
  unfolding connect open_and_test
  connect-Ends source ty name known = Gives-bind (Gives-on_none _ name _ known) λ n e.
      search (ends_rules, Ends-open_pool calm Kind.role start, Ends-ping calm Kind.role start) depth
        12

  create_as-Ends :
      (c : Conn) (a : Dialect) (ty : String) (r : DatabaseRole) (d : Option Database)
      (name : String)
      → driver a ≡ some name
      → Ends Rests (create_as w c a ty r d)
  unfolding create_as create_or_update_mysql_role create_or_update_postgre_sql_role
      create_or_update_sql_server_role grant_each create_unless_exists
  create_as-Ends c mysql ty r d name known =
      search (ends_rules, Ends-exec calm Kind.role start) depth 12
  create_as-Ends c postgres ty r d name known =
      search (ends_rules, Ends-exec calm Kind.role start) depth 12
  create_as-Ends c sqlserver ty r d name known =
      search (ends_rules, Ends-exec calm Kind.role start) depth 12
  create_as-Ends c unsupported ty r d name known = cc

  create-Ends :
      (r : DatabaseRole) (s : Datastore) (d : Option Database) (secret : Secret) (name : String)
      → driver (role_dialect s.spec.datastore_type) ≡ some name
      → Ends Rests (create w r s d secret)
  unfolding create create_or_update_role
  create-Ends r s d secret name known = Gives-catch _ (
      Gives-bind (Gives-wrap _ (connect-Ends _ _ name known))
        λ c h. Ends-defer_close calm Kind.role start c _ (create_as-Ends c _ _ r d name known))

  abbrev Done : Outcome → Trace → Type 0
  Done o t = (o ≡ finished) × Newest SaysReady t

  update_role_status-Done :
      (r : DatabaseRole) (message : String)
      → Triple Rests (update_role_status w r "Ready" true true message) Done (λ e t. ⊥)
  unfolding update_role_status
  update_role_status-Done r message = Gives-bind (Ends-now calm Kind.role start) λ at known.
      Triple-bind (Triple-stored_status calm Kind.role start _ {P = SaysReady} _ refl)
        (λ a. Triple-pure finished (λ t h. (refl, h.1)))

  -- An object that is ready is not waited for.
  waits_not :
      (phase : String) (ready : Bool)
      → (phase == "Ready") ≡ true
      → ready ≡ true
      → (not (phase == "Ready") || not ready) ≢ true
  waits_not phase ready p r = rw (p, r) (λ e. cc)

  find_database-Ends :
      (key : ObjectKey) (r a : DatabaseRole) (ref : Option LocalObjectReference)
      → CanMake calm start key r
      → a ≡ r
      → ref ≡ r.spec.database_ref
      → Ends Rests (find_database w a ref)
  unfolding find_database
  find_database-Ends key r a none can same e = Ends-pure none
  find_database-Ends key r a (some ref) can same e =
      let (d, known, phase, ready) = can.has_database ref (sym e) in
      Gives-bind (Gives-found calm Kind.role start Kind.database refl _ _ d (rw same known)) λ x e'.
        Ends-bind _ _
          (Ends-when _ (λ waits. absurd (waits_not _ _ (rw e' phase) (rw e' ready) waits)))
          (λ u. Ends-pure (some x))

  provision-Done :
      (key : ObjectKey) (r : DatabaseRole)
      → CanMake calm start key r
      → Triple Rests (provision w r) Done (λ e t. ⊥)
  unfolding provision find_datastore find_secret
  provision-Done key r can =
      Gives-bind
        (Gives-found calm Kind.role start Kind.datastore refl _ _ can.datastore can.has_datastore)
        λ s e.
          Gives-bind
            (Ends-when _ (λ waits.
              absurd (waits_not _ _ (rw e can.datastore_phase) (rw e can.datastore_ready) waits)))
            λ u h. Gives-bind (find_database-Ends key r r _ can refl refl) λ d h'.
              Gives-bind
                (Gives-found calm Kind.role start Kind.secret refl _ _ can.secret
                  (rw e can.has_secret))
                λ secret e'.
                  Gives-bind (create-Ends r s d secret can.driver_name (rw e can.has_driver))
                    λ u' h''. update_role_status-Done r _

  body-Done :
      (key : ObjectKey) (r : DatabaseRole)
      → CanMake calm start key r
      → Triple (λ t. t ≡ start) (body w key) Done (λ e t. ⊥)
  unfolding body fetch ensure_finalizer
  body-Done key r can = Gives-bind (Gives-own calm Kind.role start _ key r can.exists) λ a e.
      Gives-bind (Ends-when _ (λ dead. let alive = can.alive in cc)) λ u h.
        Gives-bind (Ends-when _ (λ lacks. let has = can.has_finalizer in ground arith))
          λ u' h'. rw e (provision-Done key r can)

-- In a cluster that nobody else changes, and where every write is stored and every call to a
-- database succeeds, one run of `Reconcile` makes a role ready that exists, is not being deleted
-- and has its finalizer, whose datastore is in its namespace, has the phase `Ready` and the flag
-- `ready`, a type that the role controller knows and a secret that exists in the namespace of the
-- role, and whose database, if it names one, is in its namespace with the phase `Ready` and the
-- flag `ready`: the run ends without an error and asks for no other one, and the last thing it does
-- is to write a status that says `ready`.
pub role_reconcile-Ready :
    (w : World) (calm : Calm w) (start : Trace) (key : ObjectKey) (r : DatabaseRole)
    → CanMake calm start key r
    → ((reconcile w key start).0 ≡ finished) × Newest SaysReady (reconcile w key start).1
unfolding reconcile
role_reconcile-Ready w calm start key r can =
    settle-Triple {Q = Done calm start}
      (Triple-weaken (body-Done calm start key r can) (λ t h. h) (λ a t h. h) (λ e t h. absurd h))
      start refl
