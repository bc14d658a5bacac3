-- ===== src/User/Reconcile/Ready.antt =====
-- In a calm cluster, `Reconcile` makes a user ready in one run.
use dbchan.Base.{◌≡◌, refl, sym, ◌∙◌, true, false, Option, some, none, arith}
use dbchan.Base.Prog.{ok}
use dbchan.Base.Text.{String, ◌==◌}
use dbchan.Base.Prog.Triples.{Triple, Triple-bind, Triple-weaken, Triple-pure}
use dbchan.Base.Prog.Gives.{
  Gives, Ends, Gives-wrap, Gives-lift, Gives-weaken, Ends-bind, Ends-pure, Gives-bind, Gives-catch,
  Gives-pure, Gives-if, Ends-when, ends_rules,
}
use dbchan.Api.{ObjectKey, Time, LocalObjectReference, Datastore, Database, User}
use dbchan.Cluster.{Kind, Conn, Event, Trace, World, status_updated}
use dbchan.Cluster.History.{Newest}
use dbchan.Cluster.Calm.{
  Gives-found, Gives-stored, Gives-stored_status, Triple-stored_status, Calm, Rest, Gives-own,
  Ends-exec, Ends-now,
}
use dbchan.Connection.{Dialect, mysql, postgres, sqlserver, unsupported, driver}
use dbchan.Connection.Calm.{CanConnect, Ends-connect_to_datastore, Ends-defer_close}
use dbchan.Controller.{is_set, Outcome, finished}
use dbchan.Controller.Settled.{settle-Triple}
use dbchan.User.Statements.{
  create_or_update_mysql_user, create_or_update_postgre_sql_user, create_or_update_sql_server_user,
  grant_each, grant_mysql_role, create_in_database,
}
use dbchan.User.Account.{create_as, create_on, create_or_update_user}
use dbchan.User.Reconcile.{
  user_finalizer, ready_at, fetch, save, save_status, ensure_finalizer, init_status, find_datastore,
  find_database, create, creation_time, finish, provision, body, reconcile,
}

-- The user's status was written, and it says `ready`.
abbrev pub SaysReady : Event → Type 0
SaysReady (status_updated Kind.user d (ok _)) = d.status.ready ≡ true
SaysReady _ = ⊥

abbrev datastore_key : ObjectKey → User → ObjectKey
datastore_key key u = record { namespace = key.namespace; name = u.spec.datastore_ref.name }

abbrev database_key : ObjectKey → LocalObjectReference → ObjectKey
database_key key ref = record { namespace = key.namespace; name = ref.name }

-- A user that can be made: it is not being deleted, its datastore is ready, its password can be
-- decoded, and the database that it names, if any, exists.
pub record CanMake {w : World} (calm : Calm w) (start : Trace) (key : ObjectKey) (u : User)
    : Type 0 where
  pub exists : calm.objects start Kind.user key ≡ some u
  pub alive : is_set u.deletion_timestamp ≡ false
  pub datastore : Datastore
  pub has_datastore : calm.objects start Kind.datastore (datastore_key key u) ≡ some datastore
  pub datastore_ready : datastore.status.ready ≡ true
  pub can_connect : CanConnect calm start datastore
  pub password : String
  pub has_password : w.decode_base64 u.spec.password ≡ ok password
  pub has_database :
      (ref : LocalObjectReference)
      → u.spec.database_ref ≡ some ref
      → (d : Database) × (calm.objects start Kind.database (database_key key ref) ≡ some d)

module _ {w : World} (calm : Calm w) (start : Trace) where
  abbrev Rests : Trace → Type 0
  Rests = Rest calm Kind.user start

  create_in_database-Ends :
      (c : Conn) (u : User) (d : Option Database) → Ends Rests (create_in_database w c u d)
  unfolding create_in_database grant_each
  create_in_database-Ends c u none = Ends-pure tt
  create_in_database-Ends c u (some d) =
      search (ends_rules, Ends-exec calm Kind.user start) depth 12

  create_as-Ends :
      (c : Conn) (a : Dialect) (ty : _) (u : User) (p : _) (d : Option Database) (name : _)
      → driver a ≡ some name
      → Ends Rests (create_as w c a ty u p d)
  unfolding create_as create_or_update_mysql_user create_or_update_postgre_sql_user
      create_or_update_sql_server_user grant_each grant_mysql_role
  create_as-Ends c mysql ty u p d name known =
      search (ends_rules, Ends-exec calm Kind.user start) depth 12
  create_as-Ends c postgres ty u p d name known =
      search (ends_rules, Ends-exec calm Kind.user start) depth 12
  create_as-Ends c sqlserver ty u p d name known =
      Ends-bind _ _ (search (ends_rules, Ends-exec calm Kind.user start))
        (λ x. create_in_database-Ends c u d)
  create_as-Ends c unsupported ty u p d name known = cc

  create-Ends :
      (key : ObjectKey) (u v : User) (s : Datastore) (d : Option Database)
      → CanMake calm start key u
      → v.spec ≡ u.spec
      → CanConnect calm start s
      → Ends Rests (create w v s d)
  unfolding create create_or_update_user create_on
  create-Ends key u v s d make same can = Gives-catch _ (
      Gives-bind (Ends-connect_to_datastore calm Kind.user start refl s can) λ c h.
        Ends-defer_close calm Kind.user start c _ (
          Gives-bind (Gives-wrap _ (Gives-lift _ make.password (rw same make.has_password)))
            λ p e. create_as-Ends c _ _ v p d can.driver_name can.has_driver))

  ensure_finalizer-Gives : (d : User) → Gives Rests (ensure_finalizer w d) (λ a. a.spec ≡ d.spec)
  unfolding ensure_finalizer save
  ensure_finalizer-Gives d =
      Gives-if (w.contains_finalizer d.finalizers user_finalizer) (Gives-pure d refl)
        (Gives-weaken (Gives-stored calm Kind.user start _ _) (λ a e. rw e refl))

  init_status-Gives : (d : User) → Gives Rests (init_status w d) (λ a. a.spec ≡ d.spec)
  unfolding init_status save_status
  init_status-Gives d =
      Gives-if (d.status.phase == "")
        (Gives-weaken (Gives-stored_status calm Kind.user start _ _) (λ a e. rw e refl))
        (Gives-pure d refl)

  creation_time-Ends : (at : Option Time) → Ends Rests (creation_time w at)
  unfolding creation_time
  creation_time-Ends none = Ends-bind _ _ (Ends-now calm Kind.user start) (λ at. Ends-pure _)
  creation_time-Ends (some at) = Ends-pure _

  find_database-Ends :
      (key : ObjectKey) (u v : User) (ref : Option LocalObjectReference)
      → CanMake calm start key u
      → ref ≡ u.spec.database_ref
      → Ends Rests (find_database w key v ref)
  unfolding find_database
  find_database-Ends key u v none can same = Ends-pure none
  find_database-Ends key u v (some ref) can same =
      let (d, known) = can.has_database ref (sym same) in
      Gives-bind (Gives-found calm Kind.user start Kind.database refl _ _ d known)
        (λ x e. Ends-pure (some x))

  abbrev Done : Outcome → Trace → Type 0
  Done o t = (o ≡ finished) × Newest SaysReady t

  finish-Done : (d : User) → Triple Rests (finish w d) Done (λ e t. ⊥)
  unfolding finish save_status
  finish-Done d = Gives-bind (creation_time-Ends d.status.created_at) λ at known.
      Triple-bind (Triple-stored_status calm Kind.user start _ {P = SaysReady} (ready_at d at) refl)
        (λ a. Triple-pure finished (λ t h. (refl, h.1)))

  provision-Done :
      (key : ObjectKey) (d a : User)
      → CanMake calm start key d
      → a.spec ≡ d.spec
      → Triple Rests (provision w key a) Done (λ e t. ⊥)
  unfolding provision find_datastore
  provision-Done key d a can same = Gives-bind (init_status-Gives a) λ b e.
      Gives-bind
        (Gives-found calm Kind.user start Kind.datastore refl _ _ can.datastore
          (rw (e, same) can.has_datastore))
        λ s e'.
          Gives-bind (Ends-when _ (λ waits. let ready = can.datastore_ready in ground arith)) λ u h.
            Gives-bind (find_database-Ends key d b b.spec.database_ref can (rw (e, same) refl))
              λ db h'.
                Gives-bind (create-Ends key d b s db can (e ∙ same) (rw e' can.can_connect))
                  λ u' h''. finish-Done b

  body-Done :
      (key : ObjectKey) (d : User)
      → CanMake calm start key d
      → Triple (λ t. t ≡ start) (body w key) Done (λ e t. ⊥)
  unfolding body fetch
  body-Done key d can = Gives-bind (Gives-own calm Kind.user start _ key d can.exists) λ a e.
      Gives-bind (Ends-when _ (λ dead. let alive = can.alive in cc)) λ u h.
        Gives-bind (ensure_finalizer-Gives a) (λ b same. provision-Done key d b can (rw e at same))

-- In a cluster that nobody else changes, and where every write is stored and every call to a
-- database succeeds, one run of `Reconcile` makes a user ready that exists and is not being
-- deleted, whose password can be decoded, whose datastore is in its namespace and ready, has a
-- supported type and a secret in its namespace with a username, a host and a password, and whose
-- database, if it names one, exists in its namespace: the run ends without an error and asks for no
-- other one, and the last thing it does is to write a status that says `ready`.
pub user_reconcile-Ready :
    (w : World) (calm : Calm w) (start : Trace) (key : ObjectKey) (d : User)
    → CanMake calm start key d
    → ((reconcile w key start).0 ≡ finished) × Newest SaysReady (reconcile w key start).1
unfolding reconcile
user_reconcile-Ready w calm start key d can =
    settle-Triple {Q = Done calm start}
      (Triple-weaken (body-Done calm start key d can) (λ t h. h) (λ a t h. h) (λ e t h. absurd h))
      start refl
