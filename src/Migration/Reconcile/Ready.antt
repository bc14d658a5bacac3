-- ===== src/Migration/Reconcile/Ready.antt =====
-- In a calm cluster, `Reconcile` applies a migration in one run.
use dbchan.Base.{◌≡◌, refl, Bool, true, false, Option, some, arith}
use dbchan.Base.Text.{String, ◌==◌}
use dbchan.Base.Prog.{ok}
use dbchan.Base.Prog.Triples.{Triple, Triple-bind, Triple-weaken, Triple-pure}
use dbchan.Base.Prog.Gives.{
  Gives, Ends, Gives-weaken, Ends-bind, Ends-pure, Gives-bind, Gives-catch, Gives-wrap, Gives-pure,
  Gives-if, Gives-on_none, Ends-when, ends_rules,
}
use dbchan.Api.{ObjectKey, Datastore, Database, Migration}
use dbchan.Cluster.{Kind, Conn, Event, Trace, World, status_updated}
use dbchan.Cluster.History.{Newest}
use dbchan.Cluster.Calm.{
  Calm, Rest, Gives-own, Gives-found, Gives-get, Gives-stored, Gives-stored_status,
  Triple-stored_status, Ends-exec, Ends-query_count, Ends-now,
}
use dbchan.Connection.{Dialect, mysql, postgres, sqlserver, unsupported, dialect, driver}
use dbchan.Connection.Calm.{
  CanConnect, Ends-get_datastore_secret, Ends-connect_to_database, Ends-defer_close,
}
use dbchan.Controller.{is_set, Outcome, finished}
use dbchan.Controller.Settled.{settle-Triple}
use dbchan.Migration.Table.{
  create_table_sql, count_sql, insert_sql, statement_for, create_migrations_table,
  is_migration_applied, execute_migration, record_migration,
}
use dbchan.Migration.Apply.{apply_unless, apply_on, connect_for, apply_migration}
use dbchan.Migration.Reconcile.{
  migration_finalizer, applied_status, fetch, save, save_status, ensure_finalizer, init_status,
  find_database, apply, finish, migrate, body, reconcile,
}

-- The migration's status was written, and it says `applied`.
abbrev pub SaysApplied : Event → Type 0
SaysApplied (status_updated Kind.migration m (ok _)) = m.status.applied ≡ true
SaysApplied _ = ⊥

abbrev database_key : ObjectKey → Migration → ObjectKey
database_key key m = record { namespace = key.namespace; name = m.spec.database_ref.name }

abbrev datastore_key : Database → ObjectKey
datastore_key d = record { namespace = d.namespace; name = d.spec.datastore_ref.name }

-- A migration that can be applied: it is not being deleted, and its database is ready.
pub record CanApply {w : World} (calm : Calm w) (start : Trace) (key : ObjectKey) (m : Migration)
    : Type 0 where
  pub exists : calm.objects start Kind.migration key ≡ some m
  pub alive : is_set m.deletion_timestamp ≡ false
  pub unapplied : m.status.applied ≡ false
  pub database : Database
  pub has_database : calm.objects start Kind.database (database_key key m) ≡ some database
  pub database_ready : database.status.ready ≡ true
  pub datastore : Datastore
  pub has_datastore : calm.objects start Kind.datastore (datastore_key database) ≡ some datastore
  pub can_connect : CanConnect calm start datastore

-- The statements on the tracking table are there for every dialect that has a driver.
has_create_table_sql :
    (a : Dialect) (name : String)
    → driver a ≡ some name
    → (q : String) × (create_table_sql a ≡ some q)
unfolding create_table_sql
has_create_table_sql mysql name known = (_, refl)
has_create_table_sql postgres name known = (_, refl)
has_create_table_sql sqlserver name known = (_, refl)
has_create_table_sql unsupported name known = cc

has_count_sql :
    (a : Dialect) (name : String) → driver a ≡ some name → (q : String) × (count_sql a ≡ some q)
unfolding count_sql
has_count_sql mysql name known = (_, refl)
has_count_sql postgres name known = (_, refl)
has_count_sql sqlserver name known = (_, refl)
has_count_sql unsupported name known = cc

has_insert_sql :
    (a : Dialect) (name : String) → driver a ≡ some name → (q : String) × (insert_sql a ≡ some q)
unfolding insert_sql
has_insert_sql mysql name known = (_, refl)
has_insert_sql postgres name known = (_, refl)
has_insert_sql sqlserver name known = (_, refl)
has_insert_sql unsupported name known = cc

statement_for-Ends :
    {P : Trace → Type 0} (statement : Dialect → Option String) (ty : String)
    → (q : String) × (statement (dialect ty) ≡ some q)
    → Ends P (statement_for statement ty)
unfolding statement_for
statement_for-Ends statement ty (q, known) = Gives-weaken (Gives-on_none _ q _ known) (λ a e. tt)

module _ {w : World} (calm : Calm w) (start : Trace) where
  abbrev Rests : Trace → Type 0
  Rests = Rest calm Kind.migration start

  module _ (ty name : String) (known : driver (dialect ty) ≡ some name) (c : Conn) where
    record_migration-Ends : (m : Migration) → Ends Rests (record_migration w c m ty)
    unfolding record_migration
    record_migration-Ends m =
        Ends-bind _ _ (statement_for-Ends insert_sql ty (has_insert_sql _ name known))
          (λ q. Ends-exec calm Kind.migration start c q _)

    apply_unless-Ends : (m : Migration) (b : Bool) → Ends Rests (apply_unless w c ty m b)
    unfolding apply_unless execute_migration
    apply_unless-Ends m true = Ends-pure _
    apply_unless-Ends m false =
        Ends-bind _ _ (search (ends_rules, Ends-exec calm Kind.migration start))
          (λ u. Ends-bind _ _ (Gives-wrap _ (record_migration-Ends m)) (λ u'. Ends-pure m))

    apply_on-Ends : (m : Migration) → Ends Rests (apply_on w c ty m)
    unfolding apply_on create_migrations_table is_migration_applied
    apply_on-Ends m =
        Ends-bind _ _
          (Gives-wrap _ (
            Ends-bind _ _
              (statement_for-Ends create_table_sql ty (has_create_table_sql _ name known))
              (λ q. Ends-exec calm Kind.migration start c q _)))
          λ u.
            Ends-bind _ _
              (Gives-wrap _ (
                Ends-bind _ _ (statement_for-Ends count_sql ty (has_count_sql _ name known)) (λ q.
                  Ends-bind _ _ (Ends-query_count calm Kind.migration start c q _)
                    (λ n. Ends-pure _))))
              (λ b. apply_unless-Ends m b)

  connect_for-Ends :
      (s : Datastore) (d : Database) → CanConnect calm start s → Ends Rests (connect_for w s d)
  unfolding connect_for
  connect_for-Ends s d can =
      Ends-bind _ _ (Gives-wrap _ (Ends-get_datastore_secret calm Kind.migration start refl s can))
        (λ x.
          Gives-wrap _
            (Ends-connect_to_database calm Kind.migration start _ _ can.driver_name can.has_driver))

  apply-Ends :
      (key : ObjectKey) (m a : Migration) (d : Database)
      → (can : CanApply calm start key m) → d ≡ can.database
      → Ends Rests (apply w a d)
  unfolding apply apply_migration
  apply-Ends key m a d can same = Gives-catch _ (
      Gives-bind
        (Gives-wrap _ (
          Gives-get calm Kind.migration start Kind.datastore refl _ can.datastore
            (rw same can.has_datastore)))
        λ s e.
          let connects : CanConnect calm start s = rw e can.can_connect in
          Ends-bind _ _ (connect_for-Ends s d connects) (λ c.
            Ends-defer_close calm Kind.migration start c _
              (apply_on-Ends _ connects.driver_name connects.has_driver c a)))

  ensure_finalizer-Gives :
      (m : Migration)
      → Gives Rests (ensure_finalizer w m) (λ a. (a.spec ≡ m.spec) × (a.status ≡ m.status))
  unfolding ensure_finalizer save
  ensure_finalizer-Gives m =
      Gives-if (w.contains_finalizer m.finalizers migration_finalizer) (Gives-pure m (refl, refl))
        (Gives-weaken (Gives-stored calm Kind.migration start _ _) (λ a e. rw e (refl, refl)))

  init_status-Gives : (m : Migration) → Gives Rests (init_status w m) (λ a. a.spec ≡ m.spec)
  unfolding init_status save_status
  init_status-Gives m =
      Gives-if (m.status.phase == "")
        (Gives-weaken (Gives-stored_status calm Kind.migration start _ _) (λ a e. rw e refl))
        (Gives-pure m refl)

  abbrev Done : Outcome → Trace → Type 0
  Done o t = (o ≡ finished) × Newest SaysApplied t

  finish-Done : (m : Migration) → Triple Rests (finish w m) Done (λ e t. ⊥)
  unfolding finish save_status
  finish-Done m = Gives-bind (Ends-now calm Kind.migration start) λ at known.
      Triple-bind
        (Triple-stored_status calm Kind.migration start _ {P = SaysApplied} (applied_status w m at)
          refl)
        (λ a. Triple-pure finished (λ t h. (refl, h.1)))

  migrate-Done :
      (key : ObjectKey) (m a : Migration)
      → CanApply calm start key m
      → a.spec ≡ m.spec
      → Triple Rests (migrate w key a) Done (λ e t. ⊥)
  unfolding migrate find_database
  migrate-Done key m a can same = Gives-bind (init_status-Gives a) λ b e.
      Gives-bind
        (Gives-found calm Kind.migration start Kind.database refl _ _ can.database
          (rw (e, same) can.has_database))
        λ d e'.
          Gives-bind (Ends-when _ (λ waits. let ready = can.database_ready in ground arith))
            λ u h. Gives-bind (apply-Ends key m b d can e') λ done h'. finish-Done done

  body-Done :
      (key : ObjectKey) (m : Migration)
      → CanApply calm start key m
      → Triple (λ t. t ≡ start) (body w key) Done (λ e t. ⊥)
  unfolding body fetch
  body-Done key m can = Gives-bind (Gives-own calm Kind.migration start _ key m can.exists) λ a e.
      Gives-bind (Ends-when _ (λ dead. let alive = can.alive in cc)) λ u h.
        Gives-bind (ensure_finalizer-Gives a) λ b same.
          Gives-bind (Ends-when _ (λ done. let undone = can.unapplied in cc))
            λ u' h'. migrate-Done key m b can (rw e at same.0)

-- In a cluster that nobody else changes, and where every write is stored and every call to a
-- database succeeds, one run of `Reconcile` applies a migration that exists and is neither being
-- deleted nor applied, whose database is in its namespace and ready, and whose datastore is in the
-- namespace of the database, has a supported type and a secret in its own namespace with a
-- username, a host and a password: the run ends without an error and asks for no other one, and the
-- last thing it does is to write a status that says `applied`.
pub migration_reconcile-Applied :
    (w : World) (calm : Calm w) (start : Trace) (key : ObjectKey) (m : Migration)
    → CanApply calm start key m
    → ((reconcile w key start).0 ≡ finished) × Newest SaysApplied (reconcile w key start).1
unfolding reconcile
migration_reconcile-Applied w calm start key m can =
    settle-Triple {Q = Done calm start}
      (Triple-weaken (body-Done calm start key m can) (λ t h. h) (λ a t h. h) (λ e t h. absurd h))
      start refl
