-- ===== src/Migration/Reconcile/Writes.antt =====
-- What every run of the migration controller keeps: it writes objects of its own kind only, and every status
-- that it writes is coherent.
use dbchan.Base.{◌≡◌, refl, Bool, true, false, Option, none, some}
use dbchan.Base.Text.{String, ◌==◌}
use dbchan.Base.Prog.Triples.{
  Keeps, Keeps-bind, Keeps-catch, Keeps-if, Keeps-on_none, Keeps-pure, Keeps-raise, Keeps-when,
  keeps_rules,
}
use dbchan.Api.{ObjectKey, Datastore, Database, Migration}
use dbchan.Cluster.{Kind, Conn, Trace, World}
use dbchan.Cluster.Rules.{Keeps-get, Keeps-list, Keeps-now}
use dbchan.Connection.{Dialect}
use dbchan.Connection.Rules.{
  Keeps-get_datastore_secret, Keeps-connect_to_database, Triple-defer_close,
}
use dbchan.Controller.{Outcome, failed, finished}
use dbchan.Controller.Coherent.{IsCoherent, IsKept}
use dbchan.Controller.Settled.{settle-keeps}
use dbchan.Migration.Table.{
  create_migrations_table, is_migration_applied, execute_migration, execute_rollback,
  record_migration, remove_migration_record, statement_for,
}
use dbchan.Migration.Apply.{
  apply_unless, apply_on, datastore_of, connect_for, apply_migration, rollback_on, rollback_in,
  find_own_database, rollback_found, rollback_migration,
}
use dbchan.Migration.Reconcile.{
  unapplied, applied_status, fetch, save, save_status, park, finalize, ensure_finalizer,
  init_status, search_database, find_database, apply, finish, migrate, body, reconcile,
}

module _ (w : World) {P : Trace → Type 0} (kept : IsKept w Kind.migration P) where
  statement_for-Keeps : (f : Dialect → Option String) (ty : String) → Keeps P (statement_for f ty)
  unfolding statement_for
  statement_for-Keeps f ty = Keeps-on_none _ _ (Keeps-raise _)

  apply_unless-Keeps :
      (c : Conn) (ty : String) (m : Migration) (b : Bool) → Keeps P (apply_unless w c ty m b)
  unfolding apply_unless execute_migration record_migration
  apply_unless-Keeps c ty m true = Keeps-pure _
  apply_unless-Keeps c ty m false = search (keeps_rules, kept.on_exec, statement_for-Keeps) depth 12

  apply_on-Keeps : (c : Conn) (ty : String) (m : Migration) → Keeps P (apply_on w c ty m)
  unfolding apply_on create_migrations_table is_migration_applied
  apply_on-Keeps c ty m =
      search
        (keeps_rules, kept.on_exec, kept.on_query_count, statement_for-Keeps, apply_unless-Keeps)
        depth 12

  datastore_of-Keeps : (d : Database) → Keeps P (datastore_of w d)
  datastore_of-Keeps d = search (keeps_rules, Keeps-get w kept.stable Kind.datastore refl)

  connect_for-Keeps : (s : Datastore) (d : Database) → Keeps P (connect_for w s d)
  unfolding connect_for
  connect_for-Keeps s d =
      search
        (
          keeps_rules,
          Keeps-get_datastore_secret w kept.stable refl,
          Keeps-connect_to_database w kept.stable refl,
        )
        depth 12

  apply_migration-Keeps : (m : Migration) (d : Database) → Keeps P (apply_migration w m d)
  unfolding apply_migration
  apply_migration-Keeps m d = Keeps-bind _ _ (datastore_of-Keeps d) λ s.
      Keeps-bind _ _ (connect_for-Keeps s d) λ c.
        Triple-defer_close c (λ a t h. kept.stable.on_closed c t h)
          (λ e t h. kept.stable.on_closed c t h) (apply_on-Keeps c _ m)

  rollback_on-Keeps : (c : Conn) (ty : String) (m : Migration) → Keeps P (rollback_on w c ty m)
  unfolding rollback_on execute_rollback remove_migration_record
  rollback_on-Keeps c ty m = search (keeps_rules, kept.on_exec, statement_for-Keeps) depth 12

  rollback_found-Keeps :
      (m : Migration) (found : Option Database) → Keeps P (rollback_found w m found)
  unfolding rollback_found rollback_in
  rollback_found-Keeps m none = Keeps-pure tt
  rollback_found-Keeps m (some d) = Keeps-bind _ _ (datastore_of-Keeps d) λ s.
      Keeps-bind _ _ (connect_for-Keeps s d) λ c.
        Triple-defer_close c (λ a t h. kept.stable.on_closed c t h)
          (λ e t h. kept.stable.on_closed c t h) (rollback_on-Keeps c _ m)

  rollback_migration-Keeps : (m : Migration) → Keeps P (rollback_migration w m)
  unfolding rollback_migration find_own_database
  rollback_migration-Keeps m =
      Keeps-bind _ _ (search (keeps_rules, Keeps-get w kept.stable Kind.database refl))
        (rollback_found-Keeps m)

  save_status-Keeps : (m : Migration) → IsCoherent Kind.migration m → Keeps P (save_status w m)
  unfolding save_status
  save_status-Keeps m good =
      Keeps-catch _ _ (kept.on_update_status m good) (λ e. Keeps-raise (failed e))

  park-Keeps :
      {A : Type 0} (m : Migration) (phase message : String) (o : Outcome)
      → false ≡ (phase == "Applied")
      → Keeps P (park w {A = A} m phase message o)
  unfolding park
  park-Keeps m phase message o good =
      Keeps-bind _ _ (save_status-Keeps (unapplied m phase message) good) (λ _. Keeps-raise o)

  finalize-Keeps : (m : Migration) → Keeps P (finalize w m)
  unfolding finalize save
  finalize-Keeps m = search (keeps_rules, kept.on_update, rollback_migration-Keeps) depth 12

  ensure_finalizer-Keeps : (m : Migration) → Keeps P (ensure_finalizer w m)
  unfolding ensure_finalizer save
  ensure_finalizer-Keeps m = search (keeps_rules, kept.on_update)

  init_status-Keeps : (m : Migration) → Keeps P (init_status w m)
  unfolding init_status
  init_status-Keeps m = Keeps-if _ _ _ (save_status-Keeps _ refl) (Keeps-pure m)

  search_database-Keeps : (m : Migration) → Keeps P (search_database w m)
  unfolding search_database
  search_database-Keeps m =
      Keeps-bind _ _
        (Keeps-catch _ _ (Keeps-list w kept.stable Kind.database refl)
          (λ e. park-Keeps m _ _ _ refl))
        λ items. Keeps-on_none _ _ (park-Keeps m _ _ _ refl)

  find_database-Keeps : (key : ObjectKey) (m : Migration) → Keeps P (find_database w key m)
  unfolding find_database
  find_database-Keeps key m =
      Keeps-catch _ _ (Keeps-get w kept.stable Kind.database refl _)
        λ e. Keeps-if _ _ _ (search_database-Keeps m) (park-Keeps m _ _ _ refl)

  finish-Keeps : (m : Migration) → Keeps P (finish w m)
  unfolding finish
  finish-Keeps m = Keeps-bind _ _ (Keeps-now w kept.stable) λ at.
      Keeps-bind _ _ (save_status-Keeps (applied_status w m at) refl) (λ _. Keeps-pure finished)

  migrate-Keeps : (key : ObjectKey) (m : Migration) → Keeps P (migrate w key m)
  unfolding migrate apply
  migrate-Keeps key m = Keeps-bind _ _ (init_status-Keeps m) λ m'.
      Keeps-bind _ _ (find_database-Keeps key m') λ d.
        Keeps-bind _ _ (Keeps-when _ _ (park-Keeps m' _ _ _ refl)) λ _.
          Keeps-bind _ _
            (Keeps-catch _ _ (apply_migration-Keeps m' d) (λ e. park-Keeps m' _ _ _ refl))
            (λ done. finish-Keeps done)

  body-Keeps : (key : ObjectKey) → Keeps P (body w key)
  unfolding body fetch
  body-Keeps key =
      search
        (
          keeps_rules,
          Keeps-get w kept.stable Kind.migration refl,
          finalize-Keeps,
          ensure_finalizer-Keeps,
          migrate-Keeps,
        )
        depth 12

pub migration_reconcile-Keeps :
    (w : World) {P : Trace → Type 0}
    → IsKept w Kind.migration P
    → (key : ObjectKey) (t : Trace) → P t
    → P (reconcile w key t).1
unfolding reconcile
migration_reconcile-Keeps w kept key t h = settle-keeps (body-Keeps w kept key) t h
