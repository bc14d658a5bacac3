-- ===== src/Migration/Reconcile.antt =====
-- `Reconcile` of the migration controller, in the order of its steps.
pub mod Connections
pub mod Ready
pub mod Writes
pub mod Reported
use dbchan.Base.{Bool, true, false, not, Option, none, some, List, if◌then◌else◌}
use dbchan.Base.Text.{String, ◌==◌, ◌<>◌}
use dbchan.Base.Prog.{on_none, pure, raise, when, catch, ◌>>=◌, ◌>>◌}
use dbchan.Api.{ObjectKey, Time, Migration, Database}
use dbchan.Cluster.{Kind, World, Trace}
use dbchan.Cluster.Calls.{Io, get, list, update, update_status, now}
use dbchan.Controller.{is_set, Outcome, finished, failed, retry_later, settle, find_by_name}
use dbchan.Migration.Table.{calculate_checksum}
use dbchan.Migration.Apply.{apply_migration, rollback_migration}

abbrev pub migration_finalizer : String
migration_finalizer = "db.fatiudeen.dev/migration-finalizer"

abbrev pub with_finalizers : Migration → List String → Migration
with_finalizers m fs = record m { metadata = record m.metadata { finalizers = fs } }

-- The status of a migration that is not applied.
abbrev pub unapplied : Migration → (phase message : String) → Migration
unapplied m phase message = record m {
  status = record m.status { phase = phase; applied = false; message = message };
}

module _ (w : World) where
  unfoldable pub fetch : ObjectKey → Io Outcome Migration
  fetch key =
      catch (get w Kind.migration key) λ e. if e.not_found then raise finished else raise (failed e)

  unfoldable pub save : Migration → Io Outcome Migration
  save m = catch (update w Kind.migration m) λ e. raise (failed e)

  unfoldable pub save_status : Migration → Io Outcome Migration
  save_status m = catch (update_status w Kind.migration m) λ e. raise (failed e)

  -- Writes an unapplied status and returns with `o`.
  unfoldable pub park : {A : Type 0} → Migration → (phase message : String) → Outcome → Io Outcome A
  park m phase message o = do save_status (unapplied m phase message); raise o

  -- The branch for an object that is being deleted.
  unfoldable pub finalize : Migration → Io Outcome (Unit {0})
  finalize m = do
    when (w.contains_finalizer m.finalizers migration_finalizer) (do
      when (not (m.spec.rollback_sql == ""))
          (catch (rollback_migration w m) (λ e. raise (failed e)))
      save (with_finalizers m (w.remove_finalizer m.finalizers migration_finalizer))
      pure tt)
    raise finished

  unfoldable pub ensure_finalizer : Migration → Io Outcome Migration
  ensure_finalizer m =
      if w.contains_finalizer m.finalizers migration_finalizer
      then pure m
      else save (with_finalizers m (w.add_finalizer m.finalizers migration_finalizer))

  unfoldable pub init_status : Migration → Io Outcome Migration
  init_status m =
      if m.status.phase == ""
      then save_status (unapplied m "Pending" "Migration pending")
      else pure m

  -- The search in all namespaces.
  unfoldable pub search_database : Migration → Io Outcome Database
  search_database m = do
    items ←
        catch (list w Kind.database)
          λ e. park m "Failed" ("Failed to list databases: " <> e.text) (failed e)
    on_none (find_by_name (λ d. d.name) m.spec.database_ref.name items) (
        park m "Failed" ("Database " <> m.spec.database_ref.name <> " not found in any namespace")
          retry_later)

  unfoldable pub find_database : ObjectKey → Migration → Io Outcome Database
  find_database key m =
      let database_key : ObjectKey = record {
        namespace = key.namespace;
        name = m.spec.database_ref.name;
      } in
      catch (get w Kind.database database_key) λ e.
        if e.not_found
        then search_database m
        else park m "Failed" ("Database " <> m.spec.database_ref.name <> " not found") retry_later

  unfoldable pub apply : Migration → Database → Io Outcome Migration
  apply m d =
      catch (apply_migration w m d)
        λ e. park m "Failed" ("Failed to apply migration: " <> e.text) retry_later

  -- The status after a migration has been applied.
  abbrev pub applied_status : Migration → Time → Migration
  applied_status m at = record m {
    status = record {
      phase = "Applied";
      applied = true;
      applied_at = some at;
      message = "Migration applied successfully";
      checksum = calculate_checksum w m.spec.sql;
    };
  }

  unfoldable pub finish : Migration → Io Outcome Outcome
  finish m = do at ← now w; save_status (applied_status m at); pure finished

  -- From an object that has its finalizer and is not yet applied.
  unfoldable pub migrate : ObjectKey → Migration → Io Outcome Outcome
  migrate key m = do
    m ← init_status m
    d ← find_database key m
    when (not d.status.ready) (park m "Waiting" "Waiting for database to be ready" retry_later)
    m ← apply m d
    finish m

  unfoldable pub body : ObjectKey → Io Outcome Outcome
  body key = do
    m ← fetch key
    when (is_set m.deletion_timestamp) (finalize m)
    m ← ensure_finalizer m
    when m.status.applied (raise finished)
    migrate key m

  -- `Reconcile`
  unfoldable pub reconcile : ObjectKey → Trace → Outcome × Trace
  reconcile key = settle (body key)
