-- ===== src/Database/Reconcile.antt =====
-- `Reconcile` of the database controller, in the order of its steps.
pub mod Connections
pub mod Ready
pub mod Writes
pub mod Reported
use dbchan.Base.{Bool, true, false, not, Option, none, some, List, if◌then◌else◌}
use dbchan.Base.Text.{String, ◌<>◌, ◌==◌}
use dbchan.Base.Prog.{raise, pure, ◌>>=◌, ◌>>◌, catch, when, on_none}
use dbchan.Api.{Time, ObjectKey, Datastore, Database}
use dbchan.Cluster.{Kind, World, Trace}
use dbchan.Cluster.Calls.{Io, get, list, update, update_status, now}
use dbchan.Controller.{Outcome, finished, failed, retry_later, settle, is_set, find_by_name}
use dbchan.Database.Provision.{create_or_update_database, cleanup_database}

abbrev pub database_finalizer : String
database_finalizer = "db.fatiudeen.dev/database-finalizer"

abbrev pub with_finalizers : Database → List String → Database
with_finalizers d fs = record d { metadata = record d.metadata { finalizers = fs } }

-- A status that is not ready.
abbrev pub unready : Database → (phase message : String) → Database
unready d phase message = record d {
  status = record d.status { phase = phase; ready = false; message = message };
}

-- `if CreatedAt == nil { CreatedAt = &now }`
abbrev pub ready_at : Database → Option Time → Database
ready_at d at = record d {
  status = record {
    phase = "Ready";
    ready = true;
    message = "Database created successfully";
    created_at = at;
  };
}

module _ (w : World) where
  unfoldable pub fetch : ObjectKey → Io Outcome Database
  fetch key =
      catch (get w Kind.database key) λ e. if e.not_found then raise finished else raise (failed e)

  unfoldable pub save : Database → Io Outcome Database
  save d = catch (update w Kind.database d) λ e. raise (failed e)

  unfoldable pub save_status : Database → Io Outcome Database
  save_status d = catch (update_status w Kind.database d) λ e. raise (failed e)

  -- Writes a status that is not ready and returns with `o`.
  unfoldable pub park : {A : Type 0} → Database → (phase message : String) → Outcome → Io Outcome A
  park d phase message o = do save_status (unready d phase message); raise o

  -- The branch for an object that is being deleted.
  unfoldable pub finalize : Database → Io Outcome (Unit {0})
  finalize d = do
    when (w.contains_finalizer d.finalizers database_finalizer) (do
      catch (cleanup_database w d) (λ e. raise (failed e))
      save (with_finalizers d (w.remove_finalizer d.finalizers database_finalizer))
      pure tt)
    raise finished

  unfoldable pub ensure_finalizer : Database → Io Outcome Database
  ensure_finalizer d =
      if w.contains_finalizer d.finalizers database_finalizer
      then pure d
      else save (with_finalizers d (w.add_finalizer d.finalizers database_finalizer))

  unfoldable pub init_status : Database → Io Outcome Database
  init_status d =
      if d.status.phase == ""
      then save_status (unready d "Creating" "Creating database")
      else pure d

  -- The search in all namespaces.
  unfoldable pub search_datastore : Database → Io Outcome Datastore
  search_datastore d = do
    items ←
        catch (list w Kind.datastore)
          λ e. park d "Failed" ("Failed to list datastores: " <> e.text) (failed e)
    on_none (find_by_name (λ s. s.name) d.spec.datastore_ref.name items) (
        park d "Failed" ("Datastore " <> d.spec.datastore_ref.name <> " not found in any namespace")
          retry_later)

  unfoldable pub find_datastore : ObjectKey → Database → Io Outcome Datastore
  find_datastore key d =
      let datastore_key : ObjectKey = record {
        namespace = key.namespace;
        name = d.spec.datastore_ref.name;
      } in
      catch (get w Kind.datastore datastore_key) λ e.
        if e.not_found
        then search_datastore d
        else park d "Failed" ("Datastore " <> d.spec.datastore_ref.name <> " not found") retry_later

  unfoldable pub create : Database → Datastore → Io Outcome (Unit {0})
  create d datastore =
      catch (create_or_update_database w d datastore)
        λ e. park d "Failed" ("Failed to create/update database: " <> e.text) retry_later

  unfoldable pub creation_time : Option Time → Io Outcome (Option Time)
  creation_time (some at) = pure (some at)
  creation_time none = do at ← now w; pure (some at)

  unfoldable pub finish : Database → Io Outcome Outcome
  finish d = do at ← creation_time d.status.created_at; save_status (ready_at d at); pure finished

  -- From an object that has its finalizer.
  unfoldable pub provision : ObjectKey → Database → Io Outcome Outcome
  provision key d = do
    d ← init_status d
    datastore ← find_datastore key d
    when (not datastore.status.ready)
        (park d "Waiting" "Waiting for datastore to be ready" retry_later)
    create d datastore
    finish d

  unfoldable pub body : ObjectKey → Io Outcome Outcome
  body key = do
    d ← fetch key
    when (is_set d.deletion_timestamp) (finalize d)
    d ← ensure_finalizer d
    provision key d

  -- `Reconcile`
  unfoldable pub reconcile : ObjectKey → Trace → Outcome × Trace
  reconcile key = settle (body key)
