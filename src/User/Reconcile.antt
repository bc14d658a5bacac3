-- ===== src/User/Reconcile.antt =====
-- `Reconcile` of the user controller, in the order of its steps.
pub mod Connections
pub mod Ready
pub mod Writes
pub mod Reported
use dbchan.Base.{true, false, not, Option, none, some, List, if◌then◌else◌}
use dbchan.Base.Text
use dbchan.Base.Text.{String, ◌<>◌}
use dbchan.Base.Prog.{raise, pure, ◌>>=◌, ◌>>◌, catch, when, on_none}
use dbchan.Api.{Time, ObjectKey, LocalObjectReference, User, Datastore, Database}
use dbchan.Cluster.{Kind, World, Trace}
use dbchan.Cluster.Calls.{Io, get, list, update, update_status, now}
use dbchan.Controller.{Outcome, finished, failed, retry_later, settle, is_set, find_by_name}
use dbchan.User.Account.{create_or_update_user, cleanup_user}

abbrev pub user_finalizer : String
user_finalizer = "db.fatiudeen.dev/user-finalizer"

abbrev pub with_finalizers : User → List String → User
with_finalizers u fs = record u { metadata = record u.metadata { finalizers = fs } }

-- The status of a user that is not ready; `created` stays as it is.
abbrev pub unready : User → (phase message : String) → User
unready u phase message = record u {
  status = record u.status { phase = phase; ready = false; message = message };
}

-- `Status.Phase == ""` at the start.
abbrev pub creating : User → User
creating u = record u {
  status = record u.status {
    phase = "Creating";
    ready = false;
    created = false;
    message = "Creating database user";
  };
}

-- `if CreatedAt == nil { CreatedAt = &now }`
abbrev pub ready_at : User → Option Time → User
ready_at u at = record u {
  status = record {
    phase = "Ready";
    ready = true;
    created = true;
    message = "User created successfully";
    created_at = at;
  };
}

module _ (w : World) where
  unfoldable pub fetch : ObjectKey → Io Outcome User
  fetch key =
      catch (get w Kind.user key) λ e. if e.not_found then raise finished else raise (failed e)

  unfoldable pub save : User → Io Outcome User
  save u = catch (update w Kind.user u) λ e. raise (failed e)

  unfoldable pub save_status : User → Io Outcome User
  save_status u = catch (update_status w Kind.user u) λ e. raise (failed e)

  -- Writes a status that is not ready and returns with `o`.
  unfoldable pub park : {A : Type 0} → User → (phase message : String) → Outcome → Io Outcome A
  park u phase message o = do save_status (unready u phase message); raise o

  -- The branch for an object that is being deleted.
  unfoldable pub finalize : User → Io Outcome (Unit {0})
  finalize u = do
    when (w.contains_finalizer u.finalizers user_finalizer) (do
      catch (cleanup_user w u) (λ e. raise (failed e))
      save (with_finalizers u (w.remove_finalizer u.finalizers user_finalizer))
      pure tt)
    raise finished

  unfoldable pub ensure_finalizer : User → Io Outcome User
  ensure_finalizer u =
      if w.contains_finalizer u.finalizers user_finalizer
      then pure u
      else save (with_finalizers u (w.add_finalizer u.finalizers user_finalizer))

  unfoldable pub init_status : User → Io Outcome User
  init_status u = if Text.◌==◌ u.status.phase "" then save_status (creating u) else pure u

  -- The searches in all namespaces.
  unfoldable pub search_datastore : User → Io Outcome Datastore
  search_datastore u = do
    items ←
        catch (list w Kind.datastore)
          λ e. park u "Failed" ("Failed to list datastores: " <> e.text) (failed e)
    on_none (find_by_name (λ d. d.name) u.spec.datastore_ref.name items) (
        park u "Failed" ("Datastore " <> u.spec.datastore_ref.name <> " not found in any namespace")
          retry_later)

  unfoldable pub search_database : User → (name : String) → Io Outcome Database
  search_database u name = do
    items ←
        catch (list w Kind.database)
          λ e. park u "Failed" ("Failed to list databases: " <> e.text) (failed e)
    on_none (find_by_name (λ d. d.name) name items)
        (park u "Failed" ("Database " <> name <> " not found in any namespace") retry_later)

  unfoldable pub find_datastore : ObjectKey → User → Io Outcome Datastore
  find_datastore key u =
      let datastore_key : ObjectKey = record {
        namespace = key.namespace;
        name = u.spec.datastore_ref.name;
      } in
      catch (get w Kind.datastore datastore_key) λ e.
        if e.not_found
        then search_datastore u
        else park u "Failed" ("Datastore " <> u.spec.datastore_ref.name <> " not found") retry_later

  -- The database of a user, where it names one.
  unfoldable pub find_database :
      ObjectKey → User → Option LocalObjectReference → Io Outcome (Option Database)
  find_database key u none = pure none
  find_database key u (some ref) =
      let database_key : ObjectKey = record { namespace = key.namespace; name = ref.name } in
      do
        d ← catch (get w Kind.database database_key) λ e.
            if e.not_found
            then search_database u ref.name
            else park u "Failed" ("Database " <> ref.name <> " not found") retry_later
        pure (some d)

  unfoldable pub create : User → Datastore → Option Database → Io Outcome (Unit {0})
  create u datastore database =
      catch (create_or_update_user w u datastore database)
        λ e. park u "Failed" ("Failed to create/update user: " <> e.text) retry_later

  unfoldable pub creation_time : Option Time → Io Outcome (Option Time)
  creation_time (some at) = pure (some at)
  creation_time none = do at ← now w; pure (some at)

  unfoldable pub finish : User → Io Outcome Outcome
  finish u = do at ← creation_time u.status.created_at; save_status (ready_at u at); pure finished

  -- From an object that has its finalizer.
  unfoldable pub provision : ObjectKey → User → Io Outcome Outcome
  provision key u = do
    u ← init_status u
    datastore ← find_datastore key u
    when (not datastore.status.ready)
        (park u "Waiting" "Waiting for datastore to be ready" retry_later)
    database ← find_database key u u.spec.database_ref
    create u datastore database
    finish u

  unfoldable pub body : ObjectKey → Io Outcome Outcome
  body key = do
    u ← fetch key
    when (is_set u.deletion_timestamp) (finalize u)
    u ← ensure_finalizer u
    provision key u

  -- `Reconcile`
  unfoldable pub reconcile : ObjectKey → Trace → Outcome × Trace
  reconcile key = settle (body key)
