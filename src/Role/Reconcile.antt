-- ===== src/Role/Reconcile.antt =====
-- `Reconcile` of the role controller, in the order of its steps.
pub mod Connections
pub mod Ready
pub mod Writes
use dbchan.Base.{
  suc, zero, Bool, true, false, not, ◌||◌, Option, none, some, List, [], ◌∷◌, ◌++◌, any,
  if◌then◌else◌,
}
use dbchan.Base.Text.{String, ◌<>◌, ◌==◌}
use dbchan.Base.Prog.{raise, pure, ◌>>=◌, ◌>>◌, catch, when}
use dbchan.Api.{Time, ObjectKey, LocalObjectReference, Secret, Datastore, Database, DatabaseRole}
use dbchan.Cluster.{Kind, World, Trace}
use dbchan.Cluster.Calls.{Io, get, update, update_status, now}
use dbchan.Controller.{Outcome, finished, failed, settle}
use dbchan.Role.Provision.{create_or_update_role, delete_role}

abbrev pub role_finalizer : String
role_finalizer = "db.fatiudeen.dev/role-finalizer"

-- `containsString`
abbrev pub contains_string : List String → String → Bool
contains_string slice s = any (λ item. item == s) slice

-- `removeString`
unfoldable pub remove_string : List String → String → List String
remove_string [] s = []
remove_string (item ∷ slice) s =
    let rest = remove_string slice s in if not (item == s) then item ∷ rest else rest

-- `!DeletionTimestamp.IsZero()`
abbrev pub is_deleted : Option Time → Bool
is_deleted none = false
is_deleted (some zero) = false
is_deleted (some (suc t)) = true

-- `return ctrl.Result{Requeue: true}, nil`
abbrev pub requeued : Outcome
requeued = record { requeue = true; requeue_after = 0; error = none }

abbrev pub with_finalizers : DatabaseRole → List String → DatabaseRole
with_finalizers r fs = record r { metadata = record r.metadata { finalizers = fs } }

abbrev pub with_status :
    DatabaseRole → (phase : String) (ready created : Bool) (message : String) → Time → DatabaseRole
with_status r phase ready created message at = record r {
  status = record {
    phase = phase;
    ready = ready;
    created = created;
    message = message;
    last_updated = some at;
  };
}

module _ (w : World) where
  unfoldable pub fetch : ObjectKey → Io Outcome DatabaseRole
  fetch key =
      catch (get w Kind.role key) λ e. if e.not_found then raise finished else raise (failed e)

  unfoldable pub save : DatabaseRole → Io Outcome DatabaseRole
  save r = catch (update w Kind.role r) λ e. raise (failed e)

  -- `updateRoleStatus`
  unfoldable pub update_role_status :
      DatabaseRole → (phase : String) (ready created : Bool) (message : String) → Io Outcome Outcome
  update_role_status r phase ready created message = do
    at ← now w
    catch (update_status w Kind.role (with_status r phase ready created message at))
        (λ e. raise (failed e))
    pure finished

  -- `return r.updateRoleStatus(…)` before the end, with a status that is not ready.
  unfoldable pub park : {A : Type 0} → DatabaseRole → (phase message : String) → Io Outcome A
  park r phase message = do o ← update_role_status r phase false false message; raise o

  -- `deleteRole`, where there is a secret.
  unfoldable pub delete_found : DatabaseRole → Datastore → Option Secret → Io Outcome (Unit {0})
  delete_found r datastore none = pure tt
  delete_found r datastore (some s) = catch (delete_role w r datastore s) λ e. raise (failed e)

  -- The secret is asked for where there is a datastore; any error counts as none.
  unfoldable pub delete_with_secret : DatabaseRole → Option Datastore → Io Outcome (Unit {0})
  delete_with_secret r none = pure tt
  delete_with_secret r (some datastore) = do
    let key : ObjectKey = record { namespace = r.namespace; name = datastore.spec.secret_ref.name }
    found ← catch (get w Kind.secret key >>= λ s. pure (some s)) (λ e. pure none)
    delete_found r datastore found

  -- The part of `handleDeletion` before the finalizer goes; any error counts as no datastore.
  unfoldable pub delete_if_found : DatabaseRole → Io Outcome (Unit {0})
  delete_if_found r = do
    let key : ObjectKey = record { namespace = r.namespace; name = r.spec.datastore_ref.name }
    found ← catch (get w Kind.datastore key >>= λ datastore. pure (some datastore)) (λ e. pure none)
    delete_with_secret r found

  -- `handleDeletion`
  unfoldable pub handle_deletion : DatabaseRole → Io Outcome (Unit {0})
  handle_deletion r = do
    delete_if_found r
    save (with_finalizers r (remove_string r.finalizers role_finalizer))
    raise finished

  -- Adds the finalizer and returns, for another run to go on.
  unfoldable pub ensure_finalizer : DatabaseRole → Io Outcome (Unit {0})
  ensure_finalizer r =
      when (not (contains_string r.finalizers role_finalizer))
        (do save (with_finalizers r (r.finalizers ++ role_finalizer ∷ [])); raise requeued)

  unfoldable pub find_datastore : DatabaseRole → Io Outcome Datastore
  find_datastore r =
      let key : ObjectKey = record { namespace = r.namespace; name = r.spec.datastore_ref.name } in
      catch (get w Kind.datastore key)
        λ e. park r "Failed" ("Failed to fetch Datastore: " <> e.text)

  -- The database of a role, where it names one.
  unfoldable pub find_database :
      DatabaseRole → Option LocalObjectReference → Io Outcome (Option Database)
  find_database r none = pure none
  find_database r (some ref) = do
    let key : ObjectKey = record { namespace = r.namespace; name = ref.name }
    d ←
        catch (get w Kind.database key)
          (λ e. park r "Failed" ("Failed to fetch Database: " <> e.text))
    when (not (d.status.phase == "Ready") || not d.status.ready)
        (park r "Pending" "Waiting for Database to be ready")
    pure (some d)

  unfoldable pub find_secret : DatabaseRole → Datastore → Io Outcome Secret
  find_secret r datastore =
      let key : ObjectKey = record {
        namespace = r.namespace;
        name = datastore.spec.secret_ref.name;
      } in
      catch (get w Kind.secret key) λ e. park r "Failed" ("Failed to fetch Secret: " <> e.text)

  unfoldable pub create :
      DatabaseRole → Datastore → Option Database → Secret → Io Outcome (Unit {0})
  create r datastore database s =
      catch (create_or_update_role w r datastore database s)
        λ e. park r "Failed" ("Failed to create/update role: " <> e.text)

  -- From an object that has its finalizer.
  unfoldable pub provision : DatabaseRole → Io Outcome Outcome
  provision r = do
    datastore ← find_datastore r
    when (not (datastore.status.phase == "Ready") || not datastore.status.ready)
        (park r "Pending" "Waiting for Datastore to be ready")
    database ← find_database r r.spec.database_ref
    s ← find_secret r datastore
    create r datastore database s
    update_role_status r "Ready" true true "Role created/updated successfully"

  unfoldable pub body : ObjectKey → Io Outcome Outcome
  body key = do
    r ← fetch key
    when (is_deleted r.deletion_timestamp) (handle_deletion r)
    ensure_finalizer r
    provision r

  -- `Reconcile`
  unfoldable pub reconcile : ObjectKey → Trace → Outcome × Trace
  reconcile key = settle (body key)
