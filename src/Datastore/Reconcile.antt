-- ===== src/Datastore/Reconcile.antt =====
-- `Reconcile` of the datastore controller, in the order of its steps.
pub mod Connections
pub mod Ready
pub mod Writes
pub mod Reported
pub mod Evidence
use dbchan.Base.{Bool, true, false, if◌then◌else◌}
use dbchan.Base.Text.{String, ◌==◌, ◌<>◌}
use dbchan.Base.Prog.{on_none, pure, raise, catch, ◌>>=◌, ◌>>◌}
use dbchan.Api.{ObjectKey, Secret, Datastore, lookup}
use dbchan.Cluster.{Kind, World, Trace}
use dbchan.Cluster.Calls.{Io, get, list, update_status}
use dbchan.Controller.{Outcome, finished, failed, retry_later, settle, find_by_name}
use dbchan.Datastore.Source.{text_or, build_connection_string, test_connection}

-- The three assignments to the status, which are all of its fields.
abbrev pub with_status : Datastore → (phase : String) (ready : Bool) (message : String) → Datastore
with_status d phase ready message = record d {
  status = record { phase = phase; ready = ready; message = message };
}

abbrev pub password_key : Datastore → String
password_key d = text_or "password" d.spec.secret_ref.password_key

-- The connection string of a datastore whose password is known.
abbrev pub source_for : Datastore → String → String
source_for d password =
    build_connection_string d.spec.datastore_type d.name d.spec.host d.spec.username password
      d.spec.port d.spec.ssl_mode d.spec.instance_name

module _ (w : World) where
  unfoldable pub fetch : ObjectKey → Io Outcome Datastore
  fetch key =
      catch (get w Kind.datastore key) λ e. if e.not_found then raise finished else raise (failed e)

  unfoldable pub save_status : Datastore → Io Outcome Datastore
  save_status d = catch (update_status w Kind.datastore d) λ e. raise (failed e)

  -- Writes a status that is not ready and returns with `o`.
  unfoldable pub park : {A : Type 0} → Datastore → (phase message : String) → Outcome → Io Outcome A
  park d phase message o = do save_status (with_status d phase false message); raise o

  unfoldable pub init_status : Datastore → Io Outcome Datastore
  init_status d =
      if d.status.phase == ""
      then save_status (with_status d "Connecting" false "Attempting to connect to database")
      else pure d

  unfoldable pub search_secret : Datastore → Io Outcome Secret
  search_secret d = do
    items ←
        catch (list w Kind.secret)
          λ e. park d "Failed" ("Failed to list secrets: " <> e.text) (failed e)
    on_none (find_by_name (λ s. s.name) d.spec.secret_ref.name items) (
        park d "Failed" ("Secret " <> d.spec.secret_ref.name <> " not found in any namespace")
          retry_later)

  unfoldable pub find_secret : ObjectKey → Datastore → Io Outcome Secret
  find_secret key d =
      let secret_key : ObjectKey = record {
        namespace = key.namespace;
        name = d.spec.secret_ref.name;
      } in
      catch (get w Kind.secret secret_key) λ e.
        if e.not_found
        then search_secret d
        else park d "Failed" ("Secret " <> d.spec.secret_ref.name <> " not found") retry_later

  unfoldable pub find_password : Datastore → Secret → Io Outcome String
  find_password d s =
      on_none (lookup (password_key d) s.entries)
        (park d "Failed" ("Key " <> password_key d <> " not found in secret") retry_later)

  unfoldable pub check : Datastore → String → Io Outcome (Unit {0})
  check d password =
      catch (test_connection w d.spec.datastore_type (source_for d password))
        λ e. park d "Failed" ("Connection failed: " <> e.text) retry_later

  unfoldable pub body : ObjectKey → Io Outcome Outcome
  body key = do
    d ← fetch key
    d ← init_status d
    s ← find_secret key d
    password ← find_password d s
    check d password
    save_status (with_status d "Ready" true "Successfully connected to database")
    pure finished

  -- `Reconcile`
  unfoldable pub reconcile : ObjectKey → Trace → Outcome × Trace
  reconcile key = settle (body key)
