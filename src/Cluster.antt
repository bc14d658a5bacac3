-- ===== src/Cluster.antt =====
-- What the controllers and webhooks call and the repository does not implement: the API server, the
-- databases behind `database/sql`, and the clock. A `World` answers every call from the calls made
-- before it, so nothing is assumed of the answers, and a theorem for all worlds holds whatever
-- other clients do between two calls. The trace records each call with its answer, the last first.
pub mod Calls
pub mod Rules
pub mod Calm
pub mod History
pub mod Statements
use dbchan.Base.{ℕ, Bool, Option, List, ◌∷◌}
use dbchan.Base.Text.{String}
use dbchan.Base.Prog.{Error, Result, Prog}
use dbchan.Api.{Time, ObjectKey, Secret, Datastore, Database, User, DatabaseRole, Migration}

pub data Kind : Type 0 where
  secret datastore database user role migration : Kind

abbrev pub Object : Kind → Type 0
Object secret = Secret
Object datastore = Datastore
Object database = Database
Object user = User
Object role = DatabaseRole
Object migration = Migration

-- The connection pool that `sql.Open` returns.
pub record Conn : Type 0 where
  pub id : ℕ

abbrev pub Done : Type 0
Done = Result Error (Unit {0})

pub data Event : Type 0 where
  got : (k : Kind) → ObjectKey → Result Error (Object k) → Event
  listed : (k : Kind) → Result Error (List (Object k)) → Event
  listed_in : (k : Kind) → String → Result Error (List (Object k)) → Event
  updated : (k : Kind) → Object k → Result Error (Object k) → Event
  status_updated : (k : Kind) → Object k → Result Error (Object k) → Event
  opened : (driver source : String) → Result Error Conn → Event
  pinged : Conn → Done → Event
  executed : Conn → (query : String) (args : List String) → Done → Event
  counted : Conn → (query : String) (args : List String) → Result Error ℕ → Event
  tested : Conn → (query : String) (args : List String) → Result Error Bool → Event
  closed : Conn → Event
  read_clock : Time → Event

abbrev pub Trace : Type 0
Trace = List Event

pub record World : Type 0 where
  pub get : (k : Kind) → ObjectKey → Trace → Result Error (Object k)
  pub list : (k : Kind) → Trace → Result Error (List (Object k))
  pub list_in : (k : Kind) → String → Trace → Result Error (List (Object k))
  -- An update answers with the object as the server has stored it.
  pub update : (k : Kind) → Object k → Trace → Result Error (Object k)
  pub update_status : (k : Kind) → Object k → Trace → Result Error (Object k)
  pub open_pool : (driver source : String) → Trace → Result Error Conn
  pub ping : Conn → Trace → Done
  pub exec : Conn → (query : String) (args : List String) → Trace → Done
  pub query_count : Conn → (query : String) (args : List String) → Trace → Result Error ℕ
  pub query_bool : Conn → (query : String) (args : List String) → Trace → Result Error Bool
  pub now : Trace → Time
  -- `controllerutil` of controller-runtime, on the finalizers of an object.
  pub contains_finalizer : List String → String → Bool
  pub add_finalizer : List String → String → List String
  pub remove_finalizer : List String → String → List String
  -- `sha256.Sum256`, as a list of bytes.
  pub sha256 : String → List ℕ
  -- `base64.StdEncoding.DecodeString`, with the bytes as a text.
  pub decode_base64 : String → Result Error String
