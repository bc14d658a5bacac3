-- ===== src/Tests.antt =====
-- A small cluster on which the theorems are applied and the definitions run: one object of each kind,
-- and a server whose objects never change.
pub mod Runs
pub mod Witnesses
pub mod Tracking
pub mod Calm
pub mod Ready
pub mod Texts
pub mod Served
use dbchan.Base.{ℕ, Bool, true, false, not, none, some, List, [], ◌∷◌, any, if◌then◌else◌}
use dbchan.Base.Int.{pos}
use dbchan.Base.Text.{String, ◌==◌}
use dbchan.Base.Prog.{Error, errorf, Result, ok, err}
use dbchan.Api.{ObjectMeta, ObjectKey, Secret, Datastore, Database, User, DatabaseRole, Migration}
use dbchan.Cluster.{Kind, Object, Conn, Trace, World}

abbrev pub named : String → ObjectMeta
named name = record { name = name; namespace = "shop"; finalizers = []; deletion_timestamp = none }

abbrev pub key_of : String → ObjectKey
key_of name = record { namespace = "shop"; name = name }

abbrev pub orders_secret : Secret
orders_secret = record {
  metadata = named "orders-secret";
  entries = ("username", "app") ∷ ("password", "pw") ∷ ("host", "db") ∷ [];
}

abbrev pub orders_store : Datastore
orders_store = record {
  metadata = named "orders-store";
  spec = record {
    datastore_type = "mysql";
    host = "db";
    port = pos 3306;
    username = "app";
    secret_ref = record { name = "orders-secret"; password_key = "" };
    ssl_mode = "";
    instance_name = "";
  };
  status = record { phase = "Ready"; ready = true; message = "" };
}

abbrev pub postgres_store : Datastore
postgres_store = record orders_store {
  spec = record orders_store.spec { datastore_type = "postgres"; port = pos 5432 };
}

abbrev pub orders : Database
orders = record {
  metadata = named "orders";
  spec = record {
    database_name = "orders";
    datastore_ref = record { name = "orders-store" };
    charset = "";
    collation = "";
  };
  status = record { phase = "Ready"; ready = true; message = ""; created_at = none };
}

abbrev pub reader : User
reader = record {
  metadata = named "reader";
  spec = record {
    username = "reader";
    password = "cGFzcw==";
    datastore_ref = record { name = "orders-store" };
    database_ref = some (record { name = "orders" });
    roles = "readonly" ∷ [];
    privileges = "select" ∷ [];
    host = "";
  };
  status = record { phase = ""; ready = false; created = false; created_at = none; message = "" };
}

abbrev pub auditors : DatabaseRole
auditors = record {
  metadata = named "auditors";
  spec = record {
    datastore_ref = record { name = "orders-store" };
    privileges = "SELECT" ∷ [];
    database_ref = none;
    description = "";
    is_global = false;
  };
  status = record { phase = ""; ready = false; created = false; message = ""; last_updated = none };
}

abbrev pub add_index : Migration
add_index = record {
  metadata = named "add-index";
  spec = record {
    database_ref = record { name = "orders" };
    sql = "CREATE INDEX i ON items (id)";
    version = "1";
    description = "";
    rollback_sql = "DROP INDEX i ON items";
  };
  status = record { phase = ""; applied = false; applied_at = none; message = ""; checksum = "" };
}

abbrev missing : Error
missing = record { text = "not found"; not_found = true }

abbrev serve : {A : Type 0} → String → A → ObjectKey → Result Error A
serve name a key = if key.name == name then ok a else err missing

abbrev pub answer : (k : Kind) → ObjectKey → Result Error (Object k)
answer Kind.secret = serve "orders-secret" orders_secret
answer Kind.datastore = serve "orders-store" orders_store
answer Kind.database = serve "orders" orders
answer Kind.user = serve "reader" reader
answer Kind.role = serve "auditors" auditors
answer Kind.migration = serve "add-index" add_index

abbrev pub all_of : (k : Kind) → List (Object k)
all_of Kind.secret = orders_secret ∷ []
all_of Kind.datastore = orders_store ∷ []
all_of Kind.database = orders ∷ []
all_of Kind.user = reader ∷ []
all_of Kind.role = auditors ∷ []
all_of Kind.migration = add_index ∷ []

-- A database that has no migration recorded and takes every statement.
abbrev pub small_world : World
small_world = record {
  get = λ k key t. answer k key;
  list = λ k t. ok (all_of k);
  list_in = λ k namespace t. ok (all_of k);
  update = λ k o t. ok o;
  update_status = λ k o t. ok o;
  open_pool = λ driver source t. ok (record { id = 7 });
  ping = λ c t. ok tt;
  exec = λ c query args t. ok tt;
  query_count = λ c query args t. ok 0;
  query_bool = λ c query args t. ok false;
  now = λ t. 1000;
  contains_finalizer = λ fs f. any (λ g. g == f) fs;
  add_finalizer = λ fs f. f ∷ fs;
  remove_finalizer = λ fs f. [];
  sha256 = λ s. 171 ∷ 7 ∷ [];
  decode_base64 = λ s. ok "pass";
}
