-- ===== src/Database/Evidence.antt =====
-- What a status `ready` of a database, and the removal of its finalizer, stand on.
pub mod Created
pub mod Deleted
pub mod Justified
use dbchan.Base.{◌≡◌, ◌⊎◌, true, [], ◌∷◌}
use dbchan.Base.Text.{String}
use dbchan.Base.Prog.{ok, err}
use dbchan.Api.{Database, DatabaseSpec}
use dbchan.Cluster.{Kind, Event, Trace, got, updated, status_updated, tested}
use dbchan.Cluster.History.{Once}
use dbchan.Cluster.Statements.{Ran}
use dbchan.Controller.{is_set}
use dbchan.Database.Statements.{
  mysql_create, postgres_create, sqlserver_create, postgres_check, sqlserver_check, mysql_drop,
  postgres_drop, sqlserver_drop,
}

-- The statements that create a database.
pub data CreatesDatabase (name : String) (s : DatabaseSpec) : String → Type 0 where
  mysql_new : CreatesDatabase name s (mysql_create name s)
  postgres_new : CreatesDatabase name s (postgres_create name s)
  sqlserver_new : CreatesDatabase name s (sqlserver_create name s)

-- The statements that drop a database.
pub data DropsDatabase (name : String) : String → Type 0 where
  in_mysql : DropsDatabase name (mysql_drop name)
  in_postgres : DropsDatabase name (postgres_drop name)
  in_sqlserver : DropsDatabase name (sqlserver_drop name)

-- The server was asked for the database and has it.
abbrev pub SaysExists : String → Event → Type 0
SaysExists name (tested c q args (ok b)) =
    ((q ≡ postgres_check) ⊎ (q ≡ sqlserver_check)) × (args ≡ name ∷ []) × (b ≡ true)
SaysExists name _ = ⊥

abbrev pub IsCreated : String → DatabaseSpec → Trace → Type 0
IsCreated name s t =
    Once (λ e _. SaysExists name e) t
    ⊎ ((statement : String) × CreatesDatabase name s statement × Once (λ e _. Ran statement e) t)

-- The API server says that the datastore of the database does not exist.
abbrev pub SaysGone : Database → Event → Type 0
SaysGone d (got Kind.datastore key (err e)) =
    (key.namespace ≡ d.namespace) × (key.name ≡ d.spec.datastore_ref.name) × (e.not_found ≡ true)
SaysGone d _ = ⊥

abbrev pub IsDeleted : Database → Trace → Type 0
IsDeleted d t =
    Once (λ e _. SaysGone d e) t
    ⊎ ((statement : String) × DropsDatabase d.name statement × Once (λ e _. Ran statement e) t)

-- What each write to the API server claims.
abbrev pub Claim : Event → Trace → Type 0
Claim (status_updated Kind.database d r) t = d.status.ready ≡ true → IsCreated d.name d.spec t
Claim (updated Kind.database d r) t = is_set d.deletion_timestamp ≡ true → IsDeleted d t
Claim _ t = Unit
