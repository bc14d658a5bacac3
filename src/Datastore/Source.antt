-- ===== src/Datastore/Source.antt =====
-- The connection string of a datastore, and the test of a connection.
pub mod Port
use dbchan.Base.{zero, if◌then◌else◌}
use dbchan.Base.Int.{ℤ, pos, show_int}
use dbchan.Base.Text.{String, ◌<>◌, ◌==◌}
use dbchan.Base.Prog.{Error, errorf, on_none, raise, wrap, ◌>>=◌}
use dbchan.Cluster.{World}
use dbchan.Cluster.Calls.{Io, open_pool, ping}
use dbchan.Connection.{
  Dialect, mysql, postgres, sqlserver, unsupported, dialect, driver, defer_close,
}

-- `if port == 0 { port = default }`
abbrev pub port_or : ℤ → ℤ → ℤ
port_or default (pos zero) = default
port_or default port = port

-- `if s == "" { s = default }`
abbrev pub text_or : String → String → String
text_or default s = if s == "" then default else s

-- `instancePath`
abbrev pub instance_path : String → String
instance_path s = if s == "" then "" else "/" <> s

unfoldable pub source_of :
    Dialect
    → (name host username password : String) (port : ℤ) (ssl_mode instance_name : String) → String
source_of mysql name host username password port ssl_mode instance_name =
    username
    <> ":"
    <> password
    <> "@tcp("
    <> host
    <> ":"
    <> show_int (port_or (pos 3306) port)
    <> ")/"
    <> name
    <> "?parseTime=true"
source_of postgres name host username password port ssl_mode instance_name =
    "postgres://"
    <> username
    <> ":"
    <> password
    <> "@"
    <> host
    <> ":"
    <> show_int (port_or (pos 5432) port)
    <> "/"
    <> name
    <> "?sslmode="
    <> text_or "disable" ssl_mode
source_of sqlserver name host username password port ssl_mode instance_name =
    "sqlserver://"
    <> username
    <> ":"
    <> password
    <> "@"
    <> host
    <> ":"
    <> show_int (port_or (pos 1433) port)
    <> instance_path instance_name
    <> "?database="
    <> name
source_of unsupported name host username password port ssl_mode instance_name =
    username <> "@" <> name

-- `buildConnectionString`
unfoldable pub build_connection_string :
    (datastore_type name host username password : String) (port : ℤ)
    (ssl_mode instance_name : String)
    → String
build_connection_string datastore_type name host username password port ssl_mode instance_name =
    source_of (dialect datastore_type) name host username password port ssl_mode instance_name

module _ (w : World) where
  -- `testConnection`
  unfoldable pub test_connection : (datastore_type source : String) → Io Error (Unit {0})
  test_connection datastore_type source = do
    name ←
        on_none (driver (dialect datastore_type))
          (raise (errorf ("unsupported datastore type: " <> datastore_type)))
    db ← wrap "failed to open database connection" (open_pool w name source)
    defer_close db (wrap "failed to ping database" (ping w db))
