-- ===== src/Connection.antt =====
-- What the reconcilers share: the kind of database behind a datastore type, the connection string
-- built from a secret, and the life of a connection. The three copies of these functions in
-- internal/controller/{user,database,migration}_controller.go have the same text.
pub mod Discipline
pub mod Rules
pub mod Calm
use dbchan.Base.{Bool, true, false, not, ◌||◌, Option, none, some, List, [], ◌∷◌, if◌then◌else◌}
use dbchan.Base.Text.{String, ◌<>◌, ◌==◌}
use dbchan.Base.Prog.{wrap, Error, errorf, on_none, pure, raise, ◌>>=◌, ◌>>◌, catch}
use dbchan.Api.{ObjectKey, SecretData, lookup, Secret, Datastore}
use dbchan.Cluster.{Kind, Conn, Trace, World, closed}
use dbchan.Cluster.Calls.{Io, get, open_pool, ping, close}

-- The cases of the `switch` statements on the datastore type.
pub data Dialect : Type 0 where
  mysql postgres sqlserver unsupported : Dialect

unfoldable pub dialect : String → Dialect
dialect t =
    if t == "mysql" || t == "mariadb"
    then mysql
    else if t == "postgres" || t == "postgresql"
    then postgres
    else if t == "sqlserver" || t == "mssql"
    then sqlserver
    else unsupported

abbrev pub driver : Dialect → Option String
driver mysql = some "mysql"
driver postgres = some "postgres"
driver sqlserver = some "sqlserver"
driver unsupported = none

-- `string(data[key])`, and the same with a default.
abbrev pub value_or : String → Option String → String
value_or default none = default
value_or default (some v) = v

-- A port left at MySQL's default is replaced by the dialect's own.
abbrev pub own_port : String → String → String
own_port default port = if port == "3306" then default else port

abbrev pub secret_source :
    Dialect → (username password host port name : String) → SecretData → String
secret_source mysql username password host port name secret_data =
    username <> ":" <> password <> "@tcp(" <> host <> ":" <> port <> ")/" <> name
    <> "?parseTime=true"
secret_source postgres username password host port name secret_data =
    "postgres://"
    <> username
    <> ":"
    <> password
    <> "@"
    <> host
    <> ":"
    <> own_port "5432" port
    <> "/"
    <> name
    <> "?sslmode="
    <> value_or "disable" (lookup "sslmode" secret_data)
secret_source sqlserver username password host port name secret_data =
    "sqlserver://"
    <> username
    <> ":"
    <> password
    <> "@"
    <> host
    <> ":"
    <> own_port "1433" port
    <> value_or "" (lookup "instance" secret_data)
    <> "?database="
    <> name
secret_source unsupported username password host port name secret_data = username <> "@" <> name

-- `buildDatastoreConnectionString`
unfoldable pub build_datastore_connection_string : String → String → SecretData → String
build_datastore_connection_string datastore_type datastore_name secret_data =
    secret_source (dialect datastore_type) (value_or "" (lookup "username" secret_data))
      (value_or "" (lookup "password" secret_data)) (value_or "" (lookup "host" secret_data))
      (value_or "3306" (lookup "port" secret_data)) datastore_name secret_data

-- `defer db.Close()`: the connection is closed when `m` returns, whatever it returns.
unfoldable pub defer_close : {E A : Type 0} → Conn → Io E A → Io E A
defer_close c m t = let (r, t') = m t in (r, closed c ∷ t')

module _ (w : World) where
  -- `getDatastoreSecret`
  unfoldable pub get_datastore_secret : Datastore → Io Error SecretData
  get_datastore_secret datastore = do
    let key : ObjectKey = record {
      namespace = datastore.namespace;
      name = datastore.spec.secret_ref.name;
    }
    s ← get w Kind.secret key
    pure s.entries

  unfoldable pub open_and_ping : (driver source : String) → Io Error Conn
  open_and_ping driver source = do
    db ← open_pool w driver source
    catch (ping w db) (λ e. do close db; raise e)
    pure db

  -- `connectToDatabase` of a reconciler. The time limit is the world's: a `ping` may fail.
  unfoldable pub connect_to_database : (datastore_type source : String) → Io Error Conn
  connect_to_database datastore_type source = do
    name ←
        on_none (driver (dialect datastore_type))
          (raise (errorf ("unsupported datastore type: " <> datastore_type)))
    open_and_ping name source

  -- From the secret of a datastore to an open connection, as `createOrUpdate…` and `cleanup…` of the
  -- user and database controllers begin.
  unfoldable pub connect_to_datastore : Datastore → Io Error Conn
  connect_to_datastore datastore = do
    secret ← wrap "failed to get datastore secret" (get_datastore_secret datastore)
    let source =
        build_datastore_connection_string datastore.spec.datastore_type datastore.name secret
    wrap "failed to connect to database" (connect_to_database datastore.spec.datastore_type source)
