-- ===== src/Role/Statements.antt =====
-- The statements that create, grant to and drop a role, for each dialect.
use dbchan.Base.{
  ℕ, Bool, true, false, ◌&&◌, ◌||◌, Option, none, some, List, [], ◌∷◌, ltb, length, if◌then◌else◌,
}
use dbchan.Base
use dbchan.Base.Text.{String, ◌<>◌, codes}
use dbchan.Base.Prog.{Error, errorf, raise, pure, ◌>>◌, catch, wrap, for_each, ignore}
use dbchan.Api.{Database, DatabaseRole}
use dbchan.Cluster.{Conn, World}
use dbchan.Cluster.Calls.{Io, exec}

-- `strings.Contains`, on the code points.
unfoldable pub starts_with : List ℕ → List ℕ → Bool
starts_with [] s = true
starts_with (c ∷ p) [] = false
starts_with (c ∷ p) (d ∷ s) = Base.◌==◌ c d && starts_with p s

unfoldable pub occurs_in : List ℕ → List ℕ → Bool
unfolding starts_with
occurs_in p [] = starts_with p []
occurs_in p (c ∷ s) = starts_with p (c ∷ s) || occurs_in p s

abbrev pub contains : String → String → Bool
contains s p = occurs_in (codes p) (codes s)

abbrev pub mysql_create : String → String
mysql_create name = "CREATE ROLE IF NOT EXISTS '" <> name <> "'"

abbrev pub mysql_grant : Option Database → (name privilege : String) → String
mysql_grant (some d) name privilege =
    "GRANT " <> privilege <> " ON `" <> d.name <> "`.* TO '" <> name <> "'"
mysql_grant none name privilege = "GRANT " <> privilege <> " ON *.* TO '" <> name <> "'"

abbrev pub postgres_create : String → String
postgres_create name = "CREATE ROLE " <> name

abbrev pub postgres_grant : Option Database → (name privilege : String) → String
postgres_grant (some d) name privilege =
    "GRANT " <> privilege <> " ON DATABASE \"" <> d.name <> "\" TO " <> name
postgres_grant none name privilege = "GRANT " <> privilege <> " ON ALL DATABASES TO " <> name

abbrev pub sqlserver_create : String → String
sqlserver_create name = "CREATE ROLE [" <> name <> "]"

-- The two branches of the source have the same text.
abbrev pub sqlserver_grant : (name privilege : String) → String
sqlserver_grant name privilege = "GRANT " <> privilege <> " TO [" <> name <> "]"

abbrev pub mysql_drop : String → String
mysql_drop name = "DROP ROLE IF EXISTS '" <> name <> "'"

abbrev pub postgres_drop : String → String
postgres_drop name = "DROP ROLE IF EXISTS " <> name

abbrev pub sqlserver_drop : String → String
sqlserver_drop name = "DROP ROLE [" <> name <> "]"

module _ (w : World) (db : Conn) where
  -- The loops over the privileges.
  unfoldable pub grant_each : (String → String) → List String → Io Error (Unit {0})
  grant_each statement privileges =
      for_each privileges λ p. wrap ("failed to grant privilege " <> p) (exec w db (statement p) [])

  -- `CREATE ROLE`, where a role that is there already is no error.
  unfoldable pub create_unless_exists : String → Io Error (Unit {0})
  create_unless_exists query = catch (exec w db query []) λ e.
      if contains e.text "already exists"
      then pure tt
      else raise (errorf ("failed to create role: " <> e.text))

  -- `createOrUpdateMySQLRole`
  unfoldable pub create_or_update_mysql_role : DatabaseRole → Option Database → Io Error (Unit {0})
  create_or_update_mysql_role r database = do
    wrap "failed to create role" (exec w db (mysql_create r.name) [])
    grant_each (mysql_grant database r.name) r.spec.privileges
    wrap "failed to flush privileges" (exec w db "FLUSH PRIVILEGES" [])

  -- `createOrUpdatePostgreSQLRole`
  unfoldable pub create_or_update_postgre_sql_role :
      DatabaseRole → Option Database → Io Error (Unit {0})
  create_or_update_postgre_sql_role r database = do
    create_unless_exists (postgres_create r.name)
    grant_each (postgres_grant database r.name) r.spec.privileges

  -- `createOrUpdateSQLServerRole`
  unfoldable pub create_or_update_sql_server_role : DatabaseRole → Io Error (Unit {0})
  create_or_update_sql_server_role r = do
    create_unless_exists (sqlserver_create r.name)
    grant_each (sqlserver_grant r.name) r.spec.privileges

  -- The branch of `deleteRole` for MySQL.
  unfoldable pub drop_mysql_role : DatabaseRole → Io Error (Unit {0})
  drop_mysql_role r = do
    wrap "failed to drop role" (exec w db (mysql_drop r.name) [])
    ignore (exec w db "FLUSH PRIVILEGES" [])
