-- ===== src/User/Statements.antt =====
-- The statements that create, change and delete an account, for each dialect.
pub mod Quoted
use dbchan.Base.{Option, none, some, [], ltb, length}
use dbchan.Base.Text.{String, ◌<>◌}
use dbchan.Base.Prog.{Error, pure, ◌>>◌, catch, wrap, when, for_each, ignore}
use dbchan.Api.{User, UserSpec, Database}
use dbchan.Cluster.{Conn, World}
use dbchan.Cluster.Calls.{Io, exec}

-- 'username'@'host'
abbrev pub mysql_account : UserSpec → String
mysql_account s = "'" <> s.username <> "'@'" <> s.host <> "'"

abbrev pub mysql_create : UserSpec → String → String
mysql_create s password =
    "CREATE USER IF NOT EXISTS " <> mysql_account s <> " IDENTIFIED BY '" <> password <> "'"

abbrev pub mysql_grant : Option Database → UserSpec → String → String
mysql_grant (some d) s privilege =
    "GRANT " <> privilege <> " ON `" <> d.name <> "`.* TO " <> mysql_account s
mysql_grant none s privilege = "GRANT " <> privilege <> " ON *.* TO " <> mysql_account s

abbrev pub postgres_create : UserSpec → String → String
postgres_create s password = "CREATE USER " <> s.username <> " WITH PASSWORD '" <> password <> "'"

abbrev pub postgres_alter : UserSpec → String → String
postgres_alter s password = "ALTER USER " <> s.username <> " WITH PASSWORD '" <> password <> "'"

abbrev pub postgres_grant : Option Database → UserSpec → String → String
postgres_grant (some d) s privilege =
    "GRANT " <> privilege <> " ON DATABASE \"" <> d.name <> "\" TO " <> s.username
postgres_grant none s privilege = "GRANT " <> privilege <> " TO " <> s.username

abbrev pub sqlserver_create : UserSpec → String → String
sqlserver_create s password =
    "CREATE LOGIN [" <> s.username <> "] WITH PASSWORD = '" <> password <> "'"

abbrev pub sqlserver_alter : UserSpec → String → String
sqlserver_alter s password =
    "ALTER LOGIN [" <> s.username <> "] WITH PASSWORD = '" <> password <> "'"

abbrev pub sqlserver_grant : UserSpec → String → String
sqlserver_grant s privilege = "GRANT " <> privilege <> " TO [" <> s.username <> "]"

abbrev pub mysql_drop : UserSpec → String
mysql_drop s = "DROP USER IF EXISTS " <> mysql_account s

abbrev pub postgres_drop : UserSpec → String
postgres_drop s = "DROP USER IF EXISTS " <> s.username

abbrev pub sqlserver_drop : UserSpec → String
sqlserver_drop s = "DROP LOGIN [" <> s.username <> "]"

module _ (w : World) (db : Conn) where
  -- `if _, err := db.ExecContext(ctx, query); err != nil { return fmt.Errorf("context: %v", err) }`
  abbrev pub run : (context query : String) → Io Error (Unit {0})
  run context query = wrap context (exec w db query [])

  -- The loops over the privileges.
  unfoldable pub grant_each : (String → String) → User → Io Error (Unit {0})
  grant_each statement u =
      for_each u.spec.privileges λ p. run ("failed to grant privilege " <> p) (statement p)

  -- The body of the loop over the roles.
  unfoldable pub grant_mysql_role : User → String → Io Error (Unit {0})
  grant_mysql_role u role = do
    run ("failed to create role " <> role) ("CREATE ROLE IF NOT EXISTS '" <> role <> "'")
    run ("failed to grant role " <> role) ("GRANT '" <> role <> "' TO " <> mysql_account u.spec)
    ignore (exec w db ("SET DEFAULT ROLE '" <> role <> "' FOR " <> mysql_account u.spec) [])

  -- `createOrUpdateMySQLUser`
  unfoldable pub create_or_update_mysql_user :
      User → (password : String) → Option Database → Io Error (Unit {0})
  create_or_update_mysql_user u password database = do
    run "failed to create user" (mysql_create u.spec password)
    when (ltb 0 (length u.spec.privileges)) (grant_each (mysql_grant database u.spec) u)
    when (ltb 0 (length u.spec.roles)) (for_each u.spec.roles (λ role. grant_mysql_role u role))
    run "failed to flush privileges" "FLUSH PRIVILEGES"

  -- `createOrUpdatePostgreSQLUser`
  unfoldable pub create_or_update_postgre_sql_user :
      User → (password : String) → Option Database → Io Error (Unit {0})
  create_or_update_postgre_sql_user u password database = do
    catch (exec w db (postgres_create u.spec password) [])
        (λ e. run "failed to create/update user" (postgres_alter u.spec password))
    grant_each (postgres_grant database u.spec) u
    for_each u.spec.roles λ role.
        run ("failed to grant role " <> role) ("GRANT " <> role <> " TO " <> u.spec.username)

  -- What `createOrUpdateSQLServerUser` does in a database.
  unfoldable pub create_in_database : User → Option Database → Io Error (Unit {0})
  create_in_database u none = pure tt
  create_in_database u (some d) = do
    ignore (
        exec w db ("CREATE USER [" <> u.spec.username <> "] FOR LOGIN [" <> u.spec.username <> "]")
          [])
    grant_each (sqlserver_grant u.spec) u

  -- `createOrUpdateSQLServerUser`
  unfoldable pub create_or_update_sql_server_user :
      User → (password : String) → Option Database → Io Error (Unit {0})
  create_or_update_sql_server_user u password database = do
    catch (exec w db (sqlserver_create u.spec password) [])
        (λ e. run "failed to create/update login" (sqlserver_alter u.spec password))
    create_in_database u database

  -- `deleteMySQLUser`
  unfoldable pub delete_mysql_user : User → Io Error (Unit {0})
  delete_mysql_user u = do
    run "failed to delete user" (mysql_drop u.spec)
    run "failed to flush privileges" "FLUSH PRIVILEGES"

  -- `deletePostgreSQLUser`
  unfoldable pub delete_postgre_sql_user : User → Io Error (Unit {0})
  delete_postgre_sql_user u = run "failed to delete user" (postgres_drop u.spec)

  -- `deleteSQLServerUser`
  unfoldable pub delete_sql_server_user : User → Io Error (Unit {0})
  delete_sql_server_user u = do
    ignore (exec w db ("DROP USER IF EXISTS [" <> u.spec.username <> "]") [])
    run "failed to delete login" (sqlserver_drop u.spec)
