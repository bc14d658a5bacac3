-- ===== src/Role/Evidence.antt =====
-- What a status `ready` of a role stands on.
pub mod Created
pub mod Justified
use dbchan.Base.{◌≡◌, ◌⊎◌, true, Option, List, [], ◌∷◌}
use dbchan.Base.Text.{String}
use dbchan.Base.Prog.{err}
use dbchan.Api.{Database, DatabaseRoleSpec}
use dbchan.Cluster.{Kind, Event, Trace, executed, status_updated}
use dbchan.Cluster.History.{Once}
use dbchan.Cluster.Statements.{Ran}
use dbchan.Connection.{Dialect, mysql, postgres, sqlserver, unsupported}
use dbchan.Role.Statements.{
  contains, mysql_create, mysql_grant, postgres_create, postgres_grant, sqlserver_create,
  sqlserver_grant,
}

-- The statement that creates a role in a dialect, where there is one.
pub data CreatesRole (name : String) : Dialect → String → Type 0 where
  in_mysql : CreatesRole name mysql (mysql_create name)
  in_postgres : CreatesRole name postgres (postgres_create name)
  in_sqlserver : CreatesRole name sqlserver (sqlserver_create name)

abbrev pub grant_statement : Dialect → Option Database → (name privilege : String) → String
grant_statement mysql d name privilege = mysql_grant d name privilege
grant_statement postgres d name privilege = postgres_grant d name privilege
grant_statement sqlserver d name privilege = sqlserver_grant name privilege
grant_statement unsupported d name privilege = ""

-- The statement failed because the role is there.
abbrev pub SaysThere : String → Event → Type 0
SaysThere sql (executed c q args (err e)) = (q ≡ sql) × (contains e.text "already exists" ≡ true)
SaysThere sql _ = ⊥

abbrev pub IsThere : String → Trace → Type 0
IsThere sql = Once λ e _. Ran sql e ⊎ SaysThere sql e

-- A grant of each privilege ran.
abbrev pub Granted : (String → String) → List String → Trace → Type 0
Granted statement [] t = Unit
Granted statement (p ∷ ps) t = Once (λ e _. Ran (statement p) e) t × Granted statement ps t

-- The role was created, or was there, and then has its privileges, all in one supported dialect.
pub record IsCreated (name : String) (s : DatabaseRoleSpec) (t : Trace) : Type 0 where
  pub kind : Dialect
  pub statement : String
  pub creates : CreatesRole name kind statement
  pub there : IsThere statement t
  pub database : Option Database
  pub granted : Granted (grant_statement kind database name) s.privileges t

-- What each write to the API server claims.
abbrev pub Claim : Event → Trace → Type 0
Claim (status_updated Kind.role r _) t = r.status.ready ≡ true → IsCreated r.name r.spec t
Claim _ t = Unit
