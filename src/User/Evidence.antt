-- ===== src/User/Evidence.antt =====
-- What a status `ready` of a user, and the removal of its finalizer, stand on.
pub mod Lasting
pub mod Created
pub mod Deleted
pub mod Justified
use dbchan.Base.{◌≡◌, ◌⊎◌, true, Option, none, some}
use dbchan.Base.Text.{String}
use dbchan.Base.Prog.{ok, err}
use dbchan.Api.{LocalObjectReference, User, UserSpec, Database}
use dbchan.Connection.{Dialect, mysql, postgres, sqlserver, unsupported}
use dbchan.Cluster.{Kind, Event, Trace, World, got, updated, status_updated}
use dbchan.Cluster.History.{Once}
use dbchan.Cluster.Statements.{Ran, AllRan}
use dbchan.Controller.{is_set}
use dbchan.User.Statements.{
  mysql_create, postgres_create, postgres_alter, sqlserver_create, sqlserver_alter, mysql_drop,
  postgres_drop, sqlserver_drop, mysql_grant, postgres_grant, sqlserver_grant,
}

-- The statements that give the account of a user a password, in each dialect.
pub data SetsPassword (s : UserSpec) (password : String) : Dialect → String → Type 0 where
  mysql_new : SetsPassword s password mysql (mysql_create s password)
  postgres_new : SetsPassword s password postgres (postgres_create s password)
  postgres_again : SetsPassword s password postgres (postgres_alter s password)
  sqlserver_new : SetsPassword s password sqlserver (sqlserver_create s password)
  sqlserver_again : SetsPassword s password sqlserver (sqlserver_alter s password)

-- The statements that drop the account of a user.
pub data DropsAccount (s : UserSpec) : String → Type 0 where
  in_mysql : DropsAccount s (mysql_drop s)
  in_postgres : DropsAccount s (postgres_drop s)
  in_sqlserver : DropsAccount s (sqlserver_drop s)

-- The account was given the password of the user, decoded.
pub record HasPassword (w : World) (u : User) (kind : Dialect) (t : Trace) : Type 0 where
  pub password : String
  pub decoded : w.decode_base64 u.spec.password ≡ ok password
  pub statement : String
  pub sets : SetsPassword u.spec password kind statement
  pub ran : Once (λ e _. Ran statement e) t

-- The statement that gives the account a privilege.
abbrev pub grant_statement : Dialect → Option Database → UserSpec → (privilege : String) → String
grant_statement mysql d s privilege = mysql_grant d s privilege
grant_statement postgres d s privilege = postgres_grant d s privilege
grant_statement sqlserver d s privilege = sqlserver_grant s privilege
grant_statement unsupported d s privilege = ""

-- A grant of each privilege ran; on SQL Server there is none for a user with no database.
abbrev pub HasPrivileges : Dialect → Option Database → UserSpec → Trace → Type 0
HasPrivileges mysql d s t = AllRan (grant_statement mysql d s) s.privileges t
HasPrivileges postgres d s t = AllRan (grant_statement postgres d s) s.privileges t
HasPrivileges sqlserver none s t = Unit
HasPrivileges sqlserver (some d) s t = AllRan (grant_statement sqlserver (some d) s) s.privileges t
HasPrivileges unsupported d s t = ⊥

-- There is a database exactly if the user names one.
abbrev pub IsNamed : Option LocalObjectReference → Option Database → Type 0
IsNamed none none = Unit
IsNamed (some ref) (some d) = Unit
IsNamed _ _ = ⊥

-- The account has its password and, in the same dialect, its privileges.
pub record IsCreated (w : World) (u : User) (t : Trace) : Type 0 where
  pub kind : Dialect
  pub protected : HasPassword w u kind t
  pub database : Option Database
  pub named : IsNamed u.spec.database_ref database
  pub privileged : HasPrivileges kind database u.spec t

-- The API server says that the datastore of the user does not exist.
abbrev pub SaysGone : User → Event → Type 0
SaysGone u (got Kind.datastore key (err e)) =
    (key.namespace ≡ u.namespace) × (key.name ≡ u.spec.datastore_ref.name) × (e.not_found ≡ true)
SaysGone u _ = ⊥

abbrev pub IsDeleted : User → Trace → Type 0
IsDeleted u t =
    Once (λ e _. SaysGone u e) t
    ⊎ ((statement : String) × DropsAccount u.spec statement × Once (λ e _. Ran statement e) t)

-- What each write to the API server claims.
abbrev pub Claim : World → Event → Trace → Type 0
Claim w (status_updated Kind.user u r) t = u.status.ready ≡ true → IsCreated w u t
Claim w (updated Kind.user u r) t = is_set u.deletion_timestamp ≡ true → IsDeleted u t
Claim w _ t = Unit
