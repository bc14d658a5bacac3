-- ===== src/Webhook/Role.antt =====
-- internal/webhook/database_role_webhook.go
pub mod Laws
use dbchan.Base.{
  ℕ, Bool, true, false, ◌||◌, ◌&&◌, not, Option, none, some, List, [], ◌∷◌, ◌++◌, any, length, ltb,
  leb, if◌then◌else◌, ◌-◌,
}
use dbchan.Base
use dbchan.Base.Int.{show_nat}
use dbchan.Base.Text.{String, ◌<>◌, ◌==◌, codes, len, same_codes}
use dbchan.Base.Prog.{Error, errorf, err, ok, raise, pure, catch, wrap, ◌>>=◌}
use dbchan.Api.{ObjectKey, LocalObjectReference, DatabaseRole, User}
use dbchan.Cluster.{Kind, World}
use dbchan.Cluster.Calls.{Io, get, list_in}
use dbchan.Webhook.Checks.{Check, ◌also◌, refuse_if, RuntimeObject, as_role, wrong_type}
use dbchan.Webhook.Names.{role_regex, fits, is_one_of, starts_with_hyphen, ends_with_hyphen}

-- `field.Error`: a `field.Required`, or a `field.Invalid`, with the path and the detail.
pub record FieldError : Type 0 where
  pub path : List String
  pub is_required : Bool
  pub detail : String

abbrev pub required : List String → String → List FieldError
required path detail = record { path = path; is_required = true; detail = detail } ∷ []

abbrev pub invalid : List String → String → List FieldError
invalid path detail = record { path = path; is_required = false; detail = detail } ∷ []

-- What a validator returns: `nil`, the list behind `validation failed: %v`, or another error.
pub data Verdict : Type 0 where
  admitted : Verdict
  refused : List FieldError → Verdict
  broken : Error → Verdict

abbrev pub verdict : List FieldError → Verdict
verdict [] = admitted
verdict (e ∷ es) = refused (e ∷ es)

abbrev pub reserved_names : List String
reserved_names =
    "root" ∷ "admin" ∷ "administrator" ∷ "system" ∷ "mysql" ∷ "postgres" ∷ "information_schema"
    ∷ "performance_schema" ∷ "mysql" ∷ "sys" ∷ "public" ∷ "guest" ∷ "sa" ∷ "dbo" ∷ "db_owner"
    ∷ "db_accessadmin" ∷ "db_securityadmin" ∷ "db_ddladmin" ∷ "db_backupoperator" ∷ "db_datarader"
    ∷ "db_datawriter" ∷ "db_denydatareader" ∷ "db_denydatawriter" ∷ []

-- `validateRoleName`
unfoldable pub validate_role_name : String → Check
validate_role_name name =
    refuse_if (name == "") "role name cannot be empty"
    also refuse_if (ltb (len name) 1 || ltb 32 (len name))
        "role name must be between 1 and 32 characters"
    also refuse_if (not (fits role_regex name))
        "role name can only contain alphanumeric characters, underscores, and hyphens"
    also refuse_if (is_one_of name reserved_names)
        ("role name '" <> name <> "' is reserved and cannot be used")
    also refuse_if (starts_with_hyphen (codes name) || ends_with_hyphen (codes name))
        "role name cannot start or end with a hyphen"

abbrev pub valid_privileges : List String
valid_privileges =
    "SELECT" ∷ "INSERT" ∷ "UPDATE" ∷ "DELETE" ∷ "CREATE" ∷ "DROP" ∷ "ALTER" ∷ "INDEX" ∷ "REFERENCES"
    ∷ "TRIGGER" ∷ "EXECUTE" ∷ "ALL" ∷ "ALL PRIVILEGES" ∷ "RELOAD" ∷ "SHUTDOWN" ∷ "PROCESS" ∷ "FILE"
    ∷ "GRANT OPTION" ∷ "REPLICATION CLIENT" ∷ "REPLICATION SLAVE" ∷ "SHOW DATABASES" ∷ "SUPER"
    ∷ "CREATE TEMPORARY TABLES" ∷ "LOCK TABLES" ∷ "CREATE VIEW" ∷ "SHOW VIEW" ∷ "CREATE ROUTINE"
    ∷ "ALTER ROUTINE" ∷ "CREATE USER" ∷ "EVENT" ∷ "CONNECT" ∷ "TEMPORARY" ∷ "TEMP" ∷ "RULE"
    ∷ "ON TABLESPACE" ∷ "ON SEQUENCE" ∷ "ON FUNCTION" ∷ "ON TYPE" ∷ "ON SCHEMA" ∷ "ON LANGUAGE"
    ∷ "ON DOMAIN" ∷ "ON FOREIGN DATA WRAPPER" ∷ "ON FOREIGN SERVER" ∷ "ON LARGE OBJECT" ∷ "CONTROL"
    ∷ "TAKE OWNERSHIP" ∷ "IMPERSONATE" ∷ "VIEW CHANGE TRACKING" ∷ "ADMINISTER BULK OPERATIONS"
    ∷ "ALTER ANY" ∷ "CONTROL SERVER" ∷ "CREATE ANY" ∷ "VIEW ANY" ∷ "ALTER ANY LOGIN"
    ∷ "ALTER ANY SERVER ROLE" ∷ "ALTER ANY DATABASE" ∷ "ALTER ANY USER" ∷ "ALTER ANY ROLE"
    ∷ "ALTER ANY SCHEMA" ∷ "ALTER ANY ASSEMBLY" ∷ "ALTER ANY ASYMMETRIC KEY"
    ∷ "ALTER ANY CERTIFICATE" ∷ "ALTER ANY CONTRACT" ∷ "ALTER ANY CREDENTIAL"
    ∷ "ALTER ANY DATABASE SCOPED CREDENTIAL" ∷ "ALTER ANY ENDPOINT"
    ∷ "ALTER ANY EXTERNAL DATA SOURCE" ∷ "ALTER ANY EXTERNAL FILE FORMAT"
    ∷ "ALTER ANY EXTERNAL LIBRARY" ∷ "ALTER ANY FULLTEXT CATALOG" ∷ "ALTER ANY MASK"
    ∷ "ALTER ANY MESSAGE TYPE" ∷ "ALTER ANY REMOTE SERVICE BINDING" ∷ "ALTER ANY ROUTE"
    ∷ "ALTER ANY SECURITY POLICY" ∷ "ALTER ANY SERVICE" ∷ "ALTER ANY SYMMETRIC KEY"
    ∷ "ALTER ANY WORKLOAD GROUP" ∷ "AUTHENTICATE" ∷ "BACKUP DATABASE" ∷ "BACKUP LOG" ∷ "CHECKPOINT"
    ∷ "CONNECT ANY DATABASE" ∷ "CONNECT REPLICATION" ∷ "CONNECT SQL" ∷ "CONTROL ANY DATABASE"
    ∷ "CREATE ANY DATABASE" ∷ "CREATE DDL EVENT NOTIFICATION" ∷ "CREATE ENDPOINT"
    ∷ "CREATE TRACE EVENT NOTIFICATION" ∷ "EXTERNAL ACCESS ASSEMBLY" ∷ "IMPERSONATE ANY LOGIN"
    ∷ "SELECT ALL USER SECURABLES" ∷ "UNSAFE ASSEMBLY" ∷ "VIEW ANY COLUMN ENCRYPTION KEY DEFINITION"
    ∷ "VIEW ANY COLUMN MASTER KEY DEFINITION" ∷ "VIEW ANY DEFINITION"
    ∷ "VIEW ANY PERFORMANCE DEFINITION" ∷ "VIEW ANY SECURITY DEFINITION" ∷ "VIEW ANY STATE" ∷ []

-- `strings.ToUpper`, as far as it decides equality with an ASCII text: besides the lower case letters
-- two runes outside ASCII have an ASCII letter for upper case, U+0131 (I) and U+017F (S).
unfoldable pub to_upper : ℕ → ℕ
to_upper c =
    if leb b'a' c && leb c b'z'
    then c - 32
    else if Base.◌==◌ c 0x131
    then b'I'
    else if Base.◌==◌ c 0x17f
    then b'S'
    else c

unfoldable pub upper_all : List ℕ → List ℕ
unfolding to_upper
upper_all [] = []
upper_all (c ∷ s) = to_upper c ∷ upper_all s

-- `validPrivileges[strings.ToUpper(privilege)]`
unfoldable pub is_privilege : String → List String → Bool
unfolding upper_all same_codes
is_privilege s [] = false
is_privilege s (t ∷ ts) = same_codes (upper_all (codes s)) (codes t) || is_privilege s ts

-- `validatePrivileges`
unfoldable pub validate_privileges : List String → Check
validate_privileges [] = ok tt
validate_privileges (p ∷ ps) =
    refuse_if (not (is_privilege p valid_privileges)) (
      "invalid privilege '" <> p
      <> "'. Valid privileges include: SELECT, INSERT, UPDATE, DELETE, CREATE, DROP, ALTER, INDEX, REFERENCES, TRIGGER, EXECUTE, ALL, USAGE, CONNECT, CONTROL, etc.")
    also validate_privileges ps

abbrev pub as_field_error : List String → Check → List FieldError
as_field_error path (ok _) = []
as_field_error path (err e) = invalid path e.text

-- The three steps that ask nobody.
unfoldable pub local_errors : DatabaseRole → List FieldError
local_errors r =
    (if r.spec.datastore_ref.name == ""
      then required ("spec" ∷ "datastoreRef" ∷ "name" ∷ []) "datastoreRef.name is required"
      else [])
    ++ (as_field_error ("metadata" ∷ "name" ∷ []) (validate_role_name r.name)
        ++ as_field_error ("spec" ∷ "privileges" ∷ []) (validate_privileges r.spec.privileges))

-- The users of a list that have the role.
unfoldable pub users_of : String → List User → List String
users_of name [] = []
users_of name (u ∷ us) =
    let rest = users_of name us in if any (λ r. r == name) u.spec.roles then u.name ∷ rest else rest

module _ (w : World) where
  -- `validateDatastoreExists`
  unfoldable pub validate_datastore_exists : DatabaseRole → Io Error (Unit {0})
  validate_datastore_exists r =
      let key : ObjectKey = record { namespace = r.namespace; name = r.spec.datastore_ref.name } in
      catch (get w Kind.datastore key >>= λ _. pure tt) λ e.
        raise (errorf ("datastore '" <> r.spec.datastore_ref.name <> "' not found: " <> e.text))

  -- `validateDatabaseExists`
  unfoldable pub validate_database_exists : DatabaseRole → String → Io Error (Unit {0})
  validate_database_exists r name =
      let key : ObjectKey = record { namespace = r.namespace; name = name } in
      catch (get w Kind.database key >>= λ _. pure tt)
        λ e. raise (errorf ("database '" <> name <> "' not found: " <> e.text))

  -- `if err := check; err != nil { allErrs = append(allErrs, field.Invalid(path, …)) }`
  unfoldable pub collect : List String → Io Error (Unit {0}) → Io Error (List FieldError)
  collect path check = catch (check >>= λ _. pure []) (λ e. pure (invalid path e.text))

  unfoldable pub database_errors :
      DatabaseRole → Option LocalObjectReference → Io Error (List FieldError)
  database_errors r none = pure []
  database_errors r (some ref) =
      if ref.name == ""
      then pure []
      else collect ("spec" ∷ "databaseRef" ∷ "name" ∷ []) (validate_database_exists r ref.name)

  -- The five steps that `ValidateCreate` and `ValidateUpdate` share.
  unfoldable pub all_errors : DatabaseRole → Io Error (List FieldError)
  all_errors r = do
    datastore_errs ← collect ("spec" ∷ "datastoreRef" ∷ "name" ∷ []) (validate_datastore_exists r)
    database_errs ← database_errors r r.spec.database_ref
    pure (local_errors r ++ (datastore_errs ++ database_errs))

  -- `ValidateCreate`
  unfoldable pub validate_create : RuntimeObject → Io Error Verdict
  validate_create o = elim (as_role o) [
    | none ↦ pure (broken (wrong_type "Role" o))
    | some r ↦ (do errs ← all_errors r; pure (verdict errs))
  ]

  -- The update of one role by another.
  unfoldable pub validate_change : (old new : DatabaseRole) → Io Error Verdict
  validate_change old new = do
    errs ← all_errors new
    let moved =
        if old.spec.datastore_ref.name == new.spec.datastore_ref.name
        then []
        else invalid ("spec" ∷ "datastoreRef" ∷ "name" ∷ []) "datastoreRef.name cannot be changed"
    pure (verdict (errs ++ moved))

  -- `ValidateUpdate`
  unfoldable pub validate_update : (old new : RuntimeObject) → Io Error Verdict
  validate_update old new = elim (as_role old) [
    | none ↦ pure (broken (wrong_type "Role" old))
    | some old_role ↦ elim (as_role new) [
      | none ↦ pure (broken (wrong_type "Role" new))
      | some new_role ↦ validate_change old_role new_role
    ]
  ]

  -- `findUsersUsingRole`
  unfoldable pub find_users_using_role : DatabaseRole → Io Error (List String)
  find_users_using_role r = do users ← list_in w Kind.user r.namespace; pure (users_of r.name users)

  -- `ValidateDelete` of a role.
  unfoldable pub validate_removal : DatabaseRole → Io Error (Unit {0})
  validate_removal r = do
    users ← wrap "failed to check users using role" (find_users_using_role r)
    if ltb 0 (length users)
        then raise (
            errorf (
              "cannot delete role "
              <> r.name
              <> ": "
              <> show_nat (length users)
              <> " users are still using this role"))
        else pure tt

  -- `ValidateDelete`
  unfoldable pub validate_delete : RuntimeObject → Io Error (Unit {0})
  validate_delete o = elim (as_role o) [
    | none ↦ raise (wrong_type "Role" o)
    | some r ↦ validate_removal r
  ]
