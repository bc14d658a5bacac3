-- ===== src/Webhook/User.antt =====
-- internal/webhook/user_webhook.go
pub mod Admissible
pub mod Laws
pub mod Accounts
use dbchan.Base.{Bool, ◌||◌, not, none, some, List, [], ◌∷◌, ltb, if◌then◌else◌}
use dbchan.Base.Text.{String, ◌<>◌, ◌==◌, codes, len}
use dbchan.Base.Prog.{err, ok}
use dbchan.Api.{User}
use dbchan.Webhook.Checks.{
  Check, ◌also◌, refuse_if, join, missing_if, require_all, RuntimeObject, as_user, wrong_type,
}
use dbchan.Webhook.Names.{
  username_regex, base64_regex, ip_regex, host_regex, wildcard_regex, fits, is_one_of,
  starts_with_digit,
}

-- `validateRequiredFields`
unfoldable pub validate_required_fields : User → Check
validate_required_fields u = require_all (
    missing_if (u.spec.username == "") "username" (
      missing_if (u.spec.password == "") "password"
        (missing_if (u.spec.datastore_ref.name == "") "datastoreRef.name" [])))

abbrev pub reserved_usernames : List String
reserved_usernames =
    "root" ∷ "admin" ∷ "mysql" ∷ "postgres" ∷ "sa" ∷ "guest" ∷ "test" ∷ "user" ∷ "system" ∷ []

-- `validateNamingConventions`
unfoldable pub validate_naming_conventions : User → Check
validate_naming_conventions u =
    refuse_if (ltb (len u.spec.username) 1 || ltb 32 (len u.spec.username))
      "username must be between 1 and 32 characters"
    also refuse_if (not (fits username_regex u.spec.username))
        "username must contain only alphanumeric characters, underscores, hyphens, and dots"
    also refuse_if (is_one_of u.spec.username reserved_usernames)
        ("username '" <> u.spec.username <> "' is reserved and cannot be used")
    also refuse_if (starts_with_digit (codes u.spec.username)) "username cannot start with a number"

-- `validatePasswordFormat`
unfoldable pub validate_password_format : User → Check
validate_password_format u =
    refuse_if (u.spec.password == "") "password cannot be empty"
    also refuse_if (not (fits base64_regex u.spec.password)) "password must be base64 encoded"
    also refuse_if (ltb (len u.spec.password) 4) "password is too short"

abbrev pub valid_privileges : List String
valid_privileges =
    "SELECT" ∷ "INSERT" ∷ "UPDATE" ∷ "DELETE" ∷ "CREATE" ∷ "DROP" ∷ "ALTER" ∷ "INDEX" ∷ "REFERENCES"
    ∷ "RELOAD" ∷ "SHUTDOWN" ∷ "PROCESS" ∷ "FILE" ∷ "GRANT" ∷ "REVOKE" ∷ "LOCK TABLES"
    ∷ "REPLICATION CLIENT" ∷ "REPLICATION SLAVE" ∷ "SHOW DATABASES" ∷ "SUPER"
    ∷ "CREATE TEMPORARY TABLES" ∷ "LOCK TABLES" ∷ "EXECUTE" ∷ "REPLICATION SLAVE"
    ∷ "REPLICATION CLIENT" ∷ "CREATE VIEW" ∷ "SHOW VIEW" ∷ "CREATE ROUTINE" ∷ "ALTER ROUTINE"
    ∷ "CREATE USER" ∷ "EVENT" ∷ "TRIGGER" ∷ "CREATE TABLESPACE" ∷ "CREATE ROLE" ∷ "DROP ROLE"
    ∷ "CONNECT" ∷ "TEMPORARY" ∷ "USAGE" ∷ "EXECUTE" ∷ "ALL" ∷ "ALL PRIVILEGES" ∷ []

abbrev pub valid_roles : List String
valid_roles =
    "readonly" ∷ "readwrite" ∷ "admin" ∷ "developer" ∷ "analyst" ∷ "backup" ∷ "replication"
    ∷ "monitoring" ∷ "read" ∷ "write" ∷ "superuser" ∷ "user" ∷ "guest" ∷ "public" ∷ []

-- A loop over words that are each to be one of a list.
unfoldable pub each_of : (what : String) (valid : List String) → List String → Check
each_of what valid [] = ok tt
each_of what valid (s ∷ ss) =
    refuse_if (not (is_one_of s valid))
      ("invalid " <> what <> " '" <> s <> "', must be one of: " <> join valid)
    also each_of what valid ss

-- `validatePrivilegesAndRoles`
unfoldable pub validate_privileges_and_roles : User → Check
validate_privileges_and_roles u =
    each_of "privilege" valid_privileges u.spec.privileges
    also each_of "role" valid_roles u.spec.roles

unfoldable pub is_host : String → Bool
is_host host =
    host == "localhost"
    || host == "127.0.0.1"
    || host == "%"
    || host == "::1"
    || fits ip_regex host
    || fits host_regex host
    || fits wildcard_regex host

-- `validateHostFormat`, with the object after it: an empty host becomes `%`.
unfoldable pub validate_host_format : User → User × Check
validate_host_format u =
    if u.spec.host == "" then (record u { spec = record u.spec { host = "%" } }, ok tt) else (
      u,
      refuse_if (not (is_host u.spec.host)) (
          "invalid host format '" <> u.spec.host
          <> "', must be a valid IP address, hostname, or wildcard pattern"),
    )

-- The five steps of `ValidateCreate` and `ValidateUpdate`.
unfoldable pub validate : User → Check
validate u =
    validate_required_fields u
    also validate_naming_conventions u
    also validate_password_format u
    also validate_privileges_and_roles u
    also (validate_host_format u).1

-- `ValidateCreate`
unfoldable pub validate_create : RuntimeObject → Check
validate_create o = elim (as_user o) [ none ↦ err (wrong_type "User" o) | some u ↦ validate u ]

-- `ValidateUpdate`, which does not look at the old object.
unfoldable pub validate_update : (old new : RuntimeObject) → Check
validate_update old new = elim (as_user new) [
  | none ↦ err (wrong_type "User" new)
  | some u ↦ validate u
]

-- `ValidateDelete`
unfoldable pub validate_delete : RuntimeObject → Check
validate_delete o = elim (as_user o) [ none ↦ err (wrong_type "User" o) | some u ↦ ok tt ]
