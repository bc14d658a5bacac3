-- ===== src/Webhook/Database.antt =====
-- internal/webhook/database_webhook.go
pub mod Laws
use dbchan.Base.{◌||◌, not, none, some, List, [], ◌∷◌, ltb}
use dbchan.Base.Text.{String, ◌<>◌, codes, len}
use dbchan.Base.Prog.{err, ok}
use dbchan.Api.{Database}
use dbchan.Webhook.Checks.{Check, ◌also◌, refuse_if, RuntimeObject, as_database, wrong_type}
use dbchan.Webhook.Names.{name_regex, fits, is_one_of, starts_with_hyphen, ends_with_hyphen}

abbrev pub reserved_names : List String
reserved_names =
    "admin" ∷ "root" ∷ "mysql" ∷ "postgres" ∷ "information_schema" ∷ "performance_schema" ∷ "sys"
    ∷ "test" ∷ "mysql" ∷ "performance_schema" ∷ "information_schema" ∷ []

-- `validateNamingConventions`
unfoldable pub validate_naming_conventions : Database → Check
validate_naming_conventions d =
    refuse_if (ltb (len d.name) 1 || ltb 63 (len d.name))
      "database name must be between 1 and 63 characters"
    also refuse_if (not (fits name_regex d.name))
        "database name must contain only alphanumeric characters, underscores, and hyphens, and must start and end with alphanumeric characters"
    also refuse_if (is_one_of d.name reserved_names)
        ("database name '" <> d.name <> "' is reserved and cannot be used")
    also refuse_if (starts_with_hyphen (codes d.name)) "database name cannot start with a hyphen"
    also refuse_if (ends_with_hyphen (codes d.name)) "database name cannot end with a hyphen"

-- `ValidateCreate`
unfoldable pub validate_create : RuntimeObject → Check
validate_create o = elim (as_database o) [
  | none ↦ err (wrong_type "Database" o)
  | some d ↦ validate_naming_conventions d
]

-- `ValidateUpdate`, which does not look at the old object.
unfoldable pub validate_update : (old new : RuntimeObject) → Check
validate_update old new = elim (as_database new) [
  | none ↦ err (wrong_type "Database" new)
  | some d ↦ validate_naming_conventions d
]

-- `ValidateDelete`
unfoldable pub validate_delete : RuntimeObject → Check
validate_delete o = elim (as_database o) [ none ↦ err (wrong_type "Database" o) | some d ↦ ok tt ]
