-- ===== src/Webhook/Datastore.antt =====
-- internal/webhook/datastore_webhook.go
pub mod Laws
use dbchan.Base.{Bool, true, ◌||◌, ◌&&◌, not, none, some, List, [], ◌∷◌, any, ltb, if◌then◌else◌}
use dbchan.Base.Int.{ℤ, pos, negsuc}
use dbchan.Base.Text.{String, ◌<>◌, ◌==◌, len}
use dbchan.Base.Prog.{Error, errorf, err, ok, lift, raise, pure, catch, ◌>>=◌, ◌>>◌}
use dbchan.Api.{ObjectKey, Datastore}
use dbchan.Cluster.{Kind, World}
use dbchan.Cluster.Calls.{Io, get}
use dbchan.Webhook.Checks.{
  Check, ◌also◌, refuse_if, join, missing_if, require_all, RuntimeObject, as_datastore, wrong_type,
}
use dbchan.Webhook.Names.{name_regex, host_regex, fits, is_one_of}

-- `validateRequiredFields`
unfoldable pub validate_required_fields : Datastore → Check
validate_required_fields d = require_all (
    missing_if (d.spec.datastore_type == "") "datastoreType" (
      missing_if (d.spec.host == "") "host" (
        missing_if (d.spec.username == "") "username"
          (missing_if (d.spec.secret_ref.name == "") "secretRef.name" []))))

abbrev pub reserved_names : List String
reserved_names =
    "admin" ∷ "root" ∷ "mysql" ∷ "postgres" ∷ "information_schema" ∷ "performance_schema" ∷ "sys"
    ∷ []

-- `validateNamingConventions`
unfoldable pub validate_naming_conventions : Datastore → Check
validate_naming_conventions d =
    refuse_if (ltb (len d.name) 1 || ltb 63 (len d.name))
      "datastore name must be between 1 and 63 characters"
    also refuse_if (not (fits name_regex d.name))
        "datastore name must contain only alphanumeric characters, underscores, and hyphens, and must start and end with alphanumeric characters"
    also refuse_if (is_one_of d.name reserved_names)
        ("datastore name '" <> d.name <> "' is reserved and cannot be used")

abbrev pub valid_types : List String
valid_types = "mysql" ∷ "mariadb" ∷ "postgres" ∷ "sqlserver" ∷ []

abbrev pub valid_ssl_modes : List String
valid_ssl_modes = "disable" ∷ "allow" ∷ "prefer" ∷ "require" ∷ "verify-ca" ∷ "verify-full" ∷ []

-- The loops over a list of words that look for `s` itself.
abbrev pub is_listed : String → List String → Bool
is_listed s = any (λ t. s == t)

-- `Port < 1 || Port > 65535`
abbrev pub is_bad_port : ℤ → Bool
is_bad_port (pos n) = ltb n 1 || ltb 65535 n
is_bad_port (negsuc n) = true

-- `validateConnectionStringFormat`
unfoldable pub validate_connection_string_format : Datastore → Check
validate_connection_string_format d =
    refuse_if (not (is_listed d.spec.datastore_type valid_types)) (
      "invalid datastore type '"
      <> d.spec.datastore_type
      <> "', must be one of: "
      <> join valid_types)
    also refuse_if (is_bad_port d.spec.port) "port must be between 1 and 65535"
    also refuse_if (not (d.spec.host == "") && not (fits host_regex d.spec.host))
        ("invalid host format: " <> d.spec.host)
    also refuse_if
        (d.spec.datastore_type == "postgres"
          && (not (is_listed d.spec.ssl_mode valid_ssl_modes) && not (d.spec.ssl_mode == "")))
        ("invalid SSL mode '"
          <> d.spec.ssl_mode
          <> "' for PostgreSQL, must be one of: "
          <> join valid_ssl_modes)
    also refuse_if
        (d.spec.datastore_type == "sqlserver"
          && (not (d.spec.instance_name == "") && not (fits host_regex d.spec.instance_name)))
        ("invalid SQL Server instance name format: " <> d.spec.instance_name)

module _ (w : World) where
  -- `validateSecretExistence`
  unfoldable pub validate_secret_existence : Datastore → Io Error (Unit {0})
  validate_secret_existence d =
      let key : ObjectKey = record { namespace = d.namespace; name = d.spec.secret_ref.name } in
      catch (get w Kind.secret key >>= λ _. pure tt) λ e.
        if e.not_found
        then raise (
            errorf (
              "referenced secret '" <> d.spec.secret_ref.name <> "' does not exist in namespace '"
              <> d.namespace <> "'"))
        else raise (errorf ("failed to check secret existence: " <> e.text))

  -- The four steps of `ValidateCreate` and `ValidateUpdate`.
  unfoldable pub validate : Datastore → Io Error (Unit {0})
  validate d = do
    lift (
        validate_required_fields d
        also validate_naming_conventions d
        also validate_connection_string_format d)
    validate_secret_existence d

  -- `ValidateCreate`
  unfoldable pub validate_create : RuntimeObject → Io Error (Unit {0})
  validate_create o = elim (as_datastore o) [
    | none ↦ raise (wrong_type "Datastore" o)
    | some d ↦ validate d
  ]

  -- `ValidateUpdate`, which does not look at the old object.
  unfoldable pub validate_update : (old new : RuntimeObject) → Io Error (Unit {0})
  validate_update old new = elim (as_datastore new) [
    | none ↦ raise (wrong_type "Datastore" new)
    | some d ↦ validate d
  ]

-- `ValidateDelete`
unfoldable pub validate_delete : RuntimeObject → Check
validate_delete o = elim (as_datastore o) [ none ↦ err (wrong_type "Datastore" o) | some d ↦ ok tt ]
