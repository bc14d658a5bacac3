-- ===== src/Api.antt =====
-- api/v1: the custom resources, and the parts of the Kubernetes types that the program reads. A
-- pointer is an `Option`, a time a number whose 0 is the zero time, and an `int32` an integer.
use dbchan.Base.{ℕ, Bool, Option, none, some, List, [], ◌∷◌, if◌then◌else◌}
use dbchan.Base.Int.{ℤ}
use dbchan.Base.Text.{String, ◌==◌}

abbrev pub Time : Type 0
Time = ℕ

-- `metav1.ObjectMeta`
pub record ObjectMeta : Type 0 where
  pub name : String
  pub namespace : String
  pub finalizers : List String
  pub deletion_timestamp : Option Time

-- `client.ObjectKey`, which is `types.NamespacedName`.
pub record ObjectKey : Type 0 where
  pub namespace : String
  pub name : String

-- `corev1.LocalObjectReference`
pub record LocalObjectReference : Type 0 where
  pub name : String

-- `map[string][]byte`: at most one entry of a key counts, the first.
abbrev pub SecretData : Type 0
SecretData = List (String × String)

unfoldable pub lookup : String → SecretData → Option String
lookup k [] = none
lookup k ((j, v) ∷ m) = if j == k then some v else lookup k m

-- `corev1.Secret`; `entries` is its `Data`.
pub record Secret : Type 0 where
  pub metadata : ObjectMeta
  pub open metadata use *
  pub entries : SecretData

pub record DatastoreSecretRef : Type 0 where
  pub name : String
  pub password_key : String

pub record DatastoreSpec : Type 0 where
  pub datastore_type : String
  pub host : String
  pub port : ℤ
  pub username : String
  pub secret_ref : DatastoreSecretRef
  pub ssl_mode : String
  pub instance_name : String

pub record DatastoreStatus : Type 0 where
  pub phase : String
  pub ready : Bool
  pub message : String

pub record Datastore : Type 0 where
  pub metadata : ObjectMeta
  pub open metadata use *
  pub spec : DatastoreSpec
  pub status : DatastoreStatus

pub record DatabaseSpec : Type 0 where
  pub database_name : String
  pub datastore_ref : LocalObjectReference
  pub charset : String
  pub collation : String

pub record DatabaseStatus : Type 0 where
  pub phase : String
  pub ready : Bool
  pub message : String
  pub created_at : Option Time

pub record Database : Type 0 where
  pub metadata : ObjectMeta
  pub open metadata use *
  pub spec : DatabaseSpec
  pub status : DatabaseStatus

pub record UserSpec : Type 0 where
  pub username : String
  pub password : String
  pub datastore_ref : LocalObjectReference
  pub database_ref : Option LocalObjectReference
  pub roles : List String
  pub privileges : List String
  pub host : String

pub record UserStatus : Type 0 where
  pub phase : String
  pub ready : Bool
  pub created : Bool
  pub created_at : Option Time
  pub message : String

pub record User : Type 0 where
  pub metadata : ObjectMeta
  pub open metadata use *
  pub spec : UserSpec
  pub status : UserStatus

pub record DatabaseRoleSpec : Type 0 where
  pub datastore_ref : LocalObjectReference
  pub privileges : List String
  pub database_ref : Option LocalObjectReference
  pub description : String
  pub is_global : Bool

pub record DatabaseRoleStatus : Type 0 where
  pub phase : String
  pub ready : Bool
  pub created : Bool
  pub message : String
  pub last_updated : Option Time

pub record DatabaseRole : Type 0 where
  pub metadata : ObjectMeta
  pub open metadata use *
  pub spec : DatabaseRoleSpec
  pub status : DatabaseRoleStatus

pub record MigrationSpec : Type 0 where
  pub database_ref : LocalObjectReference
  pub sql : String
  pub version : String
  pub description : String
  pub rollback_sql : String

pub record MigrationStatus : Type 0 where
  pub phase : String
  pub applied : Bool
  pub applied_at : Option Time
  pub message : String
  pub checksum : String

pub record Migration : Type 0 where
  pub metadata : ObjectMeta
  pub open metadata use *
  pub spec : MigrationSpec
  pub status : MigrationStatus
