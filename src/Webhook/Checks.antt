-- ===== src/Webhook/Checks.antt =====
-- Validation steps: each is `nil` or an error, and the first error is returned. A `runtime.Object`
-- carries its type, and a validator takes only objects of its own.
use dbchan.Base.{Bool, true, false, Option, none, some, List, [], ◌∷◌, if◌then◌else◌}
use dbchan.Base.Text.{String, ◌<>◌}
use dbchan.Base.Prog.{Error, errorf, Result, ok, err}
use dbchan.Api.{Datastore, Database, User, DatabaseRole}
use dbchan.Cluster.{Kind, Object}

abbrev pub Check : Type 0
Check = Result Error (Unit {0})

-- `if err := a; err != nil { return err }; return b`
infixr 20 ◌also◌
abbrev pub ◌also◌ : Check → Check → Check
ok _ also c = c
err e also c = err e

abbrev pub refuse_if : Bool → String → Check
refuse_if true message = err (errorf message)
refuse_if false message = ok tt

-- `strings.Join(texts, ", ")`
unfoldable pub join : List String → String
join [] = ""
join (s ∷ []) = s
join (s ∷ t ∷ ts) = s <> ", " <> join (t ∷ ts)

-- `if missing { fields = append(fields, name) }` before the rest of the list.
abbrev pub missing_if : Bool → String → List String → List String
missing_if b name rest = if b then name ∷ rest else rest

abbrev pub require_all : List String → Check
require_all [] = ok tt
require_all (s ∷ ss) = err (errorf ("missing required fields: " <> join (s ∷ ss)))

-- `runtime.Object`
pub data RuntimeObject : Type 0 where
  object : (k : Kind) → Object k → RuntimeObject

-- `%T`
unfoldable pub type_name : RuntimeObject → String
type_name (object Kind.secret o) = "*v1.Secret"
type_name (object Kind.datastore o) = "*v1.Datastore"
type_name (object Kind.database o) = "*v1.Database"
type_name (object Kind.user o) = "*v1.User"
type_name (object Kind.role o) = "*v1.DatabaseRole"
type_name (object Kind.migration o) = "*v1.Migration"

-- `obj.(*dbv1.Datastore)` and the like.
abbrev pub as_datastore : RuntimeObject → Option Datastore
as_datastore (object Kind.datastore o) = some o
as_datastore _ = none

abbrev pub as_database : RuntimeObject → Option Database
as_database (object Kind.database o) = some o
as_database _ = none

abbrev pub as_user : RuntimeObject → Option User
as_user (object Kind.user o) = some o
as_user _ = none

abbrev pub as_role : RuntimeObject → Option DatabaseRole
as_role (object Kind.role o) = some o
as_role _ = none

unfoldable pub wrong_type : String → RuntimeObject → Error
unfolding type_name
wrong_type expected o = errorf ("expected a " <> expected <> " but got a " <> type_name o)
