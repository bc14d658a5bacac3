-- ===== src/Role/Provision/Admitted.antt =====
-- The role controller on the datastores that the webhook admits.
use dbchan.Base.{◌≡◌, refl, inl, inr, true, Option, Bool-cases, arith}
use dbchan.Base.Text.{String, ◌<>◌, ◌==◌, eq_iff}
use dbchan.Base.Prog.{errorf, ok, err, catch, ◌>>=◌, on_none}
use dbchan.Api.{Secret, Datastore, Database, DatabaseRole}
use dbchan.Cluster.{Kind, World, Trace}
use dbchan.Connection.{postgres, unsupported, dialect}
use dbchan.Role.Provision.{role_dialect, connect, create_or_update_role}
use dbchan.Webhook.Checks.{object}
use dbchan.Webhook.Datastore.{valid_types, is_listed, validate_create}
use dbchan.Webhook.Datastore.Laws.{has_listed_type, bad_type}

-- The one listed type for PostgreSQL is one that the role controller does not know.
no_postgres :
    (ty : String)
    → is_listed ty valid_types ≡ true
    → dialect ty ≡ postgres
    → role_dialect ty ≡ unsupported
unfolding dialect role_dialect
no_postgres ty listed kind = elim (Bool-cases (ty == "postgres")) [
  | inl same ↦ rw ((eq_iff ty "postgres").0 same) refl
  | inr other ↦ elim (Bool-cases (ty == "postgresql")) [
    | inl same ↦
        (let refused = bad_type ty (inl ((eq_iff ty "postgresql").0 same)) in absurd (ground arith))
    | inr another ↦ absurd (ground arith)
  ]
]

refuses :
    (w : World) (r : DatabaseRole) (datastore : Datastore) (d : Option Database) (s : Secret)
    (t : Trace)
    → role_dialect datastore.spec.datastore_type ≡ unsupported
    → create_or_update_role w r datastore d s t ≡ (
      err (
          errorf (
            "failed to connect to database" <> ": " <> "unsupported database type: "
            <> datastore.spec.datastore_type)),
      t,
    )
unfolding create_or_update_role connect ◌>>=◌ catch on_none
refuses w r datastore d s t unknown = rw unknown refl

-- For a PostgreSQL datastore that the webhook admits, `createOrUpdateRole` fails in every state, and
-- neither opens a connection nor sends a statement.
pub create_or_update_role_refuses :
    (w : World) (datastore : Datastore) (t : Trace)
    → (validate_create w (object Kind.datastore datastore) t).0 ≡ ok tt
    → dialect datastore.spec.datastore_type ≡ postgres
    → (r : DatabaseRole) (d : Option Database) (s : Secret) (later : Trace)
    → create_or_update_role w r datastore d s later ≡ (
      err (
          errorf (
            "failed to connect to database" <> ": " <> "unsupported database type: "
            <> datastore.spec.datastore_type)),
      later,
    )
create_or_update_role_refuses w datastore t admitted kind r d s later =
    refuses w r datastore d s later
      (no_postgres datastore.spec.datastore_type (has_listed_type w datastore t admitted) kind)
