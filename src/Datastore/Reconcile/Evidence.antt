-- ===== src/Datastore/Reconcile/Evidence.antt =====
-- What a status `ready` of a datastore stands on.
pub mod Given
pub mod Ready
use dbchan.Base.{◌≡◌, ◌⊎◌, Bool, true, Option, some, List}
use dbchan.Base.Text.{String}
use dbchan.Base.Prog.{ok, err}
use dbchan.Api.{Secret, Datastore, lookup}
use dbchan.Cluster.{Kind, Conn, Event, Trace, got, listed, status_updated, opened, pinged}
use dbchan.Cluster.History.{Once, Always}
use dbchan.Connection.{driver, dialect}
use dbchan.Controller.{find_by_name}
use dbchan.Datastore.Reconcile.{password_key, source_for}

-- The server gave this secret: under the name that the datastore refers to, or as the first of that
-- name in a list of all namespaces.
abbrev pub Gave : Datastore → Secret → Event → Type 0
Gave d s (got Kind.secret key (ok s')) = (key.name ≡ d.spec.secret_ref.name) × (s' ≡ s)
Gave d s (listed Kind.secret (ok items)) =
    find_by_name (λ x. x.name) d.spec.secret_ref.name items ≡ some s
Gave d s _ = ⊥

abbrev pub OpenedWith : Datastore → String → Conn → Event → Type 0
OpenedWith d password c (opened name source (ok c')) =
    (driver (dialect d.spec.datastore_type) ≡ some name)
    × (source ≡ source_for d password)
    × (c' ≡ c)
OpenedWith d password c _ = ⊥

abbrev pub Answered : Conn → Event → Type 0
Answered c (pinged c' (ok _)) = c' ≡ c
Answered c _ = ⊥

-- A connection opened with the datastore's own address and the password of its secret has answered.
pub record IsReachable (d : Datastore) (t : Trace) : Type 0 where
  pub found : Secret
  pub password : String
  pub conn : Conn
  pub gave : Once (λ e _. Gave d found e) t
  pub has_password : lookup (password_key d) found.entries ≡ some password
  pub answered :
      Once (λ e rest. Answered conn e × Once (λ e' _. OpenedWith d password conn e') rest) t

-- A status `ready` has phase `Ready` and is backed by an answer; no other status has the phase.
abbrev pub StatusClaim : Datastore → Trace → Type 0
StatusClaim d t =
    (d.status.ready ≡ true → (d.status.phase ≡ "Ready") × IsReachable d t)
    × (d.status.phase ≡ "Ready" → d.status.ready ≡ true)

abbrev pub Claim : Event → Trace → Type 0
Claim (status_updated Kind.datastore d r) t = StatusClaim d t
Claim _ t = Unit
