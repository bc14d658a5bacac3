-- ===== src/Operator/Safety.antt =====
-- What holds of every run of the operator.
use dbchan.Base.{List, [], refl}
use dbchan.Cluster.{Kind, World}
use dbchan.Cluster.History.{Always}
use dbchan.Controller.Coherent.{Coherent, Coherent-IsKept}
use dbchan.Migration.Evidence.{Claim as MigrationClaim}
use dbchan.Migration.Reconcile.Writes.{migration_reconcile-Keeps}
use dbchan.Datastore.Reconcile.Evidence.{Claim as DatastoreClaim}
use dbchan.Datastore.Reconcile.Writes.{datastore_reconcile-Keeps}
use dbchan.Database.Evidence.{Claim as DatabaseClaim}
use dbchan.Database.Reconcile.Writes.{database_reconcile-Keeps}
use dbchan.User.Evidence.{Claim as UserClaim}
use dbchan.User.Reconcile.Writes.{user_reconcile-Keeps}
use dbchan.Role.Evidence.{Claim as RoleClaim}
use dbchan.Role.Reconcile.Writes.{role_reconcile-Keeps}
use dbchan.Connection.Discipline.{Holding}
use dbchan.Migration.Reconcile.Connections.{migration_reconcile-Holding}
use dbchan.Datastore.Reconcile.Connections.{datastore_reconcile-Holding}
use dbchan.Database.Reconcile.Connections.{database_reconcile-Holding}
use dbchan.User.Reconcile.Connections.{user_reconcile-Holding}
use dbchan.Role.Reconcile.Connections.{role_reconcile-Holding}
use dbchan.Operator.{Request, serve_all}
use dbchan.Operator.Keeps.{serve_all-Keeps}
use dbchan.Operator.Claims.{
  serve_all-MigrationClaim, serve_all-DatastoreClaim, serve_all-DatabaseClaim, serve_all-UserClaim,
  serve_all-RoleClaim,
}

-- Whatever the world answers and in whatever order the requests of the five controllers come, one run
-- after the other, every write of a migration, a datastore, a database, a user or a role meets the
-- claim of its controller (MigrationClaim and so on), which is about the calls before it: the run of
-- another controller in between takes nothing away.
pub serve_all-Justified :
    (w : World) (rs : List Request)
    → Always (MigrationClaim w) (serve_all w rs)
      × Always DatastoreClaim (serve_all w rs)
      × Always DatabaseClaim (serve_all w rs)
      × Always (UserClaim w) (serve_all w rs)
      × Always RoleClaim (serve_all w rs)
serve_all-Justified w rs = (
  serve_all-MigrationClaim w rs,
  serve_all-DatastoreClaim w rs,
  serve_all-DatabaseClaim w rs,
  serve_all-UserClaim w rs,
  serve_all-RoleClaim w rs,
)

-- Whatever the world answers and in whatever order the requests come, every status that is written has
-- its flag set exactly if its phase is the last one: `ready` with the phase `Ready`, and, for a
-- migration, `applied` with the phase `Applied`.
pub serve_all-Coherent : (w : World) (rs : List Request) → Coherent (serve_all w rs)
serve_all-Coherent w =
    serve_all-Keeps w Coherent (migration_reconcile-Keeps w (Coherent-IsKept w Kind.migration))
      (datastore_reconcile-Keeps w (Coherent-IsKept w Kind.datastore))
      (database_reconcile-Keeps w (Coherent-IsKept w Kind.database))
      (user_reconcile-Keeps w (Coherent-IsKept w Kind.user))
      (role_reconcile-Keeps w (Coherent-IsKept w Kind.role)) tt

-- Whatever the world answers and in whatever order the requests come, no connection is open when the
-- requests have been served; and none was used before it was opened or after it was closed, or closed
-- twice.
pub serve_all-Holding : (w : World) (rs : List Request) → Holding [] (serve_all w rs)
serve_all-Holding w =
    serve_all-Keeps w (Holding []) (migration_reconcile-Holding w [])
      (datastore_reconcile-Holding w []) (database_reconcile-Holding w [])
      (user_reconcile-Holding w []) (role_reconcile-Holding w [])
      (record { open_now = refl; disciplined = tt })
