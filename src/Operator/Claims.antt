-- ===== src/Operator/Claims.antt =====
-- The claims of the five controllers, over a sequence of requests.
use dbchan.Base.{List}
use dbchan.Cluster.{Kind, World}
use dbchan.Cluster.History.{Always}
use dbchan.Controller.Coherent.{IsOfWrites, Always-IsKept}
use dbchan.Migration.Evidence.{Claim as MigrationClaim}
use dbchan.Migration.Evidence.Applied.{Claims-IsStable as migration_stable}
use dbchan.Migration.Evidence.Justified.{migration_reconcile-Keeps-Claims}
use dbchan.Migration.Reconcile.Writes.{migration_reconcile-Keeps}
use dbchan.Datastore.Reconcile.Evidence.{Claim as DatastoreClaim}
use dbchan.Datastore.Reconcile.Evidence.Given.{Claims-IsStable as datastore_stable}
use dbchan.Datastore.Reconcile.Evidence.Ready.{datastore_reconcile-Keeps-Claims}
use dbchan.Datastore.Reconcile.Writes.{datastore_reconcile-Keeps}
use dbchan.Database.Evidence.{Claim as DatabaseClaim}
use dbchan.Database.Evidence.Created.{Claims-IsStable as database_stable}
use dbchan.Database.Evidence.Justified.{database_reconcile-Keeps-Claims}
use dbchan.Database.Reconcile.Writes.{database_reconcile-Keeps}
use dbchan.User.Evidence.{Claim as UserClaim}
use dbchan.User.Evidence.Lasting.{Claims-IsStable as user_stable}
use dbchan.User.Evidence.Justified.{user_reconcile-Keeps-Claims}
use dbchan.User.Reconcile.Writes.{user_reconcile-Keeps}
use dbchan.Role.Evidence.{Claim as RoleClaim}
use dbchan.Role.Evidence.Created.{Claims-IsStable as role_stable}
use dbchan.Role.Evidence.Justified.{role_reconcile-Keeps-Claims}
use dbchan.Role.Reconcile.Writes.{role_reconcile-Keeps}
use dbchan.Operator.{Request, serve_all}
use dbchan.Operator.Keeps.{serve_all-Keeps}

migration_quiet : (w : World) → IsOfWrites (MigrationClaim w)
migration_quiet w = record {
  stable = migration_stable w;
  on_executed = λ c q args r t. tt;
  on_counted = λ c q args r t. tt;
  on_tested = λ c q args r t. tt;
}

datastore_quiet : IsOfWrites DatastoreClaim
datastore_quiet = record {
  stable = datastore_stable;
  on_executed = λ c q args r t. tt;
  on_counted = λ c q args r t. tt;
  on_tested = λ c q args r t. tt;
}

database_quiet : IsOfWrites DatabaseClaim
database_quiet = record {
  stable = database_stable;
  on_executed = λ c q args r t. tt;
  on_counted = λ c q args r t. tt;
  on_tested = λ c q args r t. tt;
}

user_quiet : (w : World) → IsOfWrites (UserClaim w)
user_quiet w = record {
  stable = user_stable w;
  on_executed = λ c q args r t. tt;
  on_counted = λ c q args r t. tt;
  on_tested = λ c q args r t. tt;
}

role_quiet : IsOfWrites RoleClaim
role_quiet = record {
  stable = role_stable;
  on_executed = λ c q args r t. tt;
  on_counted = λ c q args r t. tt;
  on_tested = λ c q args r t. tt;
}

pub serve_all-MigrationClaim :
    (w : World) (rs : List Request) → Always (MigrationClaim w) (serve_all w rs)
serve_all-MigrationClaim w =
    serve_all-Keeps w (Always (MigrationClaim w)) (migration_reconcile-Keeps-Claims w)
      (datastore_reconcile-Keeps w
        (Always-IsKept w Kind.datastore (migration_quiet w) (λ o r t. tt) (λ o r t. tt)))
      (database_reconcile-Keeps w
        (Always-IsKept w Kind.database (migration_quiet w) (λ o r t. tt) (λ o r t. tt)))
      (user_reconcile-Keeps w
        (Always-IsKept w Kind.user (migration_quiet w) (λ o r t. tt) (λ o r t. tt)))
      (role_reconcile-Keeps w
        (Always-IsKept w Kind.role (migration_quiet w) (λ o r t. tt) (λ o r t. tt)))
      tt

pub serve_all-DatastoreClaim :
    (w : World) (rs : List Request) → Always DatastoreClaim (serve_all w rs)
serve_all-DatastoreClaim w =
    serve_all-Keeps w (Always DatastoreClaim)
      (migration_reconcile-Keeps w
        (Always-IsKept w Kind.migration datastore_quiet (λ o r t. tt) (λ o r t. tt)))
      (datastore_reconcile-Keeps-Claims w)
      (database_reconcile-Keeps w
        (Always-IsKept w Kind.database datastore_quiet (λ o r t. tt) (λ o r t. tt)))
      (user_reconcile-Keeps w
        (Always-IsKept w Kind.user datastore_quiet (λ o r t. tt) (λ o r t. tt)))
      (role_reconcile-Keeps w
        (Always-IsKept w Kind.role datastore_quiet (λ o r t. tt) (λ o r t. tt)))
      tt

pub serve_all-DatabaseClaim :
    (w : World) (rs : List Request) → Always DatabaseClaim (serve_all w rs)
serve_all-DatabaseClaim w =
    serve_all-Keeps w (Always DatabaseClaim)
      (migration_reconcile-Keeps w
        (Always-IsKept w Kind.migration database_quiet (λ o r t. tt) (λ o r t. tt)))
      (datastore_reconcile-Keeps w
        (Always-IsKept w Kind.datastore database_quiet (λ o r t. tt) (λ o r t. tt)))
      (database_reconcile-Keeps-Claims w)
      (user_reconcile-Keeps w
        (Always-IsKept w Kind.user database_quiet (λ o r t. tt) (λ o r t. tt)))
      (role_reconcile-Keeps w
        (Always-IsKept w Kind.role database_quiet (λ o r t. tt) (λ o r t. tt)))
      tt

pub serve_all-UserClaim : (w : World) (rs : List Request) → Always (UserClaim w) (serve_all w rs)
serve_all-UserClaim w =
    serve_all-Keeps w (Always (UserClaim w))
      (migration_reconcile-Keeps w
        (Always-IsKept w Kind.migration (user_quiet w) (λ o r t. tt) (λ o r t. tt)))
      (datastore_reconcile-Keeps w
        (Always-IsKept w Kind.datastore (user_quiet w) (λ o r t. tt) (λ o r t. tt)))
      (database_reconcile-Keeps w
        (Always-IsKept w Kind.database (user_quiet w) (λ o r t. tt) (λ o r t. tt)))
      (user_reconcile-Keeps-Claims w)
      (role_reconcile-Keeps w
        (Always-IsKept w Kind.role (user_quiet w) (λ o r t. tt) (λ o r t. tt)))
      tt

pub serve_all-RoleClaim : (w : World) (rs : List Request) → Always RoleClaim (serve_all w rs)
serve_all-RoleClaim w =
    serve_all-Keeps w (Always RoleClaim)
      (migration_reconcile-Keeps w
        (Always-IsKept w Kind.migration role_quiet (λ o r t. tt) (λ o r t. tt)))
      (datastore_reconcile-Keeps w
        (Always-IsKept w Kind.datastore role_quiet (λ o r t. tt) (λ o r t. tt)))
      (database_reconcile-Keeps w
        (Always-IsKept w Kind.database role_quiet (λ o r t. tt) (λ o r t. tt)))
      (user_reconcile-Keeps w (Always-IsKept w Kind.user role_quiet (λ o r t. tt) (λ o r t. tt)))
      (role_reconcile-Keeps-Claims w) tt
