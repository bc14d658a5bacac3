-- ===== src/Tests/Served.antt =====
-- The small cluster, whose objects are served one after the other.
use dbchan.Base.{refl, List, [], ◌∷◌}
use dbchan.Cluster.{Trace}
use dbchan.Cluster.History.{Always}
use dbchan.Connection.Discipline.{Holding}
use dbchan.Controller.Coherent.{Coherent}
use dbchan.Migration.Evidence.{Claim as MigrationClaim}
use dbchan.Datastore.Reconcile.Evidence.{Claim as DatastoreClaim}
use dbchan.Database.Evidence.{Claim as DatabaseClaim}
use dbchan.User.Evidence.{Claim as UserClaim}
use dbchan.Role.Evidence.{Claim as RoleClaim}
use dbchan.Operator.{
  Request, for_datastore, for_database, for_user, for_role, for_migration, serve, serve_all,
}
use dbchan.Operator.Results.{serve-IsReported}
use dbchan.Controller.Reported.{IsReported}
use dbchan.Operator.Safety.{serve_all-Justified, serve_all-Coherent, serve_all-Holding}
use dbchan.Tests.{small_world, key_of}

-- The last of the list comes first.
abbrev requests : List Request
requests =
    for_role (key_of "auditors")
    ∷ for_user (key_of "reader")
    ∷ for_migration (key_of "add-index")
    ∷ for_database (key_of "orders")
    ∷ for_datastore (key_of "orders-store")
    ∷ []

abbrev served : Trace
served = serve_all small_world requests

serve_all-Justified_example :
    Always (MigrationClaim small_world) served
    × Always DatastoreClaim served
    × Always DatabaseClaim served
    × Always (UserClaim small_world) served
    × Always RoleClaim served
serve_all-Justified_example = serve_all-Justified small_world requests

serve_all-Coherent_example : Coherent served
serve_all-Coherent_example = serve_all-Coherent small_world requests

serve_all-Holding_example : Holding [] served
serve_all-Holding_example = serve_all-Holding small_world requests

serve-IsReported_example :
    IsReported
      (serve small_world (for_migration (key_of "add-index")) []).0
      (serve small_world (for_migration (key_of "add-index")) []).1
serve-IsReported_example = serve-IsReported small_world (for_migration (key_of "add-index")) [] refl
