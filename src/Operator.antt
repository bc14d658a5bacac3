-- ===== src/Operator.antt =====
-- The operator as a whole: the five controllers serve requests, one after the other, in any order.
pub mod Safety
pub mod Claims
pub mod Keeps
pub mod Results
use dbchan.Base.{List, [], ◌∷◌}
use dbchan.Api.{ObjectKey}
use dbchan.Cluster.{Trace, World}
use dbchan.Controller.{Outcome}
use dbchan.Migration.Reconcile.{reconcile as migration_reconcile}
use dbchan.Datastore.Reconcile.{reconcile as datastore_reconcile}
use dbchan.Database.Reconcile.{reconcile as database_reconcile}
use dbchan.User.Reconcile.{reconcile as user_reconcile}
use dbchan.Role.Reconcile.{reconcile as role_reconcile}

-- A request of the work queue of a controller.
pub data Request : Type 0 where
  for_migration : ObjectKey → Request
  for_datastore : ObjectKey → Request
  for_database : ObjectKey → Request
  for_user : ObjectKey → Request
  for_role : ObjectKey → Request

abbrev pub serve : World → Request → Trace → Outcome × Trace
serve w (for_migration key) = migration_reconcile w key
serve w (for_datastore key) = datastore_reconcile w key
serve w (for_database key) = database_reconcile w key
serve w (for_user key) = user_reconcile w key
serve w (for_role key) = role_reconcile w key

-- The requests are served from the end of the list on.
abbrev pub serve_all : World → List Request → Trace
serve_all w [] = []
serve_all w (r ∷ rs) = (serve w r (serve_all w rs)).1
