-- ===== src/Operator/Keeps.antt =====
-- What every controller keeps, over a sequence of requests.
use dbchan.Base.{List, [], ◌∷◌}
use dbchan.Api.{ObjectKey}
use dbchan.Cluster.{Trace, World}
use dbchan.Controller.{Outcome}
use dbchan.Migration.Reconcile.{reconcile as migration_reconcile}
use dbchan.Datastore.Reconcile.{reconcile as datastore_reconcile}
use dbchan.Database.Reconcile.{reconcile as database_reconcile}
use dbchan.User.Reconcile.{reconcile as user_reconcile}
use dbchan.Role.Reconcile.{reconcile as role_reconcile}
use dbchan.Operator.{
  Request, for_migration, for_datastore, for_database, for_user, for_role, serve_all,
}

module _ (w : World) (P : Trace → Type 0) where
  abbrev pub Kept : (World → ObjectKey → Trace → Outcome × Trace) → Type 0
  Kept reconcile = (key : ObjectKey) (t : Trace) → P t → P (reconcile w key t).1

  -- What each controller keeps, the operator keeps.
  pub serve_all-Keeps :
      Kept migration_reconcile
      → Kept datastore_reconcile
      → Kept database_reconcile
      → Kept user_reconcile
      → Kept role_reconcile
      → P []
      → (rs : List Request) → P (serve_all w rs)
  serve_all-Keeps migrations datastores databases users roles start [] = start
  serve_all-Keeps migrations datastores databases users roles start (for_migration key ∷ rs) =
      migrations key (serve_all w rs)
        (serve_all-Keeps migrations datastores databases users roles start rs)
  serve_all-Keeps migrations datastores databases users roles start (for_datastore key ∷ rs) =
      datastores key (serve_all w rs)
        (serve_all-Keeps migrations datastores databases users roles start rs)
  serve_all-Keeps migrations datastores databases users roles start (for_database key ∷ rs) =
      databases key (serve_all w rs)
        (serve_all-Keeps migrations datastores databases users roles start rs)
  serve_all-Keeps migrations datastores databases users roles start (for_user key ∷ rs) =
      users key (serve_all w rs)
        (serve_all-Keeps migrations datastores databases users roles start rs)
  serve_all-Keeps migrations datastores databases users roles start (for_role key ∷ rs) =
      roles key (serve_all w rs)
        (serve_all-Keeps migrations datastores databases users roles start rs)
