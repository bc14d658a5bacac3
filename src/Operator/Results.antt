-- ===== src/Operator/Results.antt =====
-- What the operator's results say.
use dbchan.Base.{◌≡◌, Bool, true, false}
use dbchan.Cluster.{Trace, World}
use dbchan.Controller.Reported.{IsReported}
use dbchan.Datastore.Reconcile.Reported.{datastore_reconcile-IsReported}
use dbchan.Database.Reconcile.Reported.{database_reconcile-IsReported}
use dbchan.User.Reconcile.Reported.{user_reconcile-IsReported}
use dbchan.Migration.Reconcile.Reported.{migration_reconcile-IsReported}
use dbchan.Operator.{Request, for_migration, for_datastore, for_database, for_user, for_role, serve}

abbrev pub is_for_role : Request → Bool
is_for_role (for_role key) = true
is_for_role _ = false

-- Whatever the world answers, a run of any controller but the role controller that ends without an error
-- and asks for no other one has not ended by writing a status that is not ready (for a migration, not
-- applied), and a run that asks for another one in 30 seconds has ended by writing such a status.
pub serve-IsReported :
    (w : World) (r : Request) (t : Trace)
    → is_for_role r ≡ false
    → IsReported (serve w r t).0 (serve w r t).1
serve-IsReported w (for_migration key) t h = migration_reconcile-IsReported w key t
serve-IsReported w (for_datastore key) t h = datastore_reconcile-IsReported w key t
serve-IsReported w (for_database key) t h = database_reconcile-IsReported w key t
serve-IsReported w (for_user key) t h = user_reconcile-IsReported w key t
serve-IsReported w (for_role key) t h = cc
