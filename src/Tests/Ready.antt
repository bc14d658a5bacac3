-- ===== src/Tests/Ready.antt =====
-- The small cluster, where each controller brings its object in order.
use dbchan.Base.{◌≡◌, refl, []}
use dbchan.Api.{LocalObjectReference}
use dbchan.Cluster.History.{Newest}
use dbchan.Connection.Calm.{CanConnect}
use dbchan.Controller.{finished}
use dbchan.Datastore.Reconcile.{reconcile as datastore_reconcile}
use dbchan.Datastore.Reconcile.Ready.{
  CanReach, SaysReady as DatastoreReady, datastore_reconcile-Ready,
}
use dbchan.Database.Reconcile.{reconcile as database_reconcile}
use dbchan.Database.Reconcile.Ready.{
  CanMake as CanMakeDatabase, SaysReady as DatabaseReady, database_reconcile-Ready,
}
use dbchan.User.Reconcile.{reconcile as user_reconcile}
use dbchan.User.Reconcile.Ready.{
  CanMake as CanMakeUser, SaysReady as UserReady, user_reconcile-Ready,
}
use dbchan.Role.Reconcile.{reconcile as role_reconcile}
use dbchan.Role.Reconcile.Ready.{
  CanMake as CanMakeRole, SaysReady as RoleReady, role_reconcile-Ready,
}
use dbchan.Migration.Reconcile.{reconcile as migration_reconcile}
use dbchan.Migration.Reconcile.Ready.{CanApply, SaysApplied, migration_reconcile-Applied}
use dbchan.Tests.{key_of, answer, orders_secret, orders_store, orders, reader, add_index}
use dbchan.Tests.Calm.{calm_of, world_of, kept_answer, kept_auditors}

connects : CanConnect (calm_of answer) [] orders_store
unfolding dbchan.Connection.dialect dbchan.Api.lookup
connects = record {
  driver_name = "mysql";
  has_driver = refl;
  secret = orders_secret;
  has_secret = refl;
  username = "app";
  host = "db";
  password = "pw";
  has_username = refl;
  has_host = refl;
  has_password = refl;
}

reaches : CanReach (calm_of answer) [] (key_of "orders-store") orders_store
unfolding dbchan.Connection.dialect dbchan.Api.lookup
reaches = record {
  exists = refl;
  driver_name = "mysql";
  has_driver = refl;
  secret = orders_secret;
  has_secret = refl;
  password = "pw";
  has_password = refl;
}

makes_database : CanMakeDatabase (calm_of answer) [] (key_of "orders") orders
makes_database = record {
  exists = refl;
  alive = refl;
  datastore = orders_store;
  has_datastore = refl;
  datastore_ready = refl;
  can_connect = connects;
}

makes_user : CanMakeUser (calm_of answer) [] (key_of "reader") reader
makes_user = record {
  exists = refl;
  alive = refl;
  datastore = orders_store;
  has_datastore = refl;
  datastore_ready = refl;
  can_connect = connects;
  password = "pass";
  has_password = refl;
  has_database = λ ref e.
      let orders_ref : LocalObjectReference = record { name = "orders" } in
      let same : ref ≡ orders_ref = cc in (orders, rw same refl);
}

makes_role : CanMakeRole (calm_of kept_answer) [] (key_of "auditors") kept_auditors
unfolding dbchan.Role.Provision.role_dialect
makes_role = record {
  exists = refl;
  alive = refl;
  has_finalizer = refl;
  datastore = orders_store;
  has_datastore = refl;
  datastore_phase = refl;
  datastore_ready = refl;
  driver_name = "mysql";
  has_driver = refl;
  secret = orders_secret;
  has_secret = refl;
  has_database = λ ref e. cc;
}

applies : CanApply (calm_of answer) [] (key_of "add-index") add_index
applies = record {
  exists = refl;
  alive = refl;
  unapplied = refl;
  database = orders;
  has_database = refl;
  database_ready = refl;
  datastore = orders_store;
  has_datastore = refl;
  can_connect = connects;
}

datastore_reconcile-Ready_example :
    ((datastore_reconcile (world_of answer) (key_of "orders-store") []).0 ≡ finished)
    × Newest DatastoreReady (datastore_reconcile (world_of answer) (key_of "orders-store") []).1
datastore_reconcile-Ready_example =
    datastore_reconcile-Ready (world_of answer) (calm_of answer) [] (key_of "orders-store")
      orders_store reaches

database_reconcile-Ready_example :
    ((database_reconcile (world_of answer) (key_of "orders") []).0 ≡ finished)
    × Newest DatabaseReady (database_reconcile (world_of answer) (key_of "orders") []).1
database_reconcile-Ready_example =
    database_reconcile-Ready (world_of answer) (calm_of answer) [] (key_of "orders") orders
      makes_database

user_reconcile-Ready_example :
    ((user_reconcile (world_of answer) (key_of "reader") []).0 ≡ finished)
    × Newest UserReady (user_reconcile (world_of answer) (key_of "reader") []).1
user_reconcile-Ready_example =
    user_reconcile-Ready (world_of answer) (calm_of answer) [] (key_of "reader") reader makes_user

role_reconcile-Ready_example :
    ((role_reconcile (world_of kept_answer) (key_of "auditors") []).0 ≡ finished)
    × Newest RoleReady (role_reconcile (world_of kept_answer) (key_of "auditors") []).1
role_reconcile-Ready_example =
    role_reconcile-Ready (world_of kept_answer) (calm_of kept_answer) [] (key_of "auditors")
      kept_auditors makes_role

migration_reconcile-Applied_example :
    ((migration_reconcile (world_of answer) (key_of "add-index") []).0 ≡ finished)
    × Newest SaysApplied (migration_reconcile (world_of answer) (key_of "add-index") []).1
migration_reconcile-Applied_example =
    migration_reconcile-Applied (world_of answer) (calm_of answer) [] (key_of "add-index") add_index
      applies
