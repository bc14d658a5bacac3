-- ===== src/Tests/Runs.antt =====
-- Runs of the reconcilers and the webhooks on the small cluster.
use dbchan.Base.{◌≡◌, refl, true, false, List, [], ◌∷◌}
use dbchan.Base.Prog.{ok}
use dbchan.Cluster.{Kind}
use dbchan.Controller.{finished}
use dbchan.Migration.Reconcile.{reconcile as migration_reconcile}
use dbchan.Datastore.Reconcile.{reconcile as datastore_reconcile}
use dbchan.User.Reconcile.{reconcile as user_reconcile}
use dbchan.Database.Reconcile.{reconcile as database_reconcile}
use dbchan.Connection.{dialect, postgres}
use dbchan.Tests.{postgres_store}
use dbchan.Role.Reconcile.{reconcile as role_reconcile, requeued}
use dbchan.Webhook.Checks.{object}
use dbchan.Webhook.Database.{validate_create as database_create}
use dbchan.Webhook.User.{validate_create as user_create}
use dbchan.Webhook.Datastore.{validate_create as datastore_create}
use dbchan.Webhook.Role.{
  validate_create as role_create, validate_update as role_update, validate_delete as role_delete,
  admitted,
}
use dbchan.Tests.{small_world, key_of, orders_store, orders, reader, auditors}

migration_runs : (migration_reconcile small_world (key_of "add-index") []).0 ≡ finished
unfolding dbchan.Api.lookup dbchan.Base.Prog.catch dbchan.Base.Prog.on_none dbchan.Base.Prog.pure
    dbchan.Base.Prog.raise dbchan.Base.Prog.when dbchan.Base.Prog.◌>>=◌ dbchan.Cluster.Calls.ask
    dbchan.Cluster.Calls.close dbchan.Cluster.Calls.exec dbchan.Cluster.Calls.get
    dbchan.Cluster.Calls.list dbchan.Cluster.Calls.now dbchan.Cluster.Calls.open_pool
    dbchan.Cluster.Calls.ping dbchan.Cluster.Calls.query_count dbchan.Cluster.Calls.update
    dbchan.Cluster.Calls.update_status dbchan.Connection.build_datastore_connection_string
    dbchan.Connection.connect_to_database dbchan.Connection.defer_close dbchan.Connection.dialect
    dbchan.Connection.get_datastore_secret dbchan.Connection.open_and_ping
    dbchan.Controller.find_by_name dbchan.Controller.settle dbchan.Migration.Apply.apply_migration
    dbchan.Migration.Apply.apply_on dbchan.Migration.Apply.apply_unless
    dbchan.Migration.Apply.build_migration_connection_string dbchan.Migration.Apply.connect_for
    dbchan.Migration.Apply.find_own_database dbchan.Migration.Apply.rollback_found
    dbchan.Migration.Apply.rollback_in dbchan.Migration.Apply.rollback_migration
    dbchan.Migration.Apply.rollback_on dbchan.Migration.Reconcile.apply
    dbchan.Migration.Reconcile.body dbchan.Migration.Reconcile.ensure_finalizer
    dbchan.Migration.Reconcile.fetch dbchan.Migration.Reconcile.finalize
    dbchan.Migration.Reconcile.find_database dbchan.Migration.Reconcile.finish
    dbchan.Migration.Reconcile.init_status dbchan.Migration.Reconcile.migrate
    dbchan.Migration.Reconcile.park dbchan.Migration.Reconcile.save
    dbchan.Migration.Reconcile.save_status dbchan.Migration.Reconcile.search_database
    dbchan.Migration.Table.calculate_checksum dbchan.Migration.Table.count_sql
    dbchan.Migration.Table.create_migrations_table dbchan.Migration.Table.create_table_sql
    dbchan.Migration.Table.delete_sql dbchan.Migration.Table.execute_migration
    dbchan.Migration.Table.execute_rollback dbchan.Migration.Table.hex_encode
    dbchan.Migration.Table.insert_sql dbchan.Migration.Table.is_migration_applied
    dbchan.Migration.Table.record_migration dbchan.Migration.Table.remove_migration_record
    dbchan.Migration.Table.statement_for migration_reconcile
migration_runs = refl

datastore_runs : (datastore_reconcile small_world (key_of "orders-store") []).0 ≡ finished
unfolding datastore_reconcile dbchan.Api.lookup dbchan.Base.Int.show_int dbchan.Base.Int.show_nat
    dbchan.Base.Prog.catch dbchan.Base.Prog.on_none dbchan.Base.Prog.pure dbchan.Base.Prog.raise
    dbchan.Base.Prog.◌>>=◌ dbchan.Cluster.Calls.ask dbchan.Cluster.Calls.get
    dbchan.Cluster.Calls.list dbchan.Cluster.Calls.open_pool dbchan.Cluster.Calls.ping
    dbchan.Cluster.Calls.update_status dbchan.Connection.defer_close dbchan.Connection.dialect
    dbchan.Controller.find_by_name dbchan.Controller.settle dbchan.Datastore.Reconcile.body
    dbchan.Datastore.Reconcile.check dbchan.Datastore.Reconcile.fetch
    dbchan.Datastore.Reconcile.find_password dbchan.Datastore.Reconcile.find_secret
    dbchan.Datastore.Reconcile.init_status dbchan.Datastore.Reconcile.park
    dbchan.Datastore.Reconcile.save_status dbchan.Datastore.Reconcile.search_secret
    dbchan.Datastore.Source.build_connection_string dbchan.Datastore.Source.source_of
    dbchan.Datastore.Source.test_connection
datastore_runs = refl

pub database_passes : database_create (object Kind.database orders) ≡ ok tt
unfolding database_create dbchan.Webhook.Database.validate_naming_conventions
    dbchan.Webhook.Names.fits dbchan.Webhook.Names.is_one_of
database_passes = refl

pub user_passes : user_create (object Kind.user reader) ≡ ok tt
unfolding dbchan.Webhook.Names.fits dbchan.Webhook.Names.is_one_of dbchan.Webhook.User.each_of
    dbchan.Webhook.User.validate dbchan.Webhook.User.validate_host_format
    dbchan.Webhook.User.validate_naming_conventions dbchan.Webhook.User.validate_password_format
    dbchan.Webhook.User.validate_privileges_and_roles dbchan.Webhook.User.validate_required_fields
    user_create
user_passes = refl

pub datastore_passes :
    (datastore_create small_world (object Kind.datastore orders_store) []).0 ≡ ok tt
unfolding datastore_create dbchan.Base.Prog.catch dbchan.Base.Prog.◌>>=◌ dbchan.Cluster.Calls.ask
    dbchan.Cluster.Calls.get dbchan.Webhook.Datastore.validate
    dbchan.Webhook.Datastore.validate_connection_string_format
    dbchan.Webhook.Datastore.validate_naming_conventions
    dbchan.Webhook.Datastore.validate_required_fields
    dbchan.Webhook.Datastore.validate_secret_existence dbchan.Webhook.Names.fits
    dbchan.Webhook.Names.is_one_of
datastore_passes = refl

pub role_passes : (role_create small_world (object Kind.role auditors) []).0 ≡ ok admitted
unfolding dbchan.Base.Prog.catch dbchan.Base.Prog.◌>>=◌ dbchan.Cluster.Calls.ask
    dbchan.Cluster.Calls.get dbchan.Webhook.Names.fits dbchan.Webhook.Names.is_one_of
    dbchan.Webhook.Role.all_errors dbchan.Webhook.Role.collect dbchan.Webhook.Role.database_errors
    dbchan.Webhook.Role.is_privilege dbchan.Webhook.Role.local_errors
    dbchan.Webhook.Role.validate_datastore_exists dbchan.Webhook.Role.validate_privileges
    dbchan.Webhook.Role.validate_role_name role_create
role_passes = refl

pub role_goes : (role_delete small_world (object Kind.role auditors) []).0 ≡ ok tt
unfolding dbchan.Base.Prog.catch dbchan.Base.Prog.◌>>=◌ dbchan.Cluster.Calls.ask
    dbchan.Cluster.Calls.list_in dbchan.Webhook.Role.find_users_using_role
    dbchan.Webhook.Role.users_of dbchan.Webhook.Role.validate_removal role_delete
role_goes = refl

pub role_stays :
    (role_update small_world (object Kind.role auditors) (object Kind.role auditors) []).0
    ≡ ok admitted
unfolding role_update dbchan.Webhook.Role.validate_change dbchan.Base.Prog.◌>>=◌
    dbchan.Webhook.Role.all_errors dbchan.Webhook.Role.collect dbchan.Base.Prog.catch
    dbchan.Webhook.Role.validate_datastore_exists dbchan.Cluster.Calls.get dbchan.Cluster.Calls.ask
    dbchan.Webhook.Role.database_errors dbchan.Webhook.Role.local_errors
    dbchan.Webhook.Role.validate_role_name dbchan.Webhook.Names.fits dbchan.Webhook.Names.is_one_of
    dbchan.Webhook.Role.validate_privileges dbchan.Webhook.Role.is_privilege
role_stays = refl

user_runs : (user_reconcile small_world (key_of "reader") []).0 ≡ finished
unfolding dbchan.Api.lookup dbchan.Base.Prog.catch dbchan.Base.Prog.for_each dbchan.Base.Prog.lift
    dbchan.Base.Prog.on_none dbchan.Base.Prog.pure dbchan.Base.Prog.raise dbchan.Base.Prog.when
    dbchan.Base.Prog.◌>>=◌ dbchan.Cluster.Calls.ask dbchan.Cluster.Calls.close
    dbchan.Cluster.Calls.exec dbchan.Cluster.Calls.get dbchan.Cluster.Calls.list
    dbchan.Cluster.Calls.now dbchan.Cluster.Calls.open_pool dbchan.Cluster.Calls.ping
    dbchan.Cluster.Calls.update dbchan.Cluster.Calls.update_status
    dbchan.Connection.build_datastore_connection_string dbchan.Connection.connect_to_database
    dbchan.Connection.defer_close dbchan.Connection.dialect dbchan.Connection.get_datastore_secret
    dbchan.Connection.open_and_ping dbchan.Controller.find_by_name dbchan.Controller.settle
    dbchan.User.Account.clean_found dbchan.User.Account.cleanup_user
    dbchan.Connection.connect_to_datastore dbchan.User.Account.create_as
    dbchan.User.Account.create_on dbchan.User.Account.create_or_update_user
    dbchan.User.Account.delete_as dbchan.User.Account.find_own_datastore dbchan.User.Reconcile.body
    dbchan.User.Reconcile.create dbchan.User.Reconcile.creation_time
    dbchan.User.Reconcile.ensure_finalizer dbchan.User.Reconcile.fetch
    dbchan.User.Reconcile.finalize dbchan.User.Reconcile.find_database
    dbchan.User.Reconcile.find_datastore dbchan.User.Reconcile.finish
    dbchan.User.Reconcile.init_status dbchan.User.Reconcile.park dbchan.User.Reconcile.provision
    dbchan.User.Reconcile.save dbchan.User.Reconcile.save_status
    dbchan.User.Reconcile.search_database dbchan.User.Reconcile.search_datastore
    dbchan.User.Statements.create_in_database dbchan.User.Statements.create_or_update_mysql_user
    dbchan.User.Statements.create_or_update_postgre_sql_user
    dbchan.User.Statements.create_or_update_sql_server_user dbchan.User.Statements.delete_mysql_user
    dbchan.User.Statements.delete_postgre_sql_user dbchan.User.Statements.delete_sql_server_user
    dbchan.User.Statements.grant_each dbchan.User.Statements.grant_mysql_role user_reconcile
user_runs = refl

database_runs : (database_reconcile small_world (key_of "orders") []).0 ≡ finished
unfolding database_reconcile dbchan.Api.lookup dbchan.Base.Prog.catch dbchan.Base.Prog.on_none
    dbchan.Base.Prog.pure dbchan.Base.Prog.raise dbchan.Base.Prog.when dbchan.Base.Prog.◌>>=◌
    dbchan.Cluster.Calls.ask dbchan.Cluster.Calls.close dbchan.Cluster.Calls.exec
    dbchan.Cluster.Calls.get dbchan.Cluster.Calls.list dbchan.Cluster.Calls.now
    dbchan.Cluster.Calls.open_pool dbchan.Cluster.Calls.ping dbchan.Cluster.Calls.query_bool
    dbchan.Cluster.Calls.update dbchan.Cluster.Calls.update_status
    dbchan.Connection.build_datastore_connection_string dbchan.Connection.connect_to_database
    dbchan.Connection.connect_to_datastore dbchan.Connection.defer_close dbchan.Connection.dialect
    dbchan.Connection.get_datastore_secret dbchan.Connection.open_and_ping
    dbchan.Controller.find_by_name dbchan.Controller.settle dbchan.Database.Provision.clean_found
    dbchan.Database.Provision.cleanup_database dbchan.Database.Provision.create_as
    dbchan.Database.Provision.create_or_update_database dbchan.Database.Provision.delete_as
    dbchan.Database.Provision.find_own_datastore dbchan.Database.Reconcile.body
    dbchan.Database.Reconcile.create dbchan.Database.Reconcile.creation_time
    dbchan.Database.Reconcile.ensure_finalizer dbchan.Database.Reconcile.fetch
    dbchan.Database.Reconcile.finalize dbchan.Database.Reconcile.find_datastore
    dbchan.Database.Reconcile.finish dbchan.Database.Reconcile.init_status
    dbchan.Database.Reconcile.park dbchan.Database.Reconcile.provision
    dbchan.Database.Reconcile.save dbchan.Database.Reconcile.save_status
    dbchan.Database.Reconcile.search_datastore dbchan.Database.Statements.check_sql_server_database
    dbchan.Database.Statements.create_or_update_mysql_database
    dbchan.Database.Statements.create_or_update_postgre_sql_database
    dbchan.Database.Statements.create_or_update_sql_server_database
    dbchan.Database.Statements.delete_mysql_database
    dbchan.Database.Statements.delete_postgre_sql_database
    dbchan.Database.Statements.delete_sql_server_database
database_runs = refl

role_waits : (role_reconcile small_world (key_of "auditors") []).0 ≡ requeued
unfolding dbchan.Base.Prog.catch dbchan.Base.Prog.when dbchan.Base.Prog.◌>>=◌
    dbchan.Cluster.Calls.ask dbchan.Cluster.Calls.get dbchan.Cluster.Calls.update
    dbchan.Controller.settle dbchan.Role.Reconcile.body dbchan.Role.Reconcile.ensure_finalizer
    dbchan.Role.Reconcile.fetch dbchan.Role.Reconcile.save role_reconcile
role_waits = refl

pub postgres_passes :
    (datastore_create small_world (object Kind.datastore postgres_store) []).0 ≡ ok tt
unfolding datastore_create dbchan.Webhook.Datastore.validate dbchan.Base.Prog.◌>>=◌
    dbchan.Webhook.Datastore.validate_required_fields
    dbchan.Webhook.Datastore.validate_naming_conventions dbchan.Webhook.Names.fits
    dbchan.Webhook.Names.is_one_of dbchan.Webhook.Datastore.validate_connection_string_format
    dbchan.Webhook.Datastore.validate_secret_existence dbchan.Base.Prog.catch
    dbchan.Cluster.Calls.get dbchan.Cluster.Calls.ask
postgres_passes = refl

pub is_postgres : dialect postgres_store.spec.datastore_type ≡ postgres
unfolding dialect
is_postgres = refl
