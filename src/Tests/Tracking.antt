-- ===== src/Tests/Tracking.antt =====
-- A cluster whose database keeps the tracking table of the migrations and the objects that are written.
use dbchan.Base.{
  suc, if◌then◌else◌, ap, ◌∙◌, ℕ, ◌≡◌, refl, sym, List, Bool, true, false, [], ◌∷◌, ltb,
}
use dbchan.Base.Text.{◌==◌, String}
use dbchan.Base.Prog.{Error, Result, ok, err}
use dbchan.Cluster.{executed, Trace, World}
use dbchan.Migration.Protocol.{in_table, IsTracking}
use dbchan.Migration.Protocol.Ledger.{Leads, ledger, runs_for, migration_reconcile-refines-Ledger}
use dbchan.Tests.{small_world, key_of, add_index}

-- The number of rows with the version.
abbrev rows : Bool → ℕ
rows true = 1
rows false = 0

abbrev row_count : List String → Trace → ℕ
row_count [] t = 0
row_count (version ∷ _) t = rows (in_table version t)

abbrev pub tracking_world : World
tracking_world = record small_world { query_count = λ c query args t. ok (row_count args t) }

abbrev given : Result Error ℕ → ℕ
given (ok n) = n
given (err e) = 0

rows_positive : (b : Bool) → ltb 0 (rows b) ≡ b
rows_positive true = refl
rows_positive false = refl

pub tracking_world-IsTracking : IsTracking tracking_world
tracking_world-IsTracking = record {
  counts = λ c d q version t n known e.
      ap (λ r. ltb 0 (given r)) (sym e) ∙ rows_positive (in_table version t);
}

-- How often the SQL of the migration ran.
abbrev times_run : Trace → ℕ
times_run [] = 0
times_run (executed c q [] (ok _) ∷ t) =
    let rest = times_run t in if q == add_index.spec.sql then suc rest else rest
times_run (_ ∷ t) = times_run t

-- The second run finds the version.
runs_once : times_run (runs_for tracking_world (key_of "add-index" ∷ key_of "add-index" ∷ [])) ≡ 1
unfolding dbchan.Api.lookup dbchan.Base.Prog.catch dbchan.Base.Prog.on_none dbchan.Base.Prog.pure
    dbchan.Base.Prog.raise dbchan.Base.Prog.when dbchan.Base.Prog.◌>>=◌ dbchan.Cluster.Calls.ask
    dbchan.Cluster.Calls.close dbchan.Cluster.Calls.exec dbchan.Cluster.Calls.get
    dbchan.Cluster.Calls.list dbchan.Cluster.Calls.now dbchan.Cluster.Calls.open_pool
    dbchan.Cluster.Calls.ping dbchan.Cluster.Calls.query_count dbchan.Cluster.Calls.update
    dbchan.Cluster.Calls.update_status dbchan.Connection.build_datastore_connection_string
    dbchan.Connection.connect_to_database dbchan.Connection.defer_close dbchan.Connection.dialect
    dbchan.Connection.get_datastore_secret dbchan.Connection.open_and_ping
    dbchan.Controller.find_by_name dbchan.Controller.settle dbchan.Migration.Apply.apply_migration
    dbchan.Migration.Apply.apply_on dbchan.Migration.Apply.apply_unless
    dbchan.Migration.Apply.build_migration_connection_string dbchan.Migration.Apply.connect_for
    dbchan.Migration.Apply.find_own_database dbchan.Migration.Apply.rollback_found
    dbchan.Migration.Apply.rollback_in dbchan.Migration.Apply.rollback_migration
    dbchan.Migration.Apply.rollback_on dbchan.Migration.Reconcile.apply
    dbchan.Migration.Reconcile.body dbchan.Migration.Reconcile.ensure_finalizer
    dbchan.Migration.Reconcile.fetch dbchan.Migration.Reconcile.finalize
    dbchan.Migration.Reconcile.find_database dbchan.Migration.Reconcile.finish
    dbchan.Migration.Reconcile.init_status dbchan.Migration.Reconcile.migrate
    dbchan.Migration.Reconcile.park dbchan.Migration.Reconcile.save
    dbchan.Migration.Reconcile.save_status dbchan.Migration.Reconcile.search_database
    dbchan.Migration.Table.calculate_checksum dbchan.Migration.Table.count_sql
    dbchan.Migration.Table.create_migrations_table dbchan.Migration.Table.create_table_sql
    dbchan.Migration.Table.delete_sql dbchan.Migration.Table.execute_migration
    dbchan.Migration.Table.execute_rollback dbchan.Migration.Table.hex_encode
    dbchan.Migration.Table.insert_sql dbchan.Migration.Table.is_migration_applied
    dbchan.Migration.Table.record_migration dbchan.Migration.Table.remove_migration_record
    dbchan.Migration.Table.statement_for dbchan.Migration.Reconcile.reconcile
    dbchan.Migration.Protocol.in_table
runs_once = refl

migration_reconcile-refines-Ledger_example :
    Leads
      (runs_for tracking_world (key_of "add-index" ∷ key_of "add-index" ∷ []))
      (ledger (runs_for tracking_world (key_of "add-index" ∷ key_of "add-index" ∷ [])))
migration_reconcile-refines-Ledger_example =
    migration_reconcile-refines-Ledger tracking_world tracking_world-IsTracking
      (key_of "add-index" ∷ key_of "add-index" ∷ [])
