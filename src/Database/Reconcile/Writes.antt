-- ===== src/Database/Reconcile/Writes.antt =====
-- What every run of the database controller keeps: it writes objects of its own kind only, and every status
-- that it writes is coherent.
use dbchan.Base.{◌≡◌, refl, false, Option, none, some}
use dbchan.Base.Text.{String, ◌==◌}
use dbchan.Base.Prog.Triples.{
  Keeps, Keeps-bind, Keeps-catch, Keeps-if, Keeps-on_none, Keeps-pure, Keeps-raise, Keeps-when,
  keeps_rules,
}
use dbchan.Api.{ObjectKey, Time, Datastore, Database}
use dbchan.Cluster.{Kind, Conn, Trace, World}
use dbchan.Cluster.Rules.{Keeps-get, Keeps-list, Keeps-now}
use dbchan.Connection.{Dialect, mysql, postgres, sqlserver, unsupported}
use dbchan.Connection.Rules.{Keeps-connect_to_datastore, Triple-defer_close}
use dbchan.Controller.{Outcome, failed, finished}
use dbchan.Controller.Coherent.{IsCoherent, IsKept}
use dbchan.Controller.Settled.{settle-keeps}
use dbchan.Database.Statements.{
  create_or_update_mysql_database, create_or_update_postgre_sql_database,
  create_or_update_sql_server_database, check_sql_server_database, delete_mysql_database,
  delete_postgre_sql_database, delete_sql_server_database,
}
use dbchan.Database.Provision.{
  create_as, create_or_update_database, delete_as, find_own_datastore, clean_found,
  cleanup_database,
}
use dbchan.Database.Reconcile.{
  unready, ready_at, fetch, save, save_status, park, finalize, ensure_finalizer, init_status,
  search_datastore, find_datastore, create, creation_time, finish, provision, body, reconcile,
}

module _ (w : World) {P : Trace → Type 0} (kept : IsKept w Kind.database P) where
  create_as-Keeps :
      (c : Conn) (a : Dialect) (ty : String) (d : Database) → Keeps P (create_as w c a ty d)
  unfolding create_as create_or_update_mysql_database create_or_update_postgre_sql_database
      create_or_update_sql_server_database check_sql_server_database
  create_as-Keeps c mysql ty d = search (keeps_rules, kept.on_exec)
  create_as-Keeps c postgres ty d = search (keeps_rules, kept.on_exec, kept.on_query_bool) depth 12
  create_as-Keeps c sqlserver ty d = search (keeps_rules, kept.on_exec, kept.on_query_bool) depth 12
  create_as-Keeps c unsupported ty d = Keeps-raise _

  delete_as-Keeps :
      (c : Conn) (a : Dialect) (ty : String) (d : Database) → Keeps P (delete_as w c a ty d)
  unfolding delete_as delete_mysql_database delete_postgre_sql_database delete_sql_server_database
  delete_as-Keeps c mysql ty d = search (keeps_rules, kept.on_exec)
  delete_as-Keeps c postgres ty d = search (keeps_rules, kept.on_exec) depth 12
  delete_as-Keeps c sqlserver ty d = search (keeps_rules, kept.on_exec) depth 12
  delete_as-Keeps c unsupported ty d = Keeps-raise _

  create_or_update_database-Keeps :
      (d : Database) (s : Datastore) → Keeps P (create_or_update_database w d s)
  unfolding create_or_update_database
  create_or_update_database-Keeps d s =
      Keeps-bind _ _ (Keeps-connect_to_datastore w kept.stable refl s) λ c.
        Triple-defer_close c (λ a t h. kept.stable.on_closed c t h)
          (λ e t h. kept.stable.on_closed c t h) (create_as-Keeps c _ _ d)

  clean_found-Keeps : (d : Database) (found : Option Datastore) → Keeps P (clean_found w d found)
  unfolding clean_found
  clean_found-Keeps d none = Keeps-pure tt
  clean_found-Keeps d (some s) =
      Keeps-bind _ _ (Keeps-connect_to_datastore w kept.stable refl s) λ c.
        Triple-defer_close c (λ a t h. kept.stable.on_closed c t h)
          (λ e t h. kept.stable.on_closed c t h) (delete_as-Keeps c _ _ d)

  cleanup_database-Keeps : (d : Database) → Keeps P (cleanup_database w d)
  unfolding cleanup_database find_own_datastore
  cleanup_database-Keeps d =
      Keeps-bind _ _ (search (keeps_rules, Keeps-get w kept.stable Kind.datastore refl))
        (clean_found-Keeps d)

  save_status-Keeps : (d : Database) → IsCoherent Kind.database d → Keeps P (save_status w d)
  unfolding save_status
  save_status-Keeps d good =
      Keeps-catch _ _ (kept.on_update_status d good) (λ e. Keeps-raise (failed e))

  park-Keeps :
      {A : Type 0} (d : Database) (phase message : String) (o : Outcome)
      → false ≡ (phase == "Ready")
      → Keeps P (park w {A = A} d phase message o)
  unfolding park
  park-Keeps d phase message o good =
      Keeps-bind _ _ (save_status-Keeps (unready d phase message) good) (λ _. Keeps-raise o)

  finalize-Keeps : (d : Database) → Keeps P (finalize w d)
  unfolding finalize save
  finalize-Keeps d = search (keeps_rules, kept.on_update, cleanup_database-Keeps) depth 12

  ensure_finalizer-Keeps : (d : Database) → Keeps P (ensure_finalizer w d)
  unfolding ensure_finalizer save
  ensure_finalizer-Keeps d = search (keeps_rules, kept.on_update)

  init_status-Keeps : (d : Database) → Keeps P (init_status w d)
  unfolding init_status
  init_status-Keeps d = Keeps-if _ _ _ (save_status-Keeps _ refl) (Keeps-pure d)

  search_datastore-Keeps : (d : Database) → Keeps P (search_datastore w d)
  unfolding search_datastore
  search_datastore-Keeps d =
      Keeps-bind _ _
        (Keeps-catch _ _ (Keeps-list w kept.stable Kind.datastore refl)
          (λ e. park-Keeps d _ _ _ refl))
        λ items. Keeps-on_none _ _ (park-Keeps d _ _ _ refl)

  find_datastore-Keeps : (key : ObjectKey) (d : Database) → Keeps P (find_datastore w key d)
  unfolding find_datastore
  find_datastore-Keeps key d =
      Keeps-catch _ _ (Keeps-get w kept.stable Kind.datastore refl _)
        λ e. Keeps-if _ _ _ (search_datastore-Keeps d) (park-Keeps d _ _ _ refl)

  creation_time-Keeps : (at : Option Time) → Keeps P (creation_time w at)
  unfolding creation_time
  creation_time-Keeps none = search (keeps_rules, Keeps-now w kept.stable)
  creation_time-Keeps (some at) = Keeps-pure (some at)

  finish-Keeps : (d : Database) → Keeps P (finish w d)
  unfolding finish
  finish-Keeps d =
      Keeps-bind _ _ (creation_time-Keeps d.status.created_at)
        λ at. Keeps-bind _ _ (save_status-Keeps (ready_at d at) refl) (λ _. Keeps-pure finished)

  provision-Keeps : (key : ObjectKey) (d : Database) → Keeps P (provision w key d)
  unfolding provision create
  provision-Keeps key d = Keeps-bind _ _ (init_status-Keeps d) λ d'.
      Keeps-bind _ _ (find_datastore-Keeps key d') λ s.
        Keeps-bind _ _ (Keeps-when _ _ (park-Keeps d' _ _ _ refl)) λ _.
          Keeps-bind _ _
            (Keeps-catch _ _ (create_or_update_database-Keeps d' s) (λ e. park-Keeps d' _ _ _ refl))
            (λ _. finish-Keeps d')

  body-Keeps : (key : ObjectKey) → Keeps P (body w key)
  unfolding body fetch
  body-Keeps key =
      search
        (
          keeps_rules,
          Keeps-get w kept.stable Kind.database refl,
          finalize-Keeps,
          ensure_finalizer-Keeps,
          provision-Keeps,
        )
        depth 12

pub database_reconcile-Keeps :
    (w : World) {P : Trace → Type 0}
    → IsKept w Kind.database P
    → (key : ObjectKey) (t : Trace) → P t
    → P (reconcile w key t).1
unfolding reconcile
database_reconcile-Keeps w kept key t h = settle-keeps (body-Keeps w kept key) t h
