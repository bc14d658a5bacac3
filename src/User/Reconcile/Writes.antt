-- ===== src/User/Reconcile/Writes.antt =====
-- What every run of the user controller keeps: it writes objects of its own kind only, and every status
-- that it writes is coherent.
use dbchan.Base.{◌≡◌, refl, false, Option, none, some}
use dbchan.Base.Text.{String, ◌==◌}
use dbchan.Base.Prog.Triples.{
  Keeps, Keeps-lift, Keeps-bind, Keeps-catch, Keeps-if, Keeps-on_none, Keeps-pure, Keeps-raise,
  Keeps-when, keeps_rules,
}
use dbchan.Api.{ObjectKey, Time, LocalObjectReference, Datastore, Database, User}
use dbchan.Cluster.{Kind, Conn, Trace, World}
use dbchan.Cluster.Rules.{Keeps-get, Keeps-list, Keeps-now}
use dbchan.Connection.{Dialect, mysql, postgres, sqlserver, unsupported}
use dbchan.Connection.Rules.{Keeps-connect_to_datastore, Triple-defer_close}
use dbchan.Controller.{Outcome, failed, finished}
use dbchan.Controller.Coherent.{IsCoherent, IsKept}
use dbchan.Controller.Settled.{settle-keeps}
use dbchan.User.Statements.{
  create_or_update_mysql_user, create_or_update_postgre_sql_user, create_or_update_sql_server_user,
  grant_each, grant_mysql_role, create_in_database, delete_mysql_user, delete_postgre_sql_user,
  delete_sql_server_user,
}
use dbchan.User.Account.{
  create_as, create_on, create_or_update_user, delete_as, find_own_datastore, clean_found,
  cleanup_user,
}
use dbchan.User.Reconcile.{
  unready, ready_at, search_database, find_database, fetch, save, save_status, park, finalize,
  ensure_finalizer, init_status, search_datastore, find_datastore, create, creation_time, finish,
  provision, body, reconcile,
}

module _ (w : World) {P : Trace → Type 0} (kept : IsKept w Kind.user P) where
  create_in_database-Keeps :
      (c : Conn) (u : User) (d : Option Database) → Keeps P (create_in_database w c u d)
  unfolding create_in_database grant_each
  create_in_database-Keeps c u none = Keeps-pure tt
  create_in_database-Keeps c u (some d) = search (keeps_rules, kept.on_exec) depth 12

  create_as-Keeps :
      (c : Conn) (a : Dialect) (ty : String) (u : User) (p : String) (d : Option Database)
      → Keeps P (create_as w c a ty u p d)
  unfolding create_as create_or_update_mysql_user create_or_update_postgre_sql_user
      create_or_update_sql_server_user grant_each grant_mysql_role
  create_as-Keeps c mysql ty u p d = search (keeps_rules, kept.on_exec) depth 12
  create_as-Keeps c postgres ty u p d = search (keeps_rules, kept.on_exec) depth 12
  create_as-Keeps c sqlserver ty u p d =
      search (keeps_rules, kept.on_exec, create_in_database-Keeps) depth 12
  create_as-Keeps c unsupported ty u p d = Keeps-raise _

  delete_as-Keeps :
      (c : Conn) (a : Dialect) (ty : String) (d : User) → Keeps P (delete_as w c a ty d)
  unfolding delete_as delete_mysql_user delete_postgre_sql_user delete_sql_server_user
  delete_as-Keeps c mysql ty d = search (keeps_rules, kept.on_exec)
  delete_as-Keeps c postgres ty d = search (keeps_rules, kept.on_exec) depth 12
  delete_as-Keeps c sqlserver ty d = search (keeps_rules, kept.on_exec) depth 12
  delete_as-Keeps c unsupported ty d = Keeps-raise _

  create_or_update_user-Keeps :
      (u : User) (s : Datastore) (d : Option Database) → Keeps P (create_or_update_user w u s d)
  unfolding create_or_update_user create_on
  create_or_update_user-Keeps u s d =
      Keeps-bind _ _ (Keeps-connect_to_datastore w kept.stable refl s) λ c.
        Triple-defer_close c (λ a t h. kept.stable.on_closed c t h)
          (λ e t h. kept.stable.on_closed c t h)
          (Keeps-bind _ _ (Keeps-catch _ _ (Keeps-lift _) (λ e. Keeps-raise _))
            (λ p. create_as-Keeps c _ _ u p d))

  clean_found-Keeps : (d : User) (found : Option Datastore) → Keeps P (clean_found w d found)
  unfolding clean_found
  clean_found-Keeps d none = Keeps-pure tt
  clean_found-Keeps d (some s) =
      Keeps-bind _ _ (Keeps-connect_to_datastore w kept.stable refl s) λ c.
        Triple-defer_close c (λ a t h. kept.stable.on_closed c t h)
          (λ e t h. kept.stable.on_closed c t h) (delete_as-Keeps c _ _ d)

  cleanup_user-Keeps : (d : User) → Keeps P (cleanup_user w d)
  unfolding cleanup_user find_own_datastore
  cleanup_user-Keeps d =
      Keeps-bind _ _ (search (keeps_rules, Keeps-get w kept.stable Kind.datastore refl))
        (clean_found-Keeps d)

  save_status-Keeps : (d : User) → IsCoherent Kind.user d → Keeps P (save_status w d)
  unfolding save_status
  save_status-Keeps d good =
      Keeps-catch _ _ (kept.on_update_status d good) (λ e. Keeps-raise (failed e))

  park-Keeps :
      {A : Type 0} (d : User) (phase message : String) (o : Outcome)
      → false ≡ (phase == "Ready")
      → Keeps P (park w {A = A} d phase message o)
  unfolding park
  park-Keeps d phase message o good =
      Keeps-bind _ _ (save_status-Keeps (unready d phase message) good) (λ _. Keeps-raise o)

  finalize-Keeps : (d : User) → Keeps P (finalize w d)
  unfolding finalize save
  finalize-Keeps d = search (keeps_rules, kept.on_update, cleanup_user-Keeps) depth 12

  ensure_finalizer-Keeps : (d : User) → Keeps P (ensure_finalizer w d)
  unfolding ensure_finalizer save
  ensure_finalizer-Keeps d = search (keeps_rules, kept.on_update)

  init_status-Keeps : (d : User) → Keeps P (init_status w d)
  unfolding init_status
  init_status-Keeps d = Keeps-if _ _ _ (save_status-Keeps _ refl) (Keeps-pure d)

  search_datastore-Keeps : (d : User) → Keeps P (search_datastore w d)
  unfolding search_datastore
  search_datastore-Keeps d =
      Keeps-bind _ _
        (Keeps-catch _ _ (Keeps-list w kept.stable Kind.datastore refl)
          (λ e. park-Keeps d _ _ _ refl))
        λ items. Keeps-on_none _ _ (park-Keeps d _ _ _ refl)

  find_datastore-Keeps : (key : ObjectKey) (d : User) → Keeps P (find_datastore w key d)
  unfolding find_datastore
  find_datastore-Keeps key d =
      Keeps-catch _ _ (Keeps-get w kept.stable Kind.datastore refl _)
        λ e. Keeps-if _ _ _ (search_datastore-Keeps d) (park-Keeps d _ _ _ refl)

  search_database-Keeps : (u : User) (name : String) → Keeps P (search_database w u name)
  unfolding search_database
  search_database-Keeps u name =
      Keeps-bind _ _
        (Keeps-catch _ _ (Keeps-list w kept.stable Kind.database refl)
          (λ e. park-Keeps u _ _ _ refl))
        λ items. Keeps-on_none _ _ (park-Keeps u _ _ _ refl)

  find_database-Keeps :
      (key : ObjectKey) (u : User) (ref : Option LocalObjectReference)
      → Keeps P (find_database w key u ref)
  unfolding find_database
  find_database-Keeps key u none = Keeps-pure none
  find_database-Keeps key u (some ref) =
      Keeps-bind _ _
        (Keeps-catch _ _ (Keeps-get w kept.stable Kind.database refl _)
          (λ e. Keeps-if _ _ _ (search_database-Keeps u ref.name) (park-Keeps u _ _ _ refl)))
        (λ d. Keeps-pure (some d))

  creation_time-Keeps : (at : Option Time) → Keeps P (creation_time w at)
  unfolding creation_time
  creation_time-Keeps none = search (keeps_rules, Keeps-now w kept.stable)
  creation_time-Keeps (some at) = Keeps-pure (some at)

  finish-Keeps : (d : User) → Keeps P (finish w d)
  unfolding finish
  finish-Keeps d =
      Keeps-bind _ _ (creation_time-Keeps d.status.created_at)
        λ at. Keeps-bind _ _ (save_status-Keeps (ready_at d at) refl) (λ _. Keeps-pure finished)

  provision-Keeps : (key : ObjectKey) (d : User) → Keeps P (provision w key d)
  unfolding provision create
  provision-Keeps key d = Keeps-bind _ _ (init_status-Keeps d) λ d'.
      Keeps-bind _ _ (find_datastore-Keeps key d') λ s.
        Keeps-bind _ _ (Keeps-when _ _ (park-Keeps d' _ _ _ refl)) λ _.
          Keeps-bind _ _ (find_database-Keeps key d' d'.spec.database_ref) λ db.
            Keeps-bind _ _
              (Keeps-catch _ _ (create_or_update_user-Keeps d' s db)
                (λ e. park-Keeps d' _ _ _ refl))
              (λ _. finish-Keeps d')

  body-Keeps : (key : ObjectKey) → Keeps P (body w key)
  unfolding body fetch
  body-Keeps key =
      search
        (
          keeps_rules,
          Keeps-get w kept.stable Kind.user refl,
          finalize-Keeps,
          ensure_finalizer-Keeps,
          provision-Keeps,
        )
        depth 12

pub user_reconcile-Keeps :
    (w : World) {P : Trace → Type 0}
    → IsKept w Kind.user P
    → (key : ObjectKey) (t : Trace) → P t
    → P (reconcile w key t).1
unfolding reconcile
user_reconcile-Keeps w kept key t h = settle-keeps (body-Keeps w kept key) t h
