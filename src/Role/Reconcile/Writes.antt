-- ===== src/Role/Reconcile/Writes.antt =====
-- What every run of the role controller keeps: it writes objects of its own kind only, and every status
-- that it writes is coherent.
use dbchan.Base.{◌≡◌, refl, Bool, false, Option, none, some}
use dbchan.Base.Text.{String, ◌==◌}
use dbchan.Base.Prog.Triples.{
  Keeps, Keeps-bind, Keeps-catch, Keeps-pure, Keeps-raise, Keeps-when, keeps_rules,
}
use dbchan.Api.{ObjectKey, LocalObjectReference, Secret, Datastore, Database, DatabaseRole}
use dbchan.Cluster.{Kind, Conn, Trace, World}
use dbchan.Cluster.Rules.{Keeps-get, Keeps-now, Keeps-open_pool, Keeps-ping, Keeps-close}
use dbchan.Connection.{Dialect, mysql, postgres, sqlserver, unsupported}
use dbchan.Connection.Rules.{Triple-defer_close}
use dbchan.Controller.{failed, finished}
use dbchan.Controller.Coherent.{IsKept}
use dbchan.Controller.Settled.{settle-keeps}
use dbchan.Role.Statements.{
  grant_each, create_unless_exists, create_or_update_mysql_role, create_or_update_postgre_sql_role,
  create_or_update_sql_server_role, drop_mysql_role,
}
use dbchan.Role.Provision.{
  open_and_test, connect, create_as, create_or_update_role, delete_as, delete_role,
}
use dbchan.Role.Reconcile.{
  fetch, save, update_role_status, park, delete_found, delete_with_secret, delete_if_found,
  handle_deletion, ensure_finalizer, find_datastore, find_database, find_secret, create, provision,
  body, reconcile,
}

module _ (w : World) {P : Trace → Type 0} (kept : IsKept w Kind.role P) where
  connect-Keeps : (source ty : String) → Keeps P (connect w source ty)
  unfolding connect open_and_test
  connect-Keeps source ty =
      search
        (
          keeps_rules,
          Keeps-open_pool w kept.stable,
          Keeps-ping w kept.stable,
          Keeps-close kept.stable,
        )
        depth 12

  create_as-Keeps :
      (c : Conn) (a : Dialect) (ty : String) (r : DatabaseRole) (d : Option Database)
      → Keeps P (create_as w c a ty r d)
  unfolding create_as create_or_update_mysql_role create_or_update_postgre_sql_role
      create_or_update_sql_server_role grant_each create_unless_exists
  create_as-Keeps c mysql ty r d = search (keeps_rules, kept.on_exec) depth 12
  create_as-Keeps c postgres ty r d = search (keeps_rules, kept.on_exec) depth 12
  create_as-Keeps c sqlserver ty r d = search (keeps_rules, kept.on_exec) depth 12
  create_as-Keeps c unsupported ty r d = Keeps-raise _

  delete_as-Keeps :
      (c : Conn) (a : Dialect) (ty : String) (r : DatabaseRole) → Keeps P (delete_as w c a ty r)
  unfolding delete_as drop_mysql_role
  delete_as-Keeps c mysql ty r = search (keeps_rules, kept.on_exec) depth 12
  delete_as-Keeps c postgres ty r = search (keeps_rules, kept.on_exec) depth 12
  delete_as-Keeps c sqlserver ty r = search (keeps_rules, kept.on_exec) depth 12
  delete_as-Keeps c unsupported ty r = Keeps-raise _

  create_or_update_role-Keeps :
      (r : DatabaseRole) (s : Datastore) (d : Option Database) (secret : Secret)
      → Keeps P (create_or_update_role w r s d secret)
  unfolding create_or_update_role
  create_or_update_role-Keeps r s d secret =
      Keeps-bind _ _ (Keeps-catch _ _ (connect-Keeps _ _) (λ e. Keeps-raise _)) λ c.
        Triple-defer_close c (λ a t h. kept.stable.on_closed c t h)
          (λ e t h. kept.stable.on_closed c t h) (create_as-Keeps c _ _ r d)

  delete_role-Keeps :
      (r : DatabaseRole) (s : Datastore) (secret : Secret) → Keeps P (delete_role w r s secret)
  unfolding delete_role
  delete_role-Keeps r s secret =
      Keeps-bind _ _ (Keeps-catch _ _ (connect-Keeps _ _) (λ e. Keeps-raise _)) λ c.
        Triple-defer_close c (λ a t h. kept.stable.on_closed c t h)
          (λ e t h. kept.stable.on_closed c t h) (delete_as-Keeps c _ _ r)

  update_role_status-Keeps :
      (r : DatabaseRole) (phase : String) (ready created : Bool) (message : String)
      → ready ≡ (phase == "Ready")
      → Keeps P (update_role_status w r phase ready created message)
  unfolding update_role_status
  update_role_status-Keeps r phase ready created message good =
      Keeps-bind _ _ (Keeps-now w kept.stable) λ at.
        Keeps-bind _ _
          (Keeps-catch _ _ (kept.on_update_status _ good) (λ e. Keeps-raise (failed e)))
          (λ _. Keeps-pure finished)

  park-Keeps :
      {A : Type 0} (r : DatabaseRole) (phase message : String)
      → false ≡ (phase == "Ready")
      → Keeps P (park w {A = A} r phase message)
  unfolding park
  park-Keeps r phase message good =
      Keeps-bind _ _ (update_role_status-Keeps r phase false false message good)
        (λ o. Keeps-raise o)

  delete_found-Keeps :
      (r : DatabaseRole) (s : Datastore) (found : Option Secret)
      → Keeps P (delete_found w r s found)
  unfolding delete_found
  delete_found-Keeps r s none = Keeps-pure tt
  delete_found-Keeps r s (some secret) =
      Keeps-catch _ _ (delete_role-Keeps r s secret) (λ e. Keeps-raise (failed e))

  delete_with_secret-Keeps :
      (r : DatabaseRole) (found : Option Datastore) → Keeps P (delete_with_secret w r found)
  unfolding delete_with_secret
  delete_with_secret-Keeps r none = Keeps-pure tt
  delete_with_secret-Keeps r (some s) =
      Keeps-bind _ _ (search (keeps_rules, Keeps-get w kept.stable Kind.secret refl))
        (delete_found-Keeps r s)

  handle_deletion-Keeps : (r : DatabaseRole) → Keeps P (handle_deletion w r)
  unfolding handle_deletion delete_if_found save
  handle_deletion-Keeps r =
      Keeps-bind _ _
        (Keeps-bind _ _ (search (keeps_rules, Keeps-get w kept.stable Kind.datastore refl))
          (delete_with_secret-Keeps r))
        (λ _. search (keeps_rules, kept.on_update))

  ensure_finalizer-Keeps : (r : DatabaseRole) → Keeps P (ensure_finalizer w r)
  unfolding ensure_finalizer save
  ensure_finalizer-Keeps r = search (keeps_rules, kept.on_update) depth 12

  find_database-Keeps :
      (r : DatabaseRole) (ref : Option LocalObjectReference) → Keeps P (find_database w r ref)
  unfolding find_database
  find_database-Keeps r none = Keeps-pure none
  find_database-Keeps r (some ref) =
      Keeps-bind _ _
        (Keeps-catch _ _ (Keeps-get w kept.stable Kind.database refl _)
          (λ e. park-Keeps r _ _ refl))
        λ d. Keeps-bind _ _ (Keeps-when _ _ (park-Keeps r _ _ refl)) (λ _. Keeps-pure (some d))

  provision-Keeps : (r : DatabaseRole) → Keeps P (provision w r)
  unfolding provision find_datastore find_secret create
  provision-Keeps r =
      Keeps-bind _ _
        (Keeps-catch _ _ (Keeps-get w kept.stable Kind.datastore refl _)
          (λ e. park-Keeps r _ _ refl))
        λ s. Keeps-bind _ _ (Keeps-when _ _ (park-Keeps r _ _ refl)) λ _.
          Keeps-bind _ _ (find_database-Keeps r r.spec.database_ref) λ d.
            Keeps-bind _ _
              (Keeps-catch _ _ (Keeps-get w kept.stable Kind.secret refl _)
                (λ e. park-Keeps r _ _ refl))
              λ secret.
                Keeps-bind _ _
                  (Keeps-catch _ _ (create_or_update_role-Keeps r s d secret)
                    (λ e. park-Keeps r _ _ refl))
                  (λ _. update_role_status-Keeps r _ _ _ _ refl)

  body-Keeps : (key : ObjectKey) → Keeps P (body w key)
  unfolding body fetch
  body-Keeps key =
      search
        (
          keeps_rules,
          Keeps-get w kept.stable Kind.role refl,
          handle_deletion-Keeps,
          ensure_finalizer-Keeps,
          provision-Keeps,
        )
        depth 12

pub role_reconcile-Keeps :
    (w : World) {P : Trace → Type 0}
    → IsKept w Kind.role P
    → (key : ObjectKey) (t : Trace) → P t
    → P (reconcile w key t).1
unfolding reconcile
role_reconcile-Keeps w kept key t h = settle-keeps (body-Keeps w kept key) t h
