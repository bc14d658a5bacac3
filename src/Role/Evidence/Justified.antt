-- ===== src/Role/Evidence/Justified.antt =====
-- Every status of `Reconcile` that is ready has its justification in the run.
use dbchan.Base.{refl}
use dbchan.Base.{◌≡◌, Bool, true, false, Option, none, some, [], ◌∷◌}
use dbchan.Base.Text.{String}
use dbchan.Base.Prog.{Error, Result, ok, err}
use dbchan.Base.Prog.Triples.{
  Post, Triple, Triple-bind, Triple-pure, Triple-raise, Triple-catch, Triple-weaken, Keeps,
  Keeps-bind, Keeps-catch, Keeps-pure, Keeps-raise, Keeps-when, keeps_rules,
}
use dbchan.Api.{ObjectKey, LocalObjectReference, Secret, Datastore, DatabaseRole}
use dbchan.Cluster.{Kind, Trace, World, status_updated, read_clock}
use dbchan.Cluster.Calls.{update, update_status, now}
use dbchan.Cluster.Rules.{Keeps-get, Keeps-ask, Triple-ask}
use dbchan.Cluster.History.{Always}
use dbchan.Connection.Rules.{Triple-defer_close}
use dbchan.Controller.{finished}
use dbchan.Controller.Settled.{settle-keeps}
use dbchan.Role.Statements.{drop_mysql_role}
use dbchan.Role.Provision.{delete_as, delete_role}
use dbchan.Role.Evidence.{IsCreated, Claim}
use dbchan.Role.Evidence.Created.{
  Claims, Claims-IsStable, IsCreated-cons, Keeps-connect, create_or_update_role-Created,
  exec-Claims,
}
use dbchan.Role.Reconcile.{
  with_status, fetch, save, update_role_status, park, delete_found, delete_with_secret,
  delete_if_found, handle_deletion, ensure_finalizer, find_datastore, find_database, find_secret,
  create, provision, body, reconcile,
}
use dbchan.Connection.{Dialect, mysql, postgres, sqlserver, unsupported}
use dbchan.Cluster.{Conn}

module _ (w : World) where
  -- A status that can be justified.
  write-Claims :
      (r : DatabaseRole)
      → Triple
          (λ t. Claims t × (r.status.ready ≡ true → IsCreated r.name r.spec t))
          (update_status w Kind.role r)
          (λ _. Claims)
          (λ _. Claims)
  unfolding update_status
  write-Claims r = Triple-ask _ _ go
    where
      go :
          (a : Result Error DatabaseRole) (t : Trace)
          → Claims t × (r.status.ready ≡ true → IsCreated r.name r.spec t)
          → Post (λ _. Claims) (λ _. Claims) (a, status_updated Kind.role r a ∷ t)
      go (ok a) t (h, why) = (why, h)
      go (err e) t (h, why) = (why, h)

  update_role_status-Claims :
      (r : DatabaseRole) (phase : String) (ready created : Bool) (message : String)
      → Triple
          (λ t. Claims t × (ready ≡ true → IsCreated r.name r.spec t))
          (update_role_status w r phase ready created message)
          (λ _. Claims)
          (λ _. Claims)
  unfolding update_role_status now
  update_role_status-Claims r phase ready created message =
      Triple-bind {M = λ _ t. Claims t × (ready ≡ true → IsCreated r.name r.spec t)}
        (record {
          at = λ t h. ((tt, h.0), λ yes. IsCreated-cons r (read_clock (w.now t)) t (h.1 yes));
        })
        λ at.
          Triple-bind
            (Triple-catch (write-Claims (with_status r phase ready created message at))
              (λ e. Triple-raise _ (λ t h. h)))
            (λ _. Triple-pure finished (λ t h. h))

  park_end :
      {A : Type 0} {Q : A → Trace → Type 0} (r : DatabaseRole) (phase message : String)
      → Triple Claims (park w {A = A} r phase message) Q (λ _. Claims)
  unfolding park
  park_end r phase message =
      Triple-bind
        (Triple-weaken (update_role_status-Claims r phase false false message) (λ t h. (h, λ e. cc))
          (λ a t h. h) (λ e t h. h))
        (λ o. Triple-raise o (λ t h. h))

  park-Claims :
      {A : Type 0} (r : DatabaseRole) (phase message : String)
      → Keeps Claims (park w {A = A} r phase message)
  park-Claims r phase message = park_end r phase message

  save-Claims : (r : DatabaseRole) → Keeps Claims (save w r)
  unfolding save update
  save-Claims r = Keeps-catch _ _ (Keeps-ask _ _ (λ a t h. (tt, h))) (λ e. Keeps-raise _)

  delete_as-Claims :
      (c : Conn) (k : Dialect) (ty : String) (r : DatabaseRole)
      → Keeps Claims (delete_as w c k ty r)
  unfolding delete_as drop_mysql_role
  delete_as-Claims c mysql ty r = search (keeps_rules, exec-Claims) depth 12
  delete_as-Claims c postgres ty r = search (keeps_rules, exec-Claims) depth 12
  delete_as-Claims c sqlserver ty r = search (keeps_rules, exec-Claims) depth 12
  delete_as-Claims c unsupported ty r = Keeps-raise _

  delete_role-Claims :
      (r : DatabaseRole) (datastore : Datastore) (s : Secret)
      → Keeps Claims (delete_role w r datastore s)
  unfolding delete_role
  delete_role-Claims r datastore s =
      Triple-bind {M = λ _. Claims}
        (Keeps-catch _ _ (Keeps-connect w Claims-IsStable _ _) (λ e. Keeps-raise _))
        λ c. Triple-defer_close c (λ a t h. (tt, h)) (λ e t h. (tt, h)) (delete_as-Claims c _ _ r)

  delete_found-Claims :
      (r : DatabaseRole) (datastore : Datastore) (o : Option Secret)
      → Keeps Claims (delete_found w r datastore o)
  unfolding delete_found
  delete_found-Claims r datastore none = Keeps-pure tt
  delete_found-Claims r datastore (some s) = search (keeps_rules, delete_role-Claims)

  delete_with_secret-Claims :
      (r : DatabaseRole) (o : Option Datastore) → Keeps Claims (delete_with_secret w r o)
  unfolding delete_with_secret
  delete_with_secret-Claims r none = Keeps-pure tt
  delete_with_secret-Claims r (some datastore) =
      Keeps-bind _ _ (search (keeps_rules, Keeps-get w Claims-IsStable Kind.secret refl))
        (λ o. delete_found-Claims r datastore o)

  handle_deletion-Claims : (r : DatabaseRole) → Keeps Claims (handle_deletion w r)
  unfolding handle_deletion delete_if_found
  handle_deletion-Claims r =
      Keeps-bind _ _
        (Keeps-bind _ _ (search (keeps_rules, Keeps-get w Claims-IsStable Kind.datastore refl))
          (λ o. delete_with_secret-Claims r o))
        (λ _. search (keeps_rules, save-Claims))

  ensure_finalizer-Claims : (r : DatabaseRole) → Keeps Claims (ensure_finalizer w r)
  unfolding ensure_finalizer
  ensure_finalizer-Claims r = search (keeps_rules, save-Claims)

  find_database-Claims :
      (r : DatabaseRole) (o : Option LocalObjectReference) → Keeps Claims (find_database w r o)
  unfolding find_database
  find_database-Claims r none = Keeps-pure none
  find_database-Claims r (some ref) =
      search (keeps_rules, Keeps-get w Claims-IsStable Kind.database refl, park-Claims) depth 12

  find_datastore-Claims : (r : DatabaseRole) → Keeps Claims (find_datastore w r)
  unfolding find_datastore
  find_datastore-Claims r =
      search (keeps_rules, Keeps-get w Claims-IsStable Kind.datastore refl, park-Claims)

  find_secret-Claims : (r : DatabaseRole) (d : Datastore) → Keeps Claims (find_secret w r d)
  unfolding find_secret
  find_secret-Claims r d =
      search (keeps_rules, Keeps-get w Claims-IsStable Kind.secret refl, park-Claims)

  provision-Claims : (r : DatabaseRole) → Keeps Claims (provision w r)
  unfolding provision create
  provision-Claims r = Triple-bind (find_datastore-Claims r) λ datastore.
      Triple-bind (Keeps-when _ _ (park-Claims r _ _)) λ _.
        Triple-bind (find_database-Claims r _) λ d.
          Triple-bind (find_secret-Claims r datastore) λ s.
            Triple-bind
              (Triple-catch (create_or_update_role-Created w r datastore d s) (λ e. park_end r _ _))
              λ _.
                Triple-weaken (update_role_status-Claims r "Ready" true true _)
                  (λ t h. (h.0, λ _. h.1)) (λ a t h. h) (λ e t h. h)

  fetch-Claims : (key : ObjectKey) → Keeps Claims (fetch w key)
  unfolding fetch
  fetch-Claims key = search (keeps_rules, Keeps-get w Claims-IsStable Kind.role refl)

  body-Claims : (key : ObjectKey) → Keeps Claims (body w key)
  unfolding body
  body-Claims key =
      search
        (
          keeps_rules, fetch-Claims, handle_deletion-Claims, ensure_finalizer-Claims,
          provision-Claims,
        )
        depth 12

pub role_reconcile-Keeps-Claims :
    (w : World) (key : ObjectKey) (t : Trace) → Claims t → Claims (reconcile w key t).1
unfolding reconcile
role_reconcile-Keeps-Claims w key t h = settle-keeps (body-Claims w key) t h

-- In a run of `Reconcile` of a role, whatever the world answers, a status that is `ready` is written only
-- after the role was created, or was reported to be there, and a grant of each of its privileges ran
-- without an error, all with the statements of one of the three dialects.
pub role_reconcile-Claims : (w : World) (key : ObjectKey) → Always Claim (reconcile w key []).1
role_reconcile-Claims w key = role_reconcile-Keeps-Claims w key [] tt
