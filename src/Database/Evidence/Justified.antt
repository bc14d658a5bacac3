-- ===== src/Database/Evidence/Justified.antt =====
-- Every write of `Reconcile` to the API server has its justification in the run.
use dbchan.Base.{◌≡◌, refl, true, false, Option, none, some, [], ◌∷◌}
use dbchan.Base.Text.{String}
use dbchan.Base.Prog.{Error, Result, ok, err}
use dbchan.Base.Prog.Triples.{
  Post, Triple, Triple-assume, Triple-bind, Triple-pure, Triple-raise, Triple-catch, Triple-weaken,
  Triple-when, Keeps, Keeps-bind, Keeps-catch, Keeps-if, Keeps-pure, Keeps-when, keeps_rules,
}
use dbchan.Api.{ObjectKey, Database, Time}
use dbchan.Cluster.{Kind, Trace, World, updated, status_updated, read_clock}
use dbchan.Cluster.Calls.{update, update_status, now}
use dbchan.Cluster.Rules.{Keeps-get, Keeps-list, Triple-ask}
use dbchan.Cluster.History.{Always}
use dbchan.Controller.{Outcome, finished, is_set}
use dbchan.Controller.Settled.{settle-keeps}
use dbchan.Database.Evidence.{IsCreated, IsDeleted, Claim}
use dbchan.Database.Evidence.Created.{
  Claims, Claims-IsStable, Created, Created-cons, create_or_update_database-Created,
}
use dbchan.Database.Evidence.Deleted.{cleanup_database-Deleted}
use dbchan.Database.Reconcile.{
  with_finalizers, unready, ready_at, fetch, save, save_status, park, finalize, ensure_finalizer,
  init_status, search_datastore, find_datastore, create, creation_time, finish, provision, body,
  reconcile,
}

module _ (w : World) where
  -- A status write that can be justified.
  save_status-Claims :
      (d : Database)
      → Triple
          (λ t. Claims t × (d.status.ready ≡ true → IsCreated d.name d.spec t))
          (save_status w d)
          (λ _. Claims)
          (λ _. Claims)
  unfolding save_status update_status
  save_status-Claims d = Triple-catch (Triple-ask _ _ go) (λ e. Triple-raise _ (λ t h. h))
    where
      go :
          (r : Result Error Database) (t : Trace)
          → Claims t × (d.status.ready ≡ true → IsCreated d.name d.spec t)
          → Post (λ _. Claims) (λ _. Claims) (r, status_updated Kind.database d r ∷ t)
      go (ok a) t (h, why) = (why, h)
      go (err e) t (h, why) = (why, h)

  save_unready-Claims : (d : Database) → d.status.ready ≡ false → Keeps Claims (save_status w d)
  save_unready-Claims d not_ready =
      Triple-weaken (save_status-Claims d) (λ t h. (h, λ e. cc)) (λ a t h. h) (λ e t h. h)

  -- `park` never comes back.
  park_end :
      {A : Type 0} {Q : A → Trace → Type 0} (d : Database) (phase message : String) (o : Outcome)
      → Triple Claims (park w {A = A} d phase message o) Q (λ _. Claims)
  unfolding park
  park_end d phase message o =
      Triple-bind (save_unready-Claims (unready d phase message) refl)
        (λ _. Triple-raise o (λ t h. h))

  park-Claims :
      {A : Type 0} (d : Database) (phase message : String) (o : Outcome)
      → Keeps Claims (park w {A = A} d phase message o)
  park-Claims d phase message o = park_end d phase message o

  save-Claims :
      (d : Database)
      → Triple
          (λ t. Claims t × (is_set d.deletion_timestamp ≡ true → IsDeleted d t))
          (save w d)
          (λ _. Claims)
          (λ _. Claims)
  unfolding save update
  save-Claims d = Triple-catch (Triple-ask _ _ go) (λ e. Triple-raise _ (λ t h. h))
    where
      go :
          (r : Result Error Database) (t : Trace)
          → Claims t × (is_set d.deletion_timestamp ≡ true → IsDeleted d t)
          → Post (λ _. Claims) (λ _. Claims) (r, updated Kind.database d r ∷ t)
      go (ok a) t (h, why) = (why, h)
      go (err e) t (h, why) = (why, h)

  finalize-Claims :
      (d : Database) {Q : Unit {0} → Trace → Type 0} → Triple Claims (finalize w d) Q (λ _. Claims)
  unfolding finalize
  finalize-Claims d =
      Triple-bind
        (Triple-when (w.contains_finalizer _ _)
          (λ _.
            Triple-bind
              (Triple-catch (cleanup_database-Deleted w d) (λ e. Triple-raise _ (λ t h. h)))
              λ _.
                Triple-bind
                  (Triple-weaken (save-Claims (with_finalizers d _)) (λ t h. (h.0, λ _. h.1))
                    (λ a t h. h) (λ e t h. h))
                  (λ _. Triple-pure tt (λ t h. h)))
          (λ _ t h. h))
        (λ _. Triple-raise finished (λ t h. h))

  ensure_finalizer-Claims :
      (d : Database) → is_set d.deletion_timestamp ≡ false → Keeps Claims (ensure_finalizer w d)
  unfolding ensure_finalizer
  ensure_finalizer-Claims d alive = Keeps-if _ _ _ (Keeps-pure d) (
      Triple-weaken (save-Claims (with_finalizers d _)) (λ t h. (h, λ dead. cc)) (λ a t h. h)
        (λ e t h. h))

  search_datastore-Claims : (d : Database) → Keeps Claims (search_datastore w d)
  unfolding search_datastore
  search_datastore-Claims d =
      Keeps-bind _ _
        (search (keeps_rules, Keeps-list w Claims-IsStable Kind.datastore refl, park-Claims))
        λ items. search (keeps_rules, park-Claims)

  find_datastore-Claims : (key : ObjectKey) (d : Database) → Keeps Claims (find_datastore w key d)
  unfolding find_datastore
  find_datastore-Claims key d =
      Keeps-catch _ _ (Keeps-get w Claims-IsStable Kind.datastore refl _)
        λ e. search (keeps_rules, park-Claims, search_datastore-Claims)

  creation_time-Created :
      (d : Database) (at : Option Time)
      → Triple (Created w d) (creation_time w at) (λ _. Created w d) (λ _. Claims)
  unfolding creation_time now
  creation_time-Created d (some at) = Triple-pure _ (λ t h. h)
  creation_time-Created d none =
      Triple-bind {M = λ _. Created w d}
        (record { at = λ t h. Created-cons w d (read_clock (w.now t)) t h tt })
        λ at. Triple-pure _ (λ t h. h)

  finish-Claims : (d : Database) → Triple (Created w d) (finish w d) (λ _. Claims) (λ _. Claims)
  unfolding finish
  finish-Claims d = Triple-bind (creation_time-Created d d.status.created_at) λ at.
      Triple-bind
        (Triple-weaken (save_status-Claims (ready_at d at)) (λ t h. (h.0, λ _. h.1)) (λ a t h. h)
          (λ e t h. h))
        (λ _. Triple-pure finished (λ t h. h))

  init_status-Claims : (d : Database) → Keeps Claims (init_status w d)
  unfolding init_status
  init_status-Claims d =
      Keeps-if _ _ _ (save_unready-Claims (unready d "Creating" "Creating database") refl)
        (Keeps-pure d)

  provision-Claims : (key : ObjectKey) (d : Database) → Keeps Claims (provision w key d)
  unfolding provision create
  provision-Claims key d = Triple-bind (init_status-Claims d) λ d'.
      Triple-bind (find_datastore-Claims key d') λ datastore.
        Triple-bind (Keeps-when _ _ (park-Claims d' _ _ _)) λ _.
          Triple-bind
            (Triple-catch (create_or_update_database-Created w d' datastore)
              (λ e. park_end d' _ _ _))
            (λ _. finish-Claims d')

  fetch-Claims : (key : ObjectKey) → Keeps Claims (fetch w key)
  unfolding fetch
  fetch-Claims key = search (keeps_rules, Keeps-get w Claims-IsStable Kind.database refl)

  body-Claims : (key : ObjectKey) → Keeps Claims (body w key)
  unfolding body
  body-Claims key = Triple-bind (fetch-Claims key) λ d.
      Triple-bind {M = λ _ t. Claims t × (is_set d.deletion_timestamp ≡ false)}
        (Triple-when _ (λ _. finalize-Claims d) (λ alive t h. (h, alive)))
        λ _.
          Triple-assume
            λ alive. Triple-bind (ensure_finalizer-Claims d alive) (λ d'. provision-Claims key d')

pub database_reconcile-Keeps-Claims :
    (w : World) (key : ObjectKey) (t : Trace) → Claims t → Claims (reconcile w key t).1
unfolding reconcile
database_reconcile-Keeps-Claims w key t h = settle-keeps (body-Claims w key) t h

-- In a run of `Reconcile` of a database, whatever the world answers: a status that is `ready` is written
-- only after a statement that creates the database ran without an error, or after the server answered
-- that the database exists; and an object that is being deleted is updated, which is how its finalizer
-- goes, only after the database was dropped, or after its datastore was reported not to exist.
pub database_reconcile-Claims : (w : World) (key : ObjectKey) → Always Claim (reconcile w key []).1
database_reconcile-Claims w key = database_reconcile-Keeps-Claims w key [] tt
