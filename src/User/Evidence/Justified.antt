-- ===== src/User/Evidence/Justified.antt =====
-- Every write of `Reconcile` to the API server has its justification in the run.
use dbchan.Base.{◌≡◌, refl, true, false, Option, none, some, [], ◌∷◌}
use dbchan.Base.Text.{String}
use dbchan.Base.Prog.{Error, Result, ok, err}
use dbchan.Base.Prog.Triples.{
  Post, Triple, Triple-assume, Triple-bind, Triple-pure, Triple-raise, Triple-catch, Triple-weaken,
  Triple-when, Keeps, Keeps-bind, Keeps-catch, Keeps-if, Keeps-pure, Keeps-when, keeps_rules,
}
use dbchan.Api.{ObjectKey, LocalObjectReference, User, Time}
use dbchan.Cluster.{Kind, Trace, World, updated, status_updated}
use dbchan.Cluster.Calls.{update, update_status, now}
use dbchan.Cluster.Rules.{Keeps-get, Keeps-list, Triple-ask}
use dbchan.Cluster.History.{Always}
use dbchan.Controller.{Outcome, finished, is_set}
use dbchan.Controller.Settled.{settle-keeps}
use dbchan.User.Evidence.{IsNamed, IsCreated, IsDeleted, Claim}
use dbchan.User.Evidence.Lasting.{Claims, Claims-IsStable, Created, IsCreated-cons}
use dbchan.User.Evidence.Created.{create_or_update_user-Created}
use dbchan.User.Evidence.Deleted.{cleanup_user-Deleted}
use dbchan.User.Reconcile.{
  with_finalizers, unready, creating, ready_at, fetch, save, save_status, park, finalize,
  ensure_finalizer, init_status, search_datastore, search_database, find_datastore, find_database,
  create, creation_time, finish, provision, body, reconcile,
}

module _ (w : World) where
  -- A status write that can be justified.
  save_status-Claims :
      (u : User)
      → Triple
          (λ t. Claims w t × (u.status.ready ≡ true → IsCreated w u t))
          (save_status w u)
          (λ _. Claims w)
          (λ _. Claims w)
  unfolding save_status update_status
  save_status-Claims u = Triple-catch (Triple-ask _ _ go) (λ e. Triple-raise _ (λ t h. h))
    where
      go :
          (r : Result Error User) (t : Trace)
          → Claims w t × (u.status.ready ≡ true → IsCreated w u t)
          → Post (λ _. Claims w) (λ _. Claims w) (r, status_updated Kind.user u r ∷ t)
      go (ok a) t (h, why) = (why, h)
      go (err e) t (h, why) = (why, h)

  save_unready-Claims : (u : User) → u.status.ready ≡ false → Keeps (Claims w) (save_status w u)
  save_unready-Claims u not_ready =
      Triple-weaken (save_status-Claims u) (λ t h. (h, λ e. cc)) (λ a t h. h) (λ e t h. h)

  -- `park` never comes back.
  park_end :
      {A : Type 0} {Q : A → Trace → Type 0} (u : User) (phase message : String) (o : Outcome)
      → Triple (Claims w) (park w {A = A} u phase message o) Q (λ _. Claims w)
  unfolding park
  park_end u phase message o =
      Triple-bind (save_unready-Claims (unready u phase message) refl)
        (λ _. Triple-raise o (λ t h. h))

  park-Claims :
      {A : Type 0} (u : User) (phase message : String) (o : Outcome)
      → Keeps (Claims w) (park w {A = A} u phase message o)
  park-Claims u phase message o = park_end u phase message o

  save-Claims :
      (u : User)
      → Triple
          (λ t. Claims w t × (is_set u.deletion_timestamp ≡ true → IsDeleted u t))
          (save w u)
          (λ _. Claims w)
          (λ _. Claims w)
  unfolding save update
  save-Claims u = Triple-catch (Triple-ask _ _ go) (λ e. Triple-raise _ (λ t h. h))
    where
      go :
          (r : Result Error User) (t : Trace)
          → Claims w t × (is_set u.deletion_timestamp ≡ true → IsDeleted u t)
          → Post (λ _. Claims w) (λ _. Claims w) (r, updated Kind.user u r ∷ t)
      go (ok a) t (h, why) = (why, h)
      go (err e) t (h, why) = (why, h)

  finalize-Claims :
      (u : User) {Q : Unit {0} → Trace → Type 0}
      → Triple (Claims w) (finalize w u) Q (λ _. Claims w)
  unfolding finalize
  finalize-Claims u =
      Triple-bind
        (Triple-when (w.contains_finalizer _ _)
          (λ _.
            Triple-bind (Triple-catch (cleanup_user-Deleted w u) (λ e. Triple-raise _ (λ t h. h)))
              λ _.
                Triple-bind
                  (Triple-weaken (save-Claims (with_finalizers u _)) (λ t h. (h.0, λ _. h.1))
                    (λ a t h. h) (λ e t h. h))
                  (λ _. Triple-pure tt (λ t h. h)))
          (λ _ t h. h))
        (λ _. Triple-raise finished (λ t h. h))

  ensure_finalizer-Claims :
      (u : User) → is_set u.deletion_timestamp ≡ false → Keeps (Claims w) (ensure_finalizer w u)
  unfolding ensure_finalizer
  ensure_finalizer-Claims u alive = Keeps-if _ _ _ (Keeps-pure u) (
      Triple-weaken (save-Claims (with_finalizers u _)) (λ t h. (h, λ dead. cc)) (λ a t h. h)
        (λ e t h. h))

  search_datastore-Claims : (u : User) → Keeps (Claims w) (search_datastore w u)
  unfolding search_datastore
  search_datastore-Claims u =
      Keeps-bind _ _
        (search (keeps_rules, Keeps-list w (Claims-IsStable w) Kind.datastore refl, park-Claims))
        λ items. search (keeps_rules, park-Claims)

  search_database-Claims : (u : User) (name : String) → Keeps (Claims w) (search_database w u name)
  unfolding search_database
  search_database-Claims u name =
      Keeps-bind _ _
        (search (keeps_rules, Keeps-list w (Claims-IsStable w) Kind.database refl, park-Claims))
        λ items. search (keeps_rules, park-Claims)

  find_datastore-Claims : (key : ObjectKey) (u : User) → Keeps (Claims w) (find_datastore w key u)
  unfolding find_datastore
  find_datastore-Claims key u =
      Keeps-catch _ _ (Keeps-get w (Claims-IsStable w) Kind.datastore refl _)
        λ e. search (keeps_rules, park-Claims, search_datastore-Claims)

  find_database-Claims :
      (key : ObjectKey) (u : User) (ref : Option LocalObjectReference)
      → Triple
          (Claims w)
          (find_database w key u ref)
          (λ d t. Claims w t × IsNamed ref d)
          (λ _. Claims w)
  unfolding find_database
  find_database-Claims key u none = Triple-pure none (λ t h. (h, tt))
  find_database-Claims key u (some ref) =
      Triple-bind
        (Keeps-catch _ _ (Keeps-get w (Claims-IsStable w) Kind.database refl _)
          (λ e. search (keeps_rules, park-Claims, search_database-Claims)))
        (λ d. Triple-pure (some d) (λ t h. (h, tt)))

  creation_time-Created :
      (u : User) (at : Option Time)
      → Triple (Created w u) (creation_time w at) (λ _. Created w u) (λ _. Claims w)
  unfolding creation_time now
  creation_time-Created u (some at) = Triple-pure _ (λ t h. h)
  creation_time-Created u none =
      Triple-bind {M = λ _. Created w u}
        (record { at = λ t h. ((tt, h.0), IsCreated-cons w u _ t h.1) })
        λ at. Triple-pure _ (λ t h. h)

  finish-Claims : (u : User) → Triple (Created w u) (finish w u) (λ _. Claims w) (λ _. Claims w)
  unfolding finish
  finish-Claims u = Triple-bind (creation_time-Created u u.status.created_at) λ at.
      Triple-bind
        (Triple-weaken (save_status-Claims (ready_at u at)) (λ t h. (h.0, λ _. moved at t h.1))
          (λ a t h. h) (λ e t h. h))
        (λ _. Triple-pure finished (λ t h. h))
    where
      -- The evidence speaks of the specification only.
      moved : (at : Option Time) (t : Trace) → IsCreated w u t → IsCreated w (ready_at u at) t
      moved at t h = record {
        protected = record {
          password = h.protected.password;
          decoded = h.protected.decoded;
          statement = h.protected.statement;
          sets = h.protected.sets;
          ran = h.protected.ran;
        };
        kind = h.kind;
        database = h.database;
        named = h.named;
        privileged = h.privileged;
      }

  init_status-Claims : (u : User) → Keeps (Claims w) (init_status w u)
  unfolding init_status
  init_status-Claims u = Keeps-if _ _ _ (save_unready-Claims (creating u) refl) (Keeps-pure u)

  provision-Claims : (key : ObjectKey) (u : User) → Keeps (Claims w) (provision w key u)
  unfolding provision create
  provision-Claims key u = Triple-bind (init_status-Claims u) λ u'.
      Triple-bind (find_datastore-Claims key u') λ d.
        Triple-bind (Keeps-when _ _ (park-Claims u' _ _ _)) λ _.
          Triple-bind (find_database-Claims key u' _) λ o. Triple-assume λ named.
            Triple-bind
              (Triple-catch (create_or_update_user-Created w u' d o named) (λ e. park_end u' _ _ _))
              (λ _. finish-Claims u')

  fetch-Claims : (key : ObjectKey) → Keeps (Claims w) (fetch w key)
  unfolding fetch
  fetch-Claims key = search (keeps_rules, Keeps-get w (Claims-IsStable w) Kind.user refl)

  body-Claims : (key : ObjectKey) → Keeps (Claims w) (body w key)
  unfolding body
  body-Claims key = Triple-bind (fetch-Claims key) λ u.
      Triple-bind {M = λ _ t. Claims w t × (is_set u.deletion_timestamp ≡ false)}
        (Triple-when _ (λ _. finalize-Claims u) (λ alive t h. (h, alive)))
        λ _.
          Triple-assume
            λ alive. Triple-bind (ensure_finalizer-Claims u alive) (λ u'. provision-Claims key u')

pub user_reconcile-Keeps-Claims :
    (w : World) (key : ObjectKey) (t : Trace) → Claims w t → Claims w (reconcile w key t).1
unfolding reconcile
user_reconcile-Keeps-Claims w key t h = settle-keeps (body-Claims w key) t h

-- In a run of `Reconcile` of a user, whatever the world answers: a status that is `ready` is
-- written only after a statement that gives the account of the user its decoded password ran
-- without an error, and, in the dialect of that statement, a grant of each of its privileges did
-- (on SQL Server only for a user that names a database); and an object that is being deleted is
-- updated, which is how its finalizer goes, only after the account was dropped, or after its
-- datastore was reported not to exist.
pub user_reconcile-Claims : (w : World) (key : ObjectKey) → Always (Claim w) (reconcile w key []).1
user_reconcile-Claims w key = user_reconcile-Keeps-Claims w key [] tt
