-- ===== src/User/Reconcile/Reported.antt =====
-- The result of a run of the user controller says what it left.
use dbchan.Base.{refl, Option, none, some}
use dbchan.Base.Text.{String, ◌==◌}
use dbchan.Base.Prog.Triples.{
  Triple, Triple-bind, Triple-catch, Triple-if, Triple-on_none, Triple-pure, Triple-raise,
  Triple-weaken, Triple-when,
}
use dbchan.Api.{ObjectKey, Time, LocalObjectReference, User}
use dbchan.Cluster.{Kind, Trace, World}
use dbchan.Cluster.Calls.{now}
use dbchan.Cluster.History.{Newest}
use dbchan.Controller.{Outcome, finished, failed}
use dbchan.Controller.Reported.{
  Unready, Quiet, IsReported, finished-IsReported, retry_later-IsReported, failed-IsReported,
  Triple-unknown, fetch-Quiet, update-Quiet, update_status-Reported,
}
use dbchan.Controller.Settled.{settle-Triple}
use dbchan.User.Reconcile.{
  unready, ready_at, fetch, save, save_status, park, finalize, ensure_finalizer, init_status,
  search_datastore, find_datastore, find_database, search_database, create, creation_time, finish,
  provision, body, reconcile,
}

module _ (w : World) where
  -- `park` never comes back, and its result is reported if it is `retry_later` or an error.
  park-Reported :
      {A : Type 0} {Q : A → Trace → Type 0} (d : User) (phase message : String) (o : Outcome)
      → ((t : Trace) → Newest Unready t → IsReported o t)
      → Triple (λ t. Unit) (park w {A = A} d phase message o) Q IsReported
  unfolding park save_status
  park-Reported d phase message o reported =
      Triple-bind
        (update_status-Reported w Kind.user {Q = Newest Unready} (unready d phase message)
          (λ r t. refl))
        (λ a. Triple-raise o reported)

  finalize-Reported :
      (d : User) {Q : Unit {0} → Trace → Type 0} → Triple Quiet (finalize w d) Q IsReported
  unfolding finalize save
  finalize-Reported d =
      Triple-bind {M = λ _. Quiet}
        (Triple-when _
          (λ _.
            Triple-bind
              (Triple-catch (Triple-weaken (Triple-unknown _) (λ t h. tt) (λ a t h. h) (λ e t h. h))
                (λ e. Triple-raise (failed e) (λ t h. failed-IsReported e t)))
              λ u. Triple-bind (update-Quiet w Kind.user _) (λ a. Triple-pure tt (λ t h. h)))
          (λ _ t h. h))
        (λ _. Triple-raise finished finished-IsReported)

  ensure_finalizer-Reported :
      (d : User) → Triple (λ t. Unit) (ensure_finalizer w d) (λ a t. Unit) IsReported
  unfolding ensure_finalizer save
  ensure_finalizer-Reported d =
      Triple-if (w.contains_finalizer d.finalizers _) (λ _. Triple-pure d (λ t h. tt))
        (λ _. Triple-weaken (update-Quiet w Kind.user _) (λ t h. h) (λ a t h. tt) (λ e t h. h))

  init_status-Reported : (d : User) → Triple (λ t. Unit) (init_status w d) (λ a t. Unit) IsReported
  unfolding init_status save_status
  init_status-Reported d =
      Triple-if (d.status.phase == "")
        (λ _. update_status-Reported w Kind.user {Q = λ t. Unit} _ (λ r t. tt))
        (λ _. Triple-pure d (λ t h. tt))

  find_datastore-Reported :
      (key : ObjectKey) (d : User)
      → Triple (λ t. Unit) (find_datastore w key d) (λ a t. Unit) IsReported
  unfolding find_datastore search_datastore
  find_datastore-Reported key d = Triple-catch (Triple-unknown _) λ e.
      Triple-if e.not_found
        (λ _.
          Triple-bind
            (Triple-catch (Triple-unknown _)
              (λ e'. park-Reported d _ _ _ (λ t h. failed-IsReported e' t)))
            λ items.
              Triple-weaken (Triple-on_none _ (park-Reported d _ _ _ retry_later-IsReported))
                (λ t h. h) (λ a t h. tt) (λ e' t h. h))
        (λ _. park-Reported d _ _ _ retry_later-IsReported)

  find_database-Reported :
      (key : ObjectKey) (d : User) (ref : Option LocalObjectReference)
      → Triple (λ t. Unit) (find_database w key d ref) (λ a t. Unit) IsReported
  unfolding find_database search_database
  find_database-Reported key d none = Triple-pure none (λ t h. tt)
  find_database-Reported key d (some ref) =
      Triple-bind {M = λ a t. Unit}
        (Triple-catch (Triple-unknown _) λ e.
          Triple-if e.not_found
            (λ _.
              Triple-bind
                (Triple-catch (Triple-unknown _)
                  (λ e'. park-Reported d _ _ _ (λ t h. failed-IsReported e' t)))
                λ items.
                  Triple-weaken (Triple-on_none _ (park-Reported d _ _ _ retry_later-IsReported))
                    (λ t h. h) (λ a t h. tt) (λ e' t h. h))
            (λ _. park-Reported d _ _ _ retry_later-IsReported))
        (λ db. Triple-pure (some db) (λ t h. tt))

  creation_time-Reported :
      (at : Option Time) → Triple (λ t. Unit) (creation_time w at) (λ a t. Unit) IsReported
  unfolding creation_time now
  creation_time-Reported none =
      Triple-bind {M = λ at t. Unit} (record { at = λ t h. tt }) (λ at. Triple-pure _ (λ t h. tt))
  creation_time-Reported (some at) = Triple-pure _ (λ t h. tt)

  finish-Reported : (d : User) → Triple (λ t. Unit) (finish w d) IsReported IsReported
  unfolding finish save_status
  finish-Reported d = Triple-bind (creation_time-Reported d.status.created_at) λ at.
      Triple-bind (update_status-Reported w Kind.user {Q = Quiet} (ready_at d at) (λ r t h. cc))
        (λ a. Triple-pure finished finished-IsReported)

  provision-Reported :
      (key : ObjectKey) (d : User) → Triple (λ t. Unit) (provision w key d) IsReported IsReported
  unfolding provision create
  provision-Reported key d = Triple-bind (init_status-Reported d) λ d'.
      Triple-bind (find_datastore-Reported key d') λ s.
        Triple-bind
          (Triple-when _ (λ _. park-Reported d' _ _ _ retry_later-IsReported) (λ _ t h. tt))
          λ u. Triple-bind (find_database-Reported key d' d'.spec.database_ref) λ db.
            Triple-bind
              (Triple-catch (Triple-unknown _) (λ e. park-Reported d' _ _ _ retry_later-IsReported))
              (λ u'. finish-Reported d')

  body-Reported : (key : ObjectKey) → Triple (λ t. Unit) (body w key) IsReported IsReported
  unfolding body fetch
  body-Reported key = Triple-bind (fetch-Quiet w Kind.user key) λ d.
      Triple-bind (Triple-when _ (λ _. finalize-Reported d) (λ _ t h. tt))
        λ u. Triple-bind (ensure_finalizer-Reported d) (λ d'. provision-Reported key d')

pub user_reconcile-IsReported :
    (w : World) (key : ObjectKey) (t : Trace)
    → IsReported (reconcile w key t).0 (reconcile w key t).1
unfolding reconcile
user_reconcile-IsReported w key t = settle-Triple {Q = IsReported} (body-Reported w key) t tt
