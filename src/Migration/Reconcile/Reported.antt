-- ===== src/Migration/Reconcile/Reported.antt =====
-- The result of a run of the migration controller says what it left.
use dbchan.Base.{refl}
use dbchan.Base.Text.{String, ◌==◌}
use dbchan.Base.Prog.Triples.{
  Triple, Triple-bind, Triple-catch, Triple-if, Triple-on_none, Triple-pure, Triple-raise,
  Triple-weaken, Triple-when,
}
use dbchan.Api.{ObjectKey, Migration}
use dbchan.Cluster.{Kind, Trace, World}
use dbchan.Cluster.Calls.{now}
use dbchan.Cluster.History.{Newest}
use dbchan.Controller.{Outcome, finished, failed}
use dbchan.Controller.Reported.{
  Unready, Quiet, IsReported, finished-IsReported, retry_later-IsReported, failed-IsReported,
  Triple-unknown, fetch-Quiet, update-Quiet, update_status-Reported,
}
use dbchan.Controller.Settled.{settle-Triple}
use dbchan.Migration.Reconcile.{
  unapplied, applied_status, fetch, save, save_status, park, finalize, ensure_finalizer,
  init_status, search_database, find_database, apply, finish, migrate, body, reconcile,
}

module _ (w : World) where
  -- `park` never comes back, and its result is reported if it is `retry_later` or an error.
  park-Reported :
      {A : Type 0} {Q : A → Trace → Type 0} (d : Migration) (phase message : String) (o : Outcome)
      → ((t : Trace) → Newest Unready t → IsReported o t)
      → Triple (λ t. Unit) (park w {A = A} d phase message o) Q IsReported
  unfolding park save_status
  park-Reported d phase message o reported =
      Triple-bind
        (update_status-Reported w Kind.migration {Q = Newest Unready} (unapplied d phase message)
          (λ r t. refl))
        (λ a. Triple-raise o reported)

  finalize-Reported :
      (d : Migration) {Q : Unit {0} → Trace → Type 0} → Triple Quiet (finalize w d) Q IsReported
  unfolding finalize save
  finalize-Reported d =
      Triple-bind {M = λ _. Quiet}
        (Triple-when _
          (λ _.
            Triple-bind {M = λ u t. Unit}
              (Triple-when _
                (λ _.
                  Triple-catch
                    (Triple-weaken (Triple-unknown _) (λ t h. tt) (λ a t h. h) (λ e t h. h))
                    (λ e. Triple-raise (failed e) (λ t h. failed-IsReported e t)))
                (λ _ t h. tt))
              λ u. Triple-bind (update-Quiet w Kind.migration _) (λ a. Triple-pure tt (λ t h. h)))
          (λ _ t h. h))
        (λ _. Triple-raise finished finished-IsReported)

  ensure_finalizer-Reported :
      (d : Migration) → Triple Quiet (ensure_finalizer w d) (λ a. Quiet) IsReported
  unfolding ensure_finalizer save
  ensure_finalizer-Reported d =
      Triple-if (w.contains_finalizer d.finalizers _) (λ _. Triple-pure d (λ t h. h))
        (λ _. Triple-weaken (update-Quiet w Kind.migration _) (λ t h. tt) (λ a t h. h) (λ e t h. h))

  init_status-Reported :
      (d : Migration) → Triple (λ t. Unit) (init_status w d) (λ a t. Unit) IsReported
  unfolding init_status save_status
  init_status-Reported d =
      Triple-if (d.status.phase == "")
        (λ _. update_status-Reported w Kind.migration {Q = λ t. Unit} _ (λ r t. tt))
        (λ _. Triple-pure d (λ t h. tt))

  find_database-Reported :
      (key : ObjectKey) (d : Migration)
      → Triple (λ t. Unit) (find_database w key d) (λ a t. Unit) IsReported
  unfolding find_database search_database
  find_database-Reported key d = Triple-catch (Triple-unknown _) λ e.
      Triple-if e.not_found
        (λ _.
          Triple-bind
            (Triple-catch (Triple-unknown _)
              (λ e'. park-Reported d _ _ _ (λ t h. failed-IsReported e' t)))
            λ items.
              Triple-weaken (Triple-on_none _ (park-Reported d _ _ _ retry_later-IsReported))
                (λ t h. h) (λ a t h. tt) (λ e' t h. h))
        (λ _. park-Reported d _ _ _ retry_later-IsReported)

  finish-Reported : (d : Migration) → Triple (λ t. Unit) (finish w d) IsReported IsReported
  unfolding finish save_status now
  finish-Reported d =
      Triple-bind {M = λ at t. Unit} (record { at = λ t h. tt })
        λ at.
          Triple-bind
            (update_status-Reported w Kind.migration {Q = Quiet} (applied_status w d at)
              (λ r t h. cc))
            (λ a. Triple-pure finished finished-IsReported)

  migrate-Reported :
      (key : ObjectKey) (d : Migration) → Triple (λ t. Unit) (migrate w key d) IsReported IsReported
  unfolding migrate apply
  migrate-Reported key d = Triple-bind (init_status-Reported d) λ d'.
      Triple-bind (find_database-Reported key d') λ s.
        Triple-bind
          (Triple-when _ (λ _. park-Reported d' _ _ _ retry_later-IsReported) (λ _ t h. tt))
          λ u.
            Triple-bind
              (Triple-catch (Triple-unknown _) (λ e. park-Reported d' _ _ _ retry_later-IsReported))
              (λ done. finish-Reported done)

  body-Reported : (key : ObjectKey) → Triple (λ t. Unit) (body w key) IsReported IsReported
  unfolding body fetch
  body-Reported key = Triple-bind (fetch-Quiet w Kind.migration key) λ d.
      Triple-bind (Triple-when _ (λ _. finalize-Reported d) (λ _ t h. h)) λ u.
        Triple-bind (ensure_finalizer-Reported d) λ d'.
          Triple-bind (Triple-when _ (λ _. Triple-raise finished finished-IsReported) (λ _ t h. tt))
            (λ u'. migrate-Reported key d')

pub migration_reconcile-IsReported :
    (w : World) (key : ObjectKey) (t : Trace)
    → IsReported (reconcile w key t).0 (reconcile w key t).1
unfolding reconcile
migration_reconcile-IsReported w key t = settle-Triple {Q = IsReported} (body-Reported w key) t tt
