-- ===== src/Datastore/Reconcile/Reported.antt =====
-- The result of a run of the datastore controller says what it left.
use dbchan.Base.{refl, false}
use dbchan.Base.Text.{String, ◌==◌}
use dbchan.Base.Prog.Triples.{
  Triple, Triple-bind, Triple-catch, Triple-if, Triple-on_none, Triple-pure, Triple-raise,
  Triple-weaken,
}
use dbchan.Api.{ObjectKey, Datastore}
use dbchan.Cluster.{Kind, Trace, World}
use dbchan.Cluster.History.{Newest}
use dbchan.Controller.{Outcome, finished}
use dbchan.Controller.Reported.{
  Unready, Quiet, IsReported, finished-IsReported, retry_later-IsReported, failed-IsReported,
  Triple-unknown, fetch-Quiet, update_status-Reported,
}
use dbchan.Controller.Settled.{settle-Triple}
use dbchan.Datastore.Reconcile.{
  with_status, fetch, save_status, park, init_status, search_secret, find_secret, find_password,
  check, body, reconcile,
}

module _ (w : World) where
  -- `park` never comes back, and its result is reported if it is `retry_later` or an error.
  park-Reported :
      {A : Type 0} {Q : A → Trace → Type 0} (d : Datastore) (phase message : String) (o : Outcome)
      → ((t : Trace) → Newest Unready t → IsReported o t)
      → Triple (λ t. Unit) (park w {A = A} d phase message o) Q IsReported
  unfolding park save_status
  park-Reported d phase message o reported =
      Triple-bind
        (update_status-Reported w Kind.datastore {Q = Newest Unready}
          (with_status d phase false message) (λ r t. refl))
        (λ a. Triple-raise o reported)

  init_status-Reported :
      (d : Datastore) → Triple (λ t. Unit) (init_status w d) (λ a t. Unit) IsReported
  unfolding init_status save_status
  init_status-Reported d =
      Triple-if (d.status.phase == "")
        (λ _. update_status-Reported w Kind.datastore {Q = λ t. Unit} _ (λ r t. tt))
        (λ _. Triple-pure d (λ t h. tt))

  find_secret-Reported :
      (key : ObjectKey) (d : Datastore)
      → Triple (λ t. Unit) (find_secret w key d) (λ a t. Unit) IsReported
  unfolding find_secret search_secret
  find_secret-Reported key d = Triple-catch (Triple-unknown _) λ e.
      Triple-if e.not_found
        (λ _.
          Triple-bind
            (Triple-catch (Triple-unknown _)
              (λ e'. park-Reported d _ _ _ (λ t h. failed-IsReported e' t)))
            λ items.
              Triple-weaken (Triple-on_none _ (park-Reported d _ _ _ retry_later-IsReported))
                (λ t h. h) (λ a t h. tt) (λ e' t h. h))
        (λ _. park-Reported d _ _ _ retry_later-IsReported)

  body-Reported : (key : ObjectKey) → Triple (λ t. Unit) (body w key) IsReported IsReported
  unfolding body fetch find_password check save_status
  body-Reported key =
      Triple-bind
        (Triple-weaken (fetch-Quiet w Kind.datastore key) (λ t h. h) (λ a t h. tt) (λ e t h. h))
        λ d. Triple-bind (init_status-Reported d) λ d'.
          Triple-bind (find_secret-Reported key d') λ s.
            Triple-bind
              (Triple-weaken (Triple-on_none _ (park-Reported d' _ _ _ retry_later-IsReported))
                (λ t h. h) (λ a t h. tt) (λ e t h. h))
              λ password.
                Triple-bind
                  (Triple-catch (Triple-unknown _)
                    (λ e. park-Reported d' _ _ _ retry_later-IsReported))
                  λ u.
                    Triple-bind
                      (update_status-Reported w Kind.datastore {Q = Quiet} _ (λ r t h. cc))
                      (λ a. Triple-pure finished finished-IsReported)

pub datastore_reconcile-IsReported :
    (w : World) (key : ObjectKey) (t : Trace)
    → IsReported (reconcile w key t).0 (reconcile w key t).1
unfolding reconcile
datastore_reconcile-IsReported w key t = settle-Triple {Q = IsReported} (body-Reported w key) t tt
