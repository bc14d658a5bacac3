-- ===== src/Datastore/Reconcile/Ready.antt =====
-- In a calm cluster, `Reconcile` makes a datastore ready in one run.
use dbchan.Base.{◌≡◌, refl, true, some}
use dbchan.Base.Text.{String, ◌==◌}
use dbchan.Base.Prog.{ok, pure, ◌>>◌}
use dbchan.Base.Prog.Triples.{Triple, Triple-bind, Triple-weaken, Triple-pure}
use dbchan.Base.Prog.Gives.{
  Gives, Ends, Gives-weaken, Gives-bind, Gives-catch, Gives-wrap, Gives-pure, Gives-if,
  Gives-on_none,
}
use dbchan.Api.{ObjectKey, Secret, Datastore, lookup}
use dbchan.Cluster.{Kind, Event, Trace, World, status_updated}
use dbchan.Cluster.History.{Newest}
use dbchan.Cluster.Calm.{
  Calm, Rest, Gives-own, Gives-found, Gives-stored_status, Triple-stored_status, Ends-open_pool,
  Ends-ping,
}
use dbchan.Connection.{dialect, driver}
use dbchan.Connection.Calm.{Ends-defer_close}
use dbchan.Controller.{Outcome, finished}
use dbchan.Controller.Settled.{settle-Triple}
use dbchan.Datastore.Source.{test_connection}
use dbchan.Datastore.Reconcile.{
  with_status, password_key, fetch, save_status, init_status, find_secret, find_password, check,
  body, reconcile,
}

-- The datastore's status was written, and it says `ready`.
abbrev pub SaysReady : Event → Type 0
SaysReady (status_updated Kind.datastore d (ok _)) = d.status.ready ≡ true
SaysReady _ = ⊥

abbrev secret_key : ObjectKey → Datastore → ObjectKey
secret_key key d = record { namespace = key.namespace; name = d.spec.secret_ref.name }

-- A datastore that can be reached: its type has a driver, and its secret has the password.
pub record CanReach {w : World} (calm : Calm w) (start : Trace) (key : ObjectKey) (d : Datastore)
    : Type 0 where
  pub exists : calm.objects start Kind.datastore key ≡ some d
  pub driver_name : String
  pub has_driver : driver (dialect d.spec.datastore_type) ≡ some driver_name
  pub secret : Secret
  pub has_secret : calm.objects start Kind.secret (secret_key key d) ≡ some secret
  pub password : String
  pub has_password : lookup (password_key d) secret.entries ≡ some password

module _ {w : World} (calm : Calm w) (start : Trace) where
  abbrev Rests : Trace → Type 0
  Rests = Rest calm Kind.datastore start

  test_connection-Ends :
      (ty source name : String)
      → driver (dialect ty) ≡ some name
      → Ends Rests (test_connection w ty source)
  unfolding test_connection
  test_connection-Ends ty source name known = Gives-bind (Gives-on_none _ name _ known) λ n e.
      Gives-bind (Gives-wrap _ (Ends-open_pool calm Kind.datastore start n source)) λ c h.
        Ends-defer_close calm Kind.datastore start c _
          (Gives-wrap _ (Ends-ping calm Kind.datastore start c))

  init_status-Gives : (d : Datastore) → Gives Rests (init_status w d) (λ a. a.spec ≡ d.spec)
  unfolding init_status save_status
  init_status-Gives d =
      Gives-if (d.status.phase == "")
        (Gives-weaken (Gives-stored_status calm Kind.datastore start _ _) (λ a e. rw e refl))
        (Gives-pure d refl)

  abbrev Done : Outcome → Trace → Type 0
  Done o t = (o ≡ finished) × Newest SaysReady t

  finish-Done :
      (d : Datastore) (phase message : String)
      → Triple Rests
          (save_status w (with_status d phase true message) >> pure finished)
          Done
          (λ e t. ⊥)
  unfolding save_status
  finish-Done d phase message =
      Triple-bind (Triple-stored_status calm Kind.datastore start _ {P = SaysReady} _ refl)
        (λ a. Triple-pure finished (λ t h. (refl, h.1)))

  body-Done :
      (key : ObjectKey) (d : Datastore)
      → CanReach calm start key d
      → Triple (λ t. t ≡ start) (body w key) Done (λ e t. ⊥)
  unfolding body fetch find_secret find_password check
  body-Done key d can = Gives-bind (Gives-own calm Kind.datastore start _ key d can.exists) λ a e.
      Gives-bind (init_status-Gives a) λ b same.
        let spec : b.spec ≡ d.spec = rw e at same in
        Gives-bind
          (Gives-found calm Kind.datastore start Kind.secret refl _ _ can.secret
            (rw spec can.has_secret))
          λ s e'.
            Gives-bind (Gives-on_none _ can.password _ (rw (e', spec) can.has_password)) λ p h.
              Gives-bind
                (Gives-catch _ (test_connection-Ends _ _ can.driver_name (rw spec can.has_driver)))
                λ u h'. finish-Done b _ _

-- In a cluster that nobody else changes, and where every write is stored and every call to a
-- database succeeds, one run of `Reconcile` makes a datastore ready that exists, has a supported
-- type, and whose secret is in its namespace and has the password: the run ends without an error
-- and asks for no other one, and the last thing it does is to write a status that says `ready`.
pub datastore_reconcile-Ready :
    (w : World) (calm : Calm w) (start : Trace) (key : ObjectKey) (d : Datastore)
    → CanReach calm start key d
    → ((reconcile w key start).0 ≡ finished) × Newest SaysReady (reconcile w key start).1
unfolding reconcile
datastore_reconcile-Ready w calm start key d can =
    settle-Triple {Q = Done calm start}
      (Triple-weaken (body-Done calm start key d can) (λ t h. h) (λ a t h. h) (λ e t h. absurd h))
      start refl
