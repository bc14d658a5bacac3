-- ===== src/Datastore/Reconcile/Evidence/Ready.antt =====
-- Every status that `Reconcile` writes is justified by the run.
use dbchan.Base.{◌≡◌, refl, inl, inr, true, some, [], ◌∷◌}
use dbchan.Base.Text.{String}
use dbchan.Base.Prog.{Error, Result, ok, err}
use dbchan.Base.Prog.Triples.{
  Post, Triple, Triple-bind, Triple-pure, Triple-raise, Triple-catch, Triple-weaken, Triple-wrap,
  Triple-assume, Triple-on_none, Keeps, keeps_rules,
}
use dbchan.Api.{ObjectKey, Datastore, Secret, lookup}
use dbchan.Cluster.{Kind, Conn, Trace, World, opened, pinged}
use dbchan.Cluster.Calls.{open_pool, ping}
use dbchan.Cluster.Rules.{Triple-ask, Keeps-get}
use dbchan.Cluster.History.{Once, Always}
use dbchan.Connection.{driver, dialect}
use dbchan.Connection.Rules.{Triple-defer_close}
use dbchan.Controller.{finished}
use dbchan.Controller.Settled.{settle-keeps}
use dbchan.Datastore.Source.{test_connection}
use dbchan.Datastore.Reconcile.{
  fetch, save_status, check, body, reconcile, with_status, password_key, source_for,
}
use dbchan.Datastore.Reconcile.Evidence.{OpenedWith, Answered, Claim}
use dbchan.Datastore.Reconcile.Evidence.Given.{
  Claims, Claims-IsStable, failed-ne-ready, save_status-Claims, park_end, init_status-Claims, Given,
  find_secret-Given, find_password-Given,
}

module _ (w : World) where
  -- A connection to the datastore has answered.
  abbrev Reached : Datastore → String → Trace → Type 0
  Reached d password t =
      (c : Conn) × Once (λ e rest. Answered c e × Once (λ e' _. OpenedWith d password c e') rest) t

  test_connection-Reached :
      (d : Datastore) (s : Secret) (password : String)
      → Triple
          (Given w d s)
          (test_connection w d.spec.datastore_type (source_for d password))
          (λ _ t. Given w d s t × Reached d password t)
          (λ _. Claims)
  unfolding test_connection open_pool ping
  test_connection-Reached d s password =
      Triple-bind
        (Triple-on_none (driver (dialect d.spec.datastore_type)) (Triple-raise _ (λ t h. h.0)))
        λ name. Triple-bind (Triple-wrap _ (Triple-ask _ _ (go_open name))) λ c.
          Triple-defer_close c (λ a t h. (((tt, h.0.0), inr h.0.1), (h.1.0, inr h.1.1)))
            (λ e t h. (tt, h)) (Triple-wrap _ (Triple-ask _ _ (go_ping c)))
    where
      Opened : Conn → Trace → Type 0
      Opened c t = Given w d s t × Once (λ e _. OpenedWith d password c e) t

      go_open :
          (name : String) (r : Result Error Conn) (t : Trace)
          → Given w d s t × (driver (dialect d.spec.datastore_type) ≡ some name)
          → Post Opened (λ _. Claims) (r, opened name (source_for d password) r ∷ t)
      go_open name (ok c) t (h, known) = (((tt, h.0), inr h.1), inl (known, refl, refl))
      go_open name (err e) t (h, known) = (tt, h.0)

      go_ping :
          (c : Conn) (r : Result Error (Unit {0})) (t : Trace)
          → Opened c t
          → Post (λ _ t. Given w d s t × Reached d password t) (λ _. Claims) (r, pinged c r ∷ t)
      go_ping c (ok _) t (h, by) = (((tt, h.0), inr h.1), (c, inl (refl, by)))
      go_ping c (err e) t (h, by) = (tt, h.0)

  check-Reached :
      (d : Datastore) (s : Secret) (password : String)
      → Triple
          (Given w d s)
          (check w d password)
          (λ _ t. Given w d s t × Reached d password t)
          (λ _. Claims)
  unfolding check
  check-Reached d s password =
      Triple-catch (test_connection-Reached d s password) (λ e. park_end w d _ _ _ failed-ne-ready)

  fetch-Claims : (key : ObjectKey) → Keeps Claims (fetch w key)
  unfolding fetch
  fetch-Claims key = search (keeps_rules, Keeps-get w Claims-IsStable Kind.datastore refl)

  save_ready-Claims :
      (d : Datastore) (s : Secret) (password message : String)
      → lookup (password_key d) s.entries ≡ some password
      → Triple
          (λ t. Given w d s t × Reached d password t)
          (save_status w (with_status d "Ready" true message))
          (λ _. Claims)
          (λ _. Claims)
  save_ready-Claims d s password message known =
      Triple-weaken (save_status-Claims w _)
        (λ t h. (
          h.0.0,
          (
            λ _. (
              refl,
              record {
                found = s;
                password = password;
                conn = h.1.0;
                gave = h.0.1;
                has_password = known;
                answered = h.1.1;
              },
            ),
            λ _. refl,
          ),
        ))
        (λ a t h. h) (λ e t h. h)

  body-Claims : (key : ObjectKey) → Keeps Claims (body w key)
  unfolding body
  body-Claims key = Triple-bind (fetch-Claims key) λ d0. Triple-bind (init_status-Claims w d0) λ d.
      Triple-bind (find_secret-Given w key d) λ s.
        Triple-bind (find_password-Given w d s) λ password. Triple-assume λ known.
          Triple-bind (check-Reached d s password) λ _.
            Triple-bind (save_ready-Claims d s password _ known)
              (λ _. Triple-pure finished (λ t h. h))

pub datastore_reconcile-Keeps-Claims :
    (w : World) (key : ObjectKey) (t : Trace) → Claims t → Claims (reconcile w key t).1
unfolding reconcile
datastore_reconcile-Keeps-Claims w key t h = settle-keeps (body-Claims w key) t h

-- In a run of `Reconcile`, whatever the world answers, a status that is `ready` has phase `Ready` and is
-- written only after a connection opened with the address of the datastore and the password of its
-- secret has answered a ping; and a status with phase `Ready` is `ready`. The secret is one that the
-- server gave under the name that the datastore refers to, or the first of that name in a list.
pub datastore_reconcile-Claims : (w : World) (key : ObjectKey) → Always Claim (reconcile w key []).1
datastore_reconcile-Claims w key = datastore_reconcile-Keeps-Claims w key [] tt
