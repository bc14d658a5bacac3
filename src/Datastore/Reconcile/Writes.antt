-- ===== src/Datastore/Reconcile/Writes.antt =====
-- What every run of the datastore controller keeps: it writes objects of its own kind only, and every status
-- that it writes is coherent.
use dbchan.Base.{◌≡◌, refl, false}
use dbchan.Base.Text.{String, ◌==◌}
use dbchan.Base.Prog.Triples.{
  Keeps, Keeps-bind, Keeps-catch, Keeps-if, Keeps-on_none, Keeps-pure, Keeps-raise, keeps_rules,
}
use dbchan.Api.{ObjectKey, Datastore}
use dbchan.Cluster.{Kind, Trace, World}
use dbchan.Cluster.Rules.{Keeps-get, Keeps-list, Keeps-open_pool, Keeps-ping}
use dbchan.Connection.Rules.{Triple-defer_close}
use dbchan.Controller.{Outcome, failed, finished}
use dbchan.Controller.Coherent.{IsCoherent, IsKept}
use dbchan.Controller.Settled.{settle-keeps}
use dbchan.Datastore.Source.{test_connection}
use dbchan.Datastore.Reconcile.{
  with_status, fetch, save_status, park, init_status, search_secret, find_secret, find_password,
  check, body, reconcile,
}

module _ (w : World) {P : Trace → Type 0} (kept : IsKept w Kind.datastore P) where
  test_connection-Keeps : (ty source : String) → Keeps P (test_connection w ty source)
  unfolding test_connection
  test_connection-Keeps ty source = Keeps-bind _ _ (Keeps-on_none _ _ (Keeps-raise _)) λ name.
      Keeps-bind _ _
        (Keeps-catch _ _ (Keeps-open_pool w kept.stable name source) (λ e. Keeps-raise _))
        λ c.
          Triple-defer_close c (λ a t h. kept.stable.on_closed c t h)
            (λ e t h. kept.stable.on_closed c t h)
            (Keeps-catch _ _ (Keeps-ping w kept.stable c) (λ e. Keeps-raise _))

  save_status-Keeps : (d : Datastore) → IsCoherent Kind.datastore d → Keeps P (save_status w d)
  unfolding save_status
  save_status-Keeps d good =
      Keeps-catch _ _ (kept.on_update_status d good) (λ e. Keeps-raise (failed e))

  park-Keeps :
      {A : Type 0} (d : Datastore) (phase message : String) (o : Outcome)
      → false ≡ (phase == "Ready")
      → Keeps P (park w {A = A} d phase message o)
  unfolding park
  park-Keeps d phase message o good =
      Keeps-bind _ _ (save_status-Keeps (with_status d phase false message) good)
        (λ _. Keeps-raise o)

  init_status-Keeps : (d : Datastore) → Keeps P (init_status w d)
  unfolding init_status
  init_status-Keeps d = Keeps-if _ _ _ (save_status-Keeps _ refl) (Keeps-pure d)

  search_secret-Keeps : (d : Datastore) → Keeps P (search_secret w d)
  unfolding search_secret
  search_secret-Keeps d =
      Keeps-bind _ _
        (Keeps-catch _ _ (Keeps-list w kept.stable Kind.secret refl) (λ e. park-Keeps d _ _ _ refl))
        λ items. Keeps-on_none _ _ (park-Keeps d _ _ _ refl)

  find_secret-Keeps : (key : ObjectKey) (d : Datastore) → Keeps P (find_secret w key d)
  unfolding find_secret
  find_secret-Keeps key d =
      Keeps-catch _ _ (Keeps-get w kept.stable Kind.secret refl _)
        λ e. Keeps-if _ _ _ (search_secret-Keeps d) (park-Keeps d _ _ _ refl)

  body-Keeps : (key : ObjectKey) → Keeps P (body w key)
  unfolding body fetch find_password check
  body-Keeps key =
      Keeps-bind _ _ (search (keeps_rules, Keeps-get w kept.stable Kind.datastore refl)) λ d.
        Keeps-bind _ _ (init_status-Keeps d) λ d'. Keeps-bind _ _ (find_secret-Keeps key d') λ s.
          Keeps-bind _ _ (Keeps-on_none _ _ (park-Keeps d' _ _ _ refl)) λ p.
            Keeps-bind _ _
              (Keeps-catch _ _ (test_connection-Keeps _ _) (λ e. park-Keeps d' _ _ _ refl))
              λ _. Keeps-bind _ _ (save_status-Keeps _ refl) (λ _. Keeps-pure finished)

pub datastore_reconcile-Keeps :
    (w : World) {P : Trace → Type 0}
    → IsKept w Kind.datastore P
    → (key : ObjectKey) (t : Trace) → P t
    → P (reconcile w key t).1
unfolding reconcile
datastore_reconcile-Keeps w kept key t h = settle-keeps (body-Keeps w kept key) t h
