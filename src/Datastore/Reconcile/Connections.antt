-- ===== src/Datastore/Reconcile/Connections.antt =====
-- After `Reconcile` of the datastore controller no connection is left open.
use dbchan.Base.{List}
use dbchan.Base.Text.{String}
use dbchan.Base.Prog.Triples.{
  Triple-bind, Triple-wrap, Keeps, Keeps-bind, Keeps-catch, Keeps-on_none, Keeps-raise, keeps_rules,
}
use dbchan.Api.{ObjectKey, Datastore}
use dbchan.Cluster.{Kind, Conn, World, Trace}
use dbchan.Connection.Discipline.{
  Holding, get-Holding, list-Holding, update_status-Holding, ping-Holding, open_pool-Holding,
  defer_close-Holding,
}
use dbchan.Controller.{Outcome}
use dbchan.Controller.Settled.{settle-keeps}
use dbchan.Datastore.Source.{test_connection}
use dbchan.Datastore.Reconcile.{
  fetch, save_status, park, init_status, search_secret, find_secret, find_password, check, body,
  reconcile,
}

module _ (w : World) (cs : List Conn) where
  test_connection-Holding : (ty source : String) → Keeps (Holding cs) (test_connection w ty source)
  unfolding test_connection
  test_connection-Holding ty source = Triple-bind (Keeps-on_none _ _ (Keeps-raise _)) λ name.
      Triple-bind (Triple-wrap _ (open_pool-Holding w cs name source))
        λ c. defer_close-Holding c cs (Triple-wrap _ (ping-Holding w c cs))

  save_status-Holding : (d : Datastore) → Keeps (Holding cs) (save_status w d)
  unfolding save_status
  save_status-Holding d = search (keeps_rules, update_status-Holding w cs Kind.datastore)

  park-Holding :
      {A : Type 0} (d : Datastore) (phase message : String) (o : Outcome)
      → Keeps (Holding cs) (park w {A = A} d phase message o)
  unfolding park
  park-Holding d phase message o = search (keeps_rules, save_status-Holding)

  search_secret-Holding : (d : Datastore) → Keeps (Holding cs) (search_secret w d)
  unfolding search_secret
  search_secret-Holding d =
      Keeps-bind _ _ (search (keeps_rules, list-Holding w cs Kind.secret, park-Holding))
        λ items. search (keeps_rules, park-Holding)

  find_secret-Holding : (key : ObjectKey) (d : Datastore) → Keeps (Holding cs) (find_secret w key d)
  unfolding find_secret
  find_secret-Holding key d =
      Keeps-catch _ _ (get-Holding w cs Kind.secret _)
        λ e. search (keeps_rules, park-Holding, search_secret-Holding)

  body-Holding : (key : ObjectKey) → Keeps (Holding cs) (body w key)
  unfolding body fetch init_status find_password check
  body-Holding key =
      search
        (
          keeps_rules,
          get-Holding w cs Kind.datastore,
          save_status-Holding,
          find_secret-Holding,
          park-Holding,
          test_connection-Holding,
        )
        depth 14

-- Whatever the world answers, a run of `Reconcile` of a datastore leaves the open connections as they
-- were, and pings open connections only.
pub datastore_reconcile-Holding :
    (w : World) (cs : List Conn) (key : ObjectKey) (t : Trace)
    → Holding cs t
    → Holding cs (reconcile w key t).1
unfolding reconcile
datastore_reconcile-Holding w cs key t h = settle-keeps (body-Holding w cs key) t h
