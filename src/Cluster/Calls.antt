-- ===== src/Cluster/Calls.antt =====
-- The calls as programs: each asks the world and writes the call and the answer to the trace.
use dbchan.Base.{ℕ, Bool, List, ◌∷◌}
use dbchan.Base.Text.{String}
use dbchan.Base.Prog.{Error, Result, ok, Prog}
use dbchan.Api.{Time, ObjectKey}
use dbchan.Cluster.{
  Kind, Object, Event, Conn, Trace, World, got, listed, listed_in, updated, status_updated, opened,
  pinged, executed, counted, tested, closed, read_clock,
}

-- A program that calls the world.
abbrev pub Io : Type 0 → Type 0 → Type 0
Io E A = Prog Trace E A

-- A call: the world's answer to the trace so far, which is extended by the event.
unfoldable pub ask : {E A : Type 0} → (Trace → Result E A) → (Result E A → Event) → Io E A
ask answer event t = let r = answer t in (r, event r ∷ t)

module _ (w : World) where
  -- `r.Get(ctx, key, obj)`
  unfoldable pub get : (k : Kind) → ObjectKey → Io Error (Object k)
  get k key = ask (w.get k key) (got k key)

  -- `r.List(ctx, list)`
  unfoldable pub list : (k : Kind) → Io Error (List (Object k))
  list k = ask (w.list k) (listed k)

  -- `r.List(ctx, list, client.InNamespace(namespace))`
  unfoldable pub list_in : (k : Kind) → String → Io Error (List (Object k))
  list_in k namespace = ask (w.list_in k namespace) (listed_in k namespace)

  -- `r.Update(ctx, obj)`
  unfoldable pub update : (k : Kind) → Object k → Io Error (Object k)
  update k o = ask (w.update k o) (updated k o)

  -- `r.Status().Update(ctx, obj)`
  unfoldable pub update_status : (k : Kind) → Object k → Io Error (Object k)
  update_status k o = ask (w.update_status k o) (status_updated k o)

  -- `sql.Open(driver, source)`
  unfoldable pub open_pool : (driver source : String) → Io Error Conn
  open_pool driver source = ask (w.open_pool driver source) (opened driver source)

  -- `db.PingContext(ctx)`
  unfoldable pub ping : Conn → Io Error (Unit {0})
  ping c = ask (w.ping c) (pinged c)

  -- `db.ExecContext(ctx, query, args...)`
  unfoldable pub exec : Conn → (query : String) (args : List String) → Io Error (Unit {0})
  exec c query args = ask (w.exec c query args) (executed c query args)

  -- `db.QueryRowContext(ctx, query, args...).Scan(&count)`
  unfoldable pub query_count : Conn → (query : String) (args : List String) → Io Error ℕ
  query_count c query args = ask (w.query_count c query args) (counted c query args)

  -- `db.QueryRowContext(ctx, query, args...).Scan(&exists)`
  unfoldable pub query_bool : Conn → (query : String) (args : List String) → Io Error Bool
  query_bool c query args = ask (w.query_bool c query args) (tested c query args)

  -- `metav1.Now()`
  unfoldable pub now : {E : Type 0} → Io E Time
  now t = let r = w.now t in (ok r, read_clock r ∷ t)

-- `db.Close()`, whose error the program drops.
unfoldable pub close : {E : Type 0} → Conn → Io E (Unit {0})
close c t = (ok tt, closed c ∷ t)
