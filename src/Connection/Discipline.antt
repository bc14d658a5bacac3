-- ===== src/Connection/Discipline.antt =====
-- Connections in a trace: which are open, and that only open ones are used and closed.
use dbchan.Base.{ap, ◌∙◌, refl, ◌≡◌, true, List, [], ◌∷◌, any, ◌==◌, if◌then◌else◌, arith}
use dbchan.Base.Text.{String}
use dbchan.Base.Prog.{Error, Result, ok, err}
use dbchan.Base.Prog.Triples.{
  Post, Triple, Triple-pure, Triple-raise, Triple-bind, Triple-catch, Keeps, Keeps-raise,
  Keeps-on_none, keeps_rules,
}
use dbchan.Cluster.Rules.{Triple-ask, Keeps-ask}
use dbchan.Api.{ObjectKey, Datastore}
use dbchan.Cluster.{
  Kind, Object, Conn, Event, opened, pinged, executed, counted, tested, closed, Trace, World,
}
use dbchan.Cluster.Calls.{
  Io, get, list, update, update_status, open_pool, close, ping, exec, query_count, query_bool, now,
}
use dbchan.Connection.{
  connect_to_datastore, get_datastore_secret, defer_close, open_and_ping, connect_to_database,
}

abbrev release : Conn → List Conn → List Conn
release c [] = []
release c (d ∷ ds) = if c.id == d.id then ds else d ∷ release c ds

-- The connections that are open after a trace, the last opened first.
abbrev pub live : Trace → List Conn
live [] = []
live (opened name source (ok c) ∷ t) = c ∷ live t
live (closed c ∷ t) = release c (live t)
live (_ ∷ t) = live t

abbrev pub IsOpen : Conn → List Conn → Type 0
IsOpen c cs = any (λ d. c.id == d.id) cs ≡ true

abbrev pub Usable : Event → List Conn → Type 0
Usable (pinged c r) cs = IsOpen c cs
Usable (executed c q args r) cs = IsOpen c cs
Usable (counted c q args r) cs = IsOpen c cs
Usable (tested c q args r) cs = IsOpen c cs
Usable (closed c) cs = IsOpen c cs
Usable _ cs = Unit

-- Each statement goes to a connection that is open then, and only such a connection is closed.
abbrev pub Disciplined : Trace → Type 0
Disciplined [] = Unit
Disciplined (e ∷ t) = Usable e (live t) × Disciplined t

-- The trace is disciplined, and the open connections are `cs`.
pub record Holding (cs : List Conn) (t : Trace) : Type 0 where
  pub open_now : live t ≡ cs
  pub disciplined : Disciplined t

IsOpen-cons : (c : Conn) (cs ds : List Conn) → ds ≡ c ∷ cs → IsOpen c ds
IsOpen-cons c cs ds e = rw e (ground arith)

release-cons : (c : Conn) (cs ds : List Conn) → ds ≡ c ∷ cs → release c ds ≡ cs
release-cons c cs ds e = rw e (ground arith)

-- An event that opens and closes nothing, and uses no closed connection.
keep :
    {e : Event} {cs : List Conn} {t : Trace}
    → live (e ∷ t) ≡ live t
    → Usable e (live t)
    → Holding cs t
    → Holding cs (e ∷ t)
keep same usable h = record { open_now = same ∙ h.open_now; disciplined = (usable, h.disciplined) }

module _ (w : World) (cs : List Conn) where
  pub get-Holding : (k : Kind) (key : ObjectKey) → Keeps (Holding cs) (get w k key)
  unfolding get
  get-Holding k key = Keeps-ask _ _ (λ r t h. keep refl tt h)

  pub list-Holding : (k : Kind) → Keeps (Holding cs) (list w k)
  unfolding list
  list-Holding k = Keeps-ask _ _ (λ r t h. keep refl tt h)

  pub update-Holding : (k : Kind) (o : Object k) → Keeps (Holding cs) (update w k o)
  unfolding update
  update-Holding k o = Keeps-ask _ _ (λ r t h. keep refl tt h)

  pub update_status-Holding : (k : Kind) (o : Object k) → Keeps (Holding cs) (update_status w k o)
  unfolding update_status
  update_status-Holding k o = Keeps-ask _ _ (λ r t h. keep refl tt h)

  pub now-Holding : {E : Type 0} → Keeps (Holding cs) (now w {E = E})
  unfolding now
  now-Holding = record { at = λ t h. keep refl tt h }

  pub get_datastore_secret-Holding : (d : Datastore) → Keeps (Holding cs) (get_datastore_secret w d)
  unfolding get_datastore_secret
  get_datastore_secret-Holding d = search (keeps_rules, get-Holding)

  pub open_pool-Holding :
      (name source : String)
      → Triple (Holding cs) (open_pool w name source) (λ c. Holding (c ∷ cs)) (λ _. Holding cs)
  unfolding open_pool
  open_pool-Holding name source = Triple-ask _ _ go
    where
      go :
          (r : Result Error Conn) (t : Trace)
          → Holding cs t
          → Post (λ c. Holding (c ∷ cs)) (λ _. Holding cs) (r, opened name source r ∷ t)
      go (ok c) t h = record {
        open_now = ap (λ ds. c ∷ ds) h.open_now;
        disciplined = (tt, h.disciplined);
      }
      go (err e) t h = keep refl tt h

module _ (w : World) (c : Conn) (cs : List Conn) where
  pub exec-Holding : (q : String) (args : List String) → Keeps (Holding (c ∷ cs)) (exec w c q args)
  unfolding exec
  exec-Holding q args = Keeps-ask _ _ (λ r t h. keep refl (IsOpen-cons c cs _ h.open_now) h)

  pub ping-Holding : Keeps (Holding (c ∷ cs)) (ping w c)
  unfolding ping
  ping-Holding = Keeps-ask _ _ (λ r t h. keep refl (IsOpen-cons c cs _ h.open_now) h)

  pub query_count-Holding :
      (q : String) (args : List String) → Keeps (Holding (c ∷ cs)) (query_count w c q args)
  unfolding query_count
  query_count-Holding q args = Keeps-ask _ _ (λ r t h. keep refl (IsOpen-cons c cs _ h.open_now) h)

  pub query_bool-Holding :
      (q : String) (args : List String) → Keeps (Holding (c ∷ cs)) (query_bool w c q args)
  unfolding query_bool
  query_bool-Holding q args = Keeps-ask _ _ (λ r t h. keep refl (IsOpen-cons c cs _ h.open_now) h)

module _ (c : Conn) (cs : List Conn) where
  closing : (t : Trace) → Holding (c ∷ cs) t → Holding cs (closed c ∷ t)
  closing t h = record {
    open_now = release-cons c cs _ h.open_now;
    disciplined = (IsOpen-cons c cs _ h.open_now, h.disciplined);
  }

module _ {E : Type 0} (c : Conn) (cs : List Conn) where
  pub close-Holding :
      Triple (Holding (c ∷ cs)) (close {E = E} c) (λ _. Holding cs) (λ _. Holding cs)
  unfolding close
  close-Holding = record { at = closing c cs }

  -- What is run before the deferred close keeps the connection.
  pub defer_close-Holding :
      {A : Type 0} {m : Io E A}
      → Keeps (Holding (c ∷ cs)) m
      → Triple (Holding (c ∷ cs)) (defer_close c m) (λ _. Holding cs) (λ _. Holding cs)
  unfolding defer_close
  defer_close-Holding {A} {m} k = record { at = λ t h. go (m t) (k.at t h) }
    where
      go :
          (r : Result E A × Trace)
          → Post (λ _. Holding (c ∷ cs)) (λ _. Holding (c ∷ cs)) r
          → Post (λ _. Holding cs) (λ _. Holding cs) (r.0, closed c ∷ r.1)
      go (ok a, t) h = closing c cs t h
      go (err e, t) h = closing c cs t h

module _ (w : World) (cs : List Conn) where
  open_and_ping-Holding :
      (name source : String)
      → Triple (Holding cs) (open_and_ping w name source) (λ c. Holding (c ∷ cs)) (λ _. Holding cs)
  unfolding open_and_ping
  open_and_ping-Holding name source = Triple-bind (open_pool-Holding w cs name source) λ c.
      Triple-bind
        (Triple-catch (ping-Holding w c cs)
          λ e. Triple-bind (close-Holding c cs) (λ _. Triple-raise e (λ t h. h)))
        (λ _. Triple-pure c (λ t h. h))

  -- A connection is handed out open, and a failure leaves none behind.
  pub connect_to_database-Holding :
      (datastore_type source : String)
      → Triple
          (Holding cs)
          (connect_to_database w datastore_type source)
          (λ c. Holding (c ∷ cs))
          (λ _. Holding cs)
  unfolding connect_to_database
  connect_to_database-Holding datastore_type source =
      Triple-bind (Keeps-on_none _ _ (Keeps-raise _)) (λ name. open_and_ping-Holding name source)

  pub connect_to_datastore-Holding :
      (datastore : Datastore)
      → Triple
          (Holding cs)
          (connect_to_datastore w datastore)
          (λ c. Holding (c ∷ cs))
          (λ _. Holding cs)
  unfolding connect_to_datastore
  connect_to_datastore-Holding datastore =
      Triple-bind (search (keeps_rules, get_datastore_secret-Holding w cs))
        λ secret. Triple-catch (connect_to_database-Holding _ _) (λ e. Triple-raise _ (λ t h. h))
