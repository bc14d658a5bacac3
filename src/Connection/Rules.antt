-- ===== src/Connection/Rules.antt =====
-- Rules for the life of a connection.
use dbchan.Base.{◌≡◌, true, Bool, ◌∷◌}
use dbchan.Base.Text.{String}
use dbchan.Base.Prog.{Result, ok, err}
use dbchan.Base.Prog.Triples.{Post, Triple, Keeps, keeps_rules}
use dbchan.Api.{Datastore}
use dbchan.Cluster.{Kind, Conn, Trace, World, closed}
use dbchan.Cluster.Calls.{Io}
use dbchan.Cluster.Rules.{IsStableOn, Keeps-get, Keeps-open_pool, Keeps-ping, Keeps-close}
use dbchan.Connection.{
  connect_to_datastore, defer_close, get_datastore_secret, open_and_ping, connect_to_database,
}

module _ {R : Kind → Bool} {P : Trace → Type 0} (w : World) (stable : IsStableOn R P)
    (secrets : R Kind.secret ≡ true) where
  pub Keeps-get_datastore_secret : (d : Datastore) → Keeps P (get_datastore_secret w d)
  unfolding get_datastore_secret
  Keeps-get_datastore_secret d = search (keeps_rules, Keeps-get w stable Kind.secret secrets)

  pub Keeps-connect_to_database : (ty source : String) → Keeps P (connect_to_database w ty source)
  unfolding connect_to_database open_and_ping
  Keeps-connect_to_database ty source =
      search (keeps_rules, Keeps-open_pool w stable, Keeps-ping w stable, Keeps-close stable) depth
        12

  pub Keeps-connect_to_datastore : (d : Datastore) → Keeps P (connect_to_datastore w d)
  unfolding connect_to_datastore
  Keeps-connect_to_datastore d =
      search (keeps_rules, Keeps-get_datastore_secret, Keeps-connect_to_database) depth 12

module _ {E A : Type 0} (c : Conn) {Q : A → Trace → Type 0} {R : E → Trace → Type 0} where
  after_close :
      ((a : A) (t : Trace) → Q a t → Q a (closed c ∷ t))
      → ((e : E) (t : Trace) → R e t → R e (closed c ∷ t))
      → (r : Result E A × Trace) → Post Q R r
      → Post Q R (r.0, closed c ∷ r.1)
  after_close on_ok on_err (ok a, t) h = on_ok a t h
  after_close on_ok on_err (err e, t) h = on_err e t h

  pub Triple-defer_close :
      {P : Trace → Type 0} {m : Io E A}
      → ((a : A) (t : Trace) → Q a t → Q a (closed c ∷ t))
      → ((e : E) (t : Trace) → R e t → R e (closed c ∷ t))
      → Triple P m Q R
      → Triple P (defer_close c m) Q R
  unfolding defer_close
  Triple-defer_close {m} on_ok on_err k = record {
    at = λ t h. after_close on_ok on_err (m t) (k.at t h);
  }
