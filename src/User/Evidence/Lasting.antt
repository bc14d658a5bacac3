-- ===== src/User/Evidence/Lasting.antt =====
-- What stays so as calls follow, and the loop over the privileges.
use dbchan.Base.{inr, Option, none, some, List, [], ◌∷◌}
use dbchan.Base.Text.{String, ◌<>◌}
use dbchan.Base.Prog.{for_each}
use dbchan.Base.Prog.Triples.{Triple, Triple-bind, Triple-pure, Triple-weaken, Triple-wrap, Keeps}
use dbchan.Api.{User, Database}
use dbchan.Cluster.{Conn, Event, Trace, World, executed}
use dbchan.Cluster.Calls.{exec}
use dbchan.Cluster.History.{Always, Once}
use dbchan.Cluster.Rules.{IsStable, Keeps-ask}
use dbchan.Cluster.Statements.{Ran, AllRan, AllRan-cons, Triple-exec-Ran}
use dbchan.Connection.{Dialect, mysql, postgres, sqlserver, unsupported}
use dbchan.User.Statements.{run}
use dbchan.User.Evidence.{HasPassword, HasPrivileges, IsCreated, Claim}

module _ (w : World) where
  abbrev pub Claims : Trace → Type 0
  Claims = Always (Claim w)

  pub Claims-IsStable : IsStable Claims
  Claims-IsStable = record {
    on_got = λ k allowed key r t h. (tt, h);
    on_listed = λ k allowed r t h. (tt, h);
    on_opened = λ name source r t h. (tt, h);
    on_pinged = λ c r t h. (tt, h);
    on_closed = λ c t h. (tt, h);
    on_clock = λ now t h. (tt, h);
  }

  pub exec-Claims : (c : Conn) (q : String) (args : List String) → Keeps Claims (exec w c q args)
  unfolding exec
  exec-Claims c q args = Keeps-ask _ _ (λ r t h. (tt, h))

  -- The loop over the privileges, beside a fact that no statement takes away.
  pub grants-AllRan :
      {P : Trace → Type 0} (c : Conn) (statement : String → String) (ps : List String)
      → ((c : Conn) (q : String) (args : _) (r : _) (t : Trace) → P t → P (executed c q args r ∷ t))
      → Triple P
          (for_each ps (λ p. run w c ("failed to grant privilege " <> p) (statement p)))
          (λ _ t. P t × AllRan statement ps t)
          (λ _. P)
  unfolding for_each
  grants-AllRan c statement [] kept = Triple-pure tt (λ t h. (h, tt))
  grants-AllRan {P} c statement (p ∷ ps) kept =
      Triple-bind (Triple-wrap _ (Triple-exec-Ran w kept c (statement p))) λ _.
        Triple-weaken
          (grants-AllRan {P = λ t. P t × Once (λ e _. Ran (statement p) e) t} c statement ps
            (λ c' q args r t h. (kept c' q args r t h.0, inr h.1)))
          (λ t h. h) (λ a t h. (h.0.0, (h.0.1, h.1))) (λ e t h. h.0)

  module _ (u : User) where
    abbrev pub Created : Trace → Type 0
    Created t = Claims t × IsCreated w u t

    -- What happened stays so.
    pub HasPassword-cons :
        {k : Dialect} (e : Event) (t : Trace) → HasPassword w u k t → HasPassword w u k (e ∷ t)
    HasPassword-cons e t h = record {
      password = h.password;
      decoded = h.decoded;
      statement = h.statement;
      sets = h.sets;
      ran = inr h.ran;
    }

    HasPrivileges-cons :
        (k : Dialect) (d : Option Database) (e : Event) (t : Trace)
        → HasPrivileges k d u.spec t
        → HasPrivileges k d u.spec (e ∷ t)
    HasPrivileges-cons mysql d e t h = AllRan-cons _ u.spec.privileges e t h
    HasPrivileges-cons postgres d e t h = AllRan-cons _ u.spec.privileges e t h
    HasPrivileges-cons sqlserver none e t h = tt
    HasPrivileges-cons sqlserver (some d) e t h = AllRan-cons _ u.spec.privileges e t h
    HasPrivileges-cons unsupported d e t h = h

    pub IsCreated-cons : (e : Event) (t : Trace) → IsCreated w u t → IsCreated w u (e ∷ t)
    IsCreated-cons e t h = record {
      protected = HasPassword-cons e t h.protected;
      kind = h.kind;
      database = h.database;
      named = h.named;
      privileged = HasPrivileges-cons h.kind h.database e t h.privileged;
    }
