-- ===== src/Role/Evidence/Created.antt =====
-- `createOrUpdateRole` succeeds only if the role is there and has its privileges.
use dbchan.Base.{◌≡◌, refl, inl, inr, Bool, true, false, Option, List, [], ◌∷◌, if◌then◌else◌}
use dbchan.Base.Text.{String, ◌<>◌}
use dbchan.Base.Prog.{for_each, Error, errorf, Result, ok, err, raise, pure}
use dbchan.Base.Prog.Triples.{
  Post, Triple, Triple-bind, Triple-pure, Triple-raise, Triple-catch, Triple-weaken, Triple-wrap,
  Keeps, keeps_rules,
}
use dbchan.Api.{Secret, Database, Datastore, DatabaseRole}
use dbchan.Cluster.{Conn, Event, Trace, World, executed, closed}
use dbchan.Cluster.Calls.{exec}
use dbchan.Cluster.History.{Once, Always}
use dbchan.Cluster.Rules.{IsStable, Keeps-open_pool, Keeps-ping, Keeps-close, Keeps-ask, Triple-ask}
use dbchan.Cluster.Statements.{Ran, Triple-exec-Ran}
use dbchan.Connection.{Dialect, mysql, postgres, sqlserver, unsupported}
use dbchan.Connection.Rules.{Triple-defer_close}
use dbchan.Role.Statements.{
  contains, grant_each, create_unless_exists, create_or_update_mysql_role,
  create_or_update_postgre_sql_role, create_or_update_sql_server_role,
}
use dbchan.Role.Provision.{open_and_test, connect, create_as, create_or_update_role}
use dbchan.Role.Evidence.{
  CreatesRole, in_mysql, in_postgres, in_sqlserver, grant_statement, IsThere, Granted, IsCreated,
  Claim,
}

abbrev pub Claims : Trace → Type 0
Claims = Always Claim

pub Claims-IsStable : IsStable Claims
Claims-IsStable = record {
  on_got = λ k allowed key r t h. (tt, h);
  on_listed = λ k allowed r t h. (tt, h);
  on_opened = λ name source r t h. (tt, h);
  on_pinged = λ c r t h. (tt, h);
  on_closed = λ c t h. (tt, h);
  on_clock = λ now t h. (tt, h);
}

Granted-cons :
    (statement : String → String) (ps : List String) (e : Event) (t : Trace)
    → Granted statement ps t
    → Granted statement ps (e ∷ t)
Granted-cons statement [] e t h = tt
Granted-cons statement (p ∷ ps) e t h = (inr h.0, Granted-cons statement ps e t h.1)

-- What happened stays so.
pub IsCreated-cons :
    (r : DatabaseRole) (e : Event) (t : Trace)
    → IsCreated r.name r.spec t
    → IsCreated r.name r.spec (e ∷ t)
IsCreated-cons r e t h = record {
  kind = h.kind;
  statement = h.statement;
  creates = h.creates;
  there = inr h.there;
  database = h.database;
  granted = Granted-cons _ r.spec.privileges e t h.granted;
}

module _ (w : World) (c : Conn) where
  -- The loop over the privileges, beside a fact `X` that lasts.
  grant_each-Granted :
      {X : Trace → Type 0} (statement : String → String) (ps : List String)
      → ((e : Event) (t : Trace) → X t → X (e ∷ t))
      → Triple
          (λ t. Claims t × X t)
          (grant_each w c statement ps)
          (λ _ t. (Claims t × X t) × Granted statement ps t)
          (λ _. Claims)
  unfolding grant_each for_each
  grant_each-Granted statement [] lasts = Triple-pure tt (λ t h. (h, tt))
  grant_each-Granted {X} statement (p ∷ ps) lasts =
      Triple-bind
        (Triple-wrap _ (
          Triple-weaken
            (Triple-exec-Ran {P = λ t. Claims t × X t} w
              (λ c' q args r t h. ((tt, h.0), lasts _ t h.1)) c (statement p))
            (λ t h. h) (λ a t h. (h.0.0, (h.0.1, h.1))) (λ e t h. h.0)))
        λ _.
          Triple-weaken
            (grant_each-Granted {X = λ t. X t × Once (λ e _. Ran (statement p) e) t} statement ps
              (λ e t h. (lasts e t h.0, inr h.1)))
            (λ t h. h) (λ a t h. ((h.0.0, h.0.1.0), (h.0.1.1, h.1))) (λ e t h. h)

  exec-IsThere :
      (q : String) → Triple Claims (exec w c q []) (λ _ t. Claims t × IsThere q t) (λ _. Claims)
  unfolding exec
  exec-IsThere q = Triple-ask _ _ go
    where
      go :
          (r : Result Error (Unit {0})) (t : Trace)
          → Claims t
          → Post (λ _ t. Claims t × IsThere q t) (λ _. Claims) (r, executed c q [] r ∷ t)
      go (ok _) t h = ((tt, h), inl (inl (refl, refl)))
      go (err e) t h = (tt, h)

  abbrev Failed : String → Error → Trace → Type 0
  Failed q e t = Claims t × (contains e.text "already exists" ≡ true → IsThere q t)

  tolerates :
      (q : String) (e : Error) (b : Bool)
      → contains e.text "already exists" ≡ b
      → Triple
          (Failed q e)
          (if b then pure tt else raise (errorf ("failed to create role: " <> e.text)))
          (λ _ t. Claims t × IsThere q t)
          (λ _. Claims)
  tolerates q e true same = Triple-pure tt (λ t h. (h.0, h.1 same))
  tolerates q e false same = Triple-raise _ (λ t h. h.0)

  create_unless_exists-IsThere :
      (q : String)
      → Triple Claims (create_unless_exists w c q) (λ _ t. Claims t × IsThere q t) (λ _. Claims)
  unfolding create_unless_exists exec
  create_unless_exists-IsThere q = Triple-catch (Triple-ask _ _ go) (λ e. tolerates q e _ refl)
    where
      go :
          (r : Result Error (Unit {0})) (t : Trace)
          → Claims t
          → Post (λ _ t. Claims t × IsThere q t) (Failed q) (r, executed c q [] r ∷ t)
      go (ok _) t h = ((tt, h), inl (inl (refl, refl)))
      go (err e) t h = ((tt, h), λ says. inl (inr (refl, says)))

  module _ (r : DatabaseRole) (d : Option Database) where
    abbrev pub Created : Trace → Type 0
    Created t = Claims t × IsCreated r.name r.spec t

    -- The grants after the creation.
    grants-Created :
        (k : Dialect) (q : String)
        → CreatesRole r.name k q
        → Triple
            (λ t. Claims t × IsThere q t)
            (grant_each w c (grant_statement k d r.name) r.spec.privileges)
            (λ _. Created)
            (λ _. Claims)
    grants-Created k q creates =
        Triple-weaken
          (grant_each-Granted (grant_statement k d r.name) r.spec.privileges (λ e t h. inr h))
          (λ t h. h)
          (λ a t h. (
            h.0.0,
            record {
              kind = k;
              statement = q;
              creates = creates;
              there = h.0.1;
              database = d;
              granted = h.1;
            },
          ))
          (λ e t h. h)

    exec-Created : (q : String) → Keeps Created (exec w c q [])
    unfolding exec
    exec-Created q =
        Keeps-ask _ _ (λ a t h. ((tt, h.0), IsCreated-cons r (executed c q [] a) t h.1))

    flush-Created : (q : String) → Triple Created (exec w c q []) (λ _. Created) (λ _. Claims)
    flush-Created q = Triple-weaken (exec-Created q) (λ t h. h) (λ a t h. h) (λ e t h. h.0)

    pub create_as-Created :
        (k : Dialect) (ty : String)
        → Triple Claims (create_as w c k ty r d) (λ _. Created) (λ _. Claims)
    unfolding create_as create_or_update_mysql_role create_or_update_postgre_sql_role
        create_or_update_sql_server_role
    create_as-Created mysql ty =
        Triple-bind (Triple-wrap _ (exec-IsThere _))
          λ _. Triple-bind (grants-Created mysql _ in_mysql) λ _. Triple-wrap _ (flush-Created _)
    create_as-Created postgres ty =
        Triple-bind (create_unless_exists-IsThere _) λ _. grants-Created postgres _ in_postgres
    create_as-Created sqlserver ty =
        Triple-bind (create_unless_exists-IsThere _) λ _. grants-Created sqlserver _ in_sqlserver
    create_as-Created unsupported ty = Triple-raise _ (λ t h. h)

module _ (w : World) where
  pub exec-Claims : (c : Conn) (q : String) (args : List String) → Keeps Claims (exec w c q args)
  unfolding exec
  exec-Claims c q args = Keeps-ask _ _ (λ r t h. (tt, h))

  -- Connecting keeps what no connection can change.
  pub Keeps-connect :
      {P : Trace → Type 0} → IsStable P → (source ty : String) → Keeps P (connect w source ty)
  unfolding connect open_and_test
  Keeps-connect stable source ty =
      search (keeps_rules, Keeps-open_pool w stable, Keeps-ping w stable, Keeps-close stable) depth
        12

  -- Success of `createOrUpdateRole`.
  pub create_or_update_role-Created :
      (r : DatabaseRole) (datastore : Datastore) (d : Option Database) (s : Secret)
      → Triple Claims
          (create_or_update_role w r datastore d s)
          (λ _ t. Claims t × IsCreated r.name r.spec t)
          (λ _. Claims)
  unfolding create_or_update_role
  create_or_update_role-Created r datastore d s =
      Triple-bind (Triple-wrap _ (Keeps-connect Claims-IsStable _ _)) λ c.
        Triple-defer_close c (λ a t h. ((tt, h.0), IsCreated-cons r (closed c) t h.1))
          (λ e t h. (tt, h)) (create_as-Created w c r d _ _)
