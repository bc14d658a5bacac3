-- ===== src/Database/Evidence/Created.antt =====
-- `createOrUpdateDatabase` succeeds only if the database was created or is there.
use dbchan.Base.{◌≡◌, refl, inl, inr, ◌⊎◌, Bool, true, not, List, [], ◌∷◌, arith}
use dbchan.Base.Text.{String}
use dbchan.Base.Prog.{Error, Result, ok, err}
use dbchan.Base.Prog.Triples.{
  Post, Triple, Triple-bind, Triple-raise, Triple-catch, Triple-weaken, Triple-wrap, Triple-when,
  Keeps,
}
use dbchan.Api.{Database, Datastore}
use dbchan.Cluster.{Conn, Event, Trace, World, tested, closed}
use dbchan.Cluster.Calls.{exec, query_bool}
use dbchan.Cluster.History.{Always}
use dbchan.Cluster.Rules.{IsStable, Keeps-ask, Triple-ask}
use dbchan.Cluster.Statements.{Triple-exec-Ran}
use dbchan.Connection.{Dialect, mysql, postgres, sqlserver, unsupported}
use dbchan.Connection.Rules.{Keeps-connect_to_datastore, Triple-defer_close}
use dbchan.Database.Statements.{
  postgres_check, sqlserver_check, create_or_update_mysql_database,
  create_or_update_postgre_sql_database, check_sql_server_database,
  create_or_update_sql_server_database,
}
use dbchan.Database.Provision.{create_as, create_or_update_database}
use dbchan.Database.Evidence.{
  CreatesDatabase, mysql_new, postgres_new, sqlserver_new, IsCreated, Claim,
}

abbrev pub Claims : Trace → Type 0
Claims = Always Claim

pub Claims-IsStable : IsStable Claims
Claims-IsStable = record {
  on_got = λ k allowed key r t h. (tt, h);
  on_listed = λ k allowed r t h. (tt, h);
  on_opened = λ name source r t h. (tt, h);
  on_pinged = λ c r t h. (tt, h);
  on_closed = λ c t h. (tt, h);
  on_clock = λ now t h. (tt, h);
}

module _ (w : World) where
  pub exec-Claims : (c : Conn) (q : String) (args : List String) → Keeps Claims (exec w c q args)
  unfolding exec
  exec-Claims c q args = Keeps-ask _ _ (λ r t h. (tt, h))

  module _ (d : Database) where
    abbrev pub Created : Trace → Type 0
    Created t = Claims t × IsCreated d.name d.spec t

    -- What happened stays so.
    pub Created-cons : (e : Event) (t : Trace) → Created t → Claim e t → Created (e ∷ t)
    Created-cons e t (h, inl says) new = ((new, h), inl (inr says))
    Created-cons e t (h, inr (q, creates, ran)) new = ((new, h), inr (q, creates, inr ran))

    new-Created :
        (c : Conn) (q : String)
        → CreatesDatabase d.name d.spec q
        → Triple Claims (exec w c q []) (λ _. Created) (λ _. Claims)
    new-Created c q creates =
        Triple-weaken (Triple-exec-Ran w (λ c' q' args r t h. (tt, h)) c q) (λ t h. h)
          (λ a t h. (h.0, inr (q, creates, h.1))) (λ e t h. h)

    -- The answer `true` means that the database is there.
    check-Created :
        (c : Conn) (q : String)
        → (q ≡ postgres_check) ⊎ (q ≡ sqlserver_check)
        → Triple Claims
            (query_bool w c q (d.name ∷ []))
            (λ b t. Claims t × (b ≡ true → IsCreated d.name d.spec t))
            (λ _. Claims)
    unfolding query_bool
    check-Created c q known = Triple-ask _ _ go
      where
        go :
            (r : Result Error Bool) (t : Trace)
            → Claims t
            → Post
                (λ b t. Claims t × (b ≡ true → IsCreated d.name d.spec t))
                (λ _. Claims)
                (r, tested c q (d.name ∷ []) r ∷ t)
        go (ok b) t h = ((tt, h), λ yes. inl (inl (known, refl, yes)))
        go (err e) t h = (tt, h)

    create_as-Created :
        (c : Conn) (k : Dialect) (ty : String)
        → Triple Claims (create_as w c k ty d) (λ _. Created) (λ _. Claims)
    unfolding create_as create_or_update_mysql_database create_or_update_postgre_sql_database
        create_or_update_sql_server_database check_sql_server_database
    create_as-Created c mysql ty = Triple-wrap _ (new-Created c _ mysql_new)
    create_as-Created c postgres ty =
        Triple-bind (Triple-wrap _ (check-Created c _ (inl refl))) λ b.
          Triple-when (not b)
            (λ no.
              Triple-wrap _ (
                Triple-weaken (new-Created c _ postgres_new) (λ t h. h.0) (λ a t h. h)
                  (λ e t h. h)))
            (λ yes t h. (h.0, h.1 (ground arith)))
    create_as-Created c sqlserver ty = Triple-catch (new-Created c _ sqlserver_new) λ e.
        Triple-bind (Triple-wrap _ (check-Created c _ (inr refl))) λ b.
          Triple-when (not b) (λ no. Triple-raise _ (λ t h. h.0))
            (λ yes t h. (h.0, h.1 (ground arith)))
    create_as-Created c unsupported ty = Triple-raise _ (λ t h. h)

    -- Success of `createOrUpdateDatabase`.
    pub create_or_update_database-Created :
        (datastore : Datastore)
        → Triple Claims (create_or_update_database w d datastore) (λ _. Created) (λ _. Claims)
    unfolding create_or_update_database
    create_or_update_database-Created datastore =
        Triple-bind (Keeps-connect_to_datastore w Claims-IsStable refl datastore) λ c.
          Triple-defer_close c (λ a t h. Created-cons (closed c) t h tt) (λ e t h. (tt, h))
            (create_as-Created c _ _)
