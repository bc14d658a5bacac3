-- ===== src/Database/Evidence/Deleted.antt =====
-- `cleanupDatabase` succeeds only if the datastore is gone, or the database was dropped.
use dbchan.Base.{◌≡◌, refl, inl, inr, Bool, true, false, Option, some, none, [], ◌∷◌, if◌then◌else◌}
use dbchan.Base.Text.{String, ◌<>◌}
use dbchan.Base.Prog.{Error, errorf, Result, ok, err, raise, pure}
use dbchan.Base.Prog.Triples.{
  Post, Triple, Triple-bind, Triple-pure, Triple-raise, Triple-catch, Triple-weaken, Triple-wrap,
  keeps_rules,
}
use dbchan.Api.{ObjectKey, Database, Datastore}
use dbchan.Cluster.{Kind, Conn, Event, Trace, World, got, closed}
use dbchan.Cluster.Calls.{get, exec}
use dbchan.Cluster.Rules.{Triple-ask}
use dbchan.Cluster.Statements.{Triple-exec-Ran}
use dbchan.Connection.{Dialect, mysql, postgres, sqlserver, unsupported}
use dbchan.Connection.Rules.{Keeps-connect_to_datastore, Triple-defer_close}
use dbchan.Database.Statements.{
  delete_mysql_database, delete_postgre_sql_database, delete_sql_server_database,
}
use dbchan.Database.Provision.{delete_as, find_own_datastore, clean_found, cleanup_database}
use dbchan.Database.Evidence.{DropsDatabase, in_mysql, in_postgres, in_sqlserver, IsDeleted}
use dbchan.Database.Evidence.Created.{Claims, Claims-IsStable, exec-Claims}

module _ (w : World) (d : Database) where
  abbrev pub Deleted : Trace → Type 0
  Deleted t = Claims t × IsDeleted d t

  IsDeleted-cons : (e : Event) (t : Trace) → IsDeleted d t → IsDeleted d (e ∷ t)
  IsDeleted-cons e t (inl gone) = inl (inr gone)
  IsDeleted-cons e t (inr (q, drops, ran)) = inr (q, drops, inr ran)

  drop-Deleted :
      (c : Conn) (q : String)
      → DropsDatabase d.name q
      → Triple (Claims) (exec w c q []) (λ _. Deleted) (λ _. Claims)
  drop-Deleted c q drops =
      Triple-weaken (Triple-exec-Ran w (λ c' q' args r t h. (tt, h)) c q) (λ t h. h)
        (λ a t h. (h.0, inr (q, drops, h.1))) (λ e t h. h)

  delete_as-Deleted :
      (c : Conn) (k : Dialect) (ty : String)
      → Triple (Claims) (delete_as w c k ty d) (λ _. Deleted) (λ _. Claims)
  unfolding delete_as delete_mysql_database delete_postgre_sql_database delete_sql_server_database
  delete_as-Deleted c mysql ty = Triple-wrap _ (drop-Deleted c _ in_mysql)
  delete_as-Deleted c postgres ty =
      Triple-bind {M = λ _. Claims} (search (keeps_rules, exec-Claims w))
        λ _. Triple-wrap _ (drop-Deleted c _ in_postgres)
  delete_as-Deleted c sqlserver ty =
      Triple-bind {M = λ _. Claims} (search (keeps_rules, exec-Claims w))
        λ _. Triple-wrap _ (drop-Deleted c _ in_sqlserver)
  delete_as-Deleted c unsupported ty = Triple-raise _ (λ t h. h)

  -- With no datastore found there is evidence already.
  abbrev Missing : Option Datastore → Trace → Type 0
  Missing none t = Deleted t
  Missing (some datastore) t = Claims t

  clean_found-Deleted :
      (o : Option Datastore) → Triple (Missing o) (clean_found w d o) (λ _. Deleted) (λ _. Claims)
  unfolding clean_found
  clean_found-Deleted none = Triple-pure tt (λ t h. h)
  clean_found-Deleted (some datastore) =
      Triple-bind (Keeps-connect_to_datastore w Claims-IsStable refl datastore) λ c.
        Triple-defer_close c (λ a t h. ((tt, h.0), IsDeleted-cons (closed c) t h.1))
          (λ e t h. (tt, h)) (delete_as-Deleted c _ _)

  abbrev Unanswered : Error → Trace → Type 0
  Unanswered e t = Claims t × (e.not_found ≡ true → IsDeleted d t)

  unanswered :
      (e : Error) (b : Bool)
      → e.not_found ≡ b
      → Triple
          (Unanswered e)
          (if b then pure none else raise (errorf ("failed to get datastore: " <> e.text)))
          Missing
          (λ _. Claims)
  unanswered e true same = Triple-pure none (λ t h. (h.0, h.1 same))
  unanswered e false same = Triple-raise _ (λ t h. h.0)

  find_own_datastore-Missing : Triple (Claims) (find_own_datastore w d) Missing (λ _. Claims)
  unfolding find_own_datastore get
  find_own_datastore-Missing =
      Triple-catch
        (Triple-bind (Triple-ask _ _ go) (λ datastore. Triple-pure (some datastore) (λ t h. h)))
        (λ e. unanswered e e.not_found refl)
    where
      key : ObjectKey
      key = record { namespace = d.namespace; name = d.spec.datastore_ref.name }

      go :
          (r : Result Error Datastore) (t : Trace)
          → Claims t
          → Post (λ _. Claims) Unanswered (r, got Kind.datastore key r ∷ t)
      go (ok datastore) t h = (tt, h)
      go (err e) t h = ((tt, h), λ gone. inl (inl (refl, refl, gone)))

  -- Success of `cleanupDatabase`.
  pub cleanup_database-Deleted : Triple (Claims) (cleanup_database w d) (λ _. Deleted) (λ _. Claims)
  unfolding cleanup_database
  cleanup_database-Deleted = Triple-bind find_own_datastore-Missing clean_found-Deleted
