-- ===== src/User/Evidence/Deleted.antt =====
-- `cleanupUser` succeeds only if the datastore is gone, or the account was dropped.
use dbchan.Base.{◌≡◌, refl, inl, inr, Bool, true, false, Option, some, none, [], ◌∷◌, if◌then◌else◌}
use dbchan.Base.Text.{String, ◌<>◌}
use dbchan.Base.Prog.{Error, errorf, Result, ok, err, raise, pure}
use dbchan.Base.Prog.Triples.{
  Post, Triple, Triple-bind, Triple-pure, Triple-raise, Triple-catch, Triple-weaken, Triple-wrap,
  Keeps, keeps_rules,
}
use dbchan.Api.{ObjectKey, User, Datastore}
use dbchan.Cluster.{Kind, Conn, Event, Trace, World, got, executed, closed}
use dbchan.Cluster.Calls.{get, exec}
use dbchan.Cluster.Rules.{Triple-ask, Keeps-ask}
use dbchan.Cluster.Statements.{Triple-exec-Ran}
use dbchan.Connection.{Dialect, mysql, postgres, sqlserver, unsupported}
use dbchan.Connection.Rules.{Keeps-connect_to_datastore, Triple-defer_close}
use dbchan.User.Statements.{delete_mysql_user, delete_postgre_sql_user, delete_sql_server_user}
use dbchan.User.Account.{delete_as, find_own_datastore, clean_found, cleanup_user}
use dbchan.User.Evidence.{DropsAccount, in_mysql, in_postgres, in_sqlserver, IsDeleted}
use dbchan.User.Evidence.Lasting.{Claims, Claims-IsStable, exec-Claims}

module _ (w : World) (u : User) where
  abbrev pub Deleted : Trace → Type 0
  Deleted t = Claims w t × IsDeleted u t

  IsDeleted-cons : (e : Event) (t : Trace) → IsDeleted u t → IsDeleted u (e ∷ t)
  IsDeleted-cons e t (inl gone) = inl (inr gone)
  IsDeleted-cons e t (inr (q, drops, ran)) = inr (q, drops, inr ran)

  drop-Deleted :
      (c : Conn) (q : String)
      → DropsAccount u.spec q
      → Triple (Claims w) (exec w c q []) (λ _. Deleted) (λ _. Claims w)
  drop-Deleted c q drops =
      Triple-weaken (Triple-exec-Ran w (λ c' q' args r t h. (tt, h)) c q) (λ t h. h)
        (λ a t h. (h.0, inr (q, drops, h.1))) (λ e t h. h)

  exec-Deleted : (c : Conn) (q : String) → Keeps Deleted (exec w c q [])
  unfolding exec
  exec-Deleted c q = Keeps-ask _ _ (λ r t h. ((tt, h.0), IsDeleted-cons (executed c q [] r) t h.1))

  delete_as-Deleted :
      (c : Conn) (k : Dialect) (ty : String)
      → Triple (Claims w) (delete_as w c k ty u) (λ _. Deleted) (λ _. Claims w)
  unfolding delete_as delete_mysql_user delete_postgre_sql_user delete_sql_server_user
  delete_as-Deleted c mysql ty =
      Triple-bind (Triple-wrap _ (drop-Deleted c _ in_mysql))
        λ _. Triple-wrap _ (Triple-weaken (exec-Deleted c _) (λ t h. h) (λ a t h. h) (λ e t h. h.0))
  delete_as-Deleted c postgres ty = Triple-wrap _ (drop-Deleted c _ in_postgres)
  delete_as-Deleted c sqlserver ty =
      Triple-bind {M = λ _. Claims w} (search (keeps_rules, exec-Claims))
        λ _. Triple-wrap _ (drop-Deleted c _ in_sqlserver)
  delete_as-Deleted c unsupported ty = Triple-raise _ (λ t h. h)

  -- With no datastore found there is evidence already.
  abbrev Missing : Option Datastore → Trace → Type 0
  Missing none t = Deleted t
  Missing (some d) t = Claims w t

  clean_found-Deleted :
      (o : Option Datastore) → Triple (Missing o) (clean_found w u o) (λ _. Deleted) (λ _. Claims w)
  unfolding clean_found
  clean_found-Deleted none = Triple-pure tt (λ t h. h)
  clean_found-Deleted (some d) =
      Triple-bind (Keeps-connect_to_datastore w (Claims-IsStable w) refl d) λ c.
        Triple-defer_close c (λ a t h. ((tt, h.0), IsDeleted-cons (closed c) t h.1))
          (λ e t h. (tt, h)) (delete_as-Deleted c _ _)

  abbrev Unanswered : Error → Trace → Type 0
  Unanswered e t = Claims w t × (e.not_found ≡ true → IsDeleted u t)

  unanswered :
      (e : Error) (b : Bool)
      → e.not_found ≡ b
      → Triple
          (Unanswered e)
          (if b then pure none else raise (errorf ("failed to get datastore: " <> e.text)))
          Missing
          (λ _. Claims w)
  unanswered e true same = Triple-pure none (λ t h. (h.0, h.1 same))
  unanswered e false same = Triple-raise _ (λ t h. h.0)

  find_own_datastore-Missing : Triple (Claims w) (find_own_datastore w u) Missing (λ _. Claims w)
  unfolding find_own_datastore get
  find_own_datastore-Missing =
      Triple-catch (Triple-bind (Triple-ask _ _ go) (λ d. Triple-pure (some d) (λ t h. h)))
        (λ e. unanswered e e.not_found refl)
    where
      key : ObjectKey
      key = record { namespace = u.namespace; name = u.spec.datastore_ref.name }

      go :
          (r : Result Error Datastore) (t : Trace)
          → Claims w t
          → Post (λ _. Claims w) Unanswered (r, got Kind.datastore key r ∷ t)
      go (ok d) t h = (tt, h)
      go (err e) t h = ((tt, h), λ gone. inl (inl (refl, refl, gone)))

  -- Success of `cleanupUser`.
  pub cleanup_user-Deleted : Triple (Claims w) (cleanup_user w u) (λ _. Deleted) (λ _. Claims w)
  unfolding cleanup_user
  cleanup_user-Deleted = Triple-bind find_own_datastore-Missing clean_found-Deleted
