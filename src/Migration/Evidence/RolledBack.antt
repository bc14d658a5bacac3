-- ===== src/Migration/Evidence/RolledBack.antt =====
-- `rollbackMigration` succeeds only if the database is gone, or its SQL ran and the record was removed.
use dbchan.Base.{
  arith, ◌≡◌, refl, inl, inr, Bool, true, false, not, Option, some, none, [], ◌∷◌, if◌then◌else◌,
}
use dbchan.Base.Text.{String, ◌==◌, ◌<>◌}
use dbchan.Base.Prog.{Error, errorf, Result, ok, err, raise, pure}
use dbchan.Base.Prog.Triples.{
  Post, Triple, Triple-bind, Triple-pure, Triple-raise, Triple-catch, Triple-weaken, Triple-wrap,
  Triple-when,
}
use dbchan.Api.{ObjectKey, Migration, Database}
use dbchan.Cluster.{Kind, Conn, Trace, World, got, executed}
use dbchan.Cluster.Calls.{get, exec}
use dbchan.Cluster.Rules.{Triple-ask}
use dbchan.Cluster.History.{Once}
use dbchan.Connection.{dialect}
use dbchan.Connection.Rules.{Triple-defer_close}
use dbchan.Migration.Table.{delete_sql, remove_migration_record, execute_rollback}
use dbchan.Migration.Table.Rules.{Triple-statement_for}
use dbchan.Migration.Apply.{
  rollback_on, rollback_in, find_own_database, rollback_found, rollback_migration,
}
use dbchan.Migration.Evidence.{IsRolledBack}
use dbchan.Cluster.Statements.{Ran}
use dbchan.Migration.Evidence.Applied.{Claims, datastore_of-Claims, connect_for-Claims, exec-Ran}

module _ (w : World) (m : Migration) (has_rollback : (m.spec.rollback_sql == "") ≡ false) where
  abbrev pub RolledBack : Trace → Type 0
  RolledBack t = Claims w t × IsRolledBack m t

  remove_migration_record-RolledBack :
      (c : Conn) (ty : String)
      → Triple
          (λ t. Claims w t × Once (λ e _. Ran m.spec.rollback_sql e) t)
          (remove_migration_record w c m.spec.version ty)
          (λ _. RolledBack)
          (λ _. Claims w)
  unfolding remove_migration_record exec
  remove_migration_record-RolledBack c ty =
      Triple-bind
        (Triple-weaken (Triple-statement_for delete_sql ty) (λ t h. h) (λ q t h. h) (λ e t h. h.0))
        λ q. Triple-ask _ _ (go q)
    where
      go :
          (q : String) (r : Result Error (Unit {0})) (t : Trace)
          → (Claims w t × Once (λ e _. Ran m.spec.rollback_sql e) t)
            × (delete_sql (dialect ty) ≡ some q)
          → Post (λ _. RolledBack) (λ _. Claims w) (r, executed c q (m.spec.version ∷ []) r ∷ t)
      go q (ok _) t ((h, ran), known) = ((tt, h), inl (inr ((dialect ty, known, refl), ran)))
      go q (err e) t ((h, ran), known) = (tt, h)

  rollback_on-RolledBack :
      (c : Conn) (ty : String)
      → Triple (Claims w) (rollback_on w c ty m) (λ _. RolledBack) (λ _. Claims w)
  unfolding rollback_on execute_rollback
  rollback_on-RolledBack c ty =
      Triple-bind
        (Triple-when (not (m.spec.rollback_sql == ""))
          (λ _. Triple-wrap _ (Triple-wrap _ (exec-Ran w c m.spec.rollback_sql)))
          (λ e. ground arith))
        λ _. Triple-wrap _ (remove_migration_record-RolledBack c ty)

  rollback_in-RolledBack :
      (d : Database) → Triple (Claims w) (rollback_in w m d) (λ _. RolledBack) (λ _. Claims w)
  unfolding rollback_in
  rollback_in-RolledBack d = Triple-bind (datastore_of-Claims w d) λ datastore.
      Triple-bind (connect_for-Claims w datastore d) λ c.
        Triple-defer_close c (λ a t h. ((tt, h.0), inr h.1)) (λ e t h. (tt, h))
          (rollback_on-RolledBack c _)

  -- With no database found there is evidence already.
  abbrev Missing : Option Database → Trace → Type 0
  Missing none t = RolledBack t
  Missing (some d) t = Claims w t

  rollback_found-RolledBack :
      (o : Option Database)
      → Triple (Missing o) (rollback_found w m o) (λ _. RolledBack) (λ _. Claims w)
  unfolding rollback_found
  rollback_found-RolledBack none = Triple-pure tt (λ t h. h)
  rollback_found-RolledBack (some d) = rollback_in-RolledBack d

  abbrev Unanswered : Error → Trace → Type 0
  Unanswered e t = Claims w t × (e.not_found ≡ true → IsRolledBack m t)

  unanswered :
      (e : Error) (b : Bool)
      → e.not_found ≡ b
      → Triple
          (Unanswered e)
          (if b then pure none else raise (errorf ("failed to get database: " <> e.text)))
          Missing
          (λ _. Claims w)
  unanswered e true same = Triple-pure none (λ t h. (h.0, h.1 same))
  unanswered e false same = Triple-raise _ (λ t h. h.0)

  find_own_database-Missing : Triple (Claims w) (find_own_database w m) Missing (λ _. Claims w)
  unfolding find_own_database get
  find_own_database-Missing =
      Triple-catch (Triple-bind (Triple-ask _ _ go) (λ d. Triple-pure (some d) (λ t h. h)))
        (λ e. unanswered e e.not_found refl)
    where
      key : ObjectKey
      key = record { namespace = m.namespace; name = m.spec.database_ref.name }

      go :
          (r : Result Error Database) (t : Trace)
          → Claims w t
          → Post (λ _. Claims w) Unanswered (r, got Kind.database key r ∷ t)
      go (ok d) t h = (tt, h)
      go (err e) t h = ((tt, h), λ gone. inl (inl (refl, refl, gone)))

  -- Success of `rollbackMigration`, for a migration with a rollback script.
  pub rollback_migration-RolledBack :
      Triple (Claims w) (rollback_migration w m) (λ _. RolledBack) (λ _. Claims w)
  unfolding rollback_migration
  rollback_migration-RolledBack = Triple-bind find_own_database-Missing rollback_found-RolledBack
