-- ===== src/Migration/Evidence/Applied.antt =====
-- `applyMigration` gives an object without an error only if its version has been recorded.
use dbchan.Base.{ℕ, ◌≡◌, refl, inl, inr, Bool, true, false, some, List, [], ◌∷◌, ltb, arith}
use dbchan.Base.Text.{String}
use dbchan.Base.Prog.{Error, Result, ok, err}
use dbchan.Base.Prog.Triples.{
  Post, Triple, Triple-bind, Triple-pure, Triple-weaken, Triple-wrap, Keeps, keeps_rules,
}
use dbchan.Api.{Datastore, Migration, Database}
use dbchan.Cluster.{Kind, Conn, Trace, World, executed, counted}
use dbchan.Cluster.Calls.{exec, query_count}
use dbchan.Cluster.Rules.{IsStable, Triple-ask, Keeps-ask, Keeps-get}
use dbchan.Cluster.History.{Once, Always, Once-weaken}
use dbchan.Connection.{dialect}
use dbchan.Connection.Rules.{
  Keeps-get_datastore_secret, Keeps-connect_to_database, Triple-defer_close,
}
use dbchan.Migration.Table.{
  statement_for, count_sql, insert_sql, create_migrations_table, is_migration_applied,
  execute_migration, record_migration, calculate_checksum,
}
use dbchan.Migration.Table.Rules.{Triple-statement_for}
use dbchan.Migration.Apply.{apply_unless, apply_on, datastore_of, connect_for, apply_migration}
use dbchan.Migration.Evidence.{SaysRecorded, IsApplied, Claim}
use dbchan.Cluster.Statements.{Ran, Triple-exec-Ran}

module _ (w : World) where
  abbrev pub Claims : Trace → Type 0
  Claims = Always (Claim w)

  pub Claims-IsStable : IsStable Claims
  Claims-IsStable = record {
    on_got = λ k allowed key r t h. (tt, h);
    on_listed = λ k allowed r t h. (tt, h);
    on_opened = λ name source r t h. (tt, h);
    on_pinged = λ c r t h. (tt, h);
    on_closed = λ c t h. (tt, h);
    on_clock = λ now t h. (tt, h);
  }

  pub exec-Claims : (c : Conn) (q : String) (args : List String) → Keeps Claims (exec w c q args)
  unfolding exec
  exec-Claims c q args = Keeps-ask _ _ (λ r t h. (tt, h))

  query_count-Claims :
      (c : Conn) (q : String) (args : List String) → Keeps Claims (query_count w c q args)
  unfolding query_count
  query_count-Claims c q args = Keeps-ask _ _ (λ r t h. (tt, h))

  -- A statement that ran is in the trace.
  pub exec-Ran :
      (c : Conn) (q : String)
      → Triple Claims (exec w c q []) (λ _ t. Claims t × Once (λ e _. Ran q e) t) (λ _. Claims)
  exec-Ran c q = Triple-exec-Ran w (λ c' q' args r t h. (tt, h)) c q

  -- The answer `true` means that the table has the version.
  is_migration_applied-SaysRecorded :
      (c : Conn) (m : Migration) (ty : String)
      → Triple Claims
          (is_migration_applied w c m.spec.version ty)
          (λ b t. Claims t × (b ≡ true → Once (λ e _. SaysRecorded m.spec e) t))
          (λ _. Claims)
  unfolding is_migration_applied query_count
  is_migration_applied-SaysRecorded c m ty =
      Triple-bind (Triple-statement_for count_sql ty)
        λ q. Triple-bind (Triple-ask _ _ (go q)) (λ n. Triple-pure (ltb 0 n) (λ t h. h))
    where
      go :
          (q : String) (r : Result Error ℕ) (t : Trace)
          → Claims t × (count_sql (dialect ty) ≡ some q)
          → Post
              (λ n t. Claims t × (ltb 0 n ≡ true → Once (λ e _. SaysRecorded m.spec e) t))
              (λ _. Claims)
              (r, counted c q (m.spec.version ∷ []) r ∷ t)
      go q (ok n) t (h, known) = ((tt, h), λ pos. inl (dialect ty, known, refl, ground arith))
      go q (err e) t (h, known) = (tt, h)

  -- Recorded after its SQL ran.
  record_migration-IsApplied :
      (c : Conn) (m : Migration) (ty : String)
      → Triple
          (λ t. Claims t × Once (λ e _. Ran m.spec.sql e) t)
          (record_migration w c m ty)
          (λ _ t. Claims t × IsApplied w m.spec t)
          (λ _. Claims)
  unfolding record_migration exec
  record_migration-IsApplied c m ty =
      Triple-bind
        (Triple-weaken (Triple-statement_for insert_sql ty) (λ t h. h) (λ q t h. h) (λ e t h. h.0))
        λ q. Triple-ask _ _ (go q)
    where
      go :
          (q : String) (r : Result Error (Unit {0})) (t : Trace)
          → (Claims t × Once (λ e _. Ran m.spec.sql e) t) × (insert_sql (dialect ty) ≡ some q)
          → Post
              (λ _ t. Claims t × IsApplied w m.spec t)
              (λ _. Claims)
              (r, executed c q (m.spec.version ∷ calculate_checksum w m.spec.sql ∷ []) r ∷ t)
      go q (ok _) t ((h, ran), known) = ((tt, h), inl (inr ((dialect ty, known, refl), ran)))
      go q (err e) t ((h, ran), known) = (tt, h)

  -- What holds of an object that `applyMigration` gives back.
  abbrev pub Applied : Migration → Trace → Type 0
  Applied m t = Claims t × IsApplied w m.spec t

  apply_unless-Applied :
      (c : Conn) (ty : String) (m : Migration) (b : Bool)
      → Triple
          (λ t. Claims t × (b ≡ true → Once (λ e _. SaysRecorded m.spec e) t))
          (apply_unless w c ty m b)
          Applied
          (λ _. Claims)
  unfolding apply_unless execute_migration
  apply_unless-Applied c ty m true =
      Triple-pure _ (λ t h. (h.0, Once-weaken (λ e t' x. inl x) t (h.1 refl)))
  apply_unless-Applied c ty m false =
      Triple-bind
        (Triple-wrap _ (
          Triple-wrap _
            (Triple-weaken (exec-Ran c m.spec.sql) (λ t h. h.0) (λ a t h. h) (λ e t h. h))))
        λ _.
          Triple-bind (Triple-wrap _ (record_migration-IsApplied c m ty))
            (λ _. Triple-pure m (λ t h. h))

  apply_on-Applied :
      (c : Conn) (ty : String) (m : Migration)
      → Triple Claims (apply_on w c ty m) Applied (λ _. Claims)
  unfolding apply_on create_migrations_table statement_for
  apply_on-Applied c ty m = Triple-bind (search (keeps_rules, exec-Claims) depth 12) λ _.
      Triple-bind (Triple-wrap _ (is_migration_applied-SaysRecorded c m ty))
        λ b. apply_unless-Applied c ty m b

  pub datastore_of-Claims : (d : Database) → Keeps Claims (datastore_of w d)
  datastore_of-Claims d = search (keeps_rules, Keeps-get w Claims-IsStable Kind.datastore refl)

  pub connect_for-Claims :
      (datastore : Datastore) (d : Database) → Keeps Claims (connect_for w datastore d)
  unfolding connect_for
  connect_for-Claims datastore d =
      search
        (
          keeps_rules,
          Keeps-get_datastore_secret w Claims-IsStable refl,
          Keeps-connect_to_database w Claims-IsStable refl,
        )
        depth 12

  -- Success of `applyMigration` means that the database has the version.
  pub apply_migration-Applied :
      (m : Migration) (d : Database) → Triple Claims (apply_migration w m d) Applied (λ _. Claims)
  unfolding apply_migration
  apply_migration-Applied m d = Triple-bind (datastore_of-Claims d) λ datastore.
      Triple-bind (connect_for-Claims datastore d) λ c.
        Triple-defer_close c (λ a t h. ((tt, h.0), inr h.1)) (λ e t h. (tt, h))
          (apply_on-Applied c _ m)
