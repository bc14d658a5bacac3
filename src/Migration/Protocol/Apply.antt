-- ===== src/Migration/Protocol/Apply.antt =====
-- `applyMigration` and `rollbackMigration` send what they may.
use dbchan.Base.{ℕ, ◌≡◌, refl, sym, Bool, true, false, Option, some, none, List, [], ◌∷◌, ◌∙◌, ltb}
use dbchan.Base.Text.{String}
use dbchan.Base.Prog.{Error, Result, ok, err}
use dbchan.Base.Prog.Triples.{
  Post, Triple, Triple-bind, Triple-pure, Triple-weaken, Triple-wrap, Keeps, Keeps-pure, Keeps-when,
  keeps_rules,
}
use dbchan.Api.{ObjectKey, Datastore, Migration, Database}
use dbchan.Cluster.{Kind, Conn, Trace, World, got, executed, counted}
use dbchan.Cluster.Calls.{exec, query_count}
use dbchan.Cluster.Rules.{IsStableOn, Triple-ask, Triple-ask_answer, Keeps-get}
use dbchan.Connection.{dialect}
use dbchan.Connection.Rules.{
  Keeps-get_datastore_secret, Keeps-connect_to_database, Triple-defer_close,
}
use dbchan.Controller.{is_set}
use dbchan.Migration.Table.{
  create_table_sql, count_sql, insert_sql, delete_sql, create_migrations_table,
  is_migration_applied, execute_migration, execute_rollback, record_migration,
  remove_migration_record, calculate_checksum,
}
use dbchan.Migration.Table.Rules.{Triple-statement_for}
use dbchan.Migration.Apply.{
  apply_unless, apply_on, datastore_of, connect_for, apply_migration, rollback_on, rollback_in,
  find_own_database, rollback_found, rollback_migration,
}
use dbchan.Migration.Protocol.{
  in_table, IsTracking, last_seen, Sends, creates, runs, records, rolls_back, removes, Orderly,
}

-- Reading anything but a migration.
abbrev pub not_migration : Kind → Bool
not_migration Kind.migration = false
not_migration _ = true

module _ (w : World) (m : Migration) where
  -- The trace is orderly, and `m` is the migration to act for.
  abbrev pub Seen : Trace → Type 0
  Seen t = Orderly w t × (last_seen t ≡ some m)

  pub Seen-IsStable : IsStableOn not_migration Seen
  Seen-IsStable = record {
    on_got = got_other;
    on_listed = λ k allowed r t h. ((tt, h.0), h.1);
    on_opened = λ name source r t h. ((tt, h.0), h.1);
    on_pinged = λ c r t h. ((tt, h.0), h.1);
    on_closed = λ c t h. ((tt, h.0), h.1);
    on_clock = λ now t h. ((tt, h.0), h.1);
  }
    where
      got_other :
          (k : Kind)
          → not_migration k ≡ true
          → (key : ObjectKey) (r : _) (t : Trace) → Seen t
          → Seen (got k key r ∷ t)
      got_other Kind.secret allowed key r t h = ((tt, h.0), h.1)
      got_other Kind.datastore allowed key r t h = ((tt, h.0), h.1)
      got_other Kind.database allowed key r t h = ((tt, h.0), h.1)
      got_other Kind.user allowed key r t h = ((tt, h.0), h.1)
      got_other Kind.role allowed key r t h = ((tt, h.0), h.1)
      got_other Kind.migration allowed key r t h = cc

  exec-Seen :
      {P : Trace → Type 0} (c : Conn) (q : String) (args : List String)
      → ((t : Trace) → P t → Seen t × Sends w m t c q args)
      → Triple P (exec w c q args) (λ _. Seen) (λ _. Seen)
  unfolding exec
  exec-Seen {P} c q args may = Triple-ask _ _ go
    where
      go :
          (r : Result Error (Unit {0})) (t : Trace)
          → P t
          → Post (λ _. Seen) (λ _. Seen) (r, executed c q args r ∷ t)
      go (ok _) t p = let ((h, seen), sends) = may t p in (((m, seen, sends), h), seen)
      go (err e) t p = let ((h, seen), sends) = may t p in (((m, seen, sends), h), seen)

  create_migrations_table-Seen :
      (c : Conn) (ty : String) → Keeps Seen (create_migrations_table w c ty)
  unfolding create_migrations_table
  create_migrations_table-Seen c ty =
      Triple-bind (Triple-statement_for create_table_sql ty)
        λ q. exec-Seen c q [] (λ t h. (h.0, creates (dialect ty) h.1))

  -- The SQL ran on the connection just now, and the version was not in the table.
  abbrev JustRan : Conn → Trace → Type 0
  JustRan c t =
      Seen t
      × ((before : Trace) × (t ≡ executed c m.spec.sql [] (ok tt) ∷ before)
          × (in_table m.spec.version before ≡ false))

  execute_migration-JustRan :
      (c : Conn)
      → Triple
          (λ t. Seen t × (in_table m.spec.version t ≡ false))
          (execute_migration w c m)
          (λ _. JustRan c)
          (λ _. Seen)
  unfolding execute_migration exec
  execute_migration-JustRan c = Triple-wrap _ (Triple-ask _ _ go)
    where
      go :
          (r : Result Error (Unit {0})) (t : Trace)
          → Seen t × (in_table m.spec.version t ≡ false)
          → Post (λ _. JustRan c) (λ _. Seen) (r, executed c m.spec.sql [] r ∷ t)
      go (ok _) t ((h, seen), fresh) = ((((m, seen, runs fresh), h), seen), (t, refl, fresh))
      go (err e) t ((h, seen), fresh) = (((m, seen, runs fresh), h), seen)

  record_migration-Seen :
      (c : Conn) (ty : String)
      → Triple (JustRan c) (record_migration w c m ty) (λ _. Seen) (λ _. Seen)
  unfolding record_migration
  record_migration-Seen c ty =
      Triple-bind
        (Triple-weaken (Triple-statement_for insert_sql ty) (λ t h. h) (λ q t h. h) (λ e t h. h.0))
        λ q. exec-Seen c q _ (λ t h. (h.0.0, just q t h.1 h.0.1.0 h.0.1.1 h.0.1.2))
    where
      just :
          (q : String) (t : Trace)
          → insert_sql (dialect ty) ≡ some q
          → (before : Trace) → t ≡ executed c m.spec.sql [] (ok tt) ∷ before
          → in_table m.spec.version before ≡ false
          → Sends w m t c q (m.spec.version ∷ calculate_checksum w m.spec.sql ∷ [])
      just q t known before e fresh = rw e (records (dialect ty) known fresh)

  -- The answer `false` means that the version is not in the table.
  is_migration_applied-Seen :
      IsTracking w
      → (c : Conn) (ty : String)
      → Triple Seen
          (is_migration_applied w c m.spec.version ty)
          (λ b t. Seen t × (b ≡ false → in_table m.spec.version t ≡ false))
          (λ _. Seen)
  unfolding is_migration_applied query_count in_table
  is_migration_applied-Seen tracking c ty =
      Triple-bind (Triple-statement_for count_sql ty)
        λ q. Triple-bind (Triple-ask_answer _ _ (answer q)) (λ n. Triple-pure (ltb 0 n) (λ t h. h))
    where
      answer :
          (q : String) (r : Result Error ℕ) (t : Trace)
          → w.query_count c q (m.spec.version ∷ []) t ≡ r
          → Seen t × (count_sql (dialect ty) ≡ some q)
          → Post
              (λ n t. Seen t × (ltb 0 n ≡ false → in_table m.spec.version t ≡ false))
              (λ _. Seen)
              (r, counted c q (m.spec.version ∷ []) r ∷ t)
      answer q (ok n) t e ((h, seen), known) = (
        ((tt, h), seen),
        λ zero. sym (tracking.counts c (dialect ty) q m.spec.version t n known e) ∙ zero,
      )
      answer q (err x) t e ((h, seen), known) = ((tt, h), seen)

  -- The object that `applyMigration` gives back has the spec and the metadata of `m`.
  abbrev pub Same : Migration → Trace → Type 0
  Same m' t = Seen t × ((m'.spec ≡ m.spec) × (m'.metadata ≡ m.metadata))

  apply_unless-Same :
      (c : Conn) (ty : String) (b : Bool)
      → Triple
          (λ t. Seen t × (b ≡ false → in_table m.spec.version t ≡ false))
          (apply_unless w c ty m b)
          Same
          (λ _. Seen)
  unfolding apply_unless
  apply_unless-Same c ty true = Triple-pure _ (λ t h. (h.0, (refl, refl)))
  apply_unless-Same c ty false =
      Triple-bind
        (Triple-wrap _ (
          Triple-weaken (execute_migration-JustRan c) (λ t h. (h.0, h.1 refl)) (λ a t h. h)
            (λ e t h. h)))
        λ _.
          Triple-bind (Triple-wrap _ (record_migration-Seen c ty))
            (λ _. Triple-pure m (λ t h. (h, (refl, refl))))

  apply_on-Same :
      IsTracking w → (c : Conn) (ty : String) → Triple Seen (apply_on w c ty m) Same (λ _. Seen)
  unfolding apply_on
  apply_on-Same tracking c ty = Triple-bind (Triple-wrap _ (create_migrations_table-Seen c ty)) λ _.
      Triple-bind (Triple-wrap _ (is_migration_applied-Seen tracking c ty))
        λ b. apply_unless-Same c ty b

  datastore_of-Seen : (d : Database) → Keeps Seen (datastore_of w d)
  datastore_of-Seen d = search (keeps_rules, Keeps-get w Seen-IsStable Kind.datastore refl)

  connect_for-Seen : (datastore : Datastore) (d : Database) → Keeps Seen (connect_for w datastore d)
  unfolding connect_for
  connect_for-Seen datastore d =
      search
        (
          keeps_rules,
          Keeps-get_datastore_secret w Seen-IsStable refl,
          Keeps-connect_to_database w Seen-IsStable refl,
        )
        depth 12

  pub apply_migration-Same :
      IsTracking w → (d : Database) → Triple Seen (apply_migration w m d) Same (λ _. Seen)
  unfolding apply_migration
  apply_migration-Same tracking d = Triple-bind (datastore_of-Seen d) λ datastore.
      Triple-bind (connect_for-Seen datastore d) λ c.
        Triple-defer_close c (λ a t h. (((tt, h.0.0), h.0.1), h.1)) (λ e t h. ((tt, h.0), h.1))
          (apply_on-Same tracking c _)

  module _ (deleted : is_set m.deletion_timestamp ≡ true) where
    rollback_on-Seen : (c : Conn) (ty : String) → Keeps Seen (rollback_on w c ty m)
    unfolding rollback_on execute_rollback remove_migration_record
    rollback_on-Seen c ty =
        Triple-bind
          (Keeps-when _ _
            (Triple-wrap _ (Triple-wrap _ (exec-Seen c _ [] (λ t h. (h, rolls_back deleted))))))
          λ _. Triple-wrap _ (
            Triple-bind (Triple-statement_for delete_sql ty)
              λ q. exec-Seen c q _ (λ t h. (h.0, removes (dialect ty) h.1 deleted)))

    rollback_in-Seen : (d : Database) → Keeps Seen (rollback_in w m d)
    unfolding rollback_in
    rollback_in-Seen d = Triple-bind (datastore_of-Seen d) λ datastore.
        Triple-bind (connect_for-Seen datastore d) λ c.
          Triple-defer_close c (λ a t h. ((tt, h.0), h.1)) (λ e t h. ((tt, h.0), h.1))
            (rollback_on-Seen c _)

    rollback_found-Seen : (found : Option Database) → Keeps Seen (rollback_found w m found)
    unfolding rollback_found
    rollback_found-Seen none = Keeps-pure tt
    rollback_found-Seen (some d) = rollback_in-Seen d

    pub rollback_migration-Seen : Keeps Seen (rollback_migration w m)
    unfolding rollback_migration find_own_database
    rollback_migration-Seen =
        Triple-bind (search (keeps_rules, Keeps-get w Seen-IsStable Kind.database refl))
          rollback_found-Seen
