-- ===== src/Migration/Protocol.antt =====
-- Which statements the migration controller sends, and when: the tracking table as the trace tells it,
-- the migration that was read last, and what may be sent for it.
pub mod Apply
pub mod Reconcile
pub mod Ledger
use dbchan.Base.{
  ℕ, ◌≡◌, Bool, true, false, ◌||◌, Option, none, some, List, [], ◌∷◌, ltb, if◌then◌else◌,
}
use dbchan.Base.Text.{String, ◌==◌}
use dbchan.Base.Prog.{ok}
use dbchan.Api.{Migration}
use dbchan.Cluster.{Kind, Conn, Event, Trace, World, got, updated, status_updated, executed}
use dbchan.Cluster.History.{Always}
use dbchan.Connection.{Dialect, mysql, postgres, sqlserver}
use dbchan.Controller.{is_set}
use dbchan.Migration.Table.{create_table_sql, count_sql, insert_sql, delete_sql, calculate_checksum}

abbrev pub is_text : Option String → String → Bool
is_text none q = false
is_text (some s) q = s == q

-- Whether `q` is the statement of some dialect.
abbrev pub is_one : (Dialect → Option String) → String → Bool
is_one statement q =
    is_text (statement mysql) q || is_text (statement postgres) q || is_text (statement sqlserver) q

-- Whether the tracking table has a version: inserts put it there, and deletes take it out.
unfoldable pub in_table : (version : String) → Trace → Bool
in_table v [] = false
in_table v (executed c q (u ∷ args) (ok _) ∷ t) =
    let rest = in_table v t in
    if u == v
    then (if is_one insert_sql q then true else if is_one delete_sql q then false else rest)
    else rest
in_table v (_ ∷ t) = in_table v t

-- The world has one tracking table, which only these statements change: a count of a version is positive
-- exactly if the version is in the table.
pub record IsTracking (w : World) : Type 0 where
  pub counts :
      (c : Conn) (d : Dialect) (q version : String) (t : Trace) (n : ℕ)
      → count_sql d ≡ some q
      → w.query_count c q (version ∷ []) t ≡ ok n
      → ltb 0 n ≡ in_table version t

-- The migration that the API server gave last, on reading it or in answer to a write.
abbrev pub last_seen : Trace → Option Migration
last_seen [] = none
last_seen (got Kind.migration key (ok m) ∷ t) = some m
last_seen (updated Kind.migration o (ok m) ∷ t) = some m
last_seen (status_updated Kind.migration o (ok m) ∷ t) = some m
last_seen (_ ∷ t) = last_seen t

-- The statements that may be sent for a migration, after a trace, on a connection.
pub data Sends (w : World) (m : Migration) : Trace → Conn → String → List String → Type 0 where
  creates :
      {t : Trace} {c : Conn} {q : String} (d : Dialect)
      → create_table_sql d ≡ some q
      → Sends w m t c q []
  runs : {t : Trace} {c : Conn} → in_table m.spec.version t ≡ false → Sends w m t c m.spec.sql []
  records :
      {t : Trace} {c : Conn} {q : String} (d : Dialect)
      → insert_sql d ≡ some q
      → in_table m.spec.version t ≡ false
      → Sends w m
          (executed c m.spec.sql [] (ok tt) ∷ t)
          c
          q
          (m.spec.version ∷ calculate_checksum w m.spec.sql ∷ [])
  rolls_back :
      {t : Trace} {c : Conn}
      → is_set m.deletion_timestamp ≡ true
      → Sends w m t c m.spec.rollback_sql []
  removes :
      {t : Trace} {c : Conn} {q : String} (d : Dialect)
      → delete_sql d ≡ some q
      → is_set m.deletion_timestamp ≡ true
      → Sends w m t c q (m.spec.version ∷ [])

-- A statement is sent for the migration that was read last. A write of that migration changes its
-- metadata only, and a write of its status changes the status only.
abbrev pub Allowed : World → Event → Trace → Type 0
Allowed w (executed c q args r) t = (m : Migration) × (last_seen t ≡ some m) × Sends w m t c q args
Allowed w (updated Kind.migration o r) t =
    (m : Migration) × (last_seen t ≡ some m) × (o.spec ≡ m.spec) × (o.status ≡ m.status)
Allowed w (status_updated Kind.migration o r) t =
    (m : Migration) × (last_seen t ≡ some m) × (o.spec ≡ m.spec) × (o.metadata ≡ m.metadata)
Allowed w _ t = Unit

abbrev pub Orderly : World → Trace → Type 0
Orderly w = Always (Allowed w)
