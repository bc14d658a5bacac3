-- ===== src/Migration/Evidence.antt =====
-- What a status `applied`, and the removal of the finalizer, stand on: the answers of the database
-- and of the API server in the trace.
pub mod Applied
pub mod RolledBack
pub mod Justified
use dbchan.Base.{◌<◌, ◌≡◌, ◌⊎◌, true, false, some, [], ◌∷◌}
use dbchan.Base.Text.{String, ◌==◌}
use dbchan.Base.Prog.{ok, err}
use dbchan.Api.{MigrationSpec, Migration}
use dbchan.Cluster.{Kind, Event, Trace, World, got, updated, status_updated, executed, counted}
use dbchan.Cluster.History.{Once}
use dbchan.Cluster.Statements.{Ran}
use dbchan.Connection.{Dialect}
use dbchan.Migration.Table.{count_sql, insert_sql, delete_sql, calculate_checksum}
use dbchan.Controller.{is_set}

-- The tracking table was asked for the version and has it.
abbrev pub SaysRecorded : MigrationSpec → Event → Type 0
SaysRecorded s (counted c q args (ok n)) =
    (d : Dialect) × (count_sql d ≡ some q) × (args ≡ s.version ∷ []) × (0 < n)
SaysRecorded s _ = ⊥

-- The version and the checksum were written to the tracking table.
abbrev pub Recorded : World → MigrationSpec → Event → Type 0
Recorded w s (executed c q args (ok _)) =
    (d : Dialect) × (insert_sql d ≡ some q) × (args ≡ s.version ∷ calculate_checksum w s.sql ∷ [])
Recorded w s _ = ⊥

-- The version is in the tracking table, or the SQL ran and then the version was written there.
abbrev pub IsApplied : World → MigrationSpec → Trace → Type 0
IsApplied w s =
    Once λ e rest. SaysRecorded s e ⊎ (Recorded w s e × Once (λ before _. Ran s.sql before) rest)

-- The version was taken out of the tracking table.
abbrev pub Removed : MigrationSpec → Event → Type 0
Removed s (executed c q args (ok _)) =
    (d : Dialect) × (delete_sql d ≡ some q) × (args ≡ s.version ∷ [])
Removed s _ = ⊥

-- The API server says that the database does not exist.
abbrev pub SaysGone : Migration → Event → Type 0
SaysGone m (got Kind.database key (err e)) =
    (key.namespace ≡ m.namespace) × (key.name ≡ m.spec.database_ref.name) × (e.not_found ≡ true)
SaysGone m _ = ⊥

abbrev pub IsRolledBack : Migration → Trace → Type 0
IsRolledBack m = Once λ e rest.
    SaysGone m e ⊎ (Removed m.spec e × Once (λ before _. Ran m.spec.rollback_sql before) rest)

-- What each write to the API server claims.
abbrev pub Claim : World → Event → Trace → Type 0
Claim w (status_updated Kind.migration m r) t = m.status.applied ≡ true → IsApplied w m.spec t
Claim w (updated Kind.migration m r) t =
    is_set m.deletion_timestamp ≡ true → (m.spec.rollback_sql == "") ≡ false → IsRolledBack m t
Claim w _ t = Unit
