-- ===== src/Migration/Table/Rules.antt =====
-- Rules for the statements on the tracking table.
use dbchan.Base.{◌≡◌, Option, some}
use dbchan.Base.Text.{String}
use dbchan.Base.Prog.Triples.{Triple-on_none, Triple, Triple-raise}
use dbchan.Cluster.{Trace}
use dbchan.Connection.{Dialect, dialect}
use dbchan.Migration.Table.{statement_for}

module _ {P : Trace → Type 0} where
  -- The text is the one of the dialect.
  pub Triple-statement_for :
      (f : Dialect → Option String) (ty : String)
      → Triple P (statement_for f ty) (λ q t. P t × (f (dialect ty) ≡ some q)) (λ _. P)
  unfolding statement_for
  Triple-statement_for f ty = Triple-on_none (f (dialect ty)) (Triple-raise _ (λ t h. h))
