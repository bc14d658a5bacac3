-- ===== src/Controller.antt =====
-- What the five `Reconcile` functions share: requests, results, and the search by name.
pub mod Settled
pub mod Coherent
pub mod Reported
pub mod Search
use dbchan.Base.{ℕ, Bool, true, false, Option, none, some, List, [], ◌∷◌, if◌then◌else◌}
use dbchan.Api.{Time}
use dbchan.Base.Text.{String, ◌==◌}
use dbchan.Base.Prog.{Error, Result, ok, err}
use dbchan.Cluster.{Trace}
use dbchan.Cluster.Calls.{Io}

-- `ctrl.Result` with the error beside it. `requeue_after` counts seconds, 0 for none.
pub record Outcome : Type 0 where
  pub requeue : Bool
  pub requeue_after : ℕ
  pub error : Option Error

-- `return ctrl.Result{}, nil`
abbrev pub finished : Outcome
finished = record { requeue = false; requeue_after = 0; error = none }

-- `return ctrl.Result{}, err`
abbrev pub failed : Error → Outcome
failed e = record { requeue = false; requeue_after = 0; error = some e }

-- `return ctrl.Result{RequeueAfter: 30 * time.Second}, nil`
abbrev pub retry_later : Outcome
retry_later = record { requeue = false; requeue_after = 30; error = none }

-- A `Reconcile` body raises what an early `return` gives, and ends in what the last one gives.
abbrev pub outcome : Result Outcome Outcome → Outcome
outcome (ok o) = o
outcome (err o) = o

-- Whether `DeletionTimestamp != nil`.
abbrev pub is_set : Option Time → Bool
is_set none = false
is_set (some t) = true

unfoldable pub settle : Io Outcome Outcome → Trace → Outcome × Trace
settle m t = let (r, t') = m t in (outcome r, t')

-- The loops `for _, x := range items { if x.Name == name { …; break } }`.
unfoldable pub find_by_name {ℓ} : {A : Type ℓ} → (A → String) → String → List A → Option A
find_by_name name_of name [] = none
find_by_name name_of name (x ∷ xs) =
    if name_of x == name then some x else find_by_name name_of name xs
