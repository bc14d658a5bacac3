-- ===== src/Controller/Settled.antt =====
-- What a body keeps, its `Reconcile` keeps; what holds of its results, holds of the outcome.
use dbchan.Base.Prog.{Result, ok, err}
use dbchan.Base.Prog.Triples.{Post, Triple, Keeps}
use dbchan.Cluster.{Trace}
use dbchan.Cluster.Calls.{Io}
use dbchan.Controller.{Outcome, outcome, settle}

outcome-Post :
    (Q : Outcome → Trace → Type 0) (r : Result Outcome Outcome × Trace)
    → Post Q Q r
    → Q (outcome r.0) r.1
outcome-Post Q (ok o, t) h = h
outcome-Post Q (err o, t) h = h

pub settle-Triple :
    {P : Trace → Type 0} {Q : Outcome → Trace → Type 0} {m : Io Outcome Outcome}
    → Triple P m Q Q
    → (t : Trace) → P t
    → Q (settle m t).0 (settle m t).1
unfolding settle
settle-Triple {Q} {m} k t h = outcome-Post Q (m t) (k.at t h)

pub settle-keeps :
    {P : Trace → Type 0} {m : Io Outcome Outcome} → Keeps P m → (t : Trace) → P t → P (settle m t).1
settle-keeps {P} k t h = settle-Triple {Q = λ _. P} k t h
