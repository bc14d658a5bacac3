-- ===== src/Cluster/Statements.antt =====
-- Statements that ran.
use dbchan.Base.{◌≡◌, refl, inl, inr, List, [], ◌∷◌}
use dbchan.Base.Text.{String}
use dbchan.Base.Prog.{Error, Result, ok, err}
use dbchan.Base.Prog.Triples.{Post, Triple}
use dbchan.Cluster.{Conn, Event, Trace, World, executed}
use dbchan.Cluster.Calls.{exec}
use dbchan.Cluster.History.{Once}
use dbchan.Cluster.Rules.{Triple-ask}

-- A statement with no arguments succeeded.
abbrev pub Ran : String → Event → Type 0
Ran sql (executed c q args (ok _)) = (q ≡ sql) × (args ≡ [])
Ran sql _ = ⊥

-- Of each text of a list, the statement ran.
abbrev pub AllRan : (String → String) → List String → Trace → Type 0
AllRan statement [] t = Unit
AllRan statement (p ∷ ps) t = Once (λ e _. Ran (statement p) e) t × AllRan statement ps t

-- What ran stays so.
pub AllRan-cons :
    (statement : String → String) (ps : List String) (e : Event) (t : Trace)
    → AllRan statement ps t
    → AllRan statement ps (e ∷ t)
AllRan-cons statement [] e t h = tt
AllRan-cons statement (p ∷ ps) e t h = (inr h.0, AllRan-cons statement ps e t h.1)

-- A statement that ran is in the trace, beside what no statement takes away.
pub Triple-exec-Ran :
    {P : Trace → Type 0} (w : World)
    → ((c : Conn) (q : String) (args : _) (r : _) (t : Trace) → P t → P (executed c q args r ∷ t))
    → (c : Conn) (q : String)
    → Triple P (exec w c q []) (λ _ t. P t × Once (λ e _. Ran q e) t) (λ _. P)
unfolding exec
Triple-exec-Ran {P} w keep c q = Triple-ask _ _ go
  where
    go :
        (r : Result Error (Unit {0})) (t : Trace)
        → P t
        → Post (λ _ t. P t × Once (λ e _. Ran q e) t) (λ _. P) (r, executed c q [] r ∷ t)
    go (ok _) t h = (keep c q [] (ok tt) t h, inl (refl, refl))
    go (err e) t h = keep c q [] (err e) t h
