-- ===== src/Cluster/History.antt =====
-- Statements about the past of an event in a trace: the trace holds the last event first, so the
-- past of an event is the rest of the list.
use dbchan.Base.{inl, inr, ◌⊎◌, [], ◌∷◌}
use dbchan.Cluster.{Event, Trace}

-- Some event with its past meets `P`.
abbrev pub Once : (Event → Trace → Type 0) → Trace → Type 0
Once P [] = ⊥
Once P (e ∷ t) = P e t ⊎ Once P t

-- Every event with its past meets `P`.
abbrev pub Always : (Event → Trace → Type 0) → Trace → Type 0
Always P [] = Unit
Always P (e ∷ t) = P e t × Always P t

pub Once-weaken :
    {P Q : Event → Trace → Type 0}
    → ((e : Event) (t : Trace) → P e t → Q e t)
    → (t : Trace) → Once P t
    → Once Q t
Once-weaken h [] o = o
Once-weaken h (e ∷ t) (inl p) = inl (h e t p)
Once-weaken h (e ∷ t) (inr o) = inr (Once-weaken h t o)

-- The newest call.
abbrev pub Newest : (Event → Type 0) → Trace → Type 0
Newest P [] = ⊥
Newest P (e ∷ t) = P e
