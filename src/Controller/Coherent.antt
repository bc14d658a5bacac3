-- ===== src/Controller/Coherent.antt =====
-- The two ways in which a status says that all is well, its phase and its flag, and the calls that say
-- nothing of a status.
use dbchan.Base.{◌≡◌, List}
use dbchan.Base.Text.{String, ◌==◌}
use dbchan.Base.Prog.Triples.{Keeps}
use dbchan.Cluster.{
  Kind, Object, Conn, Event, Trace, World, Done, status_updated, updated, executed, counted, tested,
}
use dbchan.Cluster.Calls.{exec, query_count, query_bool, update, update_status}
use dbchan.Cluster.History.{Always}
use dbchan.Cluster.Rules.{IsStable, Keeps-ask}

-- The flag is set exactly in the last phase.
abbrev pub IsCoherent : (k : Kind) → Object k → Type 0
IsCoherent Kind.secret o = Unit
IsCoherent Kind.datastore o = o.status.ready ≡ (o.status.phase == "Ready")
IsCoherent Kind.database o = o.status.ready ≡ (o.status.phase == "Ready")
IsCoherent Kind.user o = o.status.ready ≡ (o.status.phase == "Ready")
IsCoherent Kind.role o = o.status.ready ≡ (o.status.phase == "Ready")
IsCoherent Kind.migration o = o.status.applied ≡ (o.status.phase == "Applied")

abbrev pub Claim : Event → Trace → Type 0
Claim (status_updated k o r) t = IsCoherent k o
Claim _ t = Unit

-- Every status that was written is coherent.
abbrev pub Coherent : Trace → Type 0
Coherent = Always Claim

pub Coherent-IsStable : IsStable Coherent
Coherent-IsStable = record {
  on_got = λ k allowed key r t h. (tt, h);
  on_listed = λ k allowed r t h. (tt, h);
  on_opened = λ name source r t h. (tt, h);
  on_pinged = λ c r t h. (tt, h);
  on_closed = λ c t h. (tt, h);
  on_clock = λ now t h. (tt, h);
}

-- A predicate of the trace that a controller of the objects of kind `k` keeps: only writes of objects of
-- that kind could break it, and those with a coherent status do not.
pub record IsKept (w : World) (k : Kind) (P : Trace → Type 0) : Type 0 where
  pub stable : IsStable P
  pub on_exec : (c : Conn) (q : String) (args : List String) → Keeps P (exec w c q args)
  pub on_query_count :
      (c : Conn) (q : String) (args : List String) → Keeps P (query_count w c q args)
  pub on_query_bool : (c : Conn) (q : String) (args : List String) → Keeps P (query_bool w c q args)
  pub on_update : (o : Object k) → Keeps P (update w k o)
  pub on_update_status : (o : Object k) → IsCoherent k o → Keeps P (update_status w k o)

module _ (w : World) where
  exec-Coherent : (c : Conn) (q : String) (args : List String) → Keeps Coherent (exec w c q args)
  unfolding exec
  exec-Coherent c q args = Keeps-ask _ _ (λ r t h. (tt, h))

  query_count-Coherent :
      (c : Conn) (q : String) (args : List String) → Keeps Coherent (query_count w c q args)
  unfolding query_count
  query_count-Coherent c q args = Keeps-ask _ _ (λ r t h. (tt, h))

  query_bool-Coherent :
      (c : Conn) (q : String) (args : List String) → Keeps Coherent (query_bool w c q args)
  unfolding query_bool
  query_bool-Coherent c q args = Keeps-ask _ _ (λ r t h. (tt, h))

  update-Coherent : (k : Kind) (o : Object k) → Keeps Coherent (update w k o)
  unfolding update
  update-Coherent k o = Keeps-ask _ _ (λ r t h. (tt, h))

  update_status-Coherent :
      (k : Kind) (o : Object k) → IsCoherent k o → Keeps Coherent (update_status w k o)
  unfolding update_status
  update_status-Coherent k o good = Keeps-ask _ _ (λ r t h. (good, h))

  pub Coherent-IsKept : (k : Kind) → IsKept w k Coherent
  Coherent-IsKept k = record {
    stable = Coherent-IsStable;
    on_exec = exec-Coherent;
    on_query_count = query_count-Coherent;
    on_query_bool = query_bool-Coherent;
    on_update = update-Coherent k;
    on_update_status = update_status-Coherent k;
  }

-- What is said of writes only, and nothing of the calls between them.
pub record IsOfWrites (C : Event → Trace → Type 0) : Type 0 where
  pub stable : IsStable (Always C)
  pub on_executed :
      (c : Conn) (q : String) (args : List String) (r : Done) (t : Trace)
      → C (executed c q args r) t
  pub on_counted :
      (c : Conn) (q : String) (args : List String) (r : _) (t : Trace) → C (counted c q args r) t
  pub on_tested :
      (c : Conn) (q : String) (args : List String) (r : _) (t : Trace) → C (tested c q args r) t

-- It is kept by a controller of objects of which it says nothing.
pub Always-IsKept :
    {C : Event → Trace → Type 0} (w : World) (k : Kind)
    → IsOfWrites C
    → ((o : Object k) (r : _) (t : Trace) → C (updated k o r) t)
    → ((o : Object k) (r : _) (t : Trace) → C (status_updated k o r) t)
    → IsKept w k (Always C)
unfolding exec query_count query_bool update update_status
Always-IsKept w k quiet on_updated on_status = record {
  stable = quiet.stable;
  on_exec = λ c q args. Keeps-ask _ _ (λ r t h. (quiet.on_executed c q args r t, h));
  on_query_count = λ c q args. Keeps-ask _ _ (λ r t h. (quiet.on_counted c q args r t, h));
  on_query_bool = λ c q args. Keeps-ask _ _ (λ r t h. (quiet.on_tested c q args r t, h));
  on_update = λ o. Keeps-ask _ _ (λ r t h. (on_updated o r t, h));
  on_update_status = λ o good. Keeps-ask _ _ (λ r t h. (on_status o r t, h));
}
