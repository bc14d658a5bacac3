-- ===== src/Controller/Reported.antt =====
-- What the result of a run says of the status that it leaves.
use dbchan.Base.{◌≡◌, false, ◌∷◌, if◌then◌else◌}
use dbchan.Base.Prog.{Error, Result, ok, err, raise, catch}
use dbchan.Base.Prog.Triples.{Post, Triple, Triple-catch, Triple-raise, Triple-if}
use dbchan.Api.{ObjectKey}
use dbchan.Cluster.{Kind, Object, Event, Trace, World, got, updated, status_updated}
use dbchan.Cluster.Calls.{Io, get, update, update_status}
use dbchan.Cluster.History.{Newest}
use dbchan.Cluster.Rules.{Triple-ask}
use dbchan.Controller.{Outcome, finished, failed, retry_later}

-- The object is not ready, or not applied.
abbrev pub IsUnready : (k : Kind) → Object k → Type 0
IsUnready Kind.secret o = ⊥
IsUnready Kind.datastore o = o.status.ready ≡ false
IsUnready Kind.database o = o.status.ready ≡ false
IsUnready Kind.user o = o.status.ready ≡ false
IsUnready Kind.role o = o.status.ready ≡ false
IsUnready Kind.migration o = o.status.applied ≡ false

abbrev pub Unready : Event → Type 0
Unready (status_updated k o r) = IsUnready k o
Unready _ = ⊥

-- The last call did not write such a status.
abbrev pub Quiet : Trace → Type 0
Quiet t = Newest Unready t → ⊥

-- A run that asks for no other one has not left an object that is not ready, and a run that asks for
-- another one in 30 seconds has just said in the status that the object is not ready.
pub record IsReported (o : Outcome) (t : Trace) : Type 0 where
  pub ends : o ≡ finished → Quiet t
  pub waits : o ≡ retry_later → Newest Unready t

pub finished-IsReported : (t : Trace) → Quiet t → IsReported finished t
finished-IsReported t quiet = record { ends = λ e. quiet; waits = λ e. absurd (differ e) }
  where
    differ : finished ≡ retry_later → ⊥
    differ e = cc

pub retry_later-IsReported : (t : Trace) → Newest Unready t → IsReported retry_later t
retry_later-IsReported t unready = record { ends = λ e. absurd (differ e); waits = λ e. unready }
  where
    differ : retry_later ≡ finished → ⊥
    differ e = cc

pub failed-IsReported : (e : Error) (t : Trace) → IsReported (failed e) t
failed-IsReported e t = record {
  ends = λ same. absurd (differ same);
  waits = λ same. absurd (unlike same);
}
  where
    differ : failed e ≡ finished → ⊥
    differ same = cc

    unlike : failed e ≡ retry_later → ⊥
    unlike same = cc

-- Nothing is known before, and nothing after.
pub Triple-unknown : {E A : Type 0} (m : Io E A) → Triple (λ t. Unit) m (λ a t. Unit) (λ e t. Unit)
Triple-unknown {E = E} {A = A} m = record { at = λ t h. go (m t) }
  where
    go : (r : Result E A × Trace) → Post (λ a t. Unit) (λ e t. Unit) r
    go (ok a, t) = tt
    go (err e, t) = tt

module _ (w : World) (k : Kind) where
  pub fetch-Quiet :
      (key : ObjectKey)
      → Triple
          (λ t. Unit)
          (catch (get w k key) (λ e. if e.not_found then raise finished else raise (failed e)))
          (λ o. Quiet)
          IsReported
  unfolding get
  fetch-Quiet key = Triple-catch {M = λ e. Quiet} (Triple-ask _ _ go) λ e.
      Triple-if e.not_found (λ _. Triple-raise finished finished-IsReported)
        (λ _. Triple-raise (failed e) (λ t h. failed-IsReported e t))
    where
      go :
          (r : Result Error (Object k)) (t : Trace)
          → Unit {0}
          → Post (λ o. Quiet) (λ e. Quiet) (r, got k key r ∷ t)
      go (ok o) t h = λ x. x
      go (err e) t h = λ x. x

  pub update-Quiet :
      (o : Object k)
      → Triple (λ t. Unit) (catch (update w k o) (λ e. raise (failed e))) (λ o. Quiet) IsReported
  unfolding update
  update-Quiet o =
      Triple-catch (Triple-ask _ _ go) (λ e. Triple-raise (failed e) (λ t h. failed-IsReported e t))
    where
      go :
          (r : Result Error (Object k)) (t : Trace)
          → Unit {0}
          → Post (λ o. Quiet) (λ e t. Unit) (r, updated k o r ∷ t)
      go (ok o) t h = λ x. x
      go (err e) t h = tt

  -- A write of a status, of which `Q` holds if it succeeds.
  pub update_status-Reported :
      {Q : Trace → Type 0} (o : Object k)
      → ((r : _) (t : Trace) → Q (status_updated k o r ∷ t))
      → Triple (λ t. Unit) (catch (update_status w k o) (λ e. raise (failed e))) (λ o. Q) IsReported
  unfolding update_status
  update_status-Reported {Q} o written =
      Triple-catch (Triple-ask _ _ go) (λ e. Triple-raise (failed e) (λ t h. failed-IsReported e t))
    where
      go :
          (r : Result Error (Object k)) (t : Trace)
          → Unit {0}
          → Post (λ o. Q) (λ e t. Unit) (r, status_updated k o r ∷ t)
      go (ok a) t h = written (ok a) t
      go (err e) t h = tt
