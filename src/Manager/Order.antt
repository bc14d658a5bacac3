-- ===== src/Manager/Order.antt =====
-- The manager starts when all is set up, and the first error ends the process.
use dbchan.Base.{ℕ, zero, suc, ◌≡◌, refl, List, [], ◌∷◌}
use dbchan.Base.Prog.{Error, Result, ok, err}
use dbchan.Base.Prog.Triples.{Post, Triple, Triple-bind, Triple-raise, Triple-catch}
use dbchan.Cluster.{Kind, Done}
use dbchan.Manager.{
  Flags, manager_options, Part, reconciler, validator, healthz, readyz, Step, made, added, started,
  History, Host,
}
use dbchan.Manager.Setup.{
  Exit, returned, exited, call, or_exit, new_manager, add, start, run, ending, main,
}

-- All parts, the one that is added last first.
abbrev pub all_parts : List Part
all_parts =
    readyz
    ∷ healthz
    ∷ validator Kind.role
    ∷ validator Kind.user
    ∷ validator Kind.database
    ∷ validator Kind.datastore
    ∷ reconciler Kind.role
    ∷ reconciler Kind.datastore
    ∷ reconciler Kind.user
    ∷ reconciler Kind.migration
    ∷ reconciler Kind.database
    ∷ []

-- The history when the manager was made and these parts were added without an error.
abbrev pub set_up : Flags → List Part → History
set_up flags [] = made (manager_options flags) (ok tt) ∷ []
set_up flags (p ∷ ps) = added p (ok tt) ∷ set_up flags ps

-- The list without its first `n` elements.
abbrev drop : {A : Type 0} → ℕ → List A → List A
drop zero xs = xs
drop (suc n) [] = []
drop (suc n) (x ∷ xs) = drop n xs

-- The histories with which the process ends.
pub data Ends (flags : Flags) : Exit → History → Type 0 where
  stopped : Ends flags returned (started (ok tt) ∷ set_up flags all_parts)
  no_manager : {e : Error} → Ends flags (exited 1) (made (manager_options flags) (err e) ∷ [])
  no_part :
      {e : Error} {p : Part} {ps : List Part} (later : ℕ)
      → drop later all_parts ≡ p ∷ ps
      → Ends flags (exited 1) (added p (err e) ∷ set_up flags ps)
  no_start : {e : Error} → Ends flags (exited 1) (started (err e) ∷ set_up flags all_parts)

module _ (flags : Flags) where
  or_exit-Ends :
      {P Q : History → Type 0} (answer : History → Done) (step : Done → Step)
      → ((t : History) → P t → Q (step (ok tt) ∷ t))
      → ((e : Error) (t : History) → P t → Ends flags (exited 1) (step (err e) ∷ t))
      → Triple P (or_exit (call answer step)) (λ _. Q) (Ends flags)
  unfolding or_exit call
  or_exit-Ends {P} {Q} answer step next stop =
      Triple-catch {M = λ e. Ends flags (exited 1)} (record { at = λ t h. go (answer t) t h })
        (λ e. Triple-raise (exited 1) (λ t h. h))
    where
      go :
          (r : Done) (t : History)
          → P t
          → Post (λ _. Q) (λ e. Ends flags (exited 1)) (r, step r ∷ t)
      go (ok _) t h = next t h
      go (err e) t h = stop e t h

  module _ (h : Host) where
    add-Ends :
        (p : Part) (ps : List Part) (later : ℕ)
        → drop later all_parts ≡ p ∷ ps
        → Triple
            (λ t. t ≡ set_up flags ps)
            (or_exit (add h p))
            (λ _ t. t ≡ set_up flags (p ∷ ps))
            (Ends flags)
    unfolding add
    add-Ends p ps later known =
        or_exit-Ends _ _ (λ t e. rw e refl) (λ x t e. rw e (no_part later known))

    run-Ends : Triple (λ t. t ≡ []) (run h flags) (λ _ t. Ends flags returned t) (Ends flags)
    unfolding run new_manager start
    run-Ends =
        Triple-bind
          (or_exit-Ends {Q = λ t. t ≡ set_up flags []} _ _ (λ t e. rw e refl)
            (λ x t e. rw e no_manager))
          λ _. Triple-bind (add-Ends _ _ 10 refl) λ _. Triple-bind (add-Ends _ _ 9 refl) λ _.
            Triple-bind (add-Ends _ _ 8 refl) λ _. Triple-bind (add-Ends _ _ 7 refl) λ _.
              Triple-bind (add-Ends _ _ 6 refl) λ _. Triple-bind (add-Ends _ _ 5 refl) λ _.
                Triple-bind (add-Ends _ _ 4 refl) λ _. Triple-bind (add-Ends _ _ 3 refl) λ _.
                  Triple-bind (add-Ends _ _ 2 refl) λ _. Triple-bind (add-Ends _ _ 1 refl) λ _.
                    Triple-bind (add-Ends _ _ 0 refl)
                      λ _. or_exit-Ends _ _ (λ t e. rw e stopped) (λ x t e. rw e no_start)

-- Whatever the manager answers, `main` ends in one of four ways: it returns, after the manager was made,
-- the five reconcilers, the four validators and the two checks were added in this order, each once,
-- and the manager was started, all without an error; or the process exits with 1 directly after the
-- first error, which is that of making the manager, of adding a part to those that come before it, or
-- of the manager that runs.
pub main-Ends : (h : Host) (flags : Flags) → Ends flags (main h flags).0 (main h flags).1
unfolding main
main-Ends h flags = go (run h flags []) ((run-Ends flags h).at [] refl)
  where
    go :
        (r : Result Exit (Unit {0}) × History)
        → Post (λ _. Ends flags returned) (Ends flags) r
        → Ends flags (ending r.0) r.1
    go (ok _, t) e = e
    go (err x, t) e = e
