-- ===== src/Migration/Protocol/Ledger.antt =====
-- The tracking table as a set of versions, and the migration controller as an implementation of it.
use dbchan.Base.{
  ◌≡◌, refl, Bool, true, false, Option, some, none, List, [], ◌∷◌, if◌then◌else◌, arith,
}
use dbchan.Base.Text.{String, ◌==◌, eq_refl}
use dbchan.Base.Prog.{Error, ok, err}
use dbchan.Api.{ObjectKey, Migration}
use dbchan.Cluster.{Conn, Done, Event, Trace, World, executed}
use dbchan.Connection.{Dialect, mysql, postgres, sqlserver, unsupported}
use dbchan.Migration.Table.{insert_sql, delete_sql}
use dbchan.Migration.Reconcile.{reconcile}
use dbchan.Migration.Protocol.{
  is_text, is_one, in_table, IsTracking, Sends, creates, runs, records, rolls_back, removes,
  Allowed, Orderly,
}
use dbchan.Migration.Protocol.Reconcile.{migration_reconcile-Orderly}

-- The versions that are applied.
abbrev pub Ledger : Type 0
Ledger = String → Bool

-- The commands to the tracking table, with their success.
pub data Command : Type 0 where
  insert delete : (version : String) (done : Bool) → Command

abbrev is_done : Done → Bool
is_done (ok _) = true
is_done (err e) = false

-- The command that a call sends.
abbrev command : Event → Option Command
command (executed c q (v ∷ args) r) =
    if is_one insert_sql q
    then some (insert v (is_done r))
    else if is_one delete_sql q
    then some (delete v (is_done r))
    else none
command _ = none

abbrev Same : Ledger → Ledger → Type 0
Same l m = (v : String) → m v ≡ l v

-- What a command does to a ledger. An insert is sent only for a version that is not there.
pub data Does : Option Command → Ledger → Ledger → Type 0 where
  stays : {l m : Ledger} → Same l m → Does none l m
  inserts :
      {l m : Ledger} {v : String}
      → l v ≡ false
      → ((u : String) → m u ≡ (if v == u then true else l u))
      → Does (some (insert v true)) l m
  fails_to_insert :
      {l m : Ledger} {v : String} → l v ≡ false → Same l m → Does (some (insert v false)) l m
  deletes :
      {l m : Ledger} {v : String}
      → ((u : String) → m u ≡ (if v == u then false else l u))
      → Does (some (delete v true)) l m
  fails_to_delete : {l m : Ledger} {v : String} → Same l m → Does (some (delete v false)) l m

-- The calls of a trace, as commands, lead from the empty ledger to this one.
pub data Leads : Trace → Ledger → Type 0 where
  empty : {l : Ledger} → ((v : String) → l v ≡ false) → Leads [] l
  next : {l m : Ledger} {e : Event} {t : Trace} → Leads t l → Does (command e) l m → Leads (e ∷ t) m

-- The ledger of a trace.
abbrev pub ledger : Trace → Ledger
ledger t v = in_table v t

text_refl : (o : Option String) (q : String) → o ≡ some q → is_text o q ≡ true
text_refl o q known = rw known (eq_refl q)

is_one_refl :
    (f : Dialect → Option String) (d : Dialect) (q : String)
    → f unsupported ≡ none
    → f d ≡ some q
    → is_one f q ≡ true
is_one_refl f mysql q no_other known = let same = text_refl (f mysql) q known in ground arith
is_one_refl f postgres q no_other known = let same = text_refl (f postgres) q known in ground arith
is_one_refl f sqlserver q no_other known =
    let same = text_refl (f sqlserver) q known in ground arith
is_one_refl f unsupported q no_other known = cc

insert_is_one : (d : Dialect) (q : String) → insert_sql d ≡ some q → is_one insert_sql q ≡ true
unfolding insert_sql
insert_is_one d q = is_one_refl insert_sql d q refl

delete_is_one : (d : Dialect) (q : String) → delete_sql d ≡ some q → is_one delete_sql q ≡ true
unfolding delete_sql
delete_is_one d q = is_one_refl delete_sql d q refl

-- No statement that deletes is one that inserts.
is_insert : Option String → Bool
is_insert none = false
is_insert (some q) = is_one insert_sql q

delete_inserts : (d : Dialect) → is_insert (delete_sql d) ≡ false
unfolding is_insert insert_sql delete_sql
delete_inserts mysql = refl
delete_inserts postgres = refl
delete_inserts sqlserver = refl
delete_inserts unsupported = refl

delete_no_insert : (d : Dialect) (q : String) → delete_sql d ≡ some q → is_one insert_sql q ≡ false
unfolding is_insert
delete_no_insert d q known = let no = delete_inserts d in rw known at no

failed-stays :
    (v : String) (t : Trace) (c : Conn) (q : String) (args : List String) (e : Error)
    → in_table v (executed c q args (err e) ∷ t) ≡ in_table v t
unfolding in_table
failed-stays v t c q [] e = refl
failed-stays v t c q (u ∷ args) e = refl

Sends-Does :
    (w : World) (m : Migration) (t : Trace) (c : Conn) (q : String) (args : List String) (r : Done)
    → Sends w m t c q args
    → Does (command (executed c q args r)) (ledger t) (ledger (executed c q args r ∷ t))
unfolding in_table
Sends-Does w m t c q args (ok _) (creates d known) = stays (λ v. refl)
Sends-Does w m t c q args (err e) (creates d known) = stays (λ v. refl)
Sends-Does w m t c q args (ok _) (runs fresh) = stays (λ v. refl)
Sends-Does w m t c q args (err e) (runs fresh) = stays (λ v. refl)
Sends-Does w m t c q args (ok _) (records d known fresh) =
    let one = insert_is_one d q known in rw one (inserts fresh (λ u. rw one refl))
Sends-Does w m t c q args (err e) (records d known fresh) =
    rw (insert_is_one d q known) (fails_to_insert fresh (λ u. refl))
Sends-Does w m t c q args (ok _) (rolls_back deleted) = stays (λ v. refl)
Sends-Does w m t c q args (err e) (rolls_back deleted) = stays (λ v. refl)
Sends-Does w m t c q args (ok _) (removes d known deleted) =
    let no = delete_no_insert d q known in
    let one = delete_is_one d q known in rw (no, one) (deletes (λ u. rw (no, one) refl))
Sends-Does w m t c q args (err e) (removes d known deleted) =
    rw (delete_no_insert d q known, delete_is_one d q known) (fails_to_delete (λ u. refl))

other-Does :
    (w : World) (e : Event) (t : Trace)
    → Allowed w e t
    → Does (command e) (ledger t) (ledger (e ∷ t))
unfolding in_table
other-Does w (executed c q args r) t (m, seen, sends) = Sends-Does w m t c q args r sends
other-Does w _ t h = stays (λ v. refl)

Orderly-Leads : (w : World) (t : Trace) → Orderly w t → Leads t (ledger t)
unfolding in_table
Orderly-Leads w [] h = empty (λ v. refl)
Orderly-Leads w (e ∷ t) (allowed, h) = next (Orderly-Leads w t h) (other-Does w e t allowed)

-- The runs of the controller for these objects, one after the other, the last one of the list first.
abbrev pub runs_for : World → List ObjectKey → Trace
runs_for w [] = []
runs_for w (key ∷ keys) = (reconcile w key (runs_for w keys)).1

runs_for-Orderly :
    (w : World) → IsTracking w → (keys : List ObjectKey) → Orderly w (runs_for w keys)
runs_for-Orderly w tracking [] = tt
runs_for-Orderly w tracking (key ∷ keys) =
    migration_reconcile-Orderly w tracking key (runs_for w keys) (runs_for-Orderly w tracking keys)

-- In a world whose count of a version follows the tracking table, the calls of every sequence of runs,
-- whatever the objects and wherever calls fail, are commands that a ledger takes: it starts empty, and
-- an insert, whether it succeeds or fails, is sent only while its version is not in the ledger.
pub migration_reconcile-refines-Ledger :
    (w : World)
    → IsTracking w
    → (keys : List ObjectKey) → Leads (runs_for w keys) (ledger (runs_for w keys))
migration_reconcile-refines-Ledger w tracking keys =
    Orderly-Leads w (runs_for w keys) (runs_for-Orderly w tracking keys)
