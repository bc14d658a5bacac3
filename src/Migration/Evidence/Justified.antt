-- ===== src/Migration/Evidence/Justified.antt =====
-- Every write of `Reconcile` to the API server has its justification in the run.
use dbchan.Base.{refl}
use dbchan.Base.{◌≡◌, inr, true, false, not, [], ◌∷◌, arith}
use dbchan.Base.Text.{String, ◌==◌}
use dbchan.Base.Prog.{when, Error, Result, ok, err, raise, catch}
use dbchan.Base.Prog.Triples.{
  Keeps-if, Keeps-when, Keeps-pure, Keeps-raise, Triple-assume, Post, Triple, Triple-bind,
  Triple-pure, Triple-raise, Triple-catch, Triple-weaken, Triple-when, Keeps, Keeps-bind,
  Keeps-catch, keeps_rules,
}
use dbchan.Api.{ObjectKey, Migration}
use dbchan.Cluster.{Kind, Trace, World, updated, status_updated}
use dbchan.Cluster.Calls.{update, update_status, now}
use dbchan.Cluster.Rules.{Keeps-get, Keeps-list, Triple-ask}
use dbchan.Cluster.History.{Always}
use dbchan.Controller.{Outcome, finished, failed}
use dbchan.Controller.Settled.{settle-keeps}
use dbchan.Migration.Evidence.{IsApplied, IsRolledBack, Claim}
use dbchan.Migration.Evidence.Applied.{Claims, Claims-IsStable, Applied, apply_migration-Applied}
use dbchan.Migration.Evidence.RolledBack.{rollback_migration-RolledBack}
use dbchan.Migration.Apply.{rollback_migration}
use dbchan.Migration.Reconcile.{
  with_finalizers, unapplied, fetch, save, save_status, park, finalize, ensure_finalizer,
  init_status, search_database, find_database, apply, applied_status, finish, migrate, body,
  reconcile,
}
use dbchan.Controller.{is_set}

module _ (w : World) where
  -- A status write that can be justified.
  save_status-Claims :
      (m : Migration)
      → Triple
          (λ t. Claims w t × (m.status.applied ≡ true → IsApplied w m.spec t))
          (save_status w m)
          (λ _. Claims w)
          (λ _. Claims w)
  unfolding save_status update_status
  save_status-Claims m = Triple-catch (Triple-ask _ _ go) (λ e. Triple-raise _ (λ t h. h))
    where
      go :
          (r : Result Error Migration) (t : Trace)
          → Claims w t × (m.status.applied ≡ true → IsApplied w m.spec t)
          → Post (λ _. Claims w) (λ _. Claims w) (r, status_updated Kind.migration m r ∷ t)
      go (ok a) t (h, why) = (why, h)
      go (err e) t (h, why) = (why, h)

  save_unapplied-Claims :
      (m : Migration) (phase message : String)
      → Keeps (Claims w) (save_status w (unapplied m phase message))
  save_unapplied-Claims m phase message =
      Triple-weaken (save_status-Claims _) (λ t h. (h, λ e. cc)) (λ a t h. h) (λ e t h. h)

  -- `park` never comes back.
  park_end :
      {A : Type 0} {Q : A → Trace → Type 0} (m : Migration) (phase message : String) (o : Outcome)
      → Triple (Claims w) (park w {A = A} m phase message o) Q (λ _. Claims w)
  unfolding park
  park_end m phase message o =
      Triple-bind (save_unapplied-Claims m phase message) (λ _. Triple-raise o (λ t h. h))

  park-Claims :
      {A : Type 0} (m : Migration) (phase message : String) (o : Outcome)
      → Keeps (Claims w) (park w {A = A} m phase message o)
  park-Claims m phase message o = park_end m phase message o

  save-Claims :
      (m : Migration)
      → Triple
          (λ t.
            Claims w t
            × (is_set m.deletion_timestamp ≡ true
                → (m.spec.rollback_sql == "") ≡ false
                → IsRolledBack m t))
          (save w m)
          (λ _. Claims w)
          (λ _. Claims w)
  unfolding save update
  save-Claims m = Triple-catch (Triple-ask _ _ go) (λ e. Triple-raise _ (λ t h. h))
    where
      go :
          (r : Result Error Migration) (t : Trace)
          → Claims w t
            × (is_set m.deletion_timestamp ≡ true
                → (m.spec.rollback_sql == "") ≡ false
                → IsRolledBack m t)
          → Post (λ _. Claims w) (λ _. Claims w) (r, updated Kind.migration m r ∷ t)
      go (ok a) t (h, why) = (why, h)
      go (err e) t (h, why) = (why, h)

  -- The rollback step: skipped without a script, and successful if it is passed.
  rollback_step-Claims :
      (m : Migration)
      → Triple
          (Claims w)
          (when
            (not (m.spec.rollback_sql == ""))
            (catch (rollback_migration w m) (λ e. raise (failed e))))
          (λ _ t. Claims w t × ((m.spec.rollback_sql == "") ≡ false → IsRolledBack m t))
          (λ _. Claims w)
  rollback_step-Claims m =
      Triple-when _
        (λ has.
          Triple-catch
            (Triple-weaken (rollback_migration-RolledBack w m (ground arith)) (λ t h. h)
              (λ a t h. (h.0, λ _. h.1)) (λ e t h. h))
            (λ e. Triple-raise _ (λ t h. h)))
        (λ has t h. (h, λ e. ground arith))

  finalize-Claims :
      (m : Migration) {Q : Unit {0} → Trace → Type 0}
      → Triple (Claims w) (finalize w m) Q (λ _. Claims w)
  unfolding finalize
  finalize-Claims m =
      Triple-bind
        (Triple-when (w.contains_finalizer _ _)
          (λ _. Triple-bind (rollback_step-Claims m) λ _.
            Triple-bind
              (Triple-weaken (save-Claims (with_finalizers m _)) (λ t h. (h.0, λ _. h.1))
                (λ a t h. h) (λ e t h. h))
              (λ _. Triple-pure tt (λ t h. h)))
          (λ _ t h. h))
        (λ _. Triple-raise finished (λ t h. h))

  ensure_finalizer-Claims :
      (m : Migration)
      → is_set m.deletion_timestamp ≡ false
      → Keeps (Claims w) (ensure_finalizer w m)
  unfolding ensure_finalizer
  ensure_finalizer-Claims m alive = Keeps-if _ _ _ (Keeps-pure m) (
      Triple-weaken (save-Claims (with_finalizers m _)) (λ t h. (h, λ dead. cc)) (λ a t h. h)
        (λ e t h. h))

  search_database-Claims : (m : Migration) → Keeps (Claims w) (search_database w m)
  unfolding search_database
  search_database-Claims m =
      Keeps-bind _ _
        (search (keeps_rules, Keeps-list w (Claims-IsStable w) Kind.database refl, park-Claims))
        λ items. search (keeps_rules, park-Claims)

  find_database-Claims :
      (key : ObjectKey) (m : Migration) → Keeps (Claims w) (find_database w key m)
  unfolding find_database
  find_database-Claims key m =
      Keeps-catch _ _ (Keeps-get w (Claims-IsStable w) Kind.database refl _)
        λ e. search (keeps_rules, park-Claims, search_database-Claims)

  finish-Claims :
      (m : Migration) → Triple (Applied w m) (finish w m) (λ _. Claims w) (λ _. Claims w)
  unfolding finish now
  finish-Claims m =
      Triple-bind {M = λ _. Applied w m} (record { at = λ t h. ((tt, h.0), inr h.1) })
        λ at.
          Triple-bind
            (Triple-weaken (save_status-Claims (applied_status w m at)) (λ t h. (h.0, λ _. h.1))
              (λ a t h. h) (λ e t h. h))
            (λ _. Triple-pure finished (λ t h. h))

  init_status-Claims : (m : Migration) → Keeps (Claims w) (init_status w m)
  unfolding init_status
  init_status-Claims m = search (keeps_rules, save_unapplied-Claims)

  migrate-Claims : (key : ObjectKey) (m : Migration) → Keeps (Claims w) (migrate w key m)
  unfolding migrate apply
  migrate-Claims key m = Triple-bind (init_status-Claims m) λ m'.
      Triple-bind (find_database-Claims key m') λ d.
        Triple-bind (Keeps-when _ _ (park-Claims m' _ _ _)) λ _.
          Triple-bind (Triple-catch (apply_migration-Applied w m' d) (λ e. park_end m' _ _ _))
            (λ done. finish-Claims done)

  fetch-Claims : (key : ObjectKey) → Keeps (Claims w) (fetch w key)
  unfolding fetch
  fetch-Claims key = search (keeps_rules, Keeps-get w (Claims-IsStable w) Kind.migration refl)

  body-Claims : (key : ObjectKey) → Keeps (Claims w) (body w key)
  unfolding body
  body-Claims key = Triple-bind (fetch-Claims key) λ m.
      Triple-bind {M = λ _ t. Claims w t × (is_set m.deletion_timestamp ≡ false)}
        (Triple-when _ (λ _. finalize-Claims m) (λ alive t h. (h, alive)))
        λ _. Triple-assume λ alive.
          Triple-bind (ensure_finalizer-Claims m alive)
            λ m'. Triple-bind (Keeps-when _ _ (Keeps-raise finished)) (λ _. migrate-Claims key m')

pub migration_reconcile-Keeps-Claims :
    (w : World) (key : ObjectKey) (t : Trace) → Claims w t → Claims w (reconcile w key t).1
unfolding reconcile
migration_reconcile-Keeps-Claims w key t h = settle-keeps (body-Claims w key) t h

-- In a run of `Reconcile`, whatever the world answers: a status that says `applied` is written only
-- after the tracking table was found to have the version, or after the SQL ran without an error and
-- the version was then recorded with the checksum; and an object that is being deleted and has a
-- rollback script is updated, which is how its finalizer goes, only after the rollback script ran and
-- the record was removed, or after the database was reported not to exist.
pub migration_reconcile-Claims :
    (w : World) (key : ObjectKey) → Always (Claim w) (reconcile w key []).1
migration_reconcile-Claims w key = migration_reconcile-Keeps-Claims w key [] tt
