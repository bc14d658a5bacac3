-- ===== src/Migration/Protocol/Reconcile.antt =====
-- `Reconcile` of the migration controller sends what it may, and writes what it may.
use dbchan.Base.{◌≡◌, refl, true, ◌∷◌}
use dbchan.Base.Text.{String, ◌==◌}
use dbchan.Base.Prog.{Error, Result, ok, err}
use dbchan.Base.Prog.Triples.{
  Post, Triple, Triple-bind, Triple-pure, Triple-raise, Triple-catch, Triple-weaken, Triple-when,
  Triple-assume, Triple-on_none, Triple-if, Keeps,
}
use dbchan.Api.{ObjectKey, Migration, Database}
use dbchan.Cluster.{Kind, Trace, World, got, updated, status_updated}
use dbchan.Cluster.Calls.{get, update, update_status, now}
use dbchan.Cluster.Rules.{Triple-ask, Keeps-get, Keeps-list}
use dbchan.Controller.{is_set, Outcome, finished, failed}
use dbchan.Controller.Settled.{settle-Triple}
use dbchan.Migration.Reconcile.{
  migration_finalizer, with_finalizers, unapplied, fetch, save, save_status, park, finalize,
  ensure_finalizer, init_status, search_database, find_database, apply, applied_status, finish,
  migrate, body, reconcile,
}
use dbchan.Migration.Protocol.{IsTracking, Orderly}
use dbchan.Migration.Protocol.Apply.{
  Seen, Seen-IsStable, Same, apply_migration-Same, rollback_migration-Seen,
}

module _ (w : World) where
  fetch-Seen : (key : ObjectKey) → Triple (Orderly w) (fetch w key) (Seen w) (λ _. Orderly w)
  unfolding fetch get
  fetch-Seen key = Triple-catch (Triple-ask _ _ go) λ e.
      Triple-if e.not_found (λ _. Triple-raise finished (λ t h. h))
        (λ _. Triple-raise (failed e) (λ t h. h))
    where
      go :
          (r : Result Error Migration) (t : Trace)
          → Orderly w t
          → Post (Seen w) (λ _. Orderly w) (r, got Kind.migration key r ∷ t)
      go (ok m) t h = ((tt, h), refl)
      go (err e) t h = (tt, h)

  module _ (m : Migration) where
    -- A write with the spec and the status of `m`.
    save-Seen :
        (o : Migration)
        → o.spec ≡ m.spec
        → o.status ≡ m.status
        → Triple (Seen w m) (save w o) (Seen w) (λ _. Orderly w)
    unfolding save update
    save-Seen o spec status = Triple-catch (Triple-ask _ _ go) (λ e. Triple-raise _ (λ t h. h))
      where
        go :
            (r : Result Error Migration) (t : Trace)
            → Seen w m t
            → Post (Seen w) (λ _. Orderly w) (r, updated Kind.migration o r ∷ t)
        go (ok a) t (h, seen) = (((m, seen, spec, status), h), refl)
        go (err e) t (h, seen) = ((m, seen, spec, status), h)

    -- A write of the status, with the spec and the metadata of `m`.
    save_status-Seen :
        (o : Migration)
        → o.spec ≡ m.spec
        → o.metadata ≡ m.metadata
        → Triple (Seen w m) (save_status w o) (Seen w) (λ _. Orderly w)
    unfolding save_status update_status
    save_status-Seen o spec metadata =
        Triple-catch (Triple-ask _ _ go) (λ e. Triple-raise _ (λ t h. h))
      where
        go :
            (r : Result Error Migration) (t : Trace)
            → Seen w m t
            → Post (Seen w) (λ _. Orderly w) (r, status_updated Kind.migration o r ∷ t)
        go (ok a) t (h, seen) = (((m, seen, spec, metadata), h), refl)
        go (err e) t (h, seen) = ((m, seen, spec, metadata), h)

    -- `park` never comes back.
    park-Seen :
        {A : Type 0} {Q : A → Trace → Type 0} (phase message : String) (o : Outcome)
        → Triple (Seen w m) (park w {A = A} m phase message o) Q (λ _. Orderly w)
    unfolding park
    park-Seen phase message o =
        Triple-bind (save_status-Seen (unapplied m phase message) refl refl)
          (λ _. Triple-raise o (λ t h. h.0))

    finalize-Seen :
        is_set m.deletion_timestamp ≡ true
        → {Q : Unit {0} → Trace → Type 0} → Triple (Seen w m) (finalize w m) Q (λ _. Orderly w)
    unfolding finalize
    finalize-Seen deleted =
        Triple-bind {M = λ _. Orderly w}
          (Triple-when _
            (λ _.
              Triple-bind {M = λ _. Seen w m}
                (Triple-when _
                  (λ _.
                    Triple-catch (rollback_migration-Seen w m deleted)
                      (λ e. Triple-raise _ (λ t h. h.0)))
                  (λ _ t h. h))
                λ _.
                  Triple-bind (save-Seen (with_finalizers m _) refl refl)
                    (λ _. Triple-pure tt (λ t h. h.0)))
            (λ _ t h. h.0))
          (λ _. Triple-raise finished (λ t h. h))

    ensure_finalizer-Seen : Triple (Seen w m) (ensure_finalizer w m) (Seen w) (λ _. Orderly w)
    unfolding ensure_finalizer
    ensure_finalizer-Seen =
        Triple-if (w.contains_finalizer m.finalizers migration_finalizer)
          (λ _. Triple-pure m (λ t h. h)) (λ _. save-Seen (with_finalizers m _) refl refl)

    init_status-Seen : Triple (Seen w m) (init_status w m) (Seen w) (λ _. Orderly w)
    unfolding init_status
    init_status-Seen =
        Triple-if (m.status.phase == "") (λ _. save_status-Seen (unapplied m _ _) refl refl)
          (λ _. Triple-pure m (λ t h. h))

    search_database-Seen : Triple (Seen w m) (search_database w m) (λ _. Seen w m) (λ _. Orderly w)
    unfolding search_database
    search_database-Seen =
        Triple-bind
          (Triple-catch (Keeps-list w (Seen-IsStable w m) Kind.database refl)
            (λ e. park-Seen _ _ _))
          λ items.
            Triple-weaken (Triple-on_none _ (park-Seen _ _ _)) (λ t h. h) (λ a t h. h.0)
              (λ e t h. h)

    find_database-Seen :
        (key : ObjectKey)
        → Triple (Seen w m) (find_database w key m) (λ _. Seen w m) (λ _. Orderly w)
    unfolding find_database
    find_database-Seen key =
        Triple-catch (Keeps-get w (Seen-IsStable w m) Kind.database refl _)
          λ e. Triple-if e.not_found (λ _. search_database-Seen) (λ _. park-Seen _ _ _)

    apply-Same :
        IsTracking w → (d : Database) → Triple (Seen w m) (apply w m d) (Same w m) (λ _. Orderly w)
    unfolding apply
    apply-Same tracking d =
        Triple-catch (apply_migration-Same w m tracking d) (λ e. park-Seen _ _ _)

    finish-Seen :
        (o : Migration) → Triple (Same w m o) (finish w o) (λ _. Orderly w) (λ _. Orderly w)
    unfolding finish now
    finish-Seen o =
        Triple-bind {M = λ _. Same w m o} (record { at = λ t h. (((tt, h.0.0), h.0.1), h.1) })
          λ at.
            Triple-bind
              (Triple-assume {B = (o.spec ≡ m.spec) × (o.metadata ≡ m.metadata)} {P = Seen w m}
                λ (spec, metadata). save_status-Seen (applied_status w o at) spec metadata)
              (λ _. Triple-pure finished (λ t h. h.0))

  migrate-Orderly :
      IsTracking w
      → (key : ObjectKey) (m : Migration)
      → Triple (Seen w m) (migrate w key m) (λ _. Orderly w) (λ _. Orderly w)
  unfolding migrate
  migrate-Orderly tracking key m = Triple-bind (init_status-Seen m) λ m'.
      Triple-bind (find_database-Seen m' key) λ d.
        Triple-bind (Triple-when _ (λ _. park-Seen m' _ _ _) (λ _ t h. h))
          λ _. Triple-bind (apply-Same m' tracking d) (finish-Seen m')

  body-Orderly : IsTracking w → (key : ObjectKey) → Keeps (Orderly w) (body w key)
  unfolding body
  body-Orderly tracking key = Triple-bind (fetch-Seen key) λ m.
      Triple-bind (Triple-when _ (λ deleted. finalize-Seen m deleted) (λ _ t h. h)) λ _.
        Triple-bind (ensure_finalizer-Seen m) λ m'.
          Triple-bind (Triple-when _ (λ _. Triple-raise finished (λ t h. h.0)) (λ _ t h. h))
            (λ _. migrate-Orderly tracking key m')

-- In a world whose count of a version follows the tracking table, runs of `Reconcile` keep the trace
-- orderly: they send, for the migration that the API server gave last, the creation of the table; its
-- SQL, only while its version is not in the table; the record of the version with the checksum, only
-- directly after that SQL ran on that connection; and its rollback script and the removal of the record,
-- only if it is being deleted. A write of the migration has the spec and the status that the API
-- server gave last, and a write of its status has the spec and the metadata.
pub migration_reconcile-Orderly :
    (w : World)
    → IsTracking w
    → (key : ObjectKey) (t : Trace) → Orderly w t
    → Orderly w (reconcile w key t).1
unfolding reconcile
migration_reconcile-Orderly w tracking key t h =
    settle-Triple {Q = λ _. Orderly w} (body-Orderly w tracking key) t h
