-- ===== src/Manager/Setup.antt =====
-- `main`, and the functions that register the reconcilers and the validators.
use dbchan.Base.{ℕ, [], ◌∷◌}
use dbchan.Base.Prog.{Error, Result, ok, err, Prog, raise, catch, ◌>>◌}
use dbchan.Cluster.{Kind, Done}
use dbchan.Manager.{
  Flags, Options, manager_options, Part, reconciler, validator, healthz, readyz, Step, made, added,
  started, History, Host,
}

-- The end of the process: `main` returned, or `os.Exit` was called.
pub data Exit : Type 0 where
  returned : Exit
  exited : (code : ℕ) → Exit

abbrev pub Setup : Type 0 → Type 0 → Type 0
Setup E A = Prog History E A

unfoldable pub call : (History → Done) → (Done → Step) → Setup Error (Unit {0})
call answer step t = let r = answer t in (r, step r ∷ t)

-- `if err != nil { … os.Exit(1) }`
unfoldable pub or_exit : Setup Error (Unit {0}) → Setup Exit (Unit {0})
or_exit m = catch m (λ e. raise (exited 1))

module _ (h : Host) where
  unfoldable pub new_manager : Options → Setup Error (Unit {0})
  new_manager options = call (h.new_manager options) (made options)

  unfoldable pub add : Part → Setup Error (Unit {0})
  add p = call (h.add p) (added p)

  unfoldable pub start : Setup Error (Unit {0})
  start = call h.start started

  abbrev pub setup_database_reconciler : Setup Error (Unit {0})
  setup_database_reconciler = add (reconciler Kind.database)

  abbrev pub setup_migration_reconciler : Setup Error (Unit {0})
  setup_migration_reconciler = add (reconciler Kind.migration)

  abbrev pub setup_user_reconciler : Setup Error (Unit {0})
  setup_user_reconciler = add (reconciler Kind.user)

  abbrev pub setup_datastore_reconciler : Setup Error (Unit {0})
  setup_datastore_reconciler = add (reconciler Kind.datastore)

  abbrev pub setup_database_role_reconciler : Setup Error (Unit {0})
  setup_database_role_reconciler = add (reconciler Kind.role)

  abbrev pub setup_datastore_webhook : Setup Error (Unit {0})
  setup_datastore_webhook = add (validator Kind.datastore)

  abbrev pub setup_database_webhook : Setup Error (Unit {0})
  setup_database_webhook = add (validator Kind.database)

  abbrev pub setup_user_webhook : Setup Error (Unit {0})
  setup_user_webhook = add (validator Kind.user)

  abbrev pub setup_database_role_webhook : Setup Error (Unit {0})
  setup_database_role_webhook = add (validator Kind.role)

  -- The calls of `main`, up to `os.Exit`.
  unfoldable pub run : Flags → Setup Exit (Unit {0})
  run flags = do
    or_exit (new_manager (manager_options flags))
    or_exit setup_database_reconciler
    or_exit setup_migration_reconciler
    or_exit setup_user_reconciler
    or_exit setup_datastore_reconciler
    or_exit setup_database_role_reconciler
    or_exit setup_datastore_webhook
    or_exit setup_database_webhook
    or_exit setup_user_webhook
    or_exit setup_database_role_webhook
    or_exit (add healthz)
    or_exit (add readyz)
    or_exit start

-- How the process ends.
abbrev pub ending : Result Exit (Unit {0}) → Exit
ending (ok _) = returned
ending (err e) = e

unfoldable pub main : Host → Flags → Exit × History
unfolding run
main h flags = let (r, t) = run h flags [] in (ending r, t)
