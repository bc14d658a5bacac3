-- ===== src/Tests/Witnesses.antt =====
-- The theorems at the small cluster.
use dbchan.Base.{◌≡◌, ◌≢◌, ◌↔◌, refl, inr, List, [], ◌∷◌}
use dbchan.Base.Int.{pos}
use dbchan.Base.Text.{codes}
use dbchan.Base.Prog.{ok, err, errorf}
use dbchan.Base.Text.{◌<>◌}
use dbchan.Base.{none}
use dbchan.Tests.{postgres_store, orders_secret}
use dbchan.Tests.Runs.{postgres_passes, is_postgres}
use dbchan.Api.{Secret, User}
use dbchan.Cluster.{Kind}
use dbchan.Cluster.History.{Always}
use dbchan.Connection.Discipline.{Holding}
use dbchan.Controller.{find_by_name}
use dbchan.Controller.Search.{Found, find_by_name-Found}
use dbchan.Regexp.Laws.{All}
use dbchan.Migration.Evidence.{Claim as MigrationClaim}
use dbchan.Migration.Evidence.Justified.{migration_reconcile-Claims}
use dbchan.Migration.Reconcile.{reconcile as migration_reconcile}
use dbchan.Migration.Reconcile.Connections.{migration_reconcile-Holding}
use dbchan.Datastore.Reconcile.{reconcile as datastore_reconcile}
use dbchan.Datastore.Reconcile.Connections.{datastore_reconcile-Holding}
use dbchan.Datastore.Reconcile.Evidence.{Claim as DatastoreClaim}
use dbchan.Datastore.Reconcile.Evidence.Ready.{datastore_reconcile-Claims}
use dbchan.User.Evidence.{Claim as UserClaim}
use dbchan.User.Evidence.Justified.{user_reconcile-Claims}
use dbchan.User.Reconcile.{reconcile as user_reconcile}
use dbchan.User.Reconcile.Connections.{user_reconcile-Holding}
use dbchan.Database.Evidence.{Claim as DatabaseClaim}
use dbchan.Database.Evidence.Justified.{database_reconcile-Claims}
use dbchan.Database.Reconcile.{reconcile as database_reconcile}
use dbchan.Database.Reconcile.Connections.{database_reconcile-Holding}
use dbchan.Role.Evidence.{Claim as RoleClaim}
use dbchan.Role.Evidence.Justified.{role_reconcile-Claims}
use dbchan.Role.Reconcile.{reconcile as role_reconcile}
use dbchan.Role.Reconcile.Connections.{role_reconcile-Holding}
use dbchan.Role.Provision.{create_or_update_role}
use dbchan.Role.Provision.Admitted.{create_or_update_role_refuses}
use dbchan.Webhook.Checks.{object}
use dbchan.Webhook.Names.Safety.{IsSafe}
use dbchan.Webhook.Database.{validate_create as database_create}
use dbchan.Webhook.Database.Laws.{IsGoodName, validate_create-IsGoodName, validate_create-IsSafe}
use dbchan.Webhook.User.{validate_create as user_create}
use dbchan.Webhook.User.Admissible.{IsAdmissible}
use dbchan.Webhook.User.Laws.{validate_create-IsAdmissible}
use dbchan.Webhook.Datastore.{validate_create as datastore_create}
use dbchan.Webhook.Datastore.Laws.{
  IsUsable, secret_key, validate_create-IsUsable, validate_create_refuses,
}
use dbchan.Webhook.Role.{validate_delete as role_delete}
use dbchan.Webhook.Role.Laws.{Unused, validate_delete-Unused, validate_update-same_datastore}
use dbchan.Tests.{small_world, key_of, orders_store, orders, reader, auditors}
use dbchan.Tests.Runs.{database_passes, datastore_passes, role_stays}
use dbchan.Tests.Tracking.{tracking_world, tracking_world-IsTracking}
use dbchan.Migration.Protocol.{Orderly}
use dbchan.Migration.Protocol.Reconcile.{migration_reconcile-Orderly}
use dbchan.Base.{true, inl}
use dbchan.Cluster.{Done}
use dbchan.Manager.{Flags, tls_opts, Host, Part, readyz, TlsConfig, default_flags}
use dbchan.Manager.Setup.{main}
use dbchan.Manager.Order.{Ends, main-Ends}
use dbchan.Manager.Http.{AppliesOptions, manager_options-http2}

-- A manager that takes everything but the check of readiness.
abbrev add_answer : Part → Done
add_answer readyz = err (errorf "no ready check")
add_answer _ = ok tt

abbrev unready_host : Host
unready_host = record {
  new_manager = λ options t. ok tt;
  add = λ p t. add_answer p;
  start = λ t. ok tt;
}

main-Ends_example :
    Ends default_flags (main unready_host default_flags).0 (main unready_host default_flags).1
main-Ends_example = main-Ends unready_host default_flags

abbrev apply_options : List (TlsConfig → TlsConfig) → TlsConfig → TlsConfig
apply_options [] c = c
apply_options (f ∷ fs) c = apply_options fs (f c)

apply_options-AppliesOptions : AppliesOptions apply_options
apply_options-AppliesOptions = record { on_none = λ c. refl; on_next = λ f fs c. refl }

abbrev http2_flags : Flags
http2_flags = record default_flags { enable_http2 = true }

manager_options-http2_example : http2_flags.enable_http2 ≡ true
unfolding tls_opts
manager_options-http2_example =
    manager_options-http2 apply_options apply_options-AppliesOptions http2_flags
      (record { next_protos = "h2" ∷ [] }) (inl refl)

migration_reconcile-Orderly_example :
    Orderly tracking_world (migration_reconcile tracking_world (key_of "add-index") []).1
migration_reconcile-Orderly_example =
    migration_reconcile-Orderly tracking_world tracking_world-IsTracking (key_of "add-index") [] tt

migration_reconcile-Claims_example :
    Always (MigrationClaim small_world) (migration_reconcile small_world (key_of "add-index") []).1
migration_reconcile-Claims_example = migration_reconcile-Claims small_world (key_of "add-index")

migration_reconcile-Holding_example :
    Holding [] (migration_reconcile small_world (key_of "add-index") []).1
migration_reconcile-Holding_example =
    migration_reconcile-Holding small_world [] (key_of "add-index") []
      (record { open_now = refl; disciplined = tt })

datastore_reconcile-Claims_example :
    Always DatastoreClaim (datastore_reconcile small_world (key_of "orders-store") []).1
datastore_reconcile-Claims_example = datastore_reconcile-Claims small_world (key_of "orders-store")

datastore_reconcile-Holding_example :
    Holding [] (datastore_reconcile small_world (key_of "orders-store") []).1
datastore_reconcile-Holding_example =
    datastore_reconcile-Holding small_world [] (key_of "orders-store") []
      (record { open_now = refl; disciplined = tt })

find_by_name-Found_example :
    Found {A = User}
      (λ s. s.name)
      "reader"
      (reader ∷ [])
      (find_by_name (λ s. s.name) "reader" (reader ∷ []))
find_by_name-Found_example = find_by_name-Found {A = User} (λ s. s.name) "reader" (reader ∷ [])

validate_create-IsGoodName_example :
    (database_create (object Kind.database orders) ≡ ok tt) ↔ IsGoodName "orders"
validate_create-IsGoodName_example = validate_create-IsGoodName orders

validate_create-IsSafe_example : All IsSafe (codes "orders")
validate_create-IsSafe_example = validate_create-IsSafe orders database_passes

validate_create-IsAdmissible_example :
    (user_create (object Kind.user reader) ≡ ok tt) ↔ IsAdmissible reader
validate_create-IsAdmissible_example = validate_create-IsAdmissible reader

validate_create-IsUsable_example :
    IsUsable orders_store
    × ((s : Secret) × (small_world.get Kind.secret (secret_key orders_store) [] ≡ ok s))
validate_create-IsUsable_example =
    validate_create-IsUsable small_world orders_store [] datastore_passes

validate_create_refuses_example :
    (datastore_create small_world
      (object Kind.datastore
        (record orders_store { spec = record orders_store.spec { port = pos 0 } }))
      []).0
    ≢ ok tt
validate_create_refuses_example =
    validate_create_refuses small_world
      (record orders_store { spec = record orders_store.spec { port = pos 0 } }) [] (inr refl)

validate_delete-Unused_example :
    ((role_delete small_world (object Kind.role auditors) []).0 ≡ ok tt)
    ↔ ((us : List User) × (small_world.list_in Kind.user "shop" [] ≡ ok us) × Unused "auditors" us)
validate_delete-Unused_example = validate_delete-Unused small_world auditors []

validate_update-same_datastore_example :
    auditors.spec.datastore_ref.name ≡ auditors.spec.datastore_ref.name
validate_update-same_datastore_example =
    validate_update-same_datastore small_world auditors auditors [] role_stays

user_reconcile-Claims_example :
    Always (UserClaim small_world) (user_reconcile small_world (key_of "reader") []).1
user_reconcile-Claims_example = user_reconcile-Claims small_world (key_of "reader")

user_reconcile-Holding_example : Holding [] (user_reconcile small_world (key_of "reader") []).1
user_reconcile-Holding_example =
    user_reconcile-Holding small_world [] (key_of "reader") []
      (record { open_now = refl; disciplined = tt })

database_reconcile-Claims_example :
    Always DatabaseClaim (database_reconcile small_world (key_of "orders") []).1
database_reconcile-Claims_example = database_reconcile-Claims small_world (key_of "orders")

database_reconcile-Holding_example :
    Holding [] (database_reconcile small_world (key_of "orders") []).1
database_reconcile-Holding_example =
    database_reconcile-Holding small_world [] (key_of "orders") []
      (record { open_now = refl; disciplined = tt })

role_reconcile-Claims_example :
    Always RoleClaim (role_reconcile small_world (key_of "auditors") []).1
role_reconcile-Claims_example = role_reconcile-Claims small_world (key_of "auditors")

role_reconcile-Holding_example : Holding [] (role_reconcile small_world (key_of "auditors") []).1
role_reconcile-Holding_example =
    role_reconcile-Holding small_world [] (key_of "auditors") []
      (record { open_now = refl; disciplined = tt })

create_or_update_role_refuses_example :
    create_or_update_role small_world auditors postgres_store none orders_secret [] ≡ (
      err (
          errorf (
            "failed to connect to database" <> ": " <> "unsupported database type: "
            <> "postgres")),
      [],
    )
create_or_update_role_refuses_example =
    create_or_update_role_refuses small_world postgres_store [] postgres_passes is_postgres auditors
      none orders_secret []
