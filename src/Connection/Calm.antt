-- ===== src/Connection/Calm.antt =====
-- In a calm cluster, connections to a datastore of a supported type are made.
use dbchan.Base.{◌≡◌, refl, false, some}
use dbchan.Base.Text.{String}
use dbchan.Base.Prog.Gives.{Ends, Gives-bind, Gives-wrap, Gives-on_none, Gives-pure, ends_rules}
use dbchan.Api.{Datastore, Secret, ObjectKey, lookup}
use dbchan.Cluster.{Kind, Conn, Trace, World, closed}
use dbchan.Cluster.Calls.{Io}
use dbchan.Cluster.Calm.{Calm, Rest, Rest-cons, is_kind, Gives-get, Ends-open_pool, Ends-ping}
use dbchan.Connection.{
  dialect, driver, get_datastore_secret, open_and_ping, connect_to_database, connect_to_datastore,
  defer_close,
}
use dbchan.Connection.Rules.{Triple-defer_close}

module _ {w : World} (calm : Calm w) (own : Kind) (start : Trace) where
  pub Ends-defer_close :
      {E A : Type 0} (c : Conn) (m : Io E A)
      → Ends (Rest calm own start) m
      → Ends (Rest calm own start) (defer_close c m)
  Ends-defer_close c m k =
      Triple-defer_close c
        (λ a t h. (Rest-cons calm own start (closed c) t (λ k other. refl) h.0, tt)) (λ e t h. h) k

abbrev pub secret_key : Datastore → ObjectKey
secret_key d = record { namespace = d.namespace; name = d.spec.secret_ref.name }

-- A datastore that can be used: its type has a driver, and its secret exists and has the entries that
-- the connection string is made of.
pub record CanConnect {w : World} (calm : Calm w) (start : Trace) (d : Datastore) : Type 0 where
  pub driver_name : String
  pub has_driver : driver (dialect d.spec.datastore_type) ≡ some driver_name
  pub secret : Secret
  pub has_secret : calm.objects start Kind.secret (secret_key d) ≡ some secret
  pub username : String
  pub host : String
  pub password : String
  pub has_username : lookup "username" secret.entries ≡ some username
  pub has_host : lookup "host" secret.entries ≡ some host
  pub has_password : lookup "password" secret.entries ≡ some password

module _ {w : World} (calm : Calm w) (own : Kind) (start : Trace) where
  pub Ends-connect_to_database :
      (ty source name : String)
      → driver (dialect ty) ≡ some name
      → Ends (Rest calm own start) (connect_to_database w ty source)
  unfolding connect_to_database open_and_ping
  Ends-connect_to_database ty source name known =
      Gives-bind (Gives-on_none _ name _ known)
        λ n h. search (ends_rules, Ends-open_pool calm own start, Ends-ping calm own start) depth 12

  module _ (secret_other : is_kind own Kind.secret ≡ false) (d : Datastore)
      (can : CanConnect calm start d) where
    pub Ends-get_datastore_secret : Ends (Rest calm own start) (get_datastore_secret w d)
    unfolding get_datastore_secret
    Ends-get_datastore_secret =
        Gives-bind (Gives-get calm own start Kind.secret secret_other _ can.secret can.has_secret)
          (λ s h. Gives-pure _ tt)

    pub Ends-connect_to_datastore : Ends (Rest calm own start) (connect_to_datastore w d)
    unfolding connect_to_datastore
    Ends-connect_to_datastore =
        Gives-bind (Gives-wrap _ Ends-get_datastore_secret)
          λ s h. Gives-wrap _ (Ends-connect_to_database _ _ can.driver_name can.has_driver)
