-- ===== src/Datastore/Source/Port.antt =====
-- The port in a connection string.
use text.Mathlib.TextLemmas.{append_cancel_left, append_cancel_right}
use dbchan.Base.{zero, suc, ◌≡◌, ◌≢◌, refl, sym, ◌∙◌, some}
use dbchan.Base.Int.{ℤ, pos, negsuc, show_int}
use dbchan.Base.Int.Decimal.{show_int_inj}
use dbchan.Base.Text.{String, ◌<>◌}
use dbchan.Connection.{Dialect, mysql, postgres, sqlserver, unsupported, dialect, driver}
use dbchan.Datastore.Source.{port_or, source_of, build_connection_string}

port_or-set : (default p : ℤ) → p ≢ pos 0 → port_or default p ≡ p
port_or-set default (pos zero) set = absurd (set refl)
port_or-set default (pos (suc n)) set = refl
port_or-set default (negsuc n) set = refl

-- The six texts before the port, and what comes after it.
port_between :
    (default : ℤ) (a b c d e f after : String) (p q : ℤ)
    → p ≢ pos 0
    → q ≢ pos 0
    → a <> b <> c <> d <> e <> f <> show_int (port_or default p) <> after
      ≡ a <> b <> c <> d <> e <> f <> show_int (port_or default q) <> after
    → p ≡ q
port_between default a b c d e f after p q set_p set_q same =
    sym (port_or-set default p set_p)
    ∙ show_int_inj _ _ (
        append_cancel_right _ _ after (
          append_cancel_left f _ _ (
            append_cancel_left e _ _ (
              append_cancel_left d _ _ (
                append_cancel_left c _ _
                  (append_cancel_left b _ _ (append_cancel_left a _ _ same)))))))
    ∙ port_or-set default q set_q

source_of-port :
    (k : Dialect) (driver_name name host username password ssl_mode instance_name : String)
    (p q : ℤ)
    → driver k ≡ some driver_name
    → p ≢ pos 0
    → q ≢ pos 0
    → source_of k name host username password p ssl_mode instance_name
      ≡ source_of k name host username password q ssl_mode instance_name
    → p ≡ q
unfolding source_of
source_of-port mysql n name host username password ssl inst p q known set_p set_q same =
    port_between (pos 3306) username ":" password "@tcp(" host ":" _ p q set_p set_q same
source_of-port postgres n name host username password ssl inst p q known set_p set_q same =
    port_between (pos 5432) username ":" password "@" host ":" _ p q set_p set_q
      (append_cancel_left "postgres://" _ _ same)
source_of-port sqlserver n name host username password ssl inst p q known set_p set_q same =
    port_between (pos 1433) username ":" password "@" host ":" _ p q set_p set_q
      (append_cancel_left "sqlserver://" _ _ same)
source_of-port unsupported n name host username password ssl inst p q known set_p set_q same = cc

-- For a datastore type that has a driver, two connection strings that differ in their ports, of any
-- sign but not 0, are different.
pub build_connection_string-port :
    (ty driver_name name host username password ssl_mode instance_name : String) (p q : ℤ)
    → driver (dialect ty) ≡ some driver_name
    → p ≢ pos 0
    → q ≢ pos 0
    → p ≢ q
    → build_connection_string ty name host username password p ssl_mode instance_name
      ≢ build_connection_string ty name host username password q ssl_mode instance_name
unfolding build_connection_string
build_connection_string-port ty d name host username password ssl inst p q known set_p set_q differ
      same =
    differ (
      source_of-port (dialect ty) d name host username password ssl inst p q known set_p set_q same)
