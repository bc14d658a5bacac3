-- ===== src/Tests/Texts.antt =====
-- Checksums and accounts of the small cluster.
use dbchan.Base.{ℕ, arith, ◌≡◌, ◌≢◌, refl, some, List, [], ◌∷◌}
use dbchan.Base.Text.{◌<>◌, codes, len}
use dbchan.Base.Int.{pos, negsuc}
use dbchan.Cluster.{World}
use dbchan.Connection.{mysql, dialect, driver}
use dbchan.Datastore.Source.{build_connection_string}
use dbchan.Datastore.Source.Port.{build_connection_string-port}
use dbchan.Migration.Table.{create_table_sql, calculate_checksum}
use dbchan.Migration.Table.Hex.{hex_decode, hex_decode-calculate_checksum}
use dbchan.Migration.Table.Column.{checksum_places, checksum_places-calculate_checksum}
use dbchan.User.Statements.{mysql_account}
use dbchan.User.Statements.Quoted.{read_account}
use dbchan.Webhook.User.Accounts.{read_account-admitted}
use dbchan.Tests.{small_world, reader}
use dbchan.Tests.Runs.{user_passes}

checksum_runs : calculate_checksum small_world "SELECT 1" ≡ "ab07"
unfolding calculate_checksum dbchan.Migration.Table.hex_encode
checksum_runs = refl

hex_decode-calculate_checksum_example :
    hex_decode (codes (calculate_checksum small_world "SELECT 1")) ≡ 171 ∷ 7 ∷ []
hex_decode-calculate_checksum_example =
    hex_decode-calculate_checksum small_world "SELECT 1" (omega arith, (omega arith, tt))

-- A hash of 32 bytes.
abbrev hash : List ℕ
hash =
    1 ∷ 2 ∷ 3 ∷ 4 ∷ 5 ∷ 6 ∷ 7 ∷ 8 ∷ 9 ∷ 10 ∷ 11 ∷ 12 ∷ 13 ∷ 14 ∷ 15 ∷ 16 ∷ 17 ∷ 18 ∷ 19 ∷ 20 ∷ 21
    ∷ 22 ∷ 23 ∷ 24 ∷ 25 ∷ 26 ∷ 27 ∷ 28 ∷ 29 ∷ 30 ∷ 31 ∷ 255 ∷ []

abbrev hashing_world : World
hashing_world = record small_world { sha256 = λ s. hash }

checksum_places-calculate_checksum_example :
    checksum_places (create_table_sql mysql)
    ≡ some (len (calculate_checksum hashing_world "SELECT 1"))
checksum_places-calculate_checksum_example =
    checksum_places-calculate_checksum hashing_world "SELECT 1" mysql "mysql" refl refl

read_account-admitted_example :
    read_account (codes (mysql_account reader.spec <> " IDENTIFIED BY"))
    ≡ some (codes "reader", codes "", codes " IDENTIFIED BY")
read_account-admitted_example = read_account-admitted reader " IDENTIFIED BY" user_passes

set : pos 3306 ≢ pos 0
set e = cc

unlike : negsuc 13306 ≢ pos 0
unlike e = cc

differ : pos 3306 ≢ negsuc 13306
differ e = cc

mysql_has_driver : driver (dialect "mysql") ≡ some "mysql"
unfolding dialect
mysql_has_driver = refl

build_connection_string-port_example :
    build_connection_string "mysql" "shop" "db" "root" "secret" (pos 3306) "" ""
    ≢ build_connection_string "mysql" "shop" "db" "root" "secret" (negsuc 13306) "" ""
build_connection_string-port_example =
    build_connection_string-port "mysql" "mysql" "shop" "db" "root" "secret" "" "" (pos 3306)
      (negsuc 13306) mysql_has_driver set unlike differ
