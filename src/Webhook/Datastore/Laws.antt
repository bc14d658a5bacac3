-- ===== src/Webhook/Datastore/Laws.antt =====
-- What the webhook makes sure of for an admitted datastore.
use dbchan.Base.{◌≡◌, ◌≢◌, ◌≤◌, ◌⊎◌, refl, inl, inr, true, false, arith}
use dbchan.Base.{zero, suc}
use dbchan.Base.Int.{ℤ, pos, negsuc}
use dbchan.Base.Text.{String, codes, len, ◌==◌}
use dbchan.Base.Prog.{ok, err, lift, ◌>>=◌, catch}
use dbchan.Api.{ObjectKey, Secret, Datastore}
use dbchan.Cluster.{Kind, World, Trace}
use dbchan.Cluster.Calls.{get, ask}
use dbchan.Connection.{unsupported, dialect}
use dbchan.Datastore.Source.{port_or}
use dbchan.Regexp.{Matches}
use dbchan.Regexp.Laws.{matches-Matches}
use dbchan.Webhook.Checks.{Check, object, ◌also◌}
use dbchan.Webhook.Names.{name_regex, fits, is_one_of}
use dbchan.Webhook.Datastore.{
  validate_required_fields, validate_naming_conventions, validate_connection_string_format,
  validate_secret_existence, validate, is_bad_port, validate_create, valid_types, is_listed,
  reserved_names,
}

-- The local steps passed.
also_ok : (a b : Check) → (a also b) ≡ ok tt → (a ≡ ok tt) × (b ≡ ok tt)
also_ok (ok _) b h = (refl, h)
also_ok (err e) b h = cc

pub record IsUsable (d : Datastore) : Type 0 where
  pub named : Matches name_regex (codes d.name)
  pub fits_identifier : len d.name ≤ 63
  pub not_reserved : is_one_of d.name reserved_names ≡ false
  pub supported : dialect d.spec.datastore_type ≢ unsupported
  pub own_port : (default : ℤ) → port_or default d.spec.port ≡ d.spec.port
  pub has_host : (d.spec.host == "") ≡ false
  pub has_username : (d.spec.username == "") ≡ false

has_fields :
    (d : Datastore)
    → validate_required_fields d ≡ ok tt
    → ((d.spec.host == "") ≡ false) × ((d.spec.username == "") ≡ false)
unfolding validate_required_fields
has_fields d h = ground arith

is_supported : (t : String) → is_listed t valid_types ≡ true → dialect t ≢ unsupported
unfolding dialect
is_supported t h e = ground arith

good_type :
    (d : Datastore)
    → validate_connection_string_format d ≡ ok tt
    → is_listed d.spec.datastore_type valid_types ≡ true
unfolding validate_connection_string_format
good_type d h = ground arith

has_port : (p default : ℤ) → is_bad_port p ≡ false → port_or default p ≡ p
has_port (pos zero) default h = cc
has_port (pos (suc n)) default h = refl
has_port (negsuc n) default h = refl

good_port :
    (d : Datastore) → validate_connection_string_format d ≡ ok tt → is_bad_port d.spec.port ≡ false
unfolding validate_connection_string_format
good_port d h = ground arith

good_name :
    (d : Datastore)
    → validate_naming_conventions d ≡ ok tt
    → (fits name_regex d.name ≡ true)
      × (len d.name ≤ 63)
      × (is_one_of d.name reserved_names ≡ false)
unfolding validate_naming_conventions
good_name d h = (ground arith, ground arith, ground arith)

usable :
    (d : Datastore)
    → (validate_required_fields d
        also validate_naming_conventions d
        also validate_connection_string_format d)
      ≡ ok tt
    → IsUsable d
unfolding fits
usable d h =
    let (fields, rest) = also_ok _ _ h in
    let (name, format) = also_ok (validate_naming_conventions d) _ rest in
    let (fit, short, free) = good_name d name in
    record {
      named = (matches-Matches name_regex (codes d.name)).0 fit;
      fits_identifier = short;
      not_reserved = free;
      supported = is_supported _ (good_type d format);
      own_port = λ default. has_port _ default (good_port d format);
      has_host = (has_fields d fields).0;
      has_username = (has_fields d fields).1;
    }

-- Where the secret of a datastore is looked for.
abbrev pub secret_key : Datastore → ObjectKey
secret_key d = record { namespace = d.namespace; name = d.spec.secret_ref.name }

module _ (w : World) (d : Datastore) (t : Trace) where
  secret_found :
      (validate_secret_existence w d t).0 ≡ ok tt
      → (s : Secret) × (w.get Kind.secret (secret_key d) t ≡ ok s)
  unfolding validate_secret_existence ◌>>=◌ catch get ask
  secret_found h = ground arith

  after_checks :
      (c : Check)
      → ((lift c >>= λ _. validate_secret_existence w d) t).0 ≡ ok tt
      → (c ≡ ok tt) × ((validate_secret_existence w d t).0 ≡ ok tt)
  unfolding ◌>>=◌
  after_checks (ok _) h = (refl, h)
  after_checks (err e) h = cc

  -- A datastore that the webhook admits on its creation has a name in the language of the pattern, of
  -- at most 63 bytes and not reserved; a type that has a driver in the datastore controller; a port
  -- that no default replaces there; a host and a user; and a secret that exists in its namespace.
  pub validate_create-IsUsable :
      (validate_create w (object Kind.datastore d) t).0 ≡ ok tt
      → IsUsable d × ((s : Secret) × (w.get Kind.secret (secret_key d) t ≡ ok s))
  unfolding validate_create validate
  validate_create-IsUsable h =
      let (checks, found) = after_checks _ h in (usable d checks, secret_found found)

has_good_format :
    (w : World) (d : Datastore) (t : Trace)
    → (validate_create w (object Kind.datastore d) t).0 ≡ ok tt
    → validate_connection_string_format d ≡ ok tt
unfolding validate_create validate
has_good_format w d t h =
    let (checks, found) = after_checks w d t _ h in
    let (fields, rest) = also_ok _ _ checks in (also_ok (validate_naming_conventions d) _ rest).1

-- The type of an admitted datastore is one of the list.
pub has_listed_type :
    (w : World) (d : Datastore) (t : Trace)
    → (validate_create w (object Kind.datastore d) t).0 ≡ ok tt
    → is_listed d.spec.datastore_type valid_types ≡ true
has_listed_type w d t h = good_type d (has_good_format w d t h)

pub bad_type : (s : String) → (s ≡ "postgresql") ⊎ (s ≡ "mssql") → is_listed s valid_types ≡ false
bad_type s (inl e) = rw e refl
bad_type s (inr e) = rw e refl

-- A datastore of type `postgresql` or `mssql`, or with port 0, is not admitted on its creation.
pub validate_create_refuses :
    (w : World) (d : Datastore) (t : Trace)
    → ((d.spec.datastore_type ≡ "postgresql") ⊎ (d.spec.datastore_type ≡ "mssql"))
      ⊎ (d.spec.port ≡ pos 0)
    → ((validate_create w (object Kind.datastore d) t).0 ≢ ok tt)
validate_create_refuses w d t (inl kind) admitted =
    let good = good_type d (has_good_format w d t admitted) in
    let bad = bad_type d.spec.datastore_type kind in cc
validate_create_refuses w d t (inr port) admitted =
    let good = good_port d (has_good_format w d t admitted) in
    let bad : is_bad_port d.spec.port ≡ true = rw port refl in cc
