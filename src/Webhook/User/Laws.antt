-- ===== src/Webhook/User/Laws.antt =====
-- Which users the webhook admits.
use dbchan.Base.{
  ◌≡◌, ◌≤◌, ◌⊎◌, ◌↔◌, refl, inl, inr, Bool, true, false, List, [], ◌∷◌, arith, Bool-cases, ap,
}
use dbchan.Base.Text.{String, codes, len, ◌==◌, eq_iff}
use dbchan.Base.Prog.{ok, err}
use dbchan.Api.{User}
use dbchan.Cluster.{Kind}
use dbchan.Regexp.{Matches}
use dbchan.Regexp.Laws.{All, matches-Matches}
use dbchan.Webhook.Checks.{Check, object, ◌also◌}
use dbchan.Webhook.Names.{username_regex, base64_regex, fits, is_one_of, starts_with_digit}
use dbchan.Webhook.Names.Safety.{IsSafe, username-All}
use dbchan.Webhook.User.{
  reserved_usernames, valid_privileges, valid_roles, each_of, validate_required_fields,
  validate_naming_conventions, validate_password_format, validate_privileges_and_roles,
  validate_host_format, validate, validate_create,
}
use dbchan.Webhook.User.Admissible.{
  EachOne, IsHost, system_names, privilege_words, role_words, IsAdmissible, is_one_of_iff,
  is_host_iff, starts_iff,
}

also_iff : (a b : Check) → ((a also b) ≡ ok tt) ↔ ((a ≡ ok tt) × (b ≡ ok tt))
also_iff (ok _) b = (λ h. (refl, h), λ h. h.1)
also_iff (err e) b = (λ h. cc, λ h. cc)

each_of-EachOne :
    (what : String) (words ss : List String) → (each_of what words ss ≡ ok tt) ↔ EachOne words ss
unfolding each_of
each_of-EachOne what words [] = (λ h. tt, λ h. refl)
each_of-EachOne what words (s ∷ ss) =
    let rest = each_of-EachOne what words ss in
    let one = is_one_of_iff s words in
    elim (Bool-cases (is_one_of s words)) [
      | inl e ↦ rw e (λ h. (one.0 e, rest.0 h), λ h. rest.1 h.1)
      | inr e ↦ rw e (λ h. cc, λ h. let e' = one.1 h.0 in cc)
    ]

not_empty : (s : String) → 1 ≤ len s → (s == "") ≡ false
not_empty s h =
    let empty : (s == "") ≡ true → len s ≡ 0 = λ e. ap len ((eq_iff s "").0 e) in ground arith

host_iff :
    (u : User) → ((validate_host_format u).1 ≡ ok tt) ↔ ((u.spec.host ≡ "") ⊎ IsHost u.spec.host)
unfolding validate_host_format
host_iff u =
    let empty = eq_iff u.spec.host "" in
    let known = is_host_iff u.spec.host in (λ h. ground arith, λ h. ground arith)

fields_iff :
    (u : User)
    → (validate_required_fields u ≡ ok tt) ↔ (
        ((u.spec.username == "") ≡ false)
        × ((u.spec.password == "") ≡ false)
        × ((u.spec.datastore_ref.name == "") ≡ false))
unfolding validate_required_fields
fields_iff u = (λ h. (ground arith, ground arith, ground arith), λ h. ground arith)

good_name :
    (u : User)
    → validate_naming_conventions u ≡ ok tt
    → (1 ≤ len u.spec.username)
      × (len u.spec.username ≤ 32)
      × Matches username_regex (codes u.spec.username)
      × (is_one_of u.spec.username reserved_usernames ≡ false)
      × (starts_with_digit (codes u.spec.username) ≡ false)
unfolding validate_naming_conventions fits
good_name u h = (
  ground arith,
  ground arith,
  (matches-Matches username_regex (codes u.spec.username)).0 (ground arith),
  ground arith,
  ground arith,
)

good_password :
    (u : User)
    → validate_password_format u ≡ ok tt
    → (4 ≤ len u.spec.password) × Matches base64_regex (codes u.spec.password)
unfolding validate_password_format fits
good_password u h =
    (ground arith, (matches-Matches base64_regex (codes u.spec.password)).0 (ground arith))

good_words :
    (u : User)
    → (validate_privileges_and_roles u ≡ ok tt)
      ↔ (EachOne privilege_words u.spec.privileges × EachOne role_words u.spec.roles)
unfolding validate_privileges_and_roles
good_words u =
    let both =
      also_iff (each_of "privilege" valid_privileges u.spec.privileges)
        (each_of "role" valid_roles u.spec.roles) in
    let ps = each_of-EachOne "privilege" valid_privileges u.spec.privileges in
    let rs = each_of-EachOne "role" valid_roles u.spec.roles in
    (λ h. (ps.0 (both.0 h).0, rs.0 (both.0 h).1), λ h. both.1 (ps.1 h.0, rs.1 h.1))

admitted : (u : User) → validate u ≡ ok tt → IsAdmissible u
unfolding validate
admitted u h =
    let (fields, h1) = (also_iff (validate_required_fields u) _).0 h in
    let (name, h2) = (also_iff (validate_naming_conventions u) _).0 h1 in
    let (password, h3) = (also_iff (validate_password_format u) _).0 h2 in
    let (words, host_ok) = (also_iff (validate_privileges_and_roles u) _).0 h3 in
    let (a, b, c, d, e) = good_name u name in
    let (named, secured, placed) = (fields_iff u).0 fields in
    record {
      has_datastore = λ empty. let no = (eq_iff _ "").1 empty in cc;
      name_length = (a, b);
      name_pattern = c;
      name_not_reserved = λ one. let yes = (is_one_of_iff _ system_names).1 one in cc;
      name_start = (starts_iff _).0 e;
      password_length = (good_password u password).0;
      password_pattern = (good_password u password).1;
      privileges = ((good_words u).0 words).0;
      roles = ((good_words u).0 words).1;
      host = (host_iff u).0 host_ok;
    }

is_not : {b : Bool} → (b ≡ true → ⊥) → b ≡ false
is_not {b = true} h = absurd (h refl)
is_not {b = false} h = refl

name_passes : (u : User) → IsAdmissible u → validate_naming_conventions u ≡ ok tt
unfolding validate_naming_conventions fits
name_passes u g =
    let fit = (matches-Matches username_regex (codes u.spec.username)).1 g.name_pattern in
    let start = (starts_iff _).1 g.name_start in
    let free : is_one_of u.spec.username reserved_usernames ≡ false =
      is_not (λ yes. g.name_not_reserved ((is_one_of_iff _ _).0 yes)) in
    ground (arith, fit, g.name_length.0, g.name_length.1, free, start)

password_passes : (u : User) → IsAdmissible u → validate_password_format u ≡ ok tt
unfolding validate_password_format fits
password_passes u g =
    let fit = (matches-Matches base64_regex (codes u.spec.password)).1 g.password_pattern in
    let full = not_empty u.spec.password (let long = g.password_length in omega arith) in
    ground (arith, fit, full, g.password_length)

admits : (u : User) → IsAdmissible u → validate u ≡ ok tt
unfolding validate
admits u g =
    let full = not_empty u.spec.username g.name_length.0 in
    let set : (u.spec.password == "") ≡ false =
      not_empty u.spec.password (let long = g.password_length in omega arith) in
    let fields =
      (fields_iff u).1 (full, set, is_not (λ yes. g.has_datastore ((eq_iff _ "").0 yes))) in
    let words = (good_words u).1 (g.privileges, g.roles) in
    (also_iff (validate_required_fields u) _).1 (
      fields,
      (also_iff (validate_naming_conventions u) _).1 (
        name_passes u g,
        (also_iff (validate_password_format u) _).1 (
          password_passes u g,
          (also_iff (validate_privileges_and_roles u) _).1 (words, (host_iff u).1 g.host),
        ),
      ),
    )

-- A user is admitted exactly if it names a datastore, its username has 1 to 32 bytes, is in the
-- language of its pattern, is none of nine system names in any case and does not start with a
-- digit, its password has at least 4 bytes and is in the language of its pattern, each privilege
-- and each role is one of the listed words in any case, and its host is empty, localhost,
-- 127.0.0.1, ::1, %, or in the language of one of the three patterns for hosts.
pub validate_create-IsAdmissible :
    (u : User) → (validate_create (object Kind.user u) ≡ ok tt) ↔ IsAdmissible u
unfolding validate_create
validate_create-IsAdmissible u = (admitted u, admits u)

pub validate_create-username_IsSafe :
    (u : User) → validate_create (object Kind.user u) ≡ ok tt → All IsSafe (codes u.spec.username)
unfolding validate_create fits
validate_create-username_IsSafe u h =
    username-All u.spec.username
      ((matches-Matches username_regex (codes u.spec.username)).1 (admitted u h).name_pattern)
