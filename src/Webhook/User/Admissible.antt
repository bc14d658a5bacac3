-- ===== src/Webhook/User/Admissible.antt =====
-- What a user must be for the webhook to admit it, said without the webhook, and its words and forms
-- as the tests of the webhook decide them.
use dbchan.Base.{
  ℕ, Bool, ◌&&◌, ◌||◌, leb, ◌≡◌, ◌≢◌, ◌≤◌, ◌⊎◌, ◌↔◌, refl, inl, inr, true, false, List, [], ◌∷◌,
  arith, Bool-cases,
}
use dbchan.Base
use dbchan.Base.Text.{String, codes, len, eq_iff, fold_all, same_codes, equal_fold}
use dbchan.Api.{User}
use dbchan.Regexp.{Regex, chars, seq, star, plus, optional, times, Matches}
use dbchan.Regexp.Laws.{matches-Matches}
use dbchan.Webhook.Names.{ip_regex, host_regex, wildcard_regex, fits, is_one_of, starts_with_digit}
use dbchan.Webhook.User.{is_host}

-- The text is one of the words, in any case.
abbrev pub OneOf : String → List String → Type 0
OneOf s [] = ⊥
OneOf s (t ∷ ts) = (fold_all (codes s) ≡ fold_all (codes t)) ⊎ OneOf s ts

-- Every text of a list is one of the words, in any case.
abbrev pub EachOne : List String → List String → Type 0
EachOne words [] = Unit
EachOne words (s ∷ ss) = OneOf s words × EachOne words ss

-- The words that a username must not be.
abbrev pub system_names : List String
system_names =
    "root" ∷ "admin" ∷ "mysql" ∷ "postgres" ∷ "sa" ∷ "guest" ∷ "test" ∷ "user" ∷ "system" ∷ []

-- The words for privileges.
abbrev pub privilege_words : List String
privilege_words =
    "SELECT" ∷ "INSERT" ∷ "UPDATE" ∷ "DELETE" ∷ "CREATE" ∷ "DROP" ∷ "ALTER" ∷ "INDEX" ∷ "REFERENCES"
    ∷ "RELOAD" ∷ "SHUTDOWN" ∷ "PROCESS" ∷ "FILE" ∷ "GRANT" ∷ "REVOKE" ∷ "LOCK TABLES"
    ∷ "REPLICATION CLIENT" ∷ "REPLICATION SLAVE" ∷ "SHOW DATABASES" ∷ "SUPER"
    ∷ "CREATE TEMPORARY TABLES" ∷ "LOCK TABLES" ∷ "EXECUTE" ∷ "REPLICATION SLAVE"
    ∷ "REPLICATION CLIENT" ∷ "CREATE VIEW" ∷ "SHOW VIEW" ∷ "CREATE ROUTINE" ∷ "ALTER ROUTINE"
    ∷ "CREATE USER" ∷ "EVENT" ∷ "TRIGGER" ∷ "CREATE TABLESPACE" ∷ "CREATE ROLE" ∷ "DROP ROLE"
    ∷ "CONNECT" ∷ "TEMPORARY" ∷ "USAGE" ∷ "EXECUTE" ∷ "ALL" ∷ "ALL PRIVILEGES" ∷ []

-- The words for roles.
abbrev pub role_words : List String
role_words =
    "readonly" ∷ "readwrite" ∷ "admin" ∷ "developer" ∷ "analyst" ∷ "backup" ∷ "replication"
    ∷ "monitoring" ∷ "read" ∷ "write" ∷ "superuser" ∷ "user" ∷ "guest" ∷ "public" ∷ []

abbrev pub IsDigit : ℕ → Type 0
IsDigit c = (b'0' ≤ c) × (c ≤ b'9')

-- The text does not start with a digit.
abbrev pub NoDigitFirst : List ℕ → Type 0
NoDigitFirst [] = Unit
NoDigitFirst (c ∷ s) = IsDigit c → ⊥

abbrev pub letter_or_digit : ℕ → Bool
letter_or_digit c = leb b'a' c && leb c b'z' || leb b'A' c && leb c b'Z' || leb b'0' c && leb c b'9'

-- Letters, digits, underscores, hyphens and dots, at least one.
abbrev pub username_form : Regex
username_form =
    plus
      (chars (λ c. letter_or_digit c || Base.◌==◌ c b'_' || Base.◌==◌ c b'-' || Base.◌==◌ c b'.'))

-- Letters, digits, pluses and slashes, then at most two signs of equality.
abbrev pub base64_form : Regex
base64_form =
    let pad = optional (chars (λ c. Base.◌==◌ c b'=')) in
    seq (star (chars (λ c. letter_or_digit c || Base.◌==◌ c b'+' || Base.◌==◌ c b'/')))
      (seq pad pad)

-- One to three digits.
abbrev pub byte_form : Regex
byte_form =
    let digit = chars (λ c. leb b'0' c && leb c b'9') in
    seq digit (seq (optional digit) (optional digit))

-- Four of them, with dots between.
abbrev pub address_form : Regex
address_form = seq (times 3 (seq byte_form (chars (λ c. Base.◌==◌ c b'.')))) byte_form

-- Letters, digits, dots and hyphens, at least one.
abbrev pub host_form : Regex
host_form = plus (chars (λ c. letter_or_digit c || Base.◌==◌ c b'.' || Base.◌==◌ c b'-'))

-- Percent signs and asterisks, at least one.
abbrev pub wildcard_form : Regex
wildcard_form = plus (chars (λ c. Base.◌==◌ c b'%' || Base.◌==◌ c b'*'))

-- An address of this machine, every host, or a text in one of three languages.
abbrev pub IsHost : String → Type 0
IsHost h =
    (h ≡ "localhost")
    ⊎ (h ≡ "127.0.0.1")
    ⊎ (h ≡ "%")
    ⊎ (h ≡ "::1")
    ⊎ Matches address_form (codes h)
    ⊎ Matches host_form (codes h)
    ⊎ Matches wildcard_form (codes h)

pub record IsAdmissible (u : User) : Type 0 where
  pub has_datastore : u.spec.datastore_ref.name ≢ ""
  pub name_length : (1 ≤ len u.spec.username) × (len u.spec.username ≤ 32)
  pub name_pattern : Matches username_form (codes u.spec.username)
  pub name_not_reserved : OneOf u.spec.username system_names → ⊥
  pub name_start : NoDigitFirst (codes u.spec.username)
  pub password_length : 4 ≤ len u.spec.password
  pub password_pattern : Matches base64_form (codes u.spec.password)
  pub privileges : EachOne privilege_words u.spec.privileges
  pub roles : EachOne role_words u.spec.roles
  pub host : (u.spec.host ≡ "") ⊎ IsHost u.spec.host

same_codes_iff : (s t : List ℕ) → (same_codes s t ≡ true) ↔ (s ≡ t)
unfolding same_codes
same_codes_iff [] [] = (λ h. refl, λ h. refl)
same_codes_iff [] (c ∷ t) = (λ h. cc, λ h. cc)
same_codes_iff (c ∷ s) [] = (λ h. cc, λ h. cc)
same_codes_iff (c ∷ s) (d ∷ t) =
    let rest = same_codes_iff s t in
    (
      λ h. let e : c ≡ d = ground arith in let f = rest.0 (ground arith) in cc,
      λ h. let e : c ≡ d = cc in let f : s ≡ t = cc in let g = rest.1 f in ground arith,
    )

pub is_one_of_iff : (s : String) (ts : List String) → (is_one_of s ts ≡ true) ↔ OneOf s ts
unfolding is_one_of equal_fold
is_one_of_iff s [] = (λ h. cc, λ h. absurd h)
is_one_of_iff s (t ∷ ts) =
    let first = same_codes_iff (fold_all (codes s)) (fold_all (codes t)) in
    let rest = is_one_of_iff s ts in (λ h. ground arith, λ h. ground arith)

fits_iff : (r : Regex) (s : String) → (fits r s ≡ true) ↔ Matches r (codes s)
unfolding fits
fits_iff r s = matches-Matches r (codes s)

pub is_host_iff : (h : String) → (is_host h ≡ true) ↔ IsHost h
unfolding is_host
is_host_iff h =
    let a = eq_iff h "localhost" in
    let b = eq_iff h "127.0.0.1" in
    let c = eq_iff h "%" in
    let d = eq_iff h "::1" in
    let e = fits_iff ip_regex h in
    let f = fits_iff host_regex h in
    let g = fits_iff wildcard_regex h in (λ x. ground arith, λ x. ground arith)

pub starts_iff : (s : List ℕ) → (starts_with_digit s ≡ false) ↔ NoDigitFirst s
starts_iff [] = (λ h. tt, λ h. refl)
starts_iff (c ∷ s) = (
  λ h d. ground arith,
  λ h. elim (Bool-cases (starts_with_digit (c ∷ s))) [
    | inl e ↦ absurd (h (ground arith, ground arith))
    | inr e ↦ e
  ],
)
