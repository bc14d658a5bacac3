-- ===== src/Webhook/User/Accounts.antt =====
-- The accounts of admitted users, as a MySQL server reads them.
use dbchan.Base.{
  false, ◌&&◌, not, leb, List, ◌≡◌, ◌∙◌, ◌⊎◌, inl, inr, refl, true, some, [], ◌∷◌, arith, ◌||◌, ℕ,
  Bool,
}
use dbchan.Base
use dbchan.Base.Text.{String, ◌==◌, ◌<>◌, codes, eq_iff}
use dbchan.Base.Prog.{ok}
use dbchan.Api.{User}
use dbchan.Cluster.{Kind}
use dbchan.Regexp.Laws.{All, Within}
use dbchan.Regexp.{seq, chars}
use dbchan.User.Statements.{mysql_account}
use dbchan.User.Statements.Quoted.{read_account, read_account-mysql_account}
use dbchan.Webhook.Checks.{object}
use dbchan.Webhook.Names.{
  byte_regex, ip_regex, host_regex, wildcard_regex, fits, is_host_char, is_char, is_digit,
}
use dbchan.Webhook.Names.Safety.{IsSafe, fits-IsSafe}
use dbchan.Webhook.User.{is_host, validate_create}
use dbchan.Webhook.User.Admissible.{IsAdmissible, is_host_iff}
use dbchan.Webhook.User.Laws.{validate_create-IsAdmissible, validate_create-username_IsSafe}

-- The same as a test, for the words.
safe : ℕ → Bool
safe c =
    leb 0x21 c
    && not (Base.◌==◌ c 0x27)
    && not (Base.◌==◌ c 0x22)
    && not (Base.◌==◌ c 0x60)
    && not (Base.◌==◌ c 0x5b)
    && not (Base.◌==◌ c 0x5d)
    && not (Base.◌==◌ c 0x3b)
    && not (Base.◌==◌ c 0x5c)

safe-IsSafe : (c : ℕ) → safe c ≡ true → IsSafe c
unfolding safe
safe-IsSafe c h = ground arith

all_safe : List ℕ → Bool
unfolding safe
all_safe [] = true
all_safe (c ∷ s) = safe c && all_safe s

all_safe-IsSafe : (s : List ℕ) → all_safe s ≡ true → All IsSafe s
unfolding all_safe
all_safe-IsSafe [] h = tt
all_safe-IsSafe (c ∷ s) h = (safe-IsSafe c (ground arith), all_safe-IsSafe s (ground arith))

word-IsSafe :
    (s word : String) → all_safe (codes word) ≡ true → (s == word) ≡ true → All IsSafe (codes s)
word-IsSafe s word known h = rw ((eq_iff s word).0 h) (all_safe-IsSafe (codes word) known)

digit-IsSafe : (c : ℕ) → is_digit c ≡ true → IsSafe c
digit-IsSafe c h = ground arith

dot-IsSafe : (c : ℕ) → is_char b'.' c ≡ true → IsSafe c
dot-IsSafe c h = ground arith

host_char-IsSafe : (c : ℕ) → is_host_char c ≡ true → IsSafe c
host_char-IsSafe c h = ground arith

wildcard-IsSafe : (c : ℕ) → (is_char b'%' c || is_char b'*' c) ≡ true → IsSafe c
wildcard-IsSafe c h = ground arith

either : {C : Type 0} (a b : Bool) → (a ≡ true → C) → (b ≡ true → C) → (a || b) ≡ true → C
either true b f g h = f refl
either false b f g h = g h

ip-IsSafe : (s : String) → fits ip_regex s ≡ true → All IsSafe (codes s)
ip-IsSafe s = fits-IsSafe ip_regex s ((group, (group, (group, tt))), byte)
  where
    byte : Within IsSafe byte_regex
    byte = (digit-IsSafe, ((digit-IsSafe, tt), (digit-IsSafe, tt)))

    group : Within IsSafe (seq byte_regex (chars (is_char b'.')))
    group = (byte, dot-IsSafe)

is_host-IsSafe : (s : String) → is_host s ≡ true → All IsSafe (codes s)
unfolding is_host all_safe
is_host-IsSafe s =
    either _ _
      (either _ _
        (either _ _
          (either _ _
            (either _ _
              (either _ _ (word-IsSafe s "localhost" refl) (word-IsSafe s "127.0.0.1" refl))
              (word-IsSafe s "%" refl))
            (word-IsSafe s "::1" refl))
          (ip-IsSafe s))
        (fits-IsSafe host_regex s (host_char-IsSafe, host_char-IsSafe)))
      (fits-IsSafe wildcard_regex s (wildcard-IsSafe, wildcard-IsSafe))

-- Each character of the host of an admitted user is safe between quotes.
host-IsSafe : (u : User) → IsAdmissible u → All IsSafe (codes u.spec.host)
host-IsSafe u h = elim h.host [
  | inl e ↦ rw e tt
  | inr e ↦ is_host-IsSafe u.spec.host ((is_host_iff _).1 e)
]

-- Wherever the account of an admitted user stands in a statement, a reader that takes the text between
-- two single quotes finds its username and its host, and behind them the rest of the statement.
pub read_account-admitted :
    (u : User) (rest : String)
    → validate_create (object Kind.user u) ≡ ok tt
    → read_account (codes (mysql_account u.spec <> rest))
      ≡ some (codes u.spec.username, codes u.spec.host, codes rest)
read_account-admitted u rest h =
    read_account-mysql_account u.spec rest (validate_create-username_IsSafe u h)
      (host-IsSafe u ((validate_create-IsAdmissible u).0 h))
