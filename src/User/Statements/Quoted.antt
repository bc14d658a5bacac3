-- ===== src/User/Statements/Quoted.antt =====
-- How a server reads the account in a statement: the text between two single quotes.
use mathlib.Core.List.{append_assoc}
use dbchan.Base.{
  ℕ, ◌≡◌, refl, Bool, true, false, Option, some, none, List, [], ◌∷◌, ◌++◌, if◌then◌else◌, arith,
}
use dbchan.Base
use dbchan.Base.Text.{String, ◌<>◌, codes}
use dbchan.Base.Text.Append.{codes-append}
use dbchan.Api.{UserSpec}
use dbchan.Regexp.Laws.{All}
use dbchan.User.Statements.{mysql_account}
use dbchan.Webhook.Names.Safety.{IsSafe}

-- A character that must come next.
abbrev expect : ℕ → List ℕ → Option (List ℕ)
expect c [] = none
expect c (d ∷ s) = if Base.◌==◌ d c then some s else none

abbrev in_front : ℕ → Option (List ℕ × List ℕ) → Option (List ℕ × List ℕ)
in_front c none = none
in_front c (some (s, rest)) = some (c ∷ s, rest)

-- The text up to the next single quote, and what comes after the quote.
abbrev quoted : List ℕ → Option (List ℕ × List ℕ)
quoted [] = none
quoted (c ∷ s) = let more = quoted s in if Base.◌==◌ c 0x27 then some ([], s) else in_front c more

-- The texts of 'a'@'b', and what comes after them.
abbrev pub read_account : List ℕ → Option (List ℕ × List ℕ × List ℕ)
read_account s = elim (expect 0x27 s) [
  | none ↦ none
  | some s ↦ elim (quoted s) [
    | none ↦ none
    | some (username, s) ↦ elim (expect b'@' s) [
      | none ↦ none
      | some s ↦ elim (expect 0x27 s) [
        | none ↦ none
        | some s ↦ elim (quoted s) [ none ↦ none | some (host, s) ↦ some (username, host, s) ]
      ]
    ]
  ]
]

-- A safe text is read up to its closing quote.
quoted-append : (s rest : List ℕ) → All IsSafe s → quoted (s ++ 0x27 ∷ rest) ≡ some (s, rest)
quoted-append [] rest h = refl
quoted-append (c ∷ s) rest (safe, h) =
    let more = quoted-append s rest h in
    let not_quote = safe.not_single in
    let goes_on : Base.◌==◌ c 0x27 ≡ false = ground arith in rw (goes_on, more) refl

codes-mysql_account :
    (s : UserSpec) (rest : String)
    → codes (mysql_account s <> rest)
      ≡ 0x27 ∷ (codes s.username ++ 0x27 ∷ b'@' ∷ 0x27 ∷ (codes s.host ++ 0x27 ∷ codes rest))
codes-mysql_account s rest =
    rw
      (
        codes-append (mysql_account s) rest,
        codes-append "'" (s.username <> "'@'" <> s.host <> "'"),
        codes-append s.username ("'@'" <> s.host <> "'"),
        codes-append "'@'" (s.host <> "'"),
        codes-append s.host "'",
        append_assoc (codes s.username) (0x27 ∷ b'@' ∷ 0x27 ∷ (codes s.host ++ 0x27 ∷ []))
            (codes rest),
        append_assoc (codes s.host) (0x27 ∷ []) (codes rest),
      )
      refl

-- The reader finds the two texts of an account, and what comes after the account.
pub read_account-mysql_account :
    (s : UserSpec) (rest : String)
    → All IsSafe (codes s.username)
    → All IsSafe (codes s.host)
    → read_account (codes (mysql_account s <> rest))
      ≡ some (codes s.username, codes s.host, codes rest)
read_account-mysql_account s rest username host =
    rw
      (
        codes-mysql_account s rest,
        read_account,
        quoted-append (codes s.username) _ username,
        quoted-append (codes s.host) _ host,
      )
      refl
