-- ===== src/Webhook/Names.antt =====
-- The character classes and patterns of the webhooks, and the tests against lists of words.
pub mod Safety
use dbchan.Base.{ℕ, Bool, true, false, ◌&&◌, ◌||◌, List, [], ◌∷◌, any, leb, if◌then◌else◌}
use dbchan.Base
use dbchan.Base.Text.{String, codes, equal_fold}
use dbchan.Regexp.{Regex, chars, seq, star, plus, optional, times, matches}

abbrev pub is_digit : ℕ → Bool
is_digit c = leb b'0' c && leb c b'9'

abbrev pub is_alphanumeric : ℕ → Bool
is_alphanumeric c = leb b'a' c && leb c b'z' || leb b'A' c && leb c b'Z' || is_digit c

-- [a-zA-Z0-9_-]
abbrev pub is_word : ℕ → Bool
is_word c = is_alphanumeric c || Base.◌==◌ c b'_' || Base.◌==◌ c b'-'

-- [a-zA-Z0-9_.-]
abbrev pub is_username_char : ℕ → Bool
is_username_char c = is_word c || Base.◌==◌ c b'.'

-- [a-zA-Z0-9.-]
abbrev pub is_host_char : ℕ → Bool
is_host_char c = is_alphanumeric c || Base.◌==◌ c b'.' || Base.◌==◌ c b'-'

-- [A-Za-z0-9+/]
abbrev pub is_base64_char : ℕ → Bool
is_base64_char c = is_alphanumeric c || Base.◌==◌ c b'+' || Base.◌==◌ c b'/'

abbrev pub is_char : ℕ → ℕ → Bool
is_char a c = Base.◌==◌ c a

-- ^[a-zA-Z0-9]([a-zA-Z0-9_-]*[a-zA-Z0-9])?$
abbrev pub name_regex : Regex
name_regex =
    seq (chars is_alphanumeric) (optional (seq (star (chars is_word)) (chars is_alphanumeric)))

-- ^[a-zA-Z0-9_-]+$
abbrev pub role_regex : Regex
role_regex = plus (chars is_word)

-- ^[a-zA-Z0-9_.-]+$
abbrev pub username_regex : Regex
username_regex = plus (chars is_username_char)

-- ^[a-zA-Z0-9.-]+$
abbrev pub host_regex : Regex
host_regex = plus (chars is_host_char)

-- ^[A-Za-z0-9+/]*={0,2}$
abbrev pub base64_regex : Regex
base64_regex =
    seq (star (chars is_base64_char))
      (seq (optional (chars (is_char b'='))) (optional (chars (is_char b'='))))

-- \d{1,3}
abbrev pub byte_regex : Regex
byte_regex = seq (chars is_digit) (seq (optional (chars is_digit)) (optional (chars is_digit)))

-- ^(\d{1,3}\.){3}\d{1,3}$
abbrev pub ip_regex : Regex
ip_regex = seq (times 3 (seq byte_regex (chars (is_char b'.')))) byte_regex

-- ^[%*]+$
abbrev pub wildcard_regex : Regex
wildcard_regex = plus (chars (λ c. is_char b'%' c || is_char b'*' c))

unfoldable pub fits : Regex → String → Bool
unfolding matches
fits r s = matches r (codes s)

-- The loops `for _, reserved := range reservedNames { if strings.EqualFold(name, reserved) … }`.
unfoldable pub is_one_of : String → List String → Bool
unfolding equal_fold
is_one_of s [] = false
is_one_of s (t ∷ ts) = equal_fold s t || is_one_of s ts

-- `^[0-9]`, which is not anchored at the end.
abbrev pub starts_with_digit : List ℕ → Bool
starts_with_digit [] = false
starts_with_digit (c ∷ s) = is_digit c

-- `strings.HasPrefix(s, "-")` and `strings.HasSuffix(s, "-")`, on the code points.
abbrev pub starts_with_hyphen : List ℕ → Bool
starts_with_hyphen [] = false
starts_with_hyphen (c ∷ s) = Base.◌==◌ c b'-'

abbrev pub ends_with_hyphen : List ℕ → Bool
ends_with_hyphen [] = false
ends_with_hyphen (c ∷ []) = Base.◌==◌ c b'-'
ends_with_hyphen (c ∷ d ∷ s) = ends_with_hyphen (d ∷ s)
