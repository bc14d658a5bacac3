-- ===== src/Webhook/Names/Safety.antt =====
-- What the patterns say of a name: its characters, its first and its last one.
use dbchan.Base.{◌<◌}
use dbchan.Base.{◌∙◌}
use dbchan.Base.{
  ℕ, zero, suc, ◌≡◌, ◌≢◌, refl, inl, inr, Bool, true, false, not, ◌&&◌, ◌||◌, List, [], ◌∷◌, ◌++◌,
  leb, arith, Bool-cases, ◌↔◌,
}
use dbchan.Base
use dbchan.Base.Text.{String, codes}
use dbchan.Regexp.{Regex, chars, seq, alt, star, empty, Matches}
use dbchan.Regexp.Laws.{matches-Matches, Within, All, Matches-All}
use dbchan.Webhook.Names.{
  is_alphanumeric, is_word, is_username_char, name_regex, role_regex, username_regex, fits,
  starts_with_hyphen, ends_with_hyphen,
}

-- A character that ends no quoted text and no statement: not a quote of any kind, a bracket, a
-- semicolon, a backslash, a blank or a control character.
pub record IsSafe (c : ℕ) : Type 0 where
  pub not_single : c ≢ 0x27
  pub not_double : c ≢ 0x22
  pub not_backtick : c ≢ 0x60
  pub not_open : c ≢ 0x5b
  pub not_close : c ≢ 0x5d
  pub not_semicolon : c ≢ 0x3b
  pub not_backslash : c ≢ 0x5c
  pub printable : 0x20 < c

word-IsSafe : (c : ℕ) → is_word c ≡ true → IsSafe c
word-IsSafe c h = ground arith

username-IsSafe : (c : ℕ) → is_username_char c ≡ true → IsSafe c
username-IsSafe c h = ground arith

alphanumeric-IsSafe : (c : ℕ) → is_alphanumeric c ≡ true → IsSafe c
alphanumeric-IsSafe c h = ground arith

-- A text that fits an expression over safe classes is safe.
pub fits-IsSafe :
    (r : Regex) (s : String) → Within IsSafe r → fits r s ≡ true → All IsSafe (codes s)
unfolding fits
fits-IsSafe r s within h = Matches-All IsSafe within ((matches-Matches r (codes s)).0 h)

pub name-IsSafe : (s : String) → fits name_regex s ≡ true → All IsSafe (codes s)
name-IsSafe s =
    fits-IsSafe name_regex s (alphanumeric-IsSafe, ((word-IsSafe, alphanumeric-IsSafe), tt))

pub role-IsSafe : (s : String) → fits role_regex s ≡ true → All IsSafe (codes s)
role-IsSafe s = fits-IsSafe role_regex s (word-IsSafe, word-IsSafe)

pub username-All : (s : String) → fits username_regex s ≡ true → All IsSafe (codes s)
username-All s = fits-IsSafe username_regex s (username-IsSafe, username-IsSafe)

ends_with_hyphen-append : (s : List ℕ) (d : ℕ) → ends_with_hyphen (s ++ d ∷ []) ≡ Base.◌==◌ d b'-'
ends_with_hyphen-append [] d = refl
ends_with_hyphen-append (c ∷ []) d = refl
ends_with_hyphen-append (c ∷ e ∷ s) d = ends_with_hyphen-append (e ∷ s) d

abbrev pub NoHyphens : List ℕ → Type 0
NoHyphens s = (starts_with_hyphen s ≡ false) × (ends_with_hyphen s ≡ false)

alphanumeric_no_hyphen : (c : ℕ) → is_alphanumeric c ≡ true → Base.◌==◌ c b'-' ≡ false
alphanumeric_no_hyphen c h = ground arith

-- The part of a name behind its first character.
NoHyphens-tail :
    (c : ℕ) (s : List ℕ)
    → is_alphanumeric c ≡ true
    → Matches (alt (seq (star (chars is_word)) (chars is_alphanumeric)) empty) s
    → NoHyphens (c ∷ s)
NoHyphens-tail c s h (Matches.left (Matches.both v t m (Matches.one d k last) e)) = (
  alphanumeric_no_hyphen c h,
  rw (e, last) (ends_with_hyphen-append (c ∷ v) d ∙ alphanumeric_no_hyphen d k),
)
NoHyphens-tail c s h (Matches.right Matches.nothing) =
    (alphanumeric_no_hyphen c h, alphanumeric_no_hyphen c h)

NoHyphens-name : {s : List ℕ} → Matches name_regex s → NoHyphens s
NoHyphens-name (Matches.both v t (Matches.one c h first) m e) =
    rw (e, first) (NoHyphens-tail c t h m)

pub name-NoHyphens : (s : String) → fits name_regex s ≡ true → NoHyphens (codes s)
unfolding fits
name-NoHyphens s h = NoHyphens-name ((matches-Matches name_regex (codes s)).0 h)
