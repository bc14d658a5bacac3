-- ===== src/Webhook/Database/Laws.antt =====
-- Which databases the webhook admits.
use dbchan.Base.{◌≡◌, ◌≤◌, ◌↔◌, false, arith}
use dbchan.Base.Text.{String, codes, len}
use dbchan.Base.Prog.{ok}
use dbchan.Api.{Database}
use dbchan.Cluster.{Kind}
use dbchan.Regexp.{Matches}
use dbchan.Regexp.Laws.{All, matches-Matches}
use dbchan.Webhook.Checks.{object}
use dbchan.Webhook.Names.{name_regex, fits, is_one_of}
use dbchan.Webhook.Names.Safety.{IsSafe, name-IsSafe, name-NoHyphens}
use dbchan.Webhook.Database.{reserved_names, validate_naming_conventions, validate_create}

-- The rules for a name, as the comments of the webhook state them.
pub record IsGoodName (name : String) : Type 0 where
  pub not_empty : 1 ≤ len name
  pub not_long : len name ≤ 63
  pub pattern : Matches name_regex (codes name)
  pub not_reserved : is_one_of name reserved_names ≡ false

good_name : (d : Database) → validate_naming_conventions d ≡ ok tt → IsGoodName d.name
unfolding validate_naming_conventions fits
good_name d h = record {
  not_empty = ground arith;
  not_long = ground arith;
  pattern = (matches-Matches name_regex (codes d.name)).0 (ground arith);
  not_reserved = ground arith;
}

admits_good : (d : Database) → IsGoodName d.name → validate_naming_conventions d ≡ ok tt
unfolding validate_naming_conventions fits
admits_good d g =
    let fit = (matches-Matches name_regex (codes d.name)).1 g.pattern in
    ground (arith, g.not_reserved, fit, name-NoHyphens d.name fit)

-- A database is admitted exactly if its name has 1 to 63 bytes, is in the language of the pattern, and
-- is not a reserved word in any case; the two tests for hyphens refuse nothing more.
pub validate_create-IsGoodName :
    (d : Database) → (validate_create (object Kind.database d) ≡ ok tt) ↔ IsGoodName d.name
unfolding validate_create
validate_create-IsGoodName d = (good_name d, admits_good d)

-- Each character of the name of an admitted database is safe between quotes.
pub validate_create-IsSafe :
    (d : Database) → validate_create (object Kind.database d) ≡ ok tt → All IsSafe (codes d.name)
unfolding validate_create fits
validate_create-IsSafe d h =
    name-IsSafe d.name ((matches-Matches name_regex (codes d.name)).1 (good_name d h).pattern)
