-- ===== src/Base/Text.antt =====
-- Texts as Go programs use them. A Go string of the cluster is valid UTF-8, a native `String`: `len`
-- counts its bytes, and `codes` lists its runes.
pub mod Append
use Prim.Native.Nat.{ℕ, ◌+◌}
use Prim.Native.Char.{code}
use mathlib.Core.Path.{◌≡◌, refl}
use mathlib.Core.Bool.{Bool, true, false, ◌&&◌}
use mathlib.Core.List.{List, [], ◌∷◌}
use dbchan.Base.Tests.{leb, if◌then◌else◌}
use dbchan.Base.Tests
pub use Prim.Native.String.{String, len, ◌++◌ as ◌<>◌}
pub use text.Mathlib.Text.{◌==◌}
pub use text.Mathlib.TextEquality.{eq_iff}
pub use text.Mathlib.TextPositions.{eq_refl}

-- The code points of a text. `String` has its own `[]` and `∷`.
abbrev pub codes : String → List ℕ
codes String.[] = []
codes (String.◌∷◌ c s) = code c ∷ codes s

-- Case folding as `strings.EqualFold` does it against an ASCII text: the upper case letters, and the
-- two runes outside ASCII that fold to an ASCII letter, U+017F (s) and U+212A (k).
unfoldable pub fold : ℕ → ℕ
fold c =
    if leb b'A' c && leb c b'Z'
    then c + 32
    else if Tests.◌==◌ c 0x17f
    then b's'
    else if Tests.◌==◌ c 0x212a
    then b'k'
    else c

unfoldable pub fold_all : List ℕ → List ℕ
unfolding fold
fold_all [] = []
fold_all (c ∷ s) = fold c ∷ fold_all s

unfoldable pub same_codes : List ℕ → List ℕ → Bool
same_codes [] [] = true
same_codes (a ∷ s) (b ∷ t) = Tests.◌==◌ a b && same_codes s t
same_codes _ _ = false

-- `strings.EqualFold(s, t)` for an ASCII text `t`.
unfoldable pub equal_fold : String → String → Bool
unfolding fold_all same_codes
equal_fold s t = same_codes (fold_all (codes s)) (fold_all (codes t))

folds : equal_fold "Admin" "aDMIN" ≡ true
unfolding equal_fold
folds = refl
