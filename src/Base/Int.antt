-- ===== src/Base/Int.antt =====
-- Signed integers over the native numbers, and `%d`.
pub mod Decimal
use Prim.Native.Nat.{ℕ, zero, suc, ◌/◌, ◌%◌}
use mathlib.Core.Path.{◌≡◌, refl}
use dbchan.Base.Tests.{ltb, if◌then◌else◌}
use dbchan.Base.Text.{String, ◌<>◌}

-- `negsuc n` is -(n + 1).
pub data ℤ : Type 0 where
  pos : ℕ → ℤ
  negsuc : ℕ → ℤ

-- One decimal digit.
abbrev digit : ℕ → String
digit n =
    if ltb n 1
    then "0"
    else if ltb n 2
    then "1"
    else if ltb n 3
    then "2"
    else if ltb n 4
    then "3"
    else if ltb n 5
    then "4"
    else if ltb n 6
    then "5"
    else if ltb n 7
    then "6"
    else if ltb n 8
    then "7"
    else if ltb n 9
    then "8"
    else "9"

-- The decimal digits of `n`. The fuel `n` is enough: a number has fewer digits than its successor.
show_digits : ℕ → ℕ → String
show_digits zero n = digit n
show_digits (suc f) n =
    let more = show_digits f (n / 10) in if ltb n 10 then digit n else more <> digit (n % 10)

unfoldable pub show_nat : ℕ → String
unfolding show_digits
show_nat n = show_digits n n

-- `%d` of an `int32`.
unfoldable pub show_int : ℤ → String
unfolding show_nat
show_int (pos n) = show_nat n
show_int (negsuc n) = "-" <> show_nat (suc n)

shows : show_int (pos 5432) <> show_int (negsuc 6) ≡ "5432-7"
unfolding show_int
shows = refl
