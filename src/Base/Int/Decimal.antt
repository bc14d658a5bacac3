-- ===== src/Base/Int/Decimal.antt =====
-- The decimal digits of a number determine it, so that the fuel of `show_nat` is enough; and so does
-- its sign with them.
use Prim.Native.Nat.{ℕ, zero, suc, ◌+◌, ◌-◌, ◌*◌, ◌/◌, ◌%◌, ◌≤◌, ◌<◌}
use mathlib.Core.Path.{◌≡◌, refl, sym, ap, ◌∙◌}
use mathlib.Core.List.{List, [], ◌∷◌, ◌++◌}
use mathlib.Core.Logic.{◌≢◌, inl, inr}
use text.Mathlib.TextLemmas.{append_cancel_left}
use native.Mathlib.Omega.{arith}
use dbchan.Base.Tests.{ltb, Bool-cases}
use dbchan.Base.Text.{String, codes, ◌<>◌}
use dbchan.Base.Text.Append.{codes-append}
use dbchan.Base.Int.{ℤ, pos, negsuc, digit, show_digits, show_nat, show_int}

-- The number with these digits after the digits of `n`.
unfoldable pub read_after : ℕ → List ℕ → ℕ
read_after n [] = n
read_after n (c ∷ s) = read_after (n * 10 + (c - 48)) s

unfoldable pub read : List ℕ → ℕ
unfolding read_after
read = read_after 0

read_after-append :
    (n : ℕ) (s : List ℕ) (c : ℕ) → read_after n (s ++ c ∷ []) ≡ read_after n s * 10 + (c - 48)
unfolding read_after
read_after-append n [] c = refl
read_after-append n (d ∷ s) c = read_after-append (n * 10 + (d - 48)) s c

read-append : (s : List ℕ) (c : ℕ) → read (s ++ c ∷ []) ≡ read s * 10 + (c - 48)
unfolding read
read-append s c = read_after-append 0 s c

codes-digit : (n : ℕ) → n < 10 → codes (digit n) ≡ (n + 48) ∷ []
codes-digit zero h = refl
codes-digit (suc zero) h = refl
codes-digit (suc (suc zero)) h = refl
codes-digit (suc (suc (suc zero))) h = refl
codes-digit (suc (suc (suc (suc zero)))) h = refl
codes-digit (suc (suc (suc (suc (suc zero))))) h = refl
codes-digit (suc (suc (suc (suc (suc (suc zero)))))) h = refl
codes-digit (suc (suc (suc (suc (suc (suc (suc zero))))))) h = refl
codes-digit (suc (suc (suc (suc (suc (suc (suc (suc zero)))))))) h = refl
codes-digit (suc (suc (suc (suc (suc (suc (suc (suc (suc zero))))))))) h = refl
codes-digit (suc (suc (suc (suc (suc (suc (suc (suc (suc (suc n)))))))))) h = absurd (omega arith)

read-one : (n : ℕ) → read ((n + 48) ∷ []) ≡ n
unfolding read read_after
read-one n = omega arith

read-show_digits : (f n : ℕ) → n ≤ f → read (codes (show_digits f n)) ≡ n
unfolding show_digits
read-show_digits zero n h = rw (codes-digit n (omega arith)) (read-one n)
read-show_digits (suc f) n h = elim (Bool-cases (ltb n 10)) [
  | inl small ↦ rw (small, codes-digit n (ground arith)) (read-one n)
  | inr large ↦
      let more = read-show_digits f (n / 10) (ground arith) in
      rw
        (
          large,
          codes-append (show_digits f (n / 10)) (digit (n % 10)),
          codes-digit (n % 10) (omega arith),
          read-append (codes (show_digits f (n / 10))) (n % 10 + 48),
          more,
        )
        (omega arith)
]

pub read-show_nat : (n : ℕ) → read (codes (show_nat n)) ≡ n
unfolding show_nat
read-show_nat n = read-show_digits n n (omega arith)

pub show_nat_inj : (m n : ℕ) → show_nat m ≡ show_nat n → m ≡ n
show_nat_inj m n e = sym (read-show_nat m) ∙ ap (λ s. read (codes s)) e ∙ read-show_nat n

-- No code is below the digits.
NoSign : List ℕ → Type 0
NoSign [] = Unit
NoSign (c ∷ s) = (48 ≤ c) × NoSign s

NoSign-append : (s t : List ℕ) → NoSign s → NoSign t → NoSign (s ++ t)
unfolding NoSign
NoSign-append [] t h k = k
NoSign-append (c ∷ s) t h k = (h.0, NoSign-append s t h.1 k)

digit-NoSign : (n : ℕ) → n < 10 → NoSign (codes (digit n))
unfolding NoSign
digit-NoSign n h = rw (codes-digit n h) (omega arith, tt)

show_digits-NoSign : (f n : ℕ) → n ≤ f → NoSign (codes (show_digits f n))
unfolding show_digits
show_digits-NoSign zero n h = digit-NoSign n (omega arith)
show_digits-NoSign (suc f) n h = elim (Bool-cases (ltb n 10)) [
  | inl small ↦ rw small (digit-NoSign n (ground arith))
  | inr large ↦
      rw (large, codes-append (show_digits f (n / 10)) (digit (n % 10)))
        (NoSign-append _ _ (show_digits-NoSign f (n / 10) (ground arith))
          (digit-NoSign (n % 10) (omega arith)))
]

-- A number that is not negative is not written like one that is.
no_minus : (m : ℕ) (s : String) → show_nat m ≢ "-" <> s
unfolding show_nat NoSign
no_minus m s e =
    let digits = show_digits-NoSign m m (omega arith) in
    let split : codes (show_nat m) ≡ codes "-" ++ codes s = ap codes e ∙ codes-append "-" s in
    let signed : NoSign (codes "-" ++ codes s) = rw split at digits in
    absurd (omega (arith, signed.0))

pub show_int_inj : (m n : ℤ) → show_int m ≡ show_int n → m ≡ n
unfolding show_int
show_int_inj (pos m) (pos n) e = ap pos (show_nat_inj m n e)
show_int_inj (pos m) (negsuc n) e = absurd (no_minus m _ e)
show_int_inj (negsuc m) (pos n) e = absurd (no_minus n _ (sym e))
show_int_inj (negsuc m) (negsuc n) e =
    let same : suc m ≡ suc n = show_nat_inj (suc m) (suc n) (append_cancel_left "-" _ _ e) in
    let less : m ≡ n = omega arith in ap negsuc less
