-- ===== src/Base/Prog.antt =====
-- Go code that calls the outside world. A function that returns `(A, error)` is a program over the
-- state `S` that gives an `A` or an `E`; what it did before an error stays done. `catch` is
-- `if err := m; err != nil { … }`.
pub mod Triples
pub mod Gives
use mathlib.Core.Path.{◌≡◌, refl}
use dbchan.Base.Text.{String, ◌<>◌}
use mathlib.Core.Bool.{Bool, true, false}
use mathlib.Core.Option.{Option, none, some}
use mathlib.Core.List.{List, [], ◌∷◌}

-- Go's `error`: its text, and whether `errors.IsNotFound` holds of it.
pub record Error : Type 0 where
  pub text : String
  pub not_found : Bool

-- `fmt.Errorf` with `%v` verbs: a new error with a text only.
abbrev pub errorf : String → Error
errorf s = record { text = s; not_found = false }

pub data Result (E : Type 0) (A : Type 0) : Type 0 where
  ok : A → Result E A
  err : E → Result E A

abbrev pub Prog : Type 0 → Type 0 → Type 0 → Type 0
Prog S E A = S → Result E A × S

module _ {S E A : Type 0} where
  unfoldable pub pure : A → Prog S E A
  pure a s = (ok a, s)

  unfoldable pub raise : E → Prog S E A
  raise e s = (err e, s)

  unfoldable pub lift : Result E A → Prog S E A
  lift r s = (r, s)

module _ {S E A B : Type 0} where
  abbrev continue : Result E A → (A → Prog S E B) → Prog S E B
  continue (ok a) f s = f a s
  continue (err e) f s = (err e, s)

  infixl 10 ◌>>=◌ ◌>>◌
  -- Unfolding this unfolds `pure`, `raise` and `lift` too.
  unfoldable pub ◌>>=◌ : Prog S E A → (A → Prog S E B) → Prog S E B
  unfolding pure raise lift
  ◌>>=◌ m f s = let (r, s') = m s in continue r f s'

  abbrev pub ◌>>◌ : Prog S E A → Prog S E B → Prog S E B
  m >> n = m >>= λ _. n

module _ {S E F A : Type 0} where
  abbrev recover : Result E A → (E → Prog S F A) → Prog S F A
  recover (ok a) h s = (ok a, s)
  recover (err e) h s = h e s

  unfoldable pub catch : Prog S E A → (E → Prog S F A) → Prog S F A
  unfolding pure raise lift
  catch m h s = let (r, s') = m s in recover r h s'

-- `if err != nil { return fmt.Errorf("context: %v", err) }`
abbrev pub wrap : {S A : Type 0} → String → Prog S Error A → Prog S Error A
wrap context m = catch m λ e. raise (errorf (context <> ": " <> e.text))

module _ {S E : Type 0} where
  -- `if b { m }`
  unfoldable pub when : Bool → Prog S E (Unit {0}) → Prog S E (Unit {0})
  unfolding pure
  when true m = m
  when false m = pure tt

  -- `for _, x := range xs { body }`, ended early by an error of the body.
  unfoldable pub for_each : {A : Type 0} → List A → (A → Prog S E (Unit {0})) → Prog S E (Unit {0})
  unfolding ◌>>=◌
  for_each [] body = pure tt
  for_each (x ∷ xs) body = do body x; for_each xs body

  -- `if _, err := m; err != nil { /* continue */ }`
  abbrev pub ignore : Prog S E (Unit {0}) → Prog S E (Unit {0})
  ignore m = catch m λ _. pure tt

module _ {S E A : Type 0} where
  -- The value of an optional result, or what the program does where there is none.
  unfoldable pub on_none : Option A → Prog S E A → Prog S E A
  unfolding pure
  on_none none m = m
  on_none (some a) m = pure a
