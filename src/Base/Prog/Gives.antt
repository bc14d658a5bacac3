-- ===== src/Base/Prog/Gives.antt =====
-- Programs that end without an error from every state that has `P`, and keep it: `Gives P m Q` says
-- that `m` gives a value that has `Q`, and `Ends P m` that it gives one.
use mathlib.Core.Path.{◌≡◌, refl}
use mathlib.Core.Bool.{Bool, true, false}
use mathlib.Core.Option.{Option, none, some}
use mathlib.Core.List.{List, [], ◌∷◌}
use dbchan.Base.Tests.{if◌then◌else◌}
use dbchan.Base.Text.{String}
use dbchan.Base.Prog.{
  Error, wrap, Result, ok, err, Prog, pure, lift, ◌>>=◌, catch, when, for_each, on_none,
}
use dbchan.Base.Prog.Triples.{Triple, Triple-bind, Triple-pure, Triple-catch, Triple-weaken}

abbrev pub Gives : {S E A : Type 0} → (S → Type 0) → Prog S E A → (A → Type 0) → Type 0
Gives P m Q = Triple P m (λ a s. P s × Q a) (λ e s. ⊥)

abbrev pub Ends : {S E A : Type 0} → (S → Type 0) → Prog S E A → Type 0
Ends P m = Gives P m (λ a. Unit)

module _ {S E A : Type 0} {P : S → Type 0} where
  pub Gives-pure : {Q : A → Type 0} (a : A) → Q a → Gives P (pure {E = E} a) Q
  Gives-pure a q = Triple-pure a (λ s h. (h, q))

  pub Gives-weaken :
      {M Q : A → Type 0} {m : Prog S E A} → Gives P m M → ((a : A) → M a → Q a) → Gives P m Q
  Gives-weaken k q = Triple-weaken k (λ s h. h) (λ a s h. (h.0, q a h.1)) (λ e s h. h)

  pub Gives-if :
      {Q : A → Type 0} (b : Bool) {m n : Prog S E A}
      → Gives P m Q
      → Gives P n Q
      → Gives P (if b then m else n) Q
  Gives-if true k l = k
  Gives-if false k l = l

  pub Gives-on_none :
      (o : Option A) (a : A) (m : Prog S E A) → o ≡ some a → Gives P (on_none o m) (λ b. b ≡ a)
  unfolding on_none
  Gives-on_none none a m e = cc
  Gives-on_none (some b) a m e = Triple-pure b (λ s h. (h, cc))

  pub Gives-lift : (r : Result E A) (a : A) → r ≡ ok a → Gives P (lift r) (λ b. b ≡ a)
  unfolding lift
  Gives-lift (ok b) a e = record { at = λ s h. (h, cc) }
  Gives-lift (err x) a e = cc

module _ {S E A B : Type 0} {P R : S → Type 0} {Q : B → S → Type 0} where
  pub Gives-bind :
      {M : A → Type 0} {m : Prog S E A} {f : A → Prog S E B}
      → Triple P m (λ a s. R s × M a) (λ e s. ⊥)
      → ((a : A) → M a → Triple R (f a) Q (λ e s. ⊥))
      → Triple P (m >>= f) Q (λ e s. ⊥)
  Gives-bind k l = Triple-bind k λ a. record { at = λ s h. (l a h.1).at s h.0 }

module _ {S E F A : Type 0} {P : S → Type 0} {Q : A → Type 0} where
  -- What ends without an error has none to handle.
  pub Gives-catch : {m : Prog S E A} (h : E → Prog S F A) → Gives P m Q → Gives P (catch m h) Q
  Gives-catch h k = Triple-catch k (λ e. record { at = λ s x. absurd x })

module _ {S A : Type 0} {P : S → Type 0} {Q : A → Type 0} where
  pub Gives-wrap :
      (context : String) {m : Prog S Error A} → Gives P m Q → Gives P (wrap context m) Q
  Gives-wrap context k = Gives-catch _ k

module _ {S E : Type 0} {P : S → Type 0} where
  pub Ends-when : (b : Bool) {m : Prog S E (Unit {0})} → (b ≡ true → Ends P m) → Ends P (when b m)
  unfolding when pure
  Ends-when true k = k refl
  Ends-when false k = record { at = λ s h. (h, tt) }

  pub Ends-for_each :
      {A : Type 0} (xs : List A) {body : A → Prog S E (Unit {0})}
      → ((x : A) → Ends P (body x))
      → Ends P (for_each xs body)
  unfolding for_each
  Ends-for_each [] k = Gives-pure tt tt
  Ends-for_each (x ∷ xs) k = Gives-bind (k x) (λ a h. Ends-for_each xs k)

module _ {S E A : Type 0} {P : S → Type 0} where
  pub Ends-pure : (a : A) → Ends P (pure {S = S} {E = E} a)
  Ends-pure a = Gives-pure a tt

module _ {S E A B : Type 0} {P : S → Type 0} where
  pub Ends-bind :
      (m : Prog S E A) (f : A → Prog S E B) → Ends P m → ((a : A) → Ends P (f a)) → Ends P (m >>= f)
  Ends-bind m f k l = Gives-bind k (λ a h. l a)

module _ {S E F A : Type 0} {P : S → Type 0} where
  pub Ends-catch : (m : Prog S E A) (h : E → Prog S F A) → Ends P m → Ends P (catch m h)
  Ends-catch m h k = Gives-catch h k

pub ruleset ends_rules = (Ends-pure, Ends-bind, Ends-catch, Ends-when, Ends-for_each)
