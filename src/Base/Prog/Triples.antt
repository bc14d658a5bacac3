-- ===== src/Base/Prog/Triples.antt =====
-- Programs and predicates of the state: what a run keeps, and what holds after it on success (`Q`)
-- and on failure (`R`). One rule for each way to build a program.
use mathlib.Core.Path.{◌≡◌, refl}
use mathlib.Core.Bool.{Bool, true, false}
use mathlib.Core.Option.{Option, none, some}
use mathlib.Core.List.{List, [], ◌∷◌}
use dbchan.Base.Tests.{if◌then◌else◌}
use dbchan.Base.Text.{String}
use dbchan.Base.Prog.{Error, wrap}
use dbchan.Base.Prog.{
  Result, ok, err, Prog, pure, raise, lift, ◌>>=◌, catch, when, for_each, on_none,
}

module _ {S E A : Type 0} where
  abbrev pub Post : (A → S → Type 0) → (E → S → Type 0) → Result E A × S → Type 0
  Post Q R (ok a, s) = Q a s
  Post Q R (err e, s) = R e s

  pub record Triple (P : S → Type 0) (m : Prog S E A) (Q : A → S → Type 0) (R : E → S → Type 0)
      : Type 0 where
    pub at : (s : S) → P s → Post Q R (m s)

module _ {S E A : Type 0} {Q : A → S → Type 0} {R : E → S → Type 0} where
  Post-weaken :
      {Q' : A → S → Type 0} {R' : E → S → Type 0} (r : Result E A × S)
      → ((a : A) (s : S) → Q' a s → Q a s)
      → ((e : E) (s : S) → R' e s → R e s)
      → Post Q' R' r
      → Post Q R r
  Post-weaken (ok a, s) q r h = q a s h
  Post-weaken (err e, s) q r h = r e s h

module _ {S E A : Type 0} {P : S → Type 0} {Q : A → S → Type 0} {R : E → S → Type 0} where
  pub Triple-pure : (a : A) → ((s : S) → P s → Q a s) → Triple P (pure a) Q R
  unfolding pure
  Triple-pure a h = record { at = h }

  pub Triple-raise : (e : E) → ((s : S) → P s → R e s) → Triple P (raise e) Q R
  unfolding raise
  Triple-raise e h = record { at = h }

  pub Triple-if :
      (b : Bool) {m n : Prog S E A}
      → (b ≡ true → Triple P m Q R)
      → (b ≡ false → Triple P n Q R)
      → Triple P (if b then m else n) Q R
  Triple-if true y n = y refl
  Triple-if false y n = n refl

  pub Triple-weaken :
      {P' : S → Type 0} {Q' : A → S → Type 0} {R' : E → S → Type 0} {m : Prog S E A}
      → Triple P' m Q' R'
      → ((s : S) → P s → P' s)
      → ((a : A) (s : S) → Q' a s → Q a s)
      → ((e : E) (s : S) → R' e s → R e s)
      → Triple P m Q R
  Triple-weaken {m} t p q r = record { at = λ s h. Post-weaken (m s) q r (t.at s (p s h)) }

module _ {S E A B : Type 0} {Q : B → S → Type 0} {R : E → S → Type 0} where
  Post-bind :
      (M : A → S → Type 0) (r : Result E A × S) (f : A → Prog S E B)
      → Post M R r
      → ((a : A) → Triple (M a) (f a) Q R)
      → Post Q R ((lift r.0 >>= f) r.1)
  unfolding ◌>>=◌
  Post-bind M (ok a, s) f h k = (k a).at s h
  Post-bind M (err e, s) f h k = h

  pub Triple-bind :
      {P : S → Type 0} {M : A → S → Type 0} {m : Prog S E A} {f : A → Prog S E B}
      → Triple P m M R
      → ((a : A) → Triple (M a) (f a) Q R)
      → Triple P (m >>= f) Q R
  unfolding ◌>>=◌
  Triple-bind {M} {m} {f} t k = record { at = λ s h. Post-bind M (m s) f (t.at s h) k }

module _ {S E F A : Type 0} {Q : A → S → Type 0} {R : F → S → Type 0} where
  Post-catch :
      (M : E → S → Type 0) (r : Result E A × S) (h : E → Prog S F A)
      → Post Q M r
      → ((e : E) → Triple (M e) (h e) Q R)
      → Post Q R (catch (lift r.0) h r.1)
  unfolding catch
  Post-catch M (ok a, s) h p k = p
  Post-catch M (err e, s) h p k = (k e).at s p

  pub Triple-catch :
      {P : S → Type 0} {M : E → S → Type 0} {m : Prog S E A} {h : E → Prog S F A}
      → Triple P m Q M
      → ((e : E) → Triple (M e) (h e) Q R)
      → Triple P (catch m h) Q R
  unfolding catch
  Triple-catch {M} {m} {h} t k = record { at = λ s p. Post-catch M (m s) h (t.at s p) k }

module _ {S E : Type 0} {P : S → Type 0} {Q : Unit {0} → S → Type 0} {R : E → S → Type 0} where
  pub Triple-when :
      (b : Bool) {m : Prog S E (Unit {0})}
      → (b ≡ true → Triple P m Q R)
      → (b ≡ false → (s : S) → P s → Q tt s)
      → Triple P (when b m) Q R
  unfolding when
  Triple-when true t f = t refl
  Triple-when false t f = record { at = f refl }

-- A run keeps `P`, whether it fails or not.
abbrev pub Keeps : {S E A : Type 0} → (S → Type 0) → Prog S E A → Type 0
Keeps P m = Triple P m (λ _. P) (λ _. P)

module _ {S E : Type 0} {P : S → Type 0} {A : Type 0} where
  -- The loop invariant.
  pub Keeps-for_each :
      (xs : List A) {body : A → Prog S E (Unit {0})}
      → ((x : A) → Keeps P (body x))
      → Keeps P (for_each xs body)
  unfolding for_each
  Keeps-for_each [] k = Triple-pure tt (λ s h. h)
  Keeps-for_each (x ∷ xs) k = Triple-bind (k x) (λ _. Keeps-for_each xs k)

module _ {S E A : Type 0} {P : S → Type 0} where
  pub Keeps-pure : (a : A) → Keeps P (pure {E = E} a)
  Keeps-pure a = Triple-pure a (λ s h. h)

  pub Keeps-raise : (e : E) → Keeps P (raise {A = A} e)
  Keeps-raise e = Triple-raise e (λ s h. h)

  pub Keeps-lift : (r : Result E A) → Keeps P (lift r)
  unfolding lift
  Keeps-lift (ok a) = record { at = λ s h. h }
  Keeps-lift (err e) = record { at = λ s h. h }

  pub Keeps-if :
      (b : Bool) (m n : Prog S E A) → Keeps P m → Keeps P n → Keeps P (if b then m else n)
  Keeps-if true m n k l = k
  Keeps-if false m n k l = l

module _ {S E A B : Type 0} {P : S → Type 0} where
  pub Keeps-bind :
      (m : Prog S E A) (f : A → Prog S E B)
      → Keeps P m
      → ((a : A) → Keeps P (f a))
      → Keeps P (m >>= f)
  Keeps-bind m f k l = Triple-bind k l

module _ {S E F A : Type 0} {P : S → Type 0} where
  pub Keeps-catch :
      (m : Prog S E A) (h : E → Prog S F A)
      → Keeps P m
      → ((e : E) → Keeps P (h e))
      → Keeps P (catch m h)
  Keeps-catch m h k l = Triple-catch k l

module _ {S E A : Type 0} {P : S → Type 0} where
  pub Keeps-on_none : (o : Option A) (m : Prog S E A) → Keeps P m → Keeps P (on_none o m)
  unfolding on_none
  Keeps-on_none none m k = k
  Keeps-on_none (some a) m k = Keeps-pure a

module _ {S E : Type 0} {P : S → Type 0} where
  pub Keeps-when : (b : Bool) (m : Prog S E (Unit {0})) → Keeps P m → Keeps P (when b m)
  Keeps-when b m k = Triple-when b (λ _. k) (λ _ s h. h)

pub ruleset keeps_rules = (
  Keeps-pure, Keeps-raise, Keeps-if, Keeps-bind, Keeps-catch, Keeps-when, Keeps-for_each,
  Keeps-on_none,
)

module _ {S A : Type 0} {P : S → Type 0} {Q : A → S → Type 0} {R : S → Type 0} where
  -- A wrapped error says as little of the state as the error.
  pub Triple-wrap :
      (context : String) {m : Prog S Error A}
      → Triple P m Q (λ _. R)
      → Triple P (wrap context m) Q (λ _. R)
  Triple-wrap context t = Triple-catch t (λ e. Triple-raise _ (λ s h. h))

module _ {S E A B : Type 0} {P : S → Type 0} {Q : A → S → Type 0} {R : E → S → Type 0} where
  -- A fact beside the predicate of the state.
  pub Triple-assume : {m : Prog S E A} → (B → Triple P m Q R) → Triple (λ s. P s × B) m Q R
  Triple-assume k = record { at = λ s h. (k h.1).at s h.0 }

module _ {S E A : Type 0} {P : S → Type 0} {R : E → S → Type 0} where
  -- The value that is there, or else `m`, which does not come back.
  pub Triple-on_none :
      (o : Option A) {m : Prog S E A}
      → Triple P m (λ a s. P s × (o ≡ some a)) R
      → Triple P (on_none o m) (λ a s. P s × (o ≡ some a)) R
  unfolding on_none
  Triple-on_none none k = k
  Triple-on_none (some a) k = Triple-pure a (λ s h. (h, refl))

module _ {S E A : Type 0} {P : S → Type 0} where
  pub Triple-lift : (r : Result E A) → Triple P (lift r) (λ a s. P s × (r ≡ ok a)) (λ _. P)
  unfolding lift
  Triple-lift (ok a) = record { at = λ s h. (h, refl) }
  Triple-lift (err e) = record { at = λ s h. h }
