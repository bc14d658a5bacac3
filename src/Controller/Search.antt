-- ===== src/Controller/Search.antt =====
-- The search by name takes the first object of that name, and fails only if there is none.
use dbchan.Base.{◌≡◌, refl, Option, none, some, List, [], ◌∷◌, ◌++◌, Bool-cases, inl, inr, ◌≢◌, ap}
use dbchan.Base.Text.{String, ◌==◌, eq_iff}
use dbchan.Controller.{find_by_name}

-- No object of the list has the name.
abbrev pub NoneNamed : {A : Type 0} → (A → String) → String → List A → Type 0
NoneNamed name_of name [] = Unit
NoneNamed name_of name (x ∷ xs) = (name_of x ≢ name) × NoneNamed name_of name xs

-- What the search says of the list.
abbrev pub Found : {A : Type 0} → (A → String) → String → List A → Option A → Type 0
Found name_of name xs none = NoneNamed name_of name xs
Found {A} name_of name xs (some x) =
    (before : List A) × (after : List A) × (xs ≡ before ++ x ∷ after)
    × (name_of x ≡ name)
    × NoneNamed name_of name before

module _ {A : Type 0} (name_of : A → String) (name : String) where
  Found-cons :
      (x : A) (xs : List A) (o : Option A)
      → name_of x ≢ name
      → Found name_of name xs o
      → Found name_of name (x ∷ xs) o
  Found-cons x xs none ne h = (ne, h)
  Found-cons x xs (some y) ne (before, after, e, same, others) =
      (x ∷ before, after, ap (λ ys. x ∷ ys) e, same, (ne, others))

  -- The result of the search is the first object of the list with the name; it is none exactly if no
  -- object has it.
  pub find_by_name-Found : (xs : List A) → Found name_of name xs (find_by_name name_of name xs)
  unfolding find_by_name
  find_by_name-Found [] = tt
  find_by_name-Found (x ∷ xs) = elim (Bool-cases (name_of x == name)) [
    | inl same ↦ rw same ([], xs, refl, (eq_iff _ _).0 same, tt)
    | inr other ↦
        rw other (
          Found-cons x xs _ (λ e. cc (other, (eq_iff (name_of x) name).1 e))
            (find_by_name-Found xs))
  ]
