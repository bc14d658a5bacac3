-- ===== src/Regexp.antt =====
-- Regular expressions as package `regexp` matches them, over the code points of a text, for patterns
-- that are anchored at both ends, as all of the webhooks' are but one.
pub mod Laws
use dbchan.Base.{
  ℕ, zero, suc, Bool, true, false, ◌&&◌, ◌||◌, List, [], ◌∷◌, ◌++◌, ◌≡◌, leb, if◌then◌else◌,
}

-- `chars p` is a class; `none` matches nothing, and arises in derivatives only.
pub data Regex : Type 0 where
  none empty : Regex
  chars : (ℕ → Bool) → Regex
  seq alt : Regex → Regex → Regex
  star : Regex → Regex

-- `r+`, `r?` and `r{n}`
abbrev pub plus : Regex → Regex
plus r = seq r (star r)

abbrev pub optional : Regex → Regex
optional r = alt r empty

abbrev pub times : ℕ → Regex → Regex
times zero r = empty
times (suc n) r = seq r (times n r)

unfoldable pub nullable : Regex → Bool
nullable none = false
nullable empty = true
nullable (chars p) = false
nullable (seq r q) = nullable r && nullable q
nullable (alt r q) = nullable r || nullable q
nullable (star r) = true

-- What is left to match after the character `c`.
unfoldable pub derive : ℕ → Regex → Regex
unfolding nullable
derive c none = none
derive c empty = none
derive c (chars p) = if p c then empty else none
derive c (seq r q) =
    let first = seq (derive c r) q in
    let second = derive c q in if nullable r then alt first second else first
derive c (alt r q) = alt (derive c r) (derive c q)
derive c (star r) = seq (derive c r) (star r)

-- `regexp.MustCompile("^r$").MatchString(s)`
unfoldable pub matches : Regex → List ℕ → Bool
unfolding derive
matches r [] = nullable r
matches r (c ∷ s) = matches (derive c r) s

-- The language of an expression.
pub data Matches : Regex → List ℕ → Type 0 where
  nothing : Matches empty []
  one : {p : ℕ → Bool} {s : List ℕ} (c : ℕ) → p c ≡ true → s ≡ c ∷ [] → Matches (chars p) s
  both :
      {r q : Regex} {u : List ℕ} (s t : List ℕ)
      → Matches r s
      → Matches q t
      → u ≡ s ++ t
      → Matches (seq r q) u
  left : {r q : Regex} {s : List ℕ} → Matches r s → Matches (alt r q) s
  right : {r q : Regex} {s : List ℕ} → Matches q s → Matches (alt r q) s
  stop : {r : Regex} → Matches (star r) []
  again :
      {r : Regex} {u : List ℕ} (c : ℕ) (s t : List ℕ)
      → Matches r (c ∷ s)
      → Matches (star r) t
      → u ≡ c ∷ s ++ t
      → Matches (star r) u
