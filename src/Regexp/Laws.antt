-- ===== src/Regexp/Laws.antt =====
-- The matcher decides the language.
use dbchan.Base.{
  ℕ, true, List, [], ◌∷◌, ◌++◌, ◌≡◌, refl, sym, ap, ◌↔◌, inl, inr, Bool-cases, arith, ◌∙◌,
}
use dbchan.Regexp.{Regex, none, empty, chars, seq, alt, star, nullable, derive, matches, Matches}

-- An empty concatenation has empty parts.
nil_parts : (s t : List ℕ) → [] ≡ s ++ t → (s ≡ []) × (t ≡ [])
nil_parts [] t e = (refl, sym e)
nil_parts (x ∷ s) t e = cc

at_nil : {r : Regex} {s : List ℕ} → s ≡ [] → Matches r s → Matches r []
at_nil e m = rw e at m

nullable_sound : (r : Regex) → nullable r ≡ true → Matches r []
unfolding nullable
nullable_sound none h = cc
nullable_sound empty h = Matches.nothing
nullable_sound (chars p) h = cc
nullable_sound (seq r q) h =
    Matches.both [] [] (nullable_sound r (ground arith)) (nullable_sound q (ground arith)) refl
nullable_sound (alt r q) h = elim (Bool-cases (nullable r)) [
  | inl e ↦ Matches.left (nullable_sound r e)
  | inr e ↦ Matches.right (nullable_sound q (ground arith))
]
nullable_sound (star r) h = Matches.stop

nullable_complete : {r : Regex} {s : List ℕ} → Matches r s → s ≡ [] → nullable r ≡ true
unfolding nullable
nullable_complete Matches.nothing e = refl
nullable_complete (Matches.one c h e') e = cc
nullable_complete (Matches.both {r} {q} s t m n e') e =
    let (es, et) = nil_parts s t (sym e ∙ e') in
    ground (arith, nullable_complete m es, nullable_complete n et)
nullable_complete (Matches.left m) e = ground (arith, nullable_complete m e)
nullable_complete (Matches.right m) e = ground (arith, nullable_complete m e)
nullable_complete Matches.stop e = refl
nullable_complete (Matches.again c s t m n e') e = refl

of_none : {s : List ℕ} → Matches none s → ⊥
of_none m = elim m [ ]

of_empty : {s : List ℕ} → Matches empty s → s ≡ []
of_empty Matches.nothing = refl

module _ {r q : Regex} {c : ℕ}
    (ir : (s : List ℕ) → Matches (derive c r) s → Matches r (c ∷ s)) where
  of_seq : {u : List ℕ} → Matches (seq (derive c r) q) u → Matches (seq r q) (c ∷ u)
  of_seq (Matches.both s t m n e) = Matches.both (c ∷ s) t (ir s m) n (ap (λ v. c ∷ v) e)

  of_alt :
      (iq : (s : List ℕ) → Matches (derive c q) s → Matches q (c ∷ s)) {u : List ℕ}
      → nullable r ≡ true
      → Matches (alt (seq (derive c r) q) (derive c q)) u
      → Matches (seq r q) (c ∷ u)
  of_alt iq e (Matches.left m) = of_seq m
  of_alt iq {u} e (Matches.right m) = Matches.both [] (c ∷ u) (nullable_sound r e) (iq u m) refl

-- A derivative matches exactly what completes the character to a match.
derive_sound : (r : Regex) (c : ℕ) (s : List ℕ) → Matches (derive c r) s → Matches r (c ∷ s)
unfolding derive
derive_sound none c s m = elim m [ ]
derive_sound empty c s m = elim m [ ]
derive_sound (chars p) c s m = elim (Bool-cases (p c)) [
  | inl e ↦ Matches.one c e (ap (λ t. c ∷ t) (of_empty (rw e at m)))
  | inr e ↦ absurd (of_none (rw e at m))
]
derive_sound (seq r q) c s m = elim (Bool-cases (nullable r)) [
  | inl e ↦ of_alt (derive_sound r c) (derive_sound q c) e (rw e at m)
  | inr e ↦ of_seq (derive_sound r c) (rw e at m)
]
derive_sound (alt r q) c s (Matches.left m) = Matches.left (derive_sound r c s m)
derive_sound (alt r q) c s (Matches.right m) = Matches.right (derive_sound q c s m)
derive_sound (star r) c u (Matches.both s t m n e) =
    Matches.again c s t (derive_sound r c s m) n (ap (λ v. c ∷ v) e)

-- The first character of a concatenation comes from the first part, unless that is empty.
module _ (r q : Regex) (c : ℕ) {u : List ℕ} where
  to_first : Matches (seq (derive c r) q) u → Matches (derive c (seq r q)) u
  unfolding derive
  to_first m = elim (Bool-cases (nullable r)) [ inl e ↦ rw e (Matches.left m) | inr e ↦ rw e m ]

  to_second : nullable r ≡ true → Matches (derive c q) u → Matches (derive c (seq r q)) u
  unfolding derive
  to_second e m = rw e (Matches.right m)

derive_complete_at :
    (r : Regex) {c : ℕ} {s u : List ℕ} → Matches r u → u ≡ c ∷ s → Matches (derive c r) s
unfolding derive
derive_complete_at none m e = elim m [ ]
derive_complete_at empty Matches.nothing e = cc
derive_complete_at (chars p) {c} {s} (Matches.one x h e') e =
    let same : x ≡ c = cc in
    let done : [] ≡ s = cc in rw (rw same at h) (rw done at Matches.nothing)
derive_complete_at (seq r q) {c} {s} (Matches.both [] t m n e') e =
    to_second r q c (nullable_complete m refl) (derive_complete_at q n (sym e' ∙ e))
derive_complete_at (seq r q) {c} {s} (Matches.both (x ∷ v) t m n e') e =
    let same : x ≡ c = cc in
    let rest : s ≡ v ++ t = cc in
    to_first r q c (Matches.both v t (derive_complete_at r m (ap (λ y. y ∷ v) same)) n rest)
derive_complete_at (alt r q) (Matches.left m) e = Matches.left (derive_complete_at r m e)
derive_complete_at (alt r q) (Matches.right m) e = Matches.right (derive_complete_at q m e)
derive_complete_at (star r) Matches.stop e = cc
derive_complete_at (star r) {c} {s} (Matches.again x v t m n e') e =
    let same : x ≡ c = cc in
    let rest : s ≡ v ++ t = cc in
    Matches.both v t (derive_complete_at r m (ap (λ y. y ∷ v) same)) n rest

matches_sound : (s : List ℕ) (r : Regex) → matches r s ≡ true → Matches r s
unfolding matches
matches_sound [] r h = nullable_sound r h
matches_sound (c ∷ s) r h = derive_sound r c s (matches_sound s (derive c r) h)

matches_complete : (s : List ℕ) (r : Regex) → Matches r s → matches r s ≡ true
unfolding matches
matches_complete [] r m = nullable_complete m refl
matches_complete (c ∷ s) r m = matches_complete s (derive c r) (derive_complete_at r m refl)

-- The matcher answers `true` exactly on the language of the expression.
pub matches-Matches : (r : Regex) (s : List ℕ) → (matches r s ≡ true) ↔ Matches r s
matches-Matches r s = (matches_sound s r, matches_complete s r)

-- Every class of the expression lies in `p`.
abbrev pub Within : (ℕ → Type 0) → Regex → Type 0
Within P none = Unit
Within P empty = Unit
Within P (chars p) = (c : ℕ) → p c ≡ true → P c
Within P (seq r q) = Within P r × Within P q
Within P (alt r q) = Within P r × Within P q
Within P (star r) = Within P r

abbrev pub All : (ℕ → Type 0) → List ℕ → Type 0
All P [] = Unit
All P (c ∷ s) = P c × All P s

All-append : (P : ℕ → Type 0) (s t : List ℕ) → All P s → All P t → All P (s ++ t)
All-append P [] t h k = k
All-append P (c ∷ s) t h k = (h.0, All-append P s t h.1 k)

-- A text of the language has characters of the classes only.
pub Matches-All : (P : ℕ → Type 0) {r : Regex} {s : List ℕ} → Within P r → Matches r s → All P s
Matches-All P h Matches.nothing = tt
Matches-All P h (Matches.one c k e) = rw e (h c k, tt)
Matches-All P h (Matches.both s t m n e) =
    rw e (All-append P s t (Matches-All P h.0 m) (Matches-All P h.1 n))
Matches-All P h (Matches.left m) = Matches-All P h.0 m
Matches-All P h (Matches.right m) = Matches-All P h.1 m
Matches-All P h Matches.stop = tt
Matches-All P h (Matches.again c s t m n e) =
    rw e (All-append P (c ∷ s) t (Matches-All P h m) (Matches-All P h n))
