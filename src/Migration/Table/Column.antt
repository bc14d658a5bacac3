-- ===== src/Migration/Table/Column.antt =====
-- The column of the tracking table that takes the checksum.
use dbchan.Base.{
  ℕ, ◌*◌, ◌≡◌, refl, sym, ap, ◌∙◌, length, Option, none, some, List, [], ◌∷◌, if◌then◌else◌,
}
use dbchan.Base
use dbchan.Base.Text.{String, codes, len}
use dbchan.Base.Int.Decimal.{read}
use dbchan.Cluster.{World}
use dbchan.Connection.{Dialect, mysql, postgres, sqlserver, unsupported, driver}
use dbchan.Migration.Table.{create_table_sql, hex_encode, calculate_checksum}
use dbchan.Migration.Table.Hex.{len-hex_encode}

-- What comes after a text at the start.
abbrev strip : (word s : List ℕ) → Option (List ℕ)
strip [] s = some s
strip (c ∷ word) [] = none
strip (c ∷ word) (d ∷ s) = if Base.◌==◌ c d then strip word s else none

abbrev or_else : {A : Type 0} → Option A → Option A → Option A
or_else none b = b
or_else (some a) b = some a

-- What comes after the first place of a text.
abbrev after : (word s : List ℕ) → Option (List ℕ)
after word [] = strip word []
after word (c ∷ s) = let rest = after word s in or_else (strip word (c ∷ s)) rest

-- The codes before a closing parenthesis.
abbrev inside : List ℕ → List ℕ
inside [] = []
inside (c ∷ s) = let rest = inside s in if Base.◌==◌ c b')' then [] else c ∷ rest

abbrev after_in : String → Option (List ℕ) → Option (List ℕ)
after_in word none = none
after_in word (some s) = after (codes word) s

abbrev number_in : Option (List ℕ) → Option ℕ
number_in none = none
number_in (some s) = some (read (inside s))

abbrev text_codes : Option String → Option (List ℕ)
text_codes none = none
text_codes (some q) = some (codes q)

-- The places that a statement gives its column `checksum`.
abbrev pub checksum_places : Option String → Option ℕ
checksum_places q = number_in (after_in "VARCHAR(" (after_in "checksum" (text_codes q)))

places :
    (d : Dialect) (name : String)
    → driver d ≡ some name
    → checksum_places (create_table_sql d) ≡ some 64
unfolding create_table_sql read dbchan.Base.Int.Decimal.read_after
places mysql name known = refl
places postgres name known = refl
places sqlserver name known = refl
places unsupported name known = cc

-- If hashes have 32 bytes, then, in each dialect that has a driver, the statement that creates the
-- tracking table gives the column `checksum` exactly as many places as a checksum has characters.
pub checksum_places-calculate_checksum :
    (w : World) (sql : String) (d : Dialect) (name : String)
    → driver d ≡ some name
    → length (w.sha256 sql) ≡ 32
    → checksum_places (create_table_sql d) ≡ some (len (calculate_checksum w sql))
unfolding calculate_checksum
checksum_places-calculate_checksum w sql d name known size =
    let full : len (hex_encode (w.sha256 sql)) ≡ 64 =
      len-hex_encode (w.sha256 sql) ∙ ap (λ n. 2 * n) size in
    rw full (places d name known)
