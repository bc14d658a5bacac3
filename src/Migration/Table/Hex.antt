-- ===== src/Migration/Table/Hex.antt =====
-- The checksum of a migration's SQL determines the hash.
use dbchan.Base.{
  ℕ, zero, suc, ◌+◌, ◌-◌, ◌*◌, ◌/◌, ◌%◌, ◌<◌, ◌≡◌, refl, ap, length, Bool, true, false, List, [],
  ◌∷◌, ltb, if◌then◌else◌, arith,
}
use dbchan.Base.Text.{String, len, ◌<>◌, codes}
use dbchan.Base.Text.Append.{codes-append}
use text.Mathlib.TextPositions.{len-append}
use dbchan.Cluster.{World}
use dbchan.Migration.Table.{hex_digit, hex_encode, calculate_checksum}

-- The value of a hexadecimal digit, and the number of two.
abbrev hex_value : ℕ → ℕ
hex_value c = if ltb c 58 then c - 48 else c - 87

-- The bytes of a hexadecimal text.
abbrev pub hex_decode : List ℕ → List ℕ
hex_decode [] = []
hex_decode (c ∷ []) = []
hex_decode (c ∷ d ∷ s) = (hex_value c * 16 + hex_value d) ∷ hex_decode s

abbrev hex_code : ℕ → ℕ
hex_code n = if ltb n 10 then n + 48 else n + 87

codes-hex_digit : (n : ℕ) → n < 16 → codes (hex_digit n) ≡ hex_code n ∷ []
codes-hex_digit zero h = refl
codes-hex_digit (suc zero) h = refl
codes-hex_digit (suc (suc zero)) h = refl
codes-hex_digit (suc (suc (suc zero))) h = refl
codes-hex_digit (suc (suc (suc (suc zero)))) h = refl
codes-hex_digit (suc (suc (suc (suc (suc zero))))) h = refl
codes-hex_digit (suc (suc (suc (suc (suc (suc zero)))))) h = refl
codes-hex_digit (suc (suc (suc (suc (suc (suc (suc zero))))))) h = refl
codes-hex_digit (suc (suc (suc (suc (suc (suc (suc (suc zero)))))))) h = refl
codes-hex_digit (suc (suc (suc (suc (suc (suc (suc (suc (suc zero))))))))) h = refl
codes-hex_digit (suc (suc (suc (suc (suc (suc (suc (suc (suc (suc zero)))))))))) h = refl
codes-hex_digit (suc (suc (suc (suc (suc (suc (suc (suc (suc (suc (suc zero))))))))))) h = refl
codes-hex_digit (suc (suc (suc (suc (suc (suc (suc (suc (suc (suc (suc (suc zero)))))))))))) h =
    refl
codes-hex_digit (suc (suc (suc (suc (suc (suc (suc (suc (suc (suc (suc (suc (suc zero)))))))))))))
      h =
    refl
codes-hex_digit
      (suc (suc (suc (suc (suc (suc (suc (suc (suc (suc (suc (suc (suc (suc zero)))))))))))))) h =
    refl
codes-hex_digit
      (suc (suc (suc (suc (suc (suc (suc (suc (suc (suc (suc (suc (suc (suc (suc zero)))))))))))))))
      h =
    refl
codes-hex_digit
      (suc
        (suc (suc (suc (suc (suc (suc (suc (suc (suc (suc (suc (suc (suc (suc (suc n))))))))))))))))
      h =
    absurd (omega arith)

hex_value-hex_code : (n : ℕ) → n < 16 → hex_value (hex_code n) ≡ n
hex_value-hex_code n h = ground arith

-- All of a list are bytes.
abbrev pub AreBytes : List ℕ → Type 0
AreBytes [] = Unit
AreBytes (b ∷ s) = (b < 256) × AreBytes s

codes-hex_encode :
    (b : ℕ) (s : List ℕ)
    → b < 256
    → codes (hex_encode (b ∷ s)) ≡ hex_code (b / 16) ∷ hex_code (b % 16) ∷ codes (hex_encode s)
unfolding hex_encode
codes-hex_encode b s h =
    rw
      (
        codes-append (hex_digit (b / 16)) (hex_digit (b % 16) <> hex_encode s),
        codes-append (hex_digit (b % 16)) (hex_encode s),
        codes-hex_digit (b / 16) (omega arith),
        codes-hex_digit (b % 16) (omega arith),
      )
      refl

hex_decode-hex_encode : (s : List ℕ) → AreBytes s → hex_decode (codes (hex_encode s)) ≡ s
unfolding hex_encode
hex_decode-hex_encode [] h = refl
hex_decode-hex_encode (b ∷ s) (byte, bytes) =
    rw
      (
        codes-hex_encode b s byte,
        hex_value-hex_code (b / 16) (omega arith),
        hex_value-hex_code (b % 16) (omega arith),
        hex_decode-hex_encode s bytes,
      )
      (ap (λ n. n ∷ s) (omega arith))

len-if : (b : Bool) (s t : String) → len s ≡ 1 → len t ≡ 1 → len (if b then s else t) ≡ 1
len-if true s t k l = k
len-if false s t k l = l

len-hex_digit : (n : ℕ) → len (hex_digit n) ≡ 1
len-hex_digit n = search len-if depth 40

pub len-hex_encode : (s : List ℕ) → len (hex_encode s) ≡ 2 * length s
unfolding hex_encode
len-hex_encode [] = refl
len-hex_encode (b ∷ s) =
    let rest = len-hex_encode s in
    rw
      (
        len-append (hex_digit (b / 16)) (hex_digit (b % 16) <> hex_encode s),
        len-append (hex_digit (b % 16)) (hex_encode s),
        len-hex_digit (b / 16),
        len-hex_digit (b % 16),
        rest,
      )
      (omega arith)

-- The checksum of a text is its hash, written in hexadecimal: the bytes can be read back.
pub hex_decode-calculate_checksum :
    (w : World) (sql : String)
    → AreBytes (w.sha256 sql)
    → hex_decode (codes (calculate_checksum w sql)) ≡ w.sha256 sql
unfolding calculate_checksum
hex_decode-calculate_checksum w sql bytes = hex_decode-hex_encode (w.sha256 sql) bytes
