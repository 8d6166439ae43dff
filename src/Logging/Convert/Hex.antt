-- ===== src/Logging/Convert/Hex.antt =====
-- What `convertHex` writes reads back as the number, and its length.
use mathlib.Core.List.{reverse, reverse-cons}
use native.Mathlib.Nat.{pow-suc}
use glacier.Common.{
  ℕ, zero, suc, ◌+◌, ◌-◌, ◌*◌, ◌/◌, ◌%◌, ◌^◌, ◌≤◌, ◌<◌, ◌≡◌, refl, ◌∙◌, true, inl, inr, Bool-cases,
  [], ◌∷◌, ◌++◌, length, length-reverse, ltb, ◌==◌, if◌then◌else◌, Bytes, arith, holds_below,
  holds_below-test, ==_iff,
}
use glacier.Logging.Convert.{byte_at, digits_hex, convert_hex_loop, convert_hex}

abbrev hex_value : ℕ → ℕ
hex_value c = if ltb c b'A' then c - b'0' else c - 55

digits_hex_table : holds_below (λ d. hex_value (byte_at digits_hex d) == d) 16 ≡ true
unfolding holds_below
digits_hex_table = refl

hex_value-byte_at : (d : ℕ) → d < 16 → hex_value (byte_at digits_hex d) ≡ d
hex_value-byte_at d h =
    (==_iff _ d).0
      (holds_below-test (λ d. hex_value (byte_at digits_hex d) == d) d 16 h digits_hex_table)

-- The value of a hexadecimal text, the most significant digit first.
abbrev pub hex_onto : ℕ → Bytes → ℕ
hex_onto acc [] = acc
hex_onto acc (c ∷ cs) = hex_onto (acc * 16 + hex_value c) cs

abbrev little : Bytes → ℕ
little [] = 0
little (c ∷ cs) = hex_value c + 16 * little cs

little-convert_hex_loop : (fuel n : ℕ) → n < fuel → little (convert_hex_loop fuel n) ≡ n
unfolding convert_hex_loop
little-convert_hex_loop zero n h = elim h [ ]
little-convert_hex_loop (suc fuel) n h = elim (Bool-cases (n / 16 == 0)) [
  | inl last ↦ rw (last, hex_value-byte_at (n % 16) (omega arith)) (ground (arith, last))
  | inr more ↦
      rw
        (
          more,
          hex_value-byte_at (n % 16) (omega arith),
          little-convert_hex_loop fuel (n / 16) (ground (arith, more)),
        )
        (omega arith)
]

length-convert_hex_loop :
    (k fuel n : ℕ) → n < 16 * 16 ^ k → length (convert_hex_loop fuel n) ≤ suc k
unfolding convert_hex_loop
length-convert_hex_loop k zero n h = omega arith
length-convert_hex_loop zero (suc fuel) n h = ground arith
length-convert_hex_loop (suc k) (suc fuel) n h =
    ground (arith, length-convert_hex_loop k fuel (n / 16), pow-suc 16 k)

hex_onto-append :
    (acc : ℕ) (xs : Bytes) (d : ℕ)
    → hex_onto acc (xs ++ d ∷ []) ≡ hex_onto acc xs * 16 + hex_value d
hex_onto-append acc [] d = refl
hex_onto-append acc (x ∷ xs) d = hex_onto-append (acc * 16 + hex_value x) xs d

hex_onto-reverse : (ds : Bytes) → hex_onto 0 (reverse ds) ≡ little ds
hex_onto-reverse [] = refl
hex_onto-reverse (d ∷ ds) =
    rw (reverse-cons d ds, hex_onto-append 0 (reverse ds) d) (omega (arith, hex_onto-reverse ds))

-- What `convertHex` writes reads back as the number.
pub hex_onto-convert_hex : (value : ℕ) → hex_onto 0 (convert_hex value) ≡ value
unfolding convert_hex
hex_onto-convert_hex value =
    hex_onto-reverse (convert_hex_loop (suc value) value)
    ∙ little-convert_hex_loop (suc value) value (omega arith)

-- What `convertHex` writes for a 64-bit number has at most 16 bytes.
pub length-convert_hex : (value : ℕ) → value < 2 ^ 64 → length (convert_hex value) ≤ 16
unfolding convert_hex
length-convert_hex value h =
    rw (length-reverse (convert_hex_loop (suc value) value))
      (length-convert_hex_loop 15 (suc value) value (omega arith))
