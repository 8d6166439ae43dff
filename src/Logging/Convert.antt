-- ===== src/Logging/Convert.antt =====
-- `convert` and `convertHex` of glacier/base/logstream.cc. The loops write the least significant
-- digit first and turn the text round at the end. Their fuel is one more than the magnitude of the
-- number, which each round divides; `Decimal` and `Hex` show that this is enough.
pub mod Decimal
pub mod Hex
use mathlib.Core.List.{reverse}
use glacier.Common.{
  ℕ, zero, suc, ◌+◌, ◌-◌, ◌/◌, ◌%◌, List, [], ◌∷◌, ◌++◌, get_elem?, ◌==◌, if◌then◌else◌, Option,
  none, some, Bytes,
}
use glacier.Common.Int.{ℤ, pos, negsuc, ◌+ℤ◌, ◌/ℤ◌, ◌%ℤ◌, pos_part, neg_part, ltb_ℤ, eqb_ℤ}
use glacier.Common.Text.{codes}

abbrev byte_at : Bytes → ℕ → ℕ
byte_at [] i = 0
byte_at (c ∷ cs) zero = c
byte_at (c ∷ cs) (suc i) = byte_at cs i

abbrev digits : Bytes
digits = codes "9876543210123456789"

-- `zero[lsd]`, where `zero` points at the tenth byte of `digits`.
unfoldable pub digit_char : ℤ → ℕ
unfolding ◌+ℤ◌
digit_char lsd = byte_at digits (pos_part (lsd +ℤ pos 9))

unfoldable pub convert_loop : ℕ → ℤ → Bytes
convert_loop zero i = []
convert_loop (suc fuel) i =
    let next = i /ℤ 10 in
    let rest = convert_loop fuel next in
    digit_char (i %ℤ 10) ∷ (if eqb_ℤ next (pos 0) then [] else rest)

abbrev pub magnitude : ℤ → ℕ
magnitude (pos n) = n
magnitude (negsuc n) = suc n

unfoldable pub convert : ℤ → Bytes
convert value =
    let p = convert_loop (suc (magnitude value)) value in
    reverse (if ltb_ℤ value (pos 0) then p ++ b'-' ∷ [] else p)

abbrev digits_hex : Bytes
digits_hex = codes "0123456789ABCDEF"

unfoldable pub convert_hex_loop : ℕ → ℕ → Bytes
convert_hex_loop zero i = []
convert_hex_loop (suc fuel) i =
    let rest = convert_hex_loop fuel (i / 16) in
    byte_at digits_hex (i % 16) ∷ (if i / 16 == 0 then [] else rest)

unfoldable pub convert_hex : ℕ → Bytes
convert_hex value = reverse (convert_hex_loop (suc value) value)
