-- ===== src/Logging/Convert/Decimal.antt =====
-- What `convert` writes reads back as the number, and its length.
use mathlib.Core.List.{reverse, reverse-append, reverse-cons}
use native.Mathlib.Nat.{pow-suc}
use glacier.Common.{
  ℕ, zero, suc, ◌+◌, ◌-◌, ◌*◌, ◌/◌, ◌%◌, ◌^◌, ◌≤◌, ◌<◌, ◌≡◌, refl, ap, ◌∙◌, inl, inr, true, [], ◌∷◌,
  ◌++◌, length, length-reverse, All, All-reverse, Bool-cases, ◌==◌, if◌then◌else◌, Bytes, arith,
}
use glacier.Common.Int.{ℤ, pos, negsuc, ◌/ℤ◌, ◌%ℤ◌, ltb_ℤ, eqb_ℤ}
use glacier.Logging.Convert.{digit_char, convert_loop, magnitude, convert}

digit_char_pos : (i : ℕ) → digit_char (pos i %ℤ 10) ≡ b'0' + i % 10
unfolding digit_char ◌%ℤ◌
digit_char_pos i = ground arith

digit_char_negsuc : (i : ℕ) → digit_char (negsuc i %ℤ 10) ≡ b'0' + suc i % 10
unfolding digit_char ◌%ℤ◌
digit_char_negsuc i = ground arith

-- The loop on the magnitude of the number alone.
abbrev digits_loop : ℕ → ℕ → Bytes
digits_loop zero n = []
digits_loop (suc fuel) n =
    let rest = digits_loop fuel (n / 10) in (b'0' + n % 10) ∷ (if n / 10 == 0 then [] else rest)

digit_char-magnitude : (z : ℤ) → digit_char (z %ℤ 10) ≡ b'0' + magnitude z % 10
digit_char-magnitude (pos i) = digit_char_pos i ∙ ap (λ k. b'0' + k % 10) (omega arith)
digit_char-magnitude (negsuc i) = digit_char_negsuc i ∙ ap (λ k. b'0' + k % 10) (omega arith)

magnitude-/ℤ : (z : ℤ) → magnitude (z /ℤ 10) ≡ magnitude z / 10
unfolding ◌/ℤ◌
magnitude-/ℤ (pos i) = ground arith
magnitude-/ℤ (negsuc i) = ground arith

is_zero-magnitude : (z : ℤ) → eqb_ℤ z (pos 0) ≡ (magnitude z == 0)
is_zero-magnitude (pos i) = ground arith
is_zero-magnitude (negsuc i) = ground arith

convert_loop-digits_loop : (fuel : ℕ) (z : ℤ) → convert_loop fuel z ≡ digits_loop fuel (magnitude z)
unfolding convert_loop
convert_loop-digits_loop zero z = refl
convert_loop-digits_loop (suc fuel) z =
    simp (
      digit_char-magnitude,
      convert_loop-digits_loop fuel (z /ℤ 10),
      is_zero-magnitude,
      magnitude-/ℤ,
    )

-- The value of digits that stand with the least significant one first.
abbrev little : Bytes → ℕ
little [] = 0
little (c ∷ cs) = c - b'0' + 10 * little cs

little-digits_loop : (fuel n : ℕ) → n < fuel → little (digits_loop fuel n) ≡ n
little-digits_loop zero n h = elim h [ ]
little-digits_loop (suc fuel) n h = ground (arith, little-digits_loop fuel (n / 10))

length-digits_loop : (k fuel n : ℕ) → n < 10 * 10 ^ k → length (digits_loop fuel n) ≤ suc k
length-digits_loop k zero n h = omega arith
length-digits_loop zero (suc fuel) n h = ground arith
length-digits_loop (suc k) (suc fuel) n h =
    ground (arith, length-digits_loop k fuel (n / 10), pow-suc 10 k)

abbrev IsDigit : ℕ → Type 0
IsDigit c = (b'0' ≤ c) × (c ≤ b'9')

-- The reader: a sign and digits, the most significant first.
abbrev pub value_onto : ℕ → Bytes → ℕ
value_onto acc [] = acc
value_onto acc (c ∷ cs) = value_onto (acc * 10 + (c - b'0')) cs

abbrev pub negated : ℕ → ℤ
negated zero = pos 0
negated (suc n) = negsuc n

abbrev pub read_decimal : Bytes → ℤ
read_decimal [] = pos 0
read_decimal (c ∷ cs) = if c == b'-' then negated (value_onto 0 cs) else pos (value_onto 0 (c ∷ cs))

value_onto-append :
    (acc : ℕ) (xs : Bytes) (d : ℕ)
    → value_onto acc (xs ++ d ∷ []) ≡ value_onto acc xs * 10 + (d - b'0')
value_onto-append acc [] d = refl
value_onto-append acc (x ∷ xs) d = value_onto-append (acc * 10 + (x - b'0')) xs d

value_onto-reverse : (ds : Bytes) → value_onto 0 (reverse ds) ≡ little ds
value_onto-reverse [] = refl
value_onto-reverse (d ∷ ds) =
    rw (reverse-cons d ds, value_onto-append 0 (reverse ds) d)
      (omega (arith, value_onto-reverse ds))

IsDigit-digits_loop : (fuel n : ℕ) → All IsDigit (digits_loop fuel n)
IsDigit-digits_loop zero n = tt
IsDigit-digits_loop (suc fuel) n = elim (Bool-cases (n / 10 == 0)) [
  | inl last ↦ rw last (omega arith)
  | inr more ↦ rw more ((omega arith, omega arith), IsDigit-digits_loop fuel (n / 10))
]

read_decimal-pos : (xs : Bytes) → All IsDigit xs → read_decimal xs ≡ pos (value_onto 0 xs)
read_decimal-pos [] h = refl
read_decimal-pos (c ∷ cs) h = ground (arith, h.0)

text_of : ℕ → Bytes
text_of n = reverse (digits_loop (suc n) n)

value_onto-text_of : (n : ℕ) → value_onto 0 (text_of n) ≡ n
unfolding text_of
value_onto-text_of n =
    value_onto-reverse (digits_loop (suc n) n) ∙ little-digits_loop (suc n) n (omega arith)

convert_pos : (n : ℕ) → convert (pos n) ≡ text_of n
unfolding convert text_of
convert_pos n = rw (convert_loop-digits_loop (suc n) (pos n)) (ground arith)

convert_negsuc : (n : ℕ) → convert (negsuc n) ≡ b'-' ∷ text_of (suc n)
unfolding convert text_of
convert_negsuc n =
    rw (convert_loop-digits_loop (suc (suc n)) (negsuc n), negative)
      (reverse-append (digits_loop (suc (suc n)) (suc n)) (b'-' ∷ []))
  where
    negative : ltb_ℤ (negsuc n) (pos 0) ≡ true
    negative = ground arith

-- What `convert` writes reads back as the number, for every number.
pub read_decimal-convert : (value : ℤ) → read_decimal (convert value) ≡ value
unfolding text_of
read_decimal-convert (pos n) =
    let digits = All-reverse IsDigit (digits_loop (suc n) n) (IsDigit-digits_loop (suc n) n) in
    rw (convert_pos n) (read_decimal-pos (text_of n) digits ∙ ap pos (value_onto-text_of n))
read_decimal-convert (negsuc n) = rw (convert_negsuc n) (ap negated (value_onto-text_of (suc n)))

-- What `convert` writes for a number whose magnitude is below 2 ^ 64 has at most 21 bytes.
pub length-convert : (value : ℤ) → magnitude value < 2 ^ 64 → length (convert value) ≤ 21
unfolding text_of
length-convert (pos n) h =
    rw (convert_pos n, length-reverse (digits_loop (suc n) n))
      (omega (arith, length-digits_loop 19 (suc n) n (omega arith)))
length-convert (negsuc n) h =
    rw (convert_negsuc n, length-reverse (digits_loop (suc (suc n)) (suc n)))
      (omega (arith, length-digits_loop 19 (suc (suc n)) (suc n) (omega arith)))
