-- ===== src/Common/Digits.antt =====
-- The digits that `std::to_string` and `printf` write, read back.
use native.Mathlib.Nat.{pow-suc, pow-succ', add-zero}
use glacier.Common.{
  ℕ, zero, suc, ◌+◌, ◌-◌, ◌*◌, ◌/◌, ◌%◌, ◌^◌, ◌≤◌, ◌<◌, ◌≡◌, refl, sym, ap, ◌∙◌, [], ◌∷◌, ◌++◌,
  length, append_assoc, append-nil, false, ◌==◌, if◌then◌else◌, Bool-cases, ltb, inl, inr, Bytes,
  arith, All,
}
use glacier.Common.Int.{pos}
use glacier.Common.Text.{digits_onto, to_string, fill, print_wide}

-- The number that the digits of a text make; a point is passed over.
abbrev pub value_of : ℕ → Bytes → ℕ
value_of acc [] = acc
value_of acc (c ∷ cs) = if c == b'.' then value_of acc cs else value_of (acc * 10 + (c - b'0')) cs

pub length-digits_onto :
    (fuel n : ℕ) (rest : Bytes)
    → length (digits_onto fuel n rest) ≡ length (digits_onto fuel n []) + length rest
unfolding digits_onto
length-digits_onto zero n rest = omega arith
length-digits_onto (suc fuel) n rest =
    let r = n % 10 + b'0' in
    ground (
      arith,
      length-digits_onto fuel (n / 10) (r ∷ rest),
      length-digits_onto fuel (n / 10) (r ∷ []),
    )

pub value_of-digit :
    (d acc : ℕ) (rest : Bytes) → value_of acc ((d + b'0') ∷ rest) ≡ value_of (acc * 10 + d) rest
value_of-digit d acc rest =
    rw (value_of, no_point) (ap (λ x. value_of (acc * 10 + x) rest) (omega arith))
  where
    no_point : (d + b'0' == b'.') ≡ false
    no_point = ground arith

scaled : (acc p q d n : ℕ) → n ≡ q * 10 + d → (acc * p + q) * 10 + d ≡ acc * (10 * p) + n
scaled acc p q d n e = omega (arith, e)

pub value_of-digits_onto :
    (fuel n acc : ℕ) (rest : Bytes)
    → n < fuel
    → value_of acc (digits_onto fuel n rest)
      ≡ value_of (acc * 10 ^ length (digits_onto fuel n []) + n) rest
unfolding digits_onto
value_of-digits_onto zero n acc rest h = absurd (omega (arith, h))
value_of-digits_onto (suc fuel) n acc rest h = elim (Bool-cases (ltb n 10)) [
  | inl e ↦ rw (digits_onto, e) (value_of-digit n acc rest)
  | inr e ↦
      let d = n % 10 in
      let more = length (digits_onto fuel (n / 10) []) in
      rw (digits_onto, e, length-digits_onto fuel (n / 10) ((d + b'0') ∷ []))
        (value_of-digits_onto fuel (n / 10) acc ((d + b'0') ∷ rest) (ground arith)
          ∙ value_of-digit d (acc * 10 ^ more + n / 10) rest
          ∙ ap (λ x. value_of x rest)
              (scaled acc (10 ^ more) (n / 10) d n (omega arith)
                ∙ ap (λ x. acc * x + n) (sym (pow-succ' 10 more) ∙ ap (λ x. 10 ^ x) (omega arith))))
]

-- A number below a power of ten has no more digits than its exponent.
pub length-below : (k fuel n : ℕ) → n < 10 ^ suc k → length (digits_onto fuel n []) ≤ suc k
unfolding digits_onto
length-below k zero n h = omega arith
length-below zero (suc fuel) n h = ground (arith, pow-suc 10 0)
length-below (suc k) (suc fuel) n h = ground (
  arith,
  pow-suc 10 (suc k),
  length-below k fuel (n / 10),
  length-digits_onto fuel (n / 10) ((n % 10 + b'0') ∷ []),
)

pub append-digits_onto :
    (fuel n : ℕ) (rest : Bytes) → digits_onto fuel n rest ≡ digits_onto fuel n [] ++ rest
unfolding digits_onto
append-digits_onto zero n rest = refl
append-digits_onto (suc fuel) n rest = elim (Bool-cases (ltb n 10)) [
  | inl e ↦ rw (digits_onto, e) refl
  | inr e ↦
      let d = n % 10 + b'0' in
      rw (digits_onto, e)
        (append-digits_onto fuel (n / 10) (d ∷ rest)
          ∙ sym (append_assoc (digits_onto fuel (n / 10) []) (d ∷ []) rest)
          ∙ ap (λ x. x ++ rest) (sym (append-digits_onto fuel (n / 10) (d ∷ []))))
]

-- The value of a number printed in front of `rest`.
pub value_of-to_string :
    (n acc : ℕ) (rest : Bytes)
    → value_of acc (to_string n ++ rest) ≡ value_of (acc * 10 ^ length (to_string n) + n) rest
unfolding to_string
value_of-to_string n acc rest =
    ap (value_of acc) (sym (append-digits_onto (suc n) n rest))
    ∙ value_of-digits_onto (suc n) n acc rest (omega arith)

pub not_negative : (n : ℕ) → ltb (n + 0) 0 ≡ false
not_negative n = ground arith

pub print_wide-plain : (n : ℕ) → print_wide false 0 (pos n) ≡ to_string n
unfolding print_wide
print_wide-plain n =
    rw (print_wide, not_negative n, add-zero)
      (ap (λ k. fill k b' ' ++ to_string n) (none (0 + length (to_string n))))
  where
    none : (k : ℕ) → 0 - k ≡ 0
    none k = omega arith

-- The bytes of a printed number are digits.
abbrev pub IsDigit : ℕ → Type 0
IsDigit c = (b'0' ≤ c) × (c ≤ b'9')

digits_onto-IsDigit :
    (fuel n : ℕ) (rest : Bytes) → All IsDigit rest → All IsDigit (digits_onto fuel n rest)
unfolding digits_onto
digits_onto-IsDigit zero n rest h = h
digits_onto-IsDigit (suc fuel) n rest h = elim (Bool-cases (ltb n 10)) [
  | inl e ↦ rw (digits_onto, e) (ground (arith, e), h)
  | inr e ↦
      rw (digits_onto, e)
        (digits_onto-IsDigit fuel (n / 10) ((n % 10 + b'0') ∷ rest) (omega arith, h))
]

pub to_string-IsDigit : (n : ℕ) → All IsDigit (to_string n)
unfolding to_string
to_string-IsDigit n = digits_onto-IsDigit (suc n) n [] tt

-- What holds of digits holds of the digits of a text.
pub All-weaken :
    (P : ℕ → Type 0) → ((c : ℕ) → IsDigit c → P c) → (cs : Bytes) → All IsDigit cs → All P cs
All-weaken P f [] h = tt
All-weaken P f (c ∷ cs) h = (f c h.0, All-weaken P f cs h.1)

-- A printed number reads back.
pub to_string-value_of : (n : ℕ) → value_of 0 (to_string n) ≡ n
to_string-value_of n =
    ap (value_of 0) (sym (append-nil (to_string n)))
    ∙ value_of-to_string n 0 []
    ∙ first (10 ^ length (to_string n)) n
  where
    first : (p s : ℕ) → 0 * p + s ≡ s
    first p s = omega arith
