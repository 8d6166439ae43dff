-- ===== src/Logging/Logger/Name.antt =====
-- The name of a source file in a log line, glacier/base/logging.h.
use glacier.Common.{
  ℕ, ◌+◌, ◌-◌, ◌≡◌, ◌≢◌, refl, ap, ◌∙◌, none, some, [], ◌∷◌, ◌++◌, length, length-append, drop,
  drop-append, drop-add, All, All-append, true, false, ◌==◌, Bytes, arith,
}
use glacier.Logging.Logger.{last_index, of_array, of_name}

last_index-none : (c : ℕ) (xs : Bytes) (i : ℕ) → All (λ x. x ≢ c) xs → last_index c xs i ≡ none
unfolding last_index
last_index-none c [] i h = refl
last_index-none c (x ∷ xs) i h = rw (last_index, last_index-none c xs (i + 1) h.1, no_match) refl
  where
    no_match : (x == c) ≡ false
    no_match = ground (arith, h.0)

last_index-append :
    (c : ℕ) (xs ys : Bytes) (i : ℕ)
    → All (λ x. x ≢ c) ys
    → last_index c (xs ++ c ∷ ys) i ≡ some (i + length xs)
unfolding last_index
last_index-append c [] ys i h =
    rw (last_index, last_index-none c ys (i + 1) h, match) (ap some (omega arith))
  where
    match : (c == c) ≡ true
    match = ground arith
last_index-append c (x ∷ xs) ys i h =
    rw (last_index, last_index-append c xs ys (i + 1) h) (ap some (omega arith))

drop-behind : (dir base : Bytes) → drop (0 + length dir + 1) (dir ++ b'/' ∷ base) ≡ base
drop-behind dir base =
    ap (λ n. drop n (dir ++ b'/' ∷ base)) (omega arith)
    ∙ drop-add (length dir) 1 (dir ++ b'/' ∷ base)
    ∙ ap (drop 1) (drop-append dir (b'/' ∷ base))

-- Both constructors find the name behind the last slash of a path, but the one from an array, which
-- the macros use, counts the terminator: its size is one more than the name is long.
pub of_array-of_name :
    (dir base : Bytes)
    → All (λ c. c ≢ b'/') base
    → (of_name (dir ++ b'/' ∷ base) ≡ record { text = base; size = length base })
      × (of_array (dir ++ b'/' ∷ (base ++ 0 ∷ []))
          ≡ record { text = base ++ 0 ∷ []; size = length base + 1 })
unfolding of_name of_array
of_array-of_name dir base h = (
  rw (of_name, last_index-append b'/' dir base 0 h, drop-behind dir base) refl,
  rw
      (
        of_array,
        last_index-append b'/' dir (base ++ 0 ∷ []) 0 with_zero,
        drop-behind dir (base ++ 0 ∷ []),
      )
      (ap (λ n. record { text = base ++ 0 ∷ []; size = n }) count),
)
  where
    with_zero : All (λ c. c ≢ b'/') (base ++ 0 ∷ [])
    with_zero = All-append (λ c. c ≢ b'/') base (0 ∷ []) h (omega arith, tt)

    count : length (dir ++ b'/' ∷ (base ++ 0 ∷ [])) - (0 + length dir + 1) ≡ length base + 1
    count = omega (arith, length-append dir (b'/' ∷ (base ++ 0 ∷ [])), length-append base (0 ∷ []))
