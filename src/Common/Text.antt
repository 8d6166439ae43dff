-- ===== src/Common/Text.antt =====
-- Texts of the program as their bytes. Every literal of the source is ASCII.
use Prim.Native.Nat.{ℕ, zero, suc, ◌+◌, ◌-◌, ◌/◌, ◌%◌}
use Prim.Native.Char.{code}
use Prim.Native.String.{String}
use mathlib.Core.Bool.{Bool, true, false, ◌&&◌}
use mathlib.Core.List.{List, [], ◌∷◌, ◌++◌}
use mathlib.Core.Option.{Option, none, some}
use glacier.Common.Lists.{take, drop, length}
use glacier.Common.Int.{ℤ, pos, pos_part, neg_part, ltb_ℤ}
use glacier.Common.Tests.{◌==◌, ltb, if◌then◌else◌}

abbrev pub codes : String → List ℕ
codes String.[] = []
codes (String.◌∷◌ c s) = code c ∷ codes s

-- Equality of `std::string`s.
unfoldable pub str_eq : List ℕ → List ℕ → Bool
str_eq [] [] = true
str_eq (x ∷ xs) (y ∷ ys) = x == y && str_eq xs ys
str_eq _ _ = false

-- The digits of a number in front of `rest`; a number has fewer digits than it counts.
unfoldable pub digits_onto : ℕ → ℕ → List ℕ → List ℕ
digits_onto zero n rest = rest
digits_onto (suc fuel) n rest =
    let more = digits_onto fuel (n / 10) ((n % 10 + b'0') ∷ rest) in
    if ltb n 10 then (n + b'0') ∷ rest else more

-- `std::to_string` of a number that is not negative, and `%d` of it.
unfoldable pub to_string : ℕ → List ℕ
unfolding digits_onto
to_string n = digits_onto (suc n) n []

unfoldable pub starts_with : List ℕ → List ℕ → Bool
starts_with [] s = true
starts_with (x ∷ xs) [] = false
starts_with (x ∷ xs) (y ∷ ys) = x == y && starts_with xs ys

-- `std::string::find` of a byte: the first index from `pos` on. The list is what stands from the
-- index on, so that `find_byte c s i` looks at a string whose first byte has index `i`.
unfoldable pub find_byte : ℕ → List ℕ → ℕ → Option ℕ
find_byte c [] i = none
find_byte c (x ∷ xs) i = if x == c then some i else find_byte c xs (i + 1)

-- `std::string::find` of a text.
unfoldable pub find_text : List ℕ → List ℕ → ℕ → Option ℕ
find_text needle [] i = if starts_with needle [] then some i else none
find_text needle (x ∷ xs) i =
    if starts_with needle (x ∷ xs) then some i else find_text needle xs (i + 1)

-- `find(c, pos)` and `find(text)` of a whole string.
abbrev pub find_from : ℕ → List ℕ → ℕ → Option ℕ
find_from c s i = find_byte c (drop i s) i

abbrev pub find : List ℕ → List ℕ → Option ℕ
find needle s = find_text needle s 0

abbrev pub substr : List ℕ → ℕ → ℕ → List ℕ
substr s i n = take n (drop i s)

-- A byte so many times.
abbrev pub fill : ℕ → ℕ → List ℕ
fill zero c = []
fill (suc n) c = c ∷ fill n c

-- `printf` of an integer in a width: `%4d` with blanks in front, `%04d` with zeroes behind the sign.
unfoldable pub print_wide : Bool → ℕ → ℤ → List ℕ
print_wide zeroes width v =
    let sign = if ltb_ℤ v (pos 0) then b'-' ∷ [] else [] in
    let number = to_string (pos_part v + neg_part v) in
    let missing = width - (length sign + length number) in
    if zeroes then sign ++ (fill missing b'0' ++ number) else fill missing b' ' ++ (sign ++ number)
