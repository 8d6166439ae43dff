-- ===== src/Tiny/Adder.antt =====
-- The CGI program csapp/cgi-bin/adder.c. `none` stands for what C leaves undefined: a number or a sum out
-- of the range of `int`, and a null pointer written through. What a `sprintf` of `content` and a text into
-- `content` leaves, which C does not say, is an argument. The arguments are taken to fit the buffers.
pub mod Page
use glacier.Common.{
  ℕ, ◌+◌, ◌-◌, ◌*◌, ◌^◌, ltb, Bool, true, false, ◌&&◌, Option, none, some, List, [], ◌∷◌, ◌++◌,
  length, take, drop, leb, ◌==◌, if◌then◌else◌, Bytes,
}
use glacier.Common.Int.{ℤ, pos, pos_part, neg_part, ◌+ℤ◌, ◌-ℤ◌}
use glacier.Common.Text.{codes, find_from, print_wide, to_string}
use mathlib.Core.Option
use glacier.Tiny.{skip_space}

abbrev pub is_digit : ℕ → Bool
is_digit c = leb b'0' c && leb c b'9'

-- The number that digits make, up to the first other byte.
unfoldable pub digits_value : ℕ → Bytes → ℕ
digits_value acc [] = acc
digits_value acc (c ∷ cs) =
    let rest = digits_value (acc * 10 + (c - b'0')) cs in if is_digit c then rest else acc

-- `atoi`, behind the blanks.
unfoldable pub signed_value : Bytes → ℤ
signed_value [] = pos 0
signed_value (c ∷ cs) =
    if c == b'-'
    then pos 0 -ℤ pos (digits_value 0 cs)
    else if c == b'+'
    then pos (digits_value 0 cs)
    else pos (digits_value 0 (c ∷ cs))

-- A value of type `int`.
abbrev pub int : ℤ → Option ℤ
int v = if ltb (pos_part v) (2 ^ 31) && leb (neg_part v) (2 ^ 31) then some v else none

abbrev pub atoi : Bytes → Option ℤ
atoi s = int (signed_value (skip_space s))

-- `%d`.
abbrev pub print_int : ℤ → Bytes
print_int v = print_wide false 0 v

unfoldable pub answer : Bytes → Bytes
answer body =
    codes "Connection: close\r\nContent-length: "
    ++ (to_string (length body) ++ (codes "\r\nContent-type: text/html\r\n\r\n" ++ body))

module _ (join : Bytes → Bytes → Bytes) where
  -- The body of the answer.
  unfoldable pub content : ℤ → ℤ → Option Bytes
  content n1 n2 = elim (int (n1 +ℤ n2)) [
    | none ↦ none
    | some sum ↦
        let welcome =
          join (codes "Welcome to add.com: ") (codes "THE Internet addition portal.\r\n<p>") in
        let numbers = join welcome (
          codes "The answer is: "
          ++ (print_int n1
              ++ (codes " + "
                  ++ (print_int n2 ++ (codes " = " ++ (print_int sum ++ codes "\r\n<p>")))))) in
        some (join numbers (codes "Thanks for visiting!\r\n"))
  ]

  -- The answer to two arguments.
  unfoldable pub add : Bytes → Bytes → Option Bytes
  add arg1 arg2 = elim (atoi arg1) [
    | none ↦ none
    | some n1 ↦ elim (atoi arg2) [ none ↦ none | some n2 ↦ Option.map answer (content n1 n2) ]
  ]

  -- `main`, with the environment's QUERY_STRING.
  unfoldable pub adder : Option Bytes → Option Bytes
  adder none = Option.map answer (content (pos 0) (pos 0))
  adder (some buf) = elim (find_from b'&' buf 0) [
    | none ↦ none
    | some p ↦ add (take p buf) (drop (p + 1) buf)
  ]
