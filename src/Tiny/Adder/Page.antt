-- ===== src/Tiny/Adder/Page.antt =====
-- What csapp/tiny.c and its CGI program csapp/cgi-bin/adder.c answer together.
use native.Mathlib.Nat.{zero-add}
use glacier.Common.{
  ℕ, ◌+◌, ◌-◌, ◌*◌, ◌^◌, ◌<◌, ◌≡◌, ◌≢◌, refl, ap, ◌∙◌, true, false, some, [], ◌∷◌, ◌++◌, length,
  append_assoc, take-append, drop-add, drop-append, All, ◌==◌, arith, Bytes,
}
use glacier.Common.Int.{pos, +ℤ-pos}
use glacier.Common.Text.{codes, to_string}
use glacier.Common.Digits.{
  value_of, IsDigit, to_string-IsDigit, to_string-value_of, All-weaken, print_wide-plain,
}
use glacier.Http.Uri.Lines.{find_byte-append}
use glacier.Tiny.{is_space, skip_space, Stat, Machine}
use glacier.Tiny.Adder.{
  is_digit, digits_value, signed_value, int, atoi, content, answer, add, adder,
}

digits_value-value_of :
    (cs : Bytes) (acc : ℕ) → All IsDigit cs → digits_value acc cs ≡ value_of acc cs
unfolding digits_value
digits_value-value_of [] acc h = refl
digits_value-value_of (c ∷ cs) acc h =
    rw (digits_value, digit c h.0, value_of, no_point c h.0)
      (digits_value-value_of cs (acc * 10 + (c - b'0')) h.1)
  where
    digit : (c : ℕ) → IsDigit c → is_digit c ≡ true
    digit c d = ground arith

    no_point : (c : ℕ) → IsDigit c → (c == b'.') ≡ false
    no_point c d = ground arith

read-IsDigit :
    (cs : Bytes) → All IsDigit cs → signed_value (skip_space cs) ≡ pos (digits_value 0 cs)
unfolding skip_space signed_value digits_value
read-IsDigit [] h = refl
read-IsDigit (c ∷ cs) h =
    rw (skip_space, not_space c h.0, signed_value, no_minus c h.0, no_plus c h.0) refl
  where
    not_space : (c : ℕ) → IsDigit c → is_space c ≡ false
    not_space c d = ground arith

    no_minus : (c : ℕ) → IsDigit c → (c == b'-') ≡ false
    no_minus c d = ground arith

    no_plus : (c : ℕ) → IsDigit c → (c == b'+') ≡ false
    no_plus c d = ground arith

int-pos : (n : ℕ) → n < 2 ^ 31 → int (pos n) ≡ some (pos n)
int-pos n h = ground (arith, h)

atoi-to_string : (n : ℕ) → n < 2 ^ 31 → atoi (to_string n) ≡ some (pos n)
atoi-to_string n h =
    ap int (
      read-IsDigit (to_string n) (to_string-IsDigit n)
      ∙ ap pos (digits_value-value_of (to_string n) 0 (to_string-IsDigit n) ∙ to_string-value_of n))
    ∙ int-pos n h

-- The query of two numbers, and the page that tells their sum.
abbrev pub query : ℕ → ℕ → Bytes
query a b = to_string a ++ b'&' ∷ to_string b

abbrev pub page : ℕ → ℕ → Bytes
page a b =
    codes "Welcome to add.com: THE Internet addition portal.\r\n<p>The answer is: "
    ++ (to_string a
        ++ (codes " + "
            ++ (to_string b
                ++ (codes " = "
                    ++ (to_string (a + b) ++ codes "\r\n<p>Thanks for visiting!\r\n")))))

-- The two numbers and the sum fit an `int`, and the texts are put behind each other.
module _ (join : Bytes → Bytes → Bytes) (appends : (x y : Bytes) → join x y ≡ x ++ y) (a b : ℕ)
    (fits : a + b < 2 ^ 31) where
  content-page : content join (pos a) (pos b) ≡ some (page a b)
  unfolding content
  content-page =
      rw
        (
          content,
          +ℤ-pos a b,
          int-pos (a + b) fits,
          print_wide-plain a,
          print_wide-plain b,
          print_wide-plain (a + b),
          appends,
          appends,
          appends,
        )
        (ap some (simp (append_assoc)))

  add-page : add join (to_string a) (to_string b) ≡ some (answer (page a b))
  unfolding add
  add-page =
      rw
        (
          add,
          atoi-to_string a (omega (arith, fits)),
          atoi-to_string b (omega (arith, fits)),
          content-page,
        )
        refl

  pub adder-query : adder join (some (query a b)) ≡ some (answer (page a b))
  unfolding adder
  adder-query =
      rw
        (
          adder,
          find_byte-append b'&' (to_string a) (to_string b) 0 no_and,
          zero-add,
          take-append (to_string a) (b'&' ∷ to_string b),
          drop-add (length (to_string a)) 1 (query a b),
          drop-append (to_string a) (b'&' ∷ to_string b),
        )
        add-page
    where
      no_and : All (λ c. c ≢ b'&') (to_string a)
      no_and = All-weaken (λ c. c ≢ b'&') (λ c d. omega arith) (to_string a) (to_string-IsDigit a)

-- The program's URI with a query.
abbrev pub adder_uri : ℕ → ℕ → Bytes
adder_uri a b = codes "cgi-bin/adder?" ++ query a b

-- A server that has the program under its name, as an executable file.
pub record HasAdder (join : Bytes → Bytes → Bytes) (m : Machine) : Type 0 where
  pub file : Stat
  pub found : m.stat (codes "./cgi-bin/adder") ≡ some file
  pub regular : file.is_regular ≡ true
  pub executable : file.is_executable ≡ true
  pub runs :
      (args out : Bytes)
      → adder join (some args) ≡ some out
      → m.cgi (codes "./cgi-bin/adder") args ≡ out
