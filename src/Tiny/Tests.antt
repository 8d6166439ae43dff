-- ===== src/Tiny/Tests.antt =====
-- Runs of csapp/tiny.c, and instances of its theorems.
use glacier.Common.{ℕ, ◌≡◌, refl, true, false, none, some, List, [], ◌∷◌, ◌++◌, All, Bytes}
use glacier.Common.Text.{codes, str_eq, find_byte, find_text, starts_with}
use glacier.Tiny.Adder.{adder}
use glacier.Tiny.Main.{tiny_loop}
use glacier.Tiny.Laws.{tiny_loop_hangs}
use glacier.Tiny.{
  contains, parse_uri, static_target, get_filetype, same_word, scan_method, word, skip_space,
  is_blank_line, read_headers, read_requesthdrs, Machine, doit,
}
use glacier.Tiny.Laws.{read_requesthdrs-blank, doit_without_blank}

text : Unit {0}
unfolding find_byte find_text starts_with str_eq contains word skip_space same_word scan_method
text = tt

is_cgi : contains (codes "/cgi-bin/adder?1&2") (codes "cgi-bin") ≡ true
unfolding text
is_cgi = refl

static_test : (parse_uri (codes "/docs/")).filename ≡ codes "./docs/index.html"
unfolding text parse_uri static_target
static_test = refl

type_test : get_filetype (codes "./a.png") ≡ codes "image/png"
unfolding text get_filetype
type_test = refl

abbrev header_lines : List Bytes
header_lines = codes "Host: x\r\n" ∷ []

not_blank : All (λ l. is_blank_line l ≡ false) header_lines
unfolding text
not_blank = (refl, tt)

read_requesthdrs-blank_example : read_requesthdrs [] (header_lines ++ codes "\r\n" ∷ []) ≡ some []
read_requesthdrs-blank_example = read_requesthdrs-blank [] header_lines [] not_blank

abbrev machine : Machine
machine = record {
  stat = λ name.
      some (record { is_regular = true; is_readable = true; is_executable = false; st_size = 2 });
  mapped = λ name size. codes "ok";
  cgi = λ name args. [];
  uninitialised = λ lines. [];
}

abbrev request_line : Bytes
request_line = codes "GET /a HTTP/1.0\r\n"

is_get : same_word (scan_method request_line) (codes "GET") ≡ true
unfolding text
is_get = refl

doit_without_blank_example : doit machine (request_line ∷ header_lines) ≡ none
doit_without_blank_example =
    doit_without_blank machine request_line (codes "Host: x\r\n") [] is_get not_blank

tiny_loop_hangs_example :
    (tiny_loop machine ([] ++ (request_line ∷ header_lines) ∷ (request_line ∷ []) ∷ [])
      ≡ record { sent = []; hangs = true })
    × ((n : ℕ) → read_headers n [] header_lines ≡ none)
unfolding tiny_loop
tiny_loop_hangs_example =
    tiny_loop_hangs machine [] ((request_line ∷ []) ∷ []) request_line (codes "Host: x\r\n") []
      is_get not_blank

-- A machine with the program that adds.
abbrev adding : Machine
adding = record {
  stat = λ name.
      some (record { is_regular = true; is_readable = true; is_executable = true; st_size = 2 });
  mapped = λ name size. [];
  cgi = λ name args. elim (adder ◌++◌ (some args)) [ none ↦ [] | some out ↦ out ];
  uninitialised = λ lines. [];
}
