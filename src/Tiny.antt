-- ===== src/Tiny.antt =====
-- The Tiny server of csapp/tiny.c: one transaction on a connection. What `Rio_readlineb` hands over,
-- `stat`, the file that `Mmap` shows and the output of a CGI program are arguments; every
-- `Rio_writen` appends to what was sent. The buffers of MAXLINE bytes are taken to be long enough.
pub mod Adder
pub mod Main
pub mod Laws
pub mod Tests
use glacier.Common.{
  length, ℕ, zero, suc, ◌+◌, ◌-◌, Bool, true, false, not, ◌&&◌, ◌||◌, Option, none, some, List, [],
  ◌∷◌, ◌++◌, take, drop, ltb, leb, ◌==◌, if◌then◌else◌, Bytes,
}
use glacier.Common.Text.{codes, str_eq, find, find_from, to_string}

-- `strstr(s, needle)` as a test.
unfoldable pub contains : Bytes → Bytes → Bool
contains s needle = elim (find needle s) [ none ↦ false | some i ↦ true ]

abbrev pub last_is : ℕ → Bytes → Bool
last_is c [] = false
last_is c (x ∷ []) = x == c
last_is c (x ∷ y ∷ xs) = last_is c (y ∷ xs)

pub record Target : Type 0 where
  pub is_static : Bool
  pub filename : Bytes
  pub cgiargs : Bytes

unfoldable pub static_target : Bytes → Target
static_target uri = record {
  is_static = true;
  filename = (b'.' ∷ uri) ++ (if last_is b'/' uri then codes "index.html" else []);
  cgiargs = [];
}

unfoldable pub dynamic_target : Bytes → Target
dynamic_target uri = elim (find_from b'?' uri 0) [
  | none ↦ record { is_static = false; filename = b'.' ∷ uri; cgiargs = [] }
  | some i ↦ record { is_static = false; filename = b'.' ∷ take i uri; cgiargs = drop (i + 1) uri }
]

unfoldable pub parse_uri : Bytes → Target
parse_uri uri = if contains uri (codes "cgi-bin") then dynamic_target uri else static_target uri

unfoldable pub get_filetype : Bytes → Bytes
get_filetype filename =
    if contains filename (codes ".html")
    then codes "text/html"
    else if contains filename (codes ".gif")
    then codes "image/gif"
    else if contains filename (codes ".png")
    then codes "image/png"
    else if contains filename (codes ".jpg")
    then codes "image/jpeg"
    else codes "text/plain"

-- Whitespace of `sscanf`, and its words.
abbrev pub is_space : ℕ → Bool
is_space c = c == b' ' || (ltb 8 c && ltb c 14)

unfoldable pub word : Bytes → Bytes
word [] = []
word (c ∷ cs) = if is_space c then [] else c ∷ word cs

unfoldable pub after_word : Bytes → Bytes
after_word [] = []
after_word (c ∷ cs) = if is_space c then c ∷ cs else after_word cs

unfoldable pub skip_space : Bytes → Bytes
skip_space [] = []
skip_space (c ∷ cs) = if is_space c then skip_space cs else c ∷ cs

-- The first two words that `sscanf` with "%s %s %s" finds in a request line.
unfoldable pub scan_method : Bytes → Bytes
scan_method buf = word (skip_space buf)

unfoldable pub scan_uri : Bytes → Bytes
scan_uri buf = word (skip_space (after_word (skip_space buf)))

abbrev to_lower : ℕ → ℕ
to_lower c = if leb b'A' c && leb c b'Z' then c + 32 else c

-- `strcasecmp` as a test for equality.
unfoldable pub same_word : Bytes → Bytes → Bool
same_word [] [] = true
same_word (x ∷ xs) (y ∷ ys) = (to_lower x == to_lower y) && same_word xs ys
same_word _ _ = false

abbrev pub is_blank_line : Bytes → Bool
is_blank_line buf = str_eq buf (codes "\r\n")

-- `Rio_readlineb`: at the end of the input it leaves the buffer as it was. The buffer, and the lines left.
abbrev pub read_line : Bytes → List Bytes → Bytes × List Bytes
read_line buf [] = (buf, [])
read_line buf (line ∷ lines) = (line, lines)

-- So many tests of the `while` of `read_requesthdrs`: the lines left once a test fails, or `none` while
-- the loop goes on.
unfoldable pub headers_loop : ℕ → Bytes → List Bytes → Option (List Bytes)
headers_loop zero buf lines = none
headers_loop (suc n) buf lines =
    let rest = headers_loop n (read_line buf lines).0 (read_line buf lines).1 in
    if is_blank_line buf then some lines else rest

-- `read_requesthdrs` with so many tests; the buffer holds `buf` before its first read.
abbrev pub read_headers : ℕ → Bytes → List Bytes → Option (List Bytes)
read_headers n buf lines = headers_loop n (read_line buf lines).0 (read_line buf lines).1

-- `read_requesthdrs`. Behind the last line the buffer stays the same, so that a loop which goes on then
-- goes on for ever: that is `none`.
unfoldable pub read_requesthdrs : Bytes → List Bytes → Option (List Bytes)
read_requesthdrs buf lines = read_headers (suc (length lines)) buf lines

-- `st_mode` as far as it is looked at, and the size.
pub record Stat : Type 0 where
  pub is_regular : Bool
  pub is_readable : Bool
  pub is_executable : Bool
  pub st_size : ℕ

pub record Machine : Type 0 where
  pub stat : Bytes → Option Stat
  pub mapped : Bytes → ℕ → Bytes
  pub cgi : Bytes → Bytes → Bytes
  pub uninitialised : List Bytes → Bytes

unfoldable pub clienterror : Bytes → Bytes → Bytes → Bytes → Bytes
clienterror cause errnum shortmsg longmsg =
    (codes "HTTP/1.0 " ++ (errnum ++ (b' ' ∷ (shortmsg ++ codes "\r\n"))))
    ++ (codes
          "Content-type: text/html\r\n\r\n<html><title>Tiny Error</title><body bgcolor=ffffff>\r\n"
        ++ ((errnum ++ (codes ": " ++ (shortmsg ++ codes "\r\n")))
            ++ ((codes "<p>" ++ (longmsg ++ (codes ": " ++ (cause ++ codes "\r\n"))))
                ++ codes "<hr><em>The Tiny Web server</em>\r\n")))

unfoldable pub serve_static : Machine → Bytes → ℕ → Bytes
serve_static m filename filesize =
    codes "HTTP/1.0 200 OK\r\nServer: Tiny Web Server\r\nContent-length: "
    ++ (to_string filesize
        ++ (codes "\r\nContent-type: "
            ++ (get_filetype filename ++ (codes "\r\n\r\n" ++ m.mapped filename filesize))))

unfoldable pub serve_dynamic : Machine → Bytes → Bytes → Bytes
serve_dynamic m filename cgiargs =
    codes "HTTP/1.0 200 OK\r\nServer: Tiny Web Server\r\n" ++ m.cgi filename cgiargs

unfoldable pub serve : Machine → Target → Bytes
serve m t = elim (m.stat t.filename) [
  | none ↦
      clienterror t.filename (codes "404") (codes "Not found")
        (codes "Tiny couldn't find this file")
  | some s ↦
      if t.is_static
      then (if not s.is_regular || not s.is_readable
          then clienterror t.filename (codes "403") (codes "Forbidden")
              (codes "Tiny couldn't read the file")
          else serve_static m t.filename s.st_size)
      else if not s.is_regular || not s.is_executable
      then clienterror t.filename (codes "403") (codes "Forbidden")
          (codes "Tiny couldn't run the CGI program")
      else serve_dynamic m t.filename t.cgiargs
]

-- What `doit` sends to a client that sends the given lines; `none` if it waits for ever.
unfoldable pub doit : Machine → List Bytes → Option Bytes
doit m [] = some []
doit m (buf ∷ lines) =
    if same_word (scan_method buf) (codes "GET")
    then elim (read_requesthdrs (m.uninitialised lines) lines) [
      | none ↦ none
      | some rest ↦ some (serve m (parse_uri (scan_uri buf)))
    ]
    else some (
        clienterror (scan_method buf) (codes "501") (codes "Not Implemented")
          (codes "Tiny does not implement this method"))
