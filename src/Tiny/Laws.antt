-- ===== src/Tiny/Laws.antt =====
-- What csapp/tiny.c makes of a URI and of a request.
use glacier.Common.{
  ℕ, zero, suc, ◌+◌, ◌≤◌, arith, length-append, ◌≡◌, ◌≢◌, refl, ap, true, false, none, some, List,
  [], ◌∷◌, ◌++◌, length, take-append, drop-append, drop-add, All, Bytes, Option-cases, inl, inr,
}
use glacier.Common.Text.{codes, str_eq}
use native.Mathlib.Nat.{zero-add}
use glacier.Http.Uri.Lines.{find_byte-append}
use glacier.Tiny.Main.{Session, tiny_loop}
use glacier.Tiny.{
  contains, dynamic_target, parse_uri, is_space, word, after_word, skip_space, scan_method,
  scan_uri, same_word, is_blank_line, headers_loop, read_headers, read_requesthdrs, Machine, serve,
  doit,
}

-- A dynamic URI is cut at its first question mark: what stands before it is the program's name
-- behind a dot, what stands behind it are the arguments, whatever they hold.
pub parse_uri-cgi :
    (name args : Bytes)
    → contains (name ++ b'?' ∷ args) (codes "cgi-bin") ≡ true
    → All (λ c. c ≢ b'?') name
    → parse_uri (name ++ b'?' ∷ args)
      ≡ record { is_static = false; filename = b'.' ∷ name; cgiargs = args }
unfolding parse_uri dynamic_target
parse_uri-cgi name args c h =
    rw (parse_uri, c, dynamic_target, find_byte-append b'?' name args 0 h, zero-add)
      (rw
        (
          take-append name (b'?' ∷ args),
          drop-add (length name) 1 (name ++ b'?' ∷ args),
          drop-append name (b'?' ∷ args),
        )
        refl)

loop-blank :
    (n : ℕ) (buf : Bytes) (hs rest : List Bytes)
    → length hs + 2 ≤ n
    → All (λ l. is_blank_line l ≡ false) (buf ∷ hs)
    → headers_loop n buf (hs ++ codes "\r\n" ∷ rest) ≡ some rest
unfolding headers_loop str_eq
loop-blank zero buf hs rest k h = absurd (omega (arith, k))
loop-blank (suc zero) buf hs rest k h = absurd (omega (arith, k))
loop-blank (suc (suc n)) buf [] rest k h = rw (headers_loop, h.0) refl
loop-blank (suc n) buf (l ∷ hs) rest k h =
    rw (headers_loop, h.0) (loop-blank n l hs rest (omega (arith, k)) h.1)

-- The headers are read up to the first blank line and no further.
pub read_requesthdrs-blank :
    (buf : Bytes) (hs rest : List Bytes)
    → All (λ l. is_blank_line l ≡ false) hs
    → read_requesthdrs buf (hs ++ codes "\r\n" ∷ rest) ≡ some rest
unfolding read_requesthdrs headers_loop str_eq
read_requesthdrs-blank buf [] rest h = refl
read_requesthdrs-blank buf (l ∷ hs) rest h =
    loop-blank (suc (length (l ∷ hs ++ codes "\r\n" ∷ rest))) l hs rest
      (omega (arith, length-append hs (codes "\r\n" ∷ rest))) h

-- A loop that has no blank line in front of it does not end, however long it runs.
loop-never :
    (n : ℕ) (buf : Bytes) (hs : List Bytes)
    → All (λ l. is_blank_line l ≡ false) (buf ∷ hs)
    → headers_loop n buf hs ≡ none
unfolding headers_loop
loop-never zero buf hs h = refl
loop-never (suc n) buf [] h = rw (headers_loop, h.0) (loop-never n buf [] h)
loop-never (suc n) buf (l ∷ hs) h = rw (headers_loop, h.0) (loop-never n l hs h.1)

-- When the client closes the connection behind a header line and before the blank line, the loop that
-- reads the headers of a GET never ends.
pub doit_without_blank :
    (m : Machine) (buf h : Bytes) (hs : List Bytes)
    → same_word (scan_method buf) (codes "GET") ≡ true
    → All (λ l. is_blank_line l ≡ false) (h ∷ hs)
    → doit m (buf ∷ h ∷ hs) ≡ none
unfolding doit read_requesthdrs
doit_without_blank m buf h hs g k = rw (doit, g, loop-never (suc (length (h ∷ hs))) h hs k) refl

-- A word without spaces, and the blank behind it.
abbrev pub IsWord : Bytes → Type 0
IsWord w = All (λ c. is_space c ≡ false) w

word-append : (w rest : Bytes) → IsWord w → word (w ++ b' ' ∷ rest) ≡ w
unfolding word
word-append [] rest h = refl
word-append (c ∷ w) rest h = rw (word, h.0) (ap (λ x. c ∷ x) (word-append w rest h.1))

request_line-scan_uri :
    (c : ℕ) (uri version : Bytes)
    → IsWord (c ∷ uri)
    → scan_uri (codes "GET " ++ (c ∷ uri) ++ b' ' ∷ version) ≡ c ∷ uri
unfolding scan_uri after_word skip_space
request_line-scan_uri c uri version w = rw w.0 (word-append (c ∷ uri) version w)

-- A GET request line, its header lines and the blank line are answered by what the URI asks for,
-- whatever the headers are, and whatever version the line names.
pub doit-get :
    (m : Machine) (c : ℕ) (uri version : Bytes) (hs rest : List Bytes)
    → IsWord (c ∷ uri)
    → All (λ l. is_blank_line l ≡ false) hs
    → doit m ((codes "GET " ++ (c ∷ uri) ++ b' ' ∷ version) ∷ (hs ++ codes "\r\n" ∷ rest))
      ≡ some (serve m (parse_uri (c ∷ uri)))
unfolding doit scan_method word skip_space same_word
doit-get m c uri version hs rest w h =
    rw
      (
        doit,
        read_requesthdrs-blank (m.uninitialised (hs ++ codes "\r\n" ∷ rest)) hs rest h,
        request_line-scan_uri c uri version w,
      )
      refl

-- One client stops the server for all: when a client asks with GET and closes behind one header line or
-- more and before the blank line, no client behind it is sent anything, and the server hangs: the loop
-- that reads its headers has not ended after any number of rounds.
pub tiny_loop_hangs :
    (m : Machine) (before after : List (List Bytes)) (buf h : Bytes) (hs : List Bytes)
    → same_word (scan_method buf) (codes "GET") ≡ true
    → All (λ l. is_blank_line l ≡ false) (h ∷ hs)
    → (tiny_loop m (before ++ (buf ∷ h ∷ hs) ∷ after)
        ≡ record { sent = (tiny_loop m before).sent; hangs = true })
      × ((n : ℕ) → read_headers n (m.uninitialised (h ∷ hs)) (h ∷ hs) ≡ none)
unfolding tiny_loop
tiny_loop_hangs m before after buf h hs g k = (session before, λ n. loop-never n h hs k)
  where
    session :
        (cs : List (List Bytes))
        → tiny_loop m (cs ++ (buf ∷ h ∷ hs) ∷ after)
          ≡ record { sent = (tiny_loop m cs).sent; hangs = true }
    session [] = rw (tiny_loop, doit_without_blank m buf h hs g k) refl
    session (c ∷ cs) = elim (Option-cases (doit m c)) [
      | inl e ↦ rw (tiny_loop, e) refl
      | inr (answer, e) ↦
          rw (tiny_loop, e) (ap (λ (s : Session). record s { sent = answer ∷ s.sent }) (session cs))
    ]
