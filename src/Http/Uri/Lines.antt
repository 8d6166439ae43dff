-- ===== src/Http/Uri/Lines.antt =====
-- Where `parseURI` of glacier/httpdata.cc finds the parts of a request line.
use glacier.Common.{
  ℕ, ◌+◌, ◌-◌, ◌≡◌, ◌≢◌, refl, ap, ◌∙◌, true, false, none, some, List, [], ◌∷◌, ◌++◌, length, take,
  drop, take-append, drop-append, drop-add, length-append, All, All-append, ltb, leb, Bytes, arith,
}
use glacier.Common.Text.{codes, str_eq, find_from, find_byte, find_text, starts_with, substr}
use glacier.Http.{HttpData, get, HttpVersion, http_10, http_11, parse_uri_success}
use glacier.Http.Uri.{
  find_method, parse_version, strip_query, index_html, target_name, parse_target,
}

pub find_byte-append :
    (c : ℕ) (xs ys : Bytes) (i : ℕ)
    → All (λ x. x ≢ c) xs
    → find_byte c (xs ++ c ∷ ys) i ≡ some (i + length xs)
unfolding find_byte
find_byte-append c [] ys i h = ground arith
find_byte-append c (x ∷ xs) ys i h = ground (arith, h.0, find_byte-append c xs ys (i + 1) h.1)

pub find_byte-none : (c : ℕ) (xs : Bytes) (i : ℕ) → All (λ x. x ≢ c) xs → find_byte c xs i ≡ none
unfolding find_byte
find_byte-none c [] i h = refl
find_byte-none c (x ∷ xs) i h = ground (arith, h.0, find_byte-none c xs (i + 1) h.1)

-- The byte of a request line that tells the version.
abbrev pub version_byte : HttpVersion → ℕ
version_byte http_10 = b'0'
version_byte http_11 = b'1'

-- The target between its slash and its blank.
abbrev pub IsTarget : Bytes → Type 0
IsTarget name = All (λ c. (c ≢ b' ') × (c ≢ b'\r')) name

-- The line behind the slash of the target, and the line.
abbrev pub line_from : Bytes → HttpVersion → Bytes
line_from name v = b'/' ∷ (name ++ (codes " HTTP/1." ++ version_byte v ∷ []))

abbrev pub get_line : Bytes → HttpVersion → Bytes
get_line name v = codes "GET " ++ line_from name v

abbrev pub named : Bytes → Bytes
named [] = index_html
named name = strip_query name

All-map :
    {A : Type 0} {P Q : A → Type 0} → ((x : A) → P x → Q x) → (xs : List A) → All P xs → All Q xs
All-map f [] h = h
All-map f (x ∷ xs) h = (f x h.0, All-map f xs h.1)

pub find_method-get_line :
    (name : Bytes) (v : HttpVersion) → find_method (get_line name v) ≡ some (get, 0)
unfolding find_method find_text starts_with
find_method-get_line name v = refl

target_name-line :
    (name : Bytes) (v : HttpVersion)
    → target_name (get_line name v) 4 (5 + length name) ≡ named name
unfolding target_name
target_name-line [] v = refl
target_name-line (x ∷ name) v =
    rw (target_name, long, width, take-append (x ∷ name) (codes " HTTP/1." ++ version_byte v ∷ []))
      refl
  where
    long : ltb 1 (5 + length (x ∷ name) - 4) ≡ true
    long = ground arith

    width : 5 + length (x ∷ name) - 4 - 1 ≡ length (x ∷ name)
    width = omega arith

target_ends :
    (name : Bytes) (v : HttpVersion)
    → IsTarget name
    → find_from b' ' (get_line name v) 4 ≡ some (5 + length name)
unfolding find_byte
target_ends name v h =
    find_byte-append b' ' name (codes "HTTP/1." ++ version_byte v ∷ []) 5
      (All-map (λ x k. k.0) name h)

abbrev version_text : HttpVersion → Bytes
version_text v = codes " HTTP/1." ++ version_byte v ∷ []

drop_target :
    (name : Bytes) (v : HttpVersion) → drop (5 + length name) (get_line name v) ≡ version_text v
drop_target name v = drop-add 5 (length name) (get_line name v) ∙ drop-append name (version_text v)

slash_of_version :
    (name : Bytes) (v : HttpVersion)
    → find_from b'/' (get_line name v) (5 + length name) ≡ some (10 + length name)
unfolding find_byte
slash_of_version name v = rw (drop_target name v) (ap some (omega arith))

number_of_version :
    (name : Bytes) (v : HttpVersion)
    → substr (get_line name v) (10 + length name + 1) 3 ≡ b'1' ∷ b'.' ∷ version_byte v ∷ []
number_of_version name v =
    ap (λ n. take 3 (drop n (get_line name v))) place
    ∙ ap (take 3)
        (drop-add (5 + length name) 6 (get_line name v) ∙ ap (drop 6) (drop_target name v))
  where
    place : 10 + length name + 1 ≡ 5 + length name + 6
    place = omega arith

parse_version-line :
    (d : HttpData) (name : Bytes) (v : HttpVersion)
    → parse_version d (get_line name v) (5 + length name)
      ≡ (record d { version = v }, parse_uri_success)
unfolding parse_version str_eq
parse_version-line d name http_10 =
    rw (parse_version, slash_of_version name http_10, room, number_of_version name http_10) refl
  where
    room : leb (length (get_line name http_10) - (10 + length name)) 3 ≡ false
    room = ground (arith, length-append name (version_text http_10))
parse_version-line d name http_11 =
    rw (parse_version, slash_of_version name http_11, room, number_of_version name http_11) refl
  where
    room : leb (length (get_line name http_11) - (10 + length name)) 3 ≡ false
    room = ground (arith, length-append name (version_text http_11))

pub parse_target-line :
    (d : HttpData) (name : Bytes) (v : HttpVersion)
    → IsTarget name
    → parse_target d (get_line name v) 0
      ≡ (record d { filename = named name; version = v }, parse_uri_success)
unfolding parse_target find_byte
parse_target-line d name v h =
    rw (parse_target, target_ends name v h, target_name-line name v)
      (parse_version-line (record d { filename = named name }) name v)

pub get_line-All :
    (name : Bytes) (v : HttpVersion) → IsTarget name → All (λ c. c ≢ b'\r') (get_line name v)
get_line-All name v h =
    All-append (λ c. c ≢ b'\r') (codes "GET /") (name ++ version_text v) (ground arith)
      (All-append (λ c. c ≢ b'\r') name (version_text v) (All-map (λ x k. k.1) name h) (ends v))
  where
    ends : (v : HttpVersion) → All (λ c. c ≢ b'\r') (version_text v)
    ends http_10 = ground arith
    ends http_11 = ground arith
