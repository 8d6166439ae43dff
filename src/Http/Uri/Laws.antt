-- ===== src/Http/Uri/Laws.antt =====
-- What `parseURI` of glacier/httpdata.cc makes of a request line.
use glacier.Common.{
  ℕ, ◌+◌, ◌≡◌, ◌≢◌, refl, ap, ◌∙◌, none, some, [], ◌∷◌, ◌++◌, length, take, drop, take-append,
  drop-append, drop-add, length-append, All, ltb, if◌then◌else◌, Bytes, arith,
}
use glacier.Common.Text.{find_from}
use glacier.Http.{HttpData, get, HttpVersion, UriState, parse_uri_again, parse_uri_success}
use glacier.Http.Uri.{parse_request_line, parse_uri}
use native.Mathlib.Nat.{zero-add}
use glacier.Http.Uri.Lines.{
  find_byte-append, find_byte-none, IsTarget, get_line, named, find_method-get_line,
  parse_target-line, get_line-All,
}

-- The request line is cut off the buffer.
cut_line :
    (line rest : Bytes)
    → (if ltb (length line + 1) (length (line ++ b'\r' ∷ rest))
        then drop (length line + 1) (line ++ b'\r' ∷ rest)
        else [])
      ≡ rest
cut_line line rest =
    rw
      (
        length-append line (b'\r' ∷ rest),
        drop-add (length line) 1 (line ++ b'\r' ∷ rest),
        drop-append line (b'\r' ∷ rest),
      )
      (go rest)
  where
    go :
        (rest : Bytes)
        → (if ltb (length line + 1) (length line + length (b'\r' ∷ rest)) then rest else []) ≡ rest
    go [] = ground arith
    go (x ∷ rest) = ground arith

-- The first line of `buf` parsed, at the first carriage return from `from` on.
abbrev parse_first : HttpData → Bytes → ℕ → HttpData × UriState
parse_first d buf from = elim (find_from b'\r' buf from) [
  | none ↦ (d, parse_uri_again)
  | some pos ↦
      let rest = if ltb (pos + 1) (length buf) then drop (pos + 1) buf else [] in
      parse_request_line (record d { in_buffer = rest }) (take pos buf)
]

parse_uri-parse_first : (d : HttpData) → parse_uri d ≡ parse_first d d.in_buffer d.readpos
unfolding parse_uri
parse_uri-parse_first d = refl

parse_first-line :
    (d : HttpData) (line rest : Bytes)
    → All (λ c. c ≢ b'\r') line
    → parse_first d (line ++ b'\r' ∷ rest) 0
      ≡ parse_request_line (record d { in_buffer = rest }) line
parse_first-line d line rest h =
    rw
      (
        parse_first,
        find_byte-append b'\r' line rest 0 h,
        zero-add,
        cut_line line rest,
        take-append line (b'\r' ∷ rest),
      )
      refl

parse_first-again :
    (d : HttpData) (buf : Bytes)
    → All (λ c. c ≢ b'\r') buf
    → parse_first d buf 0 ≡ (d, parse_uri_again)
parse_first-again d buf h = rw (parse_first, find_byte-none b'\r' buf 0 h) refl

-- A request line `GET /name HTTP/1.v` that has arrived up to its carriage return, with no blank and
-- no carriage return in the name, is parsed: the file is the name without its query, or
-- `index.html` when there is no name, the version is the one named, and the buffer keeps what
-- follows the carriage return.
pub parse_uri-get_line :
    (d : HttpData) (name rest : Bytes) (v : HttpVersion)
    → d.readpos ≡ 0
    → IsTarget name
    → d.in_buffer ≡ get_line name v ++ b'\r' ∷ rest
    → parse_uri d ≡ (
      record d { in_buffer = rest; method = get; filename = named name; version = v },
      parse_uri_success,
    )
unfolding parse_request_line
parse_uri-get_line d name rest v r h e =
    parse_uri-parse_first d
    ∙ ap (λ buf. parse_first d buf d.readpos) e
    ∙ ap (parse_first d (get_line name v ++ b'\r' ∷ rest)) r
    ∙ (parse_first-line d (get_line name v) rest (get_line-All name v h))
    ∙ request
  where
    request : parse_request_line (record d { in_buffer = rest }) (get_line name v) ≡ (
      record d { in_buffer = rest; method = get; filename = named name; version = v },
      parse_uri_success,
    )
    request =
        rw (parse_request_line, find_method-get_line name v)
          (parse_target-line (record d { in_buffer = rest; method = get }) name v h)

-- Before the carriage return of the request line has arrived, the connection is left as it is.
pub parse_uri_incomplete :
    (d : HttpData)
    → d.readpos ≡ 0
    → All (λ c. c ≢ b'\r') d.in_buffer
    → parse_uri d ≡ (d, parse_uri_again)
parse_uri_incomplete d r h =
    parse_uri-parse_first d ∙ ap (parse_first d d.in_buffer) r ∙ parse_first-again d d.in_buffer h
