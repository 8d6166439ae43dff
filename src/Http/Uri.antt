-- ===== src/Http/Uri.antt =====
-- `HttpData::parseURI` of glacier/httpdata.cc.
pub mod Lines
pub mod Laws
use glacier.Common.{
  ℕ, ◌+◌, ◌-◌, Bool, true, false, Option, none, some, [], ◌∷◌, length, take, drop, ltb, leb,
  if◌then◌else◌, Bytes,
}
use glacier.Common.Text.{codes, str_eq, find_from, find, find_byte, find_text, starts_with, substr}
use glacier.Http.{
  HttpData, HttpMethod, post, get, head, HttpVersion, http_10, http_11, UriState, parse_uri_again,
  parse_uri_error, parse_uri_success,
}

-- The tests for a method, in the order of the source, each anywhere in the line.
unfoldable pub find_method : Bytes → Option (HttpMethod × ℕ)
find_method line = elim (find (codes "GET") line) [
  | some pos ↦ some (get, pos)
  | none ↦ elim (find (codes "POST") line) [
    | some pos ↦ some (post, pos)
    | none ↦ elim (find (codes "HEAD") line) [ some pos ↦ some (head, pos) | none ↦ none ]
  ]
]

-- The end of the function, from the blank behind the target on.
unfoldable pub parse_version : HttpData → Bytes → ℕ → HttpData × UriState
parse_version d line pos = elim (find_from b'/' line pos) [
  | none ↦ (d, parse_uri_error)
  | some slash ↦
      let v = substr line (slash + 1) 3 in
      if leb (length line - slash) 3
      then (d, parse_uri_error)
      else if str_eq v (codes "1.0")
      then (record d { version = http_10 }, parse_uri_success)
      else if str_eq v (codes "1.1")
      then (record d { version = http_11 }, parse_uri_success)
      else (d, parse_uri_error)
]

unfoldable pub strip_query : Bytes → Bytes
strip_query filename = elim (find_from b'?' filename 0) [
  | none ↦ filename
  | some pos ↦ substr filename 0 pos
]

abbrev pub index_html : Bytes
index_html = codes "index.html"

-- The name between the slash and the blank.
unfoldable pub target_name : Bytes → ℕ → ℕ → Bytes
unfolding strip_query
target_name line slash blank =
    if ltb 1 (blank - slash)
    then strip_query (substr line (slash + 1) (blank - slash - 1))
    else index_html

unfoldable pub parse_target : HttpData → Bytes → ℕ → HttpData × UriState
parse_target d line pos = elim (find_from b'/' line pos) [
  | none ↦ (record d { filename = index_html; version = http_11 }, parse_uri_success)
  | some slash ↦ elim (find_from b' ' line slash) [
    | none ↦ (d, parse_uri_error)
    | some blank ↦ parse_version (record d { filename = target_name line slash blank }) line blank
  ]
]

unfoldable pub parse_request_line : HttpData → Bytes → HttpData × UriState
parse_request_line d line = elim (find_method line) [
  | none ↦ (d, parse_uri_error)
  | some (m, pos) ↦ parse_target (record d { method = m }) line pos
]

unfoldable pub parse_uri : HttpData → HttpData × UriState
parse_uri d = elim (find_from b'\r' d.in_buffer d.readpos) [
  | none ↦ (d, parse_uri_again)
  | some pos ↦
      let rest = if ltb (pos + 1) (length d.in_buffer) then drop (pos + 1) d.in_buffer else [] in
      parse_request_line (record d { in_buffer = rest }) (take pos d.in_buffer)
]
