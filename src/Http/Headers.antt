-- ===== src/Http/Headers.antt =====
-- `HttpData::parseHeaders` of glacier/httpdata.cc. `step` is the body of the switch; the locals of
-- the function and the fields that it writes are a `Scan`.
pub mod Line
pub mod Blank
pub mod Laws
use glacier.Common.{
  ℕ, ◌+◌, ◌-◌, Bool, true, false, ◌||◌, List, [], ◌∷◌, take, drop, ltb, leb, ◌==◌, if◌then◌else◌,
  Bytes,
}
use glacier.Http.{
  HttpData, Headers, assign, ParseState, start, key, colon, spaces_after_colon, value, cr, lf,
  end_cr, end_lf, HeaderState, parse_header_success, parse_header_again, parse_header_error,
}

pub record Scan : Type 0 where
  pub key_start : ℕ
  pub key_end : ℕ
  pub value_start : ℕ
  pub value_end : ℕ
  pub now_read_line_begin : ℕ
  pub finish : Bool
  pub parse_state : ParseState
  pub headers : Headers

-- One round of the loop goes on, or returns `PARSE_HEADER_ERROR`; both leave the fields behind.
pub data Round : Type 0 where
  goes_on : Scan → Round
  errs : Scan → Round

-- `string(str.begin() + from, str.begin() + to)`.
abbrev pub range : Bytes → ℕ → ℕ → Bytes
range str from to = take (to - from) (drop from str)

unfoldable pub step_in : ParseState → Bytes → ℕ → ℕ → Scan → Round
step_in start str i c s =
    if c == b'\n' || c == b'\r'
    then goes_on s
    else goes_on (record s { parse_state = key; key_start = i; now_read_line_begin = i })
step_in key str i c s =
    if c == b':'
    then (if leb (i - s.key_start) 0
        then errs (record s { key_end = i })
        else goes_on (record s { key_end = i; parse_state = colon }))
    else if c == b'\n' || c == b'\r'
    then errs s
    else goes_on s
step_in colon str i c s =
    if c == b' ' then goes_on (record s { parse_state = spaces_after_colon }) else errs s
step_in spaces_after_colon str i c s = goes_on (record s { parse_state = value; value_start = i })
step_in value str i c s =
    if c == b'\r'
    then (if leb (i - s.value_start) 0
        then errs (record s { parse_state = cr; value_end = i })
        else goes_on (record s { parse_state = cr; value_end = i }))
    else if ltb 255 (i - s.value_start)
    then errs s
    else goes_on s
step_in cr str i c s =
    if c == b'\n'
    then goes_on (record s {
      parse_state = lf;
      headers =
          assign (range str s.key_start s.key_end) (range str s.value_start s.value_end) s.headers;
      now_read_line_begin = i;
    })
    else errs s
step_in lf str i c s =
    if c == b'\r'
    then goes_on (record s { parse_state = end_cr })
    else goes_on (record s { key_start = i; parse_state = key })
step_in end_cr str i c s =
    if c == b'\n' then goes_on (record s { parse_state = end_lf }) else errs s
step_in end_lf str i c s =
    goes_on (record s { finish = true; key_start = i; now_read_line_begin = i })

abbrev pub step : Bytes → ℕ → ℕ → Scan → Round
step str i c s = step_in s.parse_state str i c s

-- The end of the loop: at index `i`, or by an error.
pub data Stop : Type 0 where
  stops : ℕ → Scan → Stop
  fails : Scan → Stop

-- The loop from index `i` on, where the bytes `cs` stand.
unfoldable pub scan : Bytes → Bytes → ℕ → Scan → Stop
scan str [] i s = stops i s
scan str (c ∷ cs) i s = elim s.finish [
  | true ↦ stops i s
  | false ↦ elim (step str i c s) [ goes_on s' ↦ scan str cs (i + 1) s' | errs s' ↦ fails s' ]
]

abbrev pub first_scan : HttpData → Scan
first_scan d = record {
  key_start = 0;
  key_end = 0;
  value_start = 0;
  value_end = 0;
  now_read_line_begin = 0;
  finish = false;
  parse_state = d.parse_state;
  headers = d.headers;
}

-- What the scan has written into the connection.
abbrev pub commit : HttpData → Scan → HttpData
commit d s = record d { parse_state = s.parse_state; headers = s.headers }

abbrev pub is_end_lf : ParseState → Bool
is_end_lf end_lf = true
is_end_lf _ = false

unfoldable pub after_scan : HttpData → Stop → HttpData × HeaderState
after_scan d (fails s) = (commit d s, parse_header_error)
after_scan d (stops i s) =
    if is_end_lf s.parse_state
    then (record (commit d s) { in_buffer = drop i d.in_buffer }, parse_header_success)
    else (
      record (commit d s) { in_buffer = drop s.now_read_line_begin d.in_buffer },
      parse_header_again,
    )

unfoldable pub parse_headers : HttpData → HttpData × HeaderState
parse_headers d = after_scan d (scan d.in_buffer d.in_buffer 0 (first_scan d))
