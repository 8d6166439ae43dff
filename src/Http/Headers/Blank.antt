-- ===== src/Http/Headers/Blank.antt =====
-- What `parseHeaders` of glacier/httpdata.cc makes of blank lines alone.
use glacier.Common.{ℕ, ◌+◌, ◌≡◌, refl, ap, false, [], ◌∷◌, length, All, Bytes, arith, ◌⊎◌}
use glacier.Http.{HttpData, start, parse_header_again}
use glacier.Http.Headers.{Scan, step_in, stops, scan, first_scan, after_scan, parse_headers}

-- A byte that the parser skips before the first header.
abbrev pub IsBlank : ℕ → Type 0
IsBlank c = (c ≡ b'\r') ⊎ (c ≡ b'\n')

scan_blanks :
    (str cs : Bytes) (i : ℕ) (s : Scan)
    → s.parse_state ≡ start
    → s.finish ≡ false
    → All IsBlank cs
    → scan str cs i s ≡ stops (i + length cs) s
unfolding scan step_in
scan_blanks str [] i s m f h = ap (λ k. stops k s) (omega arith)
scan_blanks str (c ∷ cs) i s m f h = ground (arith, h.0, scan_blanks str cs (i + 1) s m f h.1)

-- A request without headers is never complete: carriage returns and line feeds alone, however
-- many, leave the connection as it is and ask for more.
pub parse_headers_no_headers :
    (d : HttpData)
    → d.parse_state ≡ start
    → All IsBlank d.in_buffer
    → parse_headers d ≡ (d, parse_header_again)
unfolding parse_headers after_scan
parse_headers_no_headers d st h =
    rw (
      parse_headers,
      scan_blanks d.in_buffer d.in_buffer 0 (first_scan d) st refl h,
      after_scan,
      st,
    )
