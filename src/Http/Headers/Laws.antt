-- ===== src/Http/Headers/Laws.antt =====
-- What `parseHeaders` of glacier/httpdata.cc makes of a header block that arrives in one piece.
use glacier.Common.{
  ℕ, ◌+◌, ◌≡◌, ◌≢◌, refl, ap, ◌∙◌, true, false, [], ◌∷◌, ◌++◌, length, drop, drop-append, drop-add,
  All, Bytes, arith,
}
use glacier.Http.{HttpData, Headers, assign, start, key, lf, end_lf, parse_header_success}
use glacier.Http.Headers.{Scan, step_in, Stop, stops, scan, first_scan, after_scan, parse_headers}
use glacier.Http.Headers.Line.{IsHeader, drop_line, scan_line}

-- A header that the parser takes: a key of bytes that end neither a key nor a line, and a value of 1 to 256 bytes without a carriage return.
abbrev pub IsField : Bytes × Bytes → Type 0
IsField ([], v) = ⊥
IsField (k0 ∷ ks, []) = ⊥
IsField (k0 ∷ ks, v0 ∷ vs) = IsHeader k0 ks v0 vs

-- The header lines, the blank line and what follows.
abbrev pub render : Headers → Bytes → Bytes
render [] rest = b'\r' ∷ b'\n' ∷ rest
render ((k, v) ∷ hs) rest = k ++ (b':' ∷ b' ' ∷ (v ++ (b'\r' ∷ b'\n' ∷ render hs rest)))

abbrev pub assign_all : Headers → Headers → Headers
assign_all [] m = m
assign_all ((k, v) ∷ hs) m = assign_all hs (assign k v m)

-- The loop ends behind the blank line, one byte further if there is one.
record Ends (str rest : Bytes) (m : Headers) (r : Stop) : Type 0 where
  index : ℕ
  last : Scan
  ends : r ≡ stops index last
  state_is : last.parse_state ≡ end_lf
  headers_are : last.headers ≡ m
  drop_is : drop index str ≡ drop 1 rest

scan_finished : (str cs : Bytes) (i : ℕ) (s : Scan) → s.finish ≡ true → scan str cs i s ≡ stops i s
unfolding scan
scan_finished str [] i s f = refl
scan_finished str (c ∷ cs) i s f = ground arith

scan_blank :
    (str rest : Bytes) (i : ℕ) (s : Scan)
    → s.parse_state ≡ lf
    → s.finish ≡ false
    → drop i str ≡ b'\r' ∷ b'\n' ∷ rest
    → Ends str rest s.headers (scan str (b'\r' ∷ b'\n' ∷ rest) i s)
unfolding scan step_in
scan_blank str [] i s m f at = record {
  index = i + 2;
  last = record s { parse_state = end_lf };
  ends = ground (arith, i2);
  state_is = refl;
  headers_are = refl;
  drop_is = drop-add i 2 str ∙ ap (drop 2) at;
}
  where
    i2 : i + 1 + 1 ≡ i + 2
    i2 = omega arith
scan_blank str (c ∷ cs) i s m f at = record {
  index = i + 3;
  last = record s {
    parse_state = end_lf;
    finish = true;
    key_start = i + 2;
    now_read_line_begin = i + 2;
  };
  ends = ground (
    arith,
    i2,
    i3,
    scan_finished str cs (i + 3)
        (record s {
          parse_state = end_lf;
          finish = true;
          key_start = i + 2;
          now_read_line_begin = i + 2;
        })
        refl,
  );
  state_is = refl;
  headers_are = refl;
  drop_is = drop-add i 3 str ∙ ap (drop 3) at;
}
  where
    i2 : i + 1 + 1 ≡ i + 2
    i2 = omega arith

    i3 : i + 2 + 1 ≡ i + 3
    i3 = omega arith

scan_enter :
    (str cs : Bytes) (c i : ℕ) (s : Scan)
    → s.parse_state ≡ lf
    → s.finish ≡ false
    → c ≢ b'\r'
    → scan str (c ∷ cs) i s ≡ scan str cs (i + 1) (record s { key_start = i; parse_state = key })
unfolding scan step_in
scan_enter str cs c i s m f ne = ground arith

drop_field :
    (str : Bytes) (i : ℕ) (k v ys : Bytes)
    → drop i str ≡ k ++ (b':' ∷ b' ' ∷ (v ++ (b'\r' ∷ b'\n' ∷ ys)))
    → drop (i + length k + 2 + (length v + 2)) str ≡ ys
drop_field str i k v ys at =
    drop-add (i + length k + 2) (length v + 2) str
    ∙ ap (drop (length v + 2)) (drop_line str i k _ at)
    ∙ drop-add (length v) 2 (v ++ (b'\r' ∷ b'\n' ∷ ys))
    ∙ ap (drop 2) (drop-append v (b'\r' ∷ b'\n' ∷ ys))

Ends-trans :
    (str rest : Bytes) (m : Headers) {r r' : Stop} → r ≡ r' → Ends str rest m r' → Ends str rest m r
Ends-trans str rest m e x = rw e x

scan-render :
    (hs : Headers) (str rest : Bytes) (i : ℕ) (s : Scan)
    → All IsField hs
    → s.parse_state ≡ lf
    → s.finish ≡ false
    → drop i str ≡ render hs rest
    → Ends str rest (assign_all hs s.headers) (scan str (render hs rest) i s)
scan-render [] str rest i s h m f at = scan_blank str rest i s m f at
scan-render (([], v) ∷ hs) str rest i s h m f at = absurd h.0
scan-render ((k0 ∷ ks, []) ∷ hs) str rest i s h m f at = absurd h.0
scan-render ((k0 ∷ ks, v0 ∷ vs) ∷ hs) str rest i s h m f at =
    Ends-trans str rest _
      (scan_enter str _ k0 i s m f h.0.key_bytes.0.1
        ∙ scan_line str i k0 ks v0 vs (render hs rest)
            (record s { key_start = i; parse_state = key }) refl f refl h.0 at)
      (scan-render hs str rest _ _ h.1 refl f
        (ap (λ n. drop n str) width ∙ drop_field str i (k0 ∷ ks) (v0 ∷ vs) (render hs rest) at))
  where
    width :
        i + 1 + length ks + 3 + length vs + 2 ≡ i + length (k0 ∷ ks) + 2 + (length (v0 ∷ vs) + 2)
    width = omega arith

scan-start :
    (str cs : Bytes) (c : ℕ) (s : Scan)
    → s.parse_state ≡ start
    → s.finish ≡ false
    → c ≢ b'\r'
    → c ≢ b'\n'
    → scan str (b'\n' ∷ c ∷ cs) 0 s
      ≡ scan str cs 2 (record s { parse_state = key; key_start = 1; now_read_line_begin = 1 })
unfolding scan step_in
scan-start str cs c s m f nr nn = ground arith

after_scan-Ends :
    (d : HttpData) (rest : Bytes) (m : Headers) (r : Stop)
    → Ends d.in_buffer rest m r
    → after_scan d r ≡ (
      record d { parse_state = end_lf; headers = m; in_buffer = drop 1 rest },
      parse_header_success,
    )
unfolding after_scan
after_scan-Ends d rest m r x = rw (x.ends, after_scan, x.state_is, x.headers_are, x.drop_is)

scan_block :
    (str : Bytes) (h : Bytes × Bytes) (hs : Headers) (rest : Bytes) (s : Scan)
    → s.parse_state ≡ start
    → s.finish ≡ false
    → All IsField (h ∷ hs)
    → str ≡ b'\n' ∷ render (h ∷ hs) rest
    → Ends str rest (assign_all (h ∷ hs) s.headers) (scan str str 0 s)
scan_block str ([], v) hs rest s m f k e = absurd k.0
scan_block str (k0 ∷ ks, []) hs rest s m f k e = absurd k.0
scan_block str (k0 ∷ ks, v0 ∷ vs) hs rest s m f k e =
    let at : drop 1 str ≡ render ((k0 ∷ ks, v0 ∷ vs) ∷ hs) rest = ap (drop 1) e in
    Ends-trans str rest _
      (ap (λ cs. scan str cs 0 s) e
        ∙ scan-start str _ k0 s m f k.0.key_bytes.0.1 k.0.key_bytes.0.2
        ∙ scan_line str 1 k0 ks v0 vs (render hs rest)
            (record s { parse_state = key; key_start = 1; now_read_line_begin = 1 }) refl f refl k.0
            at)
      (scan-render hs str rest _ _ k.1 refl f
        (ap (λ n. drop n str) width ∙ drop_field str 1 (k0 ∷ ks) (v0 ∷ vs) (render hs rest) at))
  where
    width :
        1 + 1 + length ks + 3 + length vs + 2 ≡ 1 + length (k0 ∷ ks) + 2 + (length (v0 ∷ vs) + 2)
    width = omega arith

pub parse_headers-render :
    (d : HttpData) (h : Bytes × Bytes) (hs : Headers) (rest : Bytes)
    → d.parse_state ≡ start
    → All IsField (h ∷ hs)
    → d.in_buffer ≡ b'\n' ∷ render (h ∷ hs) rest
    → parse_headers d ≡ (
      record d {
        parse_state = end_lf;
        headers = assign_all (h ∷ hs) d.headers;
        in_buffer = drop 1 rest;
      },
      parse_header_success,
    )
unfolding parse_headers
parse_headers-render d h hs rest st k e =
    after_scan-Ends d rest _ _ (scan_block d.in_buffer h hs rest (first_scan d) st refl k e)
