-- ===== src/Http/Headers/Line.antt =====
-- One header line in the loop of `parseHeaders` of glacier/httpdata.cc.
use glacier.Common.{
  ℕ, ◌+◌, ◌-◌, ◌≤◌, ◌<◌, ◌≡◌, ◌≢◌, refl, ap, ◌∙◌, false, [], ◌∷◌, ◌++◌, length, drop, take-append,
  drop-append, drop-add, All, Bytes, arith,
}
use glacier.Http.{assign, key, value, lf}
use glacier.Http.Headers.{Scan, range, step_in, scan}

-- A byte that may stand in a key.
abbrev pub IsKeyByte : ℕ → Type 0
IsKeyByte c = (c ≢ b':') × (c ≢ b'\r') × (c ≢ b'\n')

-- A value holds no carriage return.
abbrev pub IsValueByte : ℕ → Type 0
IsValueByte c = c ≢ b'\r'

scan-key :
    (str ks cs : Bytes) (i : ℕ) (s : Scan)
    → s.parse_state ≡ key
    → s.finish ≡ false
    → All IsKeyByte ks
    → scan str (ks ++ cs) i s ≡ scan str cs (i + length ks) s
unfolding scan step_in
scan-key str [] cs i s m f h = ap (λ k. scan str cs k s) (omega arith)
scan-key str (c ∷ ks) cs i s m f h = ground (arith, h.0, scan-key str ks cs (i + 1) s m f h.1)

scan_value :
    (str vs cs : Bytes) (i : ℕ) (s : Scan)
    → s.parse_state ≡ value
    → s.finish ≡ false
    → All IsValueByte vs
    → i + length vs ≤ s.value_start + 256
    → scan str (vs ++ cs) i s ≡ scan str cs (i + length vs) s
unfolding scan step_in
scan_value str [] cs i s m f h b = ap (λ k. scan str cs k s) (omega arith)
scan_value str (c ∷ vs) cs i s m f h b = ground (arith, h.0, scan_value str vs cs (i + 1) s m f h.1)

-- The line behind its first byte, which stands at `i`.
abbrev pub line_tail : Bytes → Bytes → Bytes → Bytes
line_tail ks v cs = ks ++ (b':' ∷ b' ' ∷ (v ++ (b'\r' ∷ b'\n' ∷ cs)))

pub record IsHeader (k0 : ℕ) (ks : Bytes) (v0 : ℕ) (vs : Bytes) : Type 0 where
  pub key_bytes : All IsKeyByte (k0 ∷ ks)
  pub value_bytes : All IsValueByte (v0 ∷ vs)
  pub value_short : length (v0 ∷ vs) ≤ 256

range_at :
    (str : Bytes) (i : ℕ) (xs ys : Bytes) → drop i str ≡ xs ++ ys → range str i (i + length xs) ≡ xs
range_at str i xs ys at =
    let width : i + length xs - i ≡ length xs = omega arith in rw (width, at) (take-append xs ys)

pub drop_line :
    (str : Bytes) (i : ℕ) (k ys : Bytes)
    → drop i str ≡ k ++ (b':' ∷ b' ' ∷ ys)
    → drop (i + length k + 2) str ≡ ys
drop_line str i k ys at =
    drop-add (i + length k) 2 str
    ∙ ap (drop 2)
        (drop-add i (length k) str ∙ ap (drop (length k)) at ∙ drop-append k (b':' ∷ b' ' ∷ ys))

scan_colon :
    (str cs : Bytes) (j : ℕ) (s : Scan)
    → s.parse_state ≡ key
    → s.finish ≡ false
    → s.key_start < j
    → (v0 : ℕ)
    → scan str (b':' ∷ b' ' ∷ v0 ∷ cs) j s
      ≡ scan str cs (j + 3) (record s { key_end = j; value_start = j + 2; parse_state = value })
unfolding scan step_in
scan_colon str cs j s m f lt v0 =
    let i2 : j + 1 + 1 ≡ j + 2 = omega arith in
    let i3 : j + 1 + 1 + 1 ≡ j + 3 = omega arith in ground (arith, i2, i3)

scan_cr :
    (str cs : Bytes) (j : ℕ) (s : Scan)
    → s.parse_state ≡ value
    → s.finish ≡ false
    → s.value_start < j
    → scan str (b'\r' ∷ b'\n' ∷ cs) j s
      ≡ scan str cs (j + 2) (record s {
        value_end = j;
        now_read_line_begin = j + 1;
        parse_state = lf;
        headers = assign (range str s.key_start s.key_end) (range str s.value_start j) s.headers;
      })
unfolding scan step_in
scan_cr str cs j s m f lt = let i2 : j + 1 + 1 ≡ j + 2 = omega arith in ground (arith, i2)

module _ (str : Bytes) (i k0 : ℕ) (ks : Bytes) (v0 : ℕ) (vs cs : Bytes) (s : Scan)
    (m : s.parse_state ≡ key) (f : s.finish ≡ false) (ki : s.key_start ≡ i)
    (h : IsHeader k0 ks v0 vs) (at : drop i str ≡ k0 ∷ line_tail ks (v0 ∷ vs) cs) where
  abbrev pub at_colon : ℕ
  at_colon = i + 1 + length ks

  abbrev pub in_value : Scan
  in_value = record s { key_end = at_colon; value_start = at_colon + 2; parse_state = value }

  abbrev pub at_cr : ℕ
  at_cr = at_colon + 3 + length vs

  key_range : range str s.key_start at_colon ≡ k0 ∷ ks
  key_range =
      let width : at_colon ≡ i + length (k0 ∷ ks) = omega arith in
      rw (ki, width) (range_at str i (k0 ∷ ks) _ at)

  value_range : range str (at_colon + 2) at_cr ≡ v0 ∷ vs
  value_range =
      let start_is : at_colon + 2 ≡ i + length (k0 ∷ ks) + 2 = omega arith in
      let end_is : at_cr ≡ i + length (k0 ∷ ks) + 2 + length (v0 ∷ vs) = omega arith in
      rw (end_is, start_is)
        (range_at str _ (v0 ∷ vs) (b'\r' ∷ b'\n' ∷ cs) (drop_line str i (k0 ∷ ks) _ at))

  pub scan_line :
      scan str (line_tail ks (v0 ∷ vs) cs) (i + 1) s
      ≡ scan str cs (at_cr + 2) (record in_value {
        value_end = at_cr;
        now_read_line_begin = at_cr + 1;
        parse_state = lf;
        headers = assign (k0 ∷ ks) (v0 ∷ vs) s.headers;
      })
  scan_line =
      scan-key str ks _ (i + 1) s m f h.key_bytes.1
      ∙ scan_colon str _ at_colon s m f (omega (arith, ki)) v0
      ∙ scan_value str vs _ (at_colon + 3) in_value refl f h.value_bytes.1
          (omega (arith, h.value_short))
      ∙ scan_cr str cs at_cr in_value refl f (omega arith)
      ∙ rw (key_range, value_range)
