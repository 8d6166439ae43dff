-- ===== src/Logging/Stream/Laws.antt =====
-- The stream of glacier/base/logstream.cc never leaves its buffer, and drops a value whole or
-- writes it whole.
use glacier.Common.{
  ℕ, ◌+◌, ◌^◌, ◌≤◌, ◌<◌, ◌≡◌, ◌⊎◌, inl, inr, none, some, List, [], ◌∷◌, ◌++◌, length, length-append,
  if◌then◌else◌, Bytes, arith, append-nil, append_assoc, All, ◌∙◌, ap, sym,
}
use glacier.Common.Text.{codes}
use glacier.Logging.FixedBuffer.{FixedBuffer, Fits, avail, add, append}
use glacier.Logging.Convert.{convert, convert_hex, magnitude}
use glacier.Logging.Convert.Decimal.{length-convert}
use glacier.Logging.Convert.Hex.{length-convert_hex}
use glacier.Logging.Stream.{
  Value, bool, integer, pointer, double, char, c_string, string, buffer, put, put_all,
  k_max_numeric_size,
}

-- The values of 64-bit types; a printed double is shorter than the room it is given.
abbrev pub IsPrintable : Value → Type 0
IsPrintable (integer v) = magnitude v < 2 ^ 64
IsPrintable (pointer p) = p < 2 ^ 64
IsPrintable (double text) = length text < k_max_numeric_size
IsPrintable _ = Unit

-- The text of a value, in full.
abbrev pub text_of : Value → Bytes
text_of (bool v) = if v then codes "1" else codes "0"
text_of (integer v) = convert v
text_of (pointer p) = b'0' ∷ b'x' ∷ convert_hex p
text_of (double text) = text
text_of (char c) = c ∷ []
text_of (c_string none) = codes "(null)"
text_of (c_string (some str)) = str
text_of (string v) = v
text_of (buffer b) = b.written

-- Either the text is written whole, with a byte to spare for a terminator, or nothing is written.
abbrev pub Outcome : FixedBuffer → Bytes → FixedBuffer → Type 0
Outcome s text s' =
    ((s' ≡ add s text) × (length text < avail s))
    ⊎ ((s' ≡ s) × ((avail s ≤ length text) ⊎ (avail s < k_max_numeric_size)))

append-Outcome : (s : FixedBuffer) (text : Bytes) → Outcome s text (append s text)
unfolding append
append-Outcome s text = ground arith

-- A value of a 64-bit type is written whole, with a byte to spare for a terminator, or it is
-- dropped whole, and that only if its text does not fit or less than 32 bytes are left.
pub put-Outcome : (s : FixedBuffer) (v : Value) → IsPrintable v → Outcome s (text_of v) (put s v)
unfolding put
put-Outcome s (bool v) k = append-Outcome s (if v then codes "1" else codes "0")
put-Outcome s (integer v) k = ground (arith, length-convert v k)
put-Outcome s (pointer p) k = ground (arith, length-convert_hex p k)
put-Outcome s (double text) k = ground arith
put-Outcome s (char c) k = append-Outcome s (c ∷ [])
put-Outcome s (c_string none) k = append-Outcome s (codes "(null)")
put-Outcome s (c_string (some str)) k = append-Outcome s str
put-Outcome s (string v) k = append-Outcome s v
put-Outcome s (buffer b) k = append-Outcome s b.written

Outcome-Fits : (s s' : FixedBuffer) (text : Bytes) → Fits s → Outcome s text s' → Fits s'
Outcome-Fits s s' text h (inl (e, r)) = rw e (omega (arith, length-append s.written text))
Outcome-Fits s s' text h (inr (e, r)) = rw e h

-- However many values are put, the stream stays inside its buffer.
pub put_all-Fits :
    (s : FixedBuffer) (vs : List Value) → Fits s → All IsPrintable vs → Fits (put_all s vs)
unfolding put_all
put_all-Fits s [] h k = h
put_all-Fits s (v ∷ vs) h k =
    put_all-Fits (put s v) vs (Outcome-Fits s _ _ h (put-Outcome s v k.0)) k.1

abbrev pub texts_of : List Value → Bytes
texts_of [] = []
texts_of (v ∷ vs) = text_of v ++ texts_of vs

room :
    (s s' : FixedBuffer) (text : Bytes) (n : ℕ)
    → Outcome s text s'
    → length text + n + 32 ≤ avail s
    → (s' ≡ add s text) × (n + 32 ≤ avail s')
room s s' text n (inl (e, r)) h = (e, rw e (omega (arith, length-append s.written text)))
room s s' text n (inr (e, r)) h = absurd (ground (arith, r))

-- While the texts leave 32 bytes of the buffer, every value is written in full, in order.
pub put_all-texts_of :
    (s : FixedBuffer) (vs : List Value)
    → All IsPrintable vs
    → length (texts_of vs) + 32 ≤ avail s
    → put_all s vs ≡ add s (texts_of vs)
unfolding put_all
put_all-texts_of s [] k h = ap (λ w. record s { written = w }) (sym (append-nil s.written))
put_all-texts_of s (v ∷ vs) k h =
    let (e, r) =
      room s (put s v) (text_of v) (length (texts_of vs)) (put-Outcome s v k.0)
        (omega (arith, length-append (text_of v) (texts_of vs))) in
    put_all-texts_of (put s v) vs k.1 r
    ∙ rw e (ap (λ w. record s { written = w }) (append_assoc s.written (text_of v) (texts_of vs)))
