-- ===== src/Logging/Stream.antt =====
-- `LogStream` of glacier/base/logstream.cc. A stream is its buffer of 4000 bytes. The operators for
-- the integer types are `put_integer`; a `double` is printed by the C library, whose text is an
-- argument.
pub mod Laws
use glacier.Common.{
  ℕ, ◌+◌, ◌-◌, Bool, true, false, Option, none, some, List, [], ◌∷◌, ◌++◌, leb, if◌then◌else◌,
  Bytes,
}
use glacier.Common.Int.{ℤ}
use glacier.Common.Text.{codes}
use glacier.Logging.FixedBuffer.{
  FixedBuffer, k_small_buffer, new_buffer, avail, add, append, reset, data_to_string,
}
use glacier.Logging.Convert.{convert, convert_hex}

abbrev pub k_max_numeric_size : ℕ
k_max_numeric_size = 32

abbrev pub new_stream : FixedBuffer
new_stream = new_buffer k_small_buffer

-- `formatInteger`, and with it `operator<<` of the integer types.
unfoldable pub format_integer : FixedBuffer → ℤ → FixedBuffer
format_integer s v = if leb k_max_numeric_size (avail s) then add s (convert v) else s

unfoldable pub put_bool : FixedBuffer → Bool → FixedBuffer
put_bool s v = append s (if v then codes "1" else codes "0")

unfoldable pub put_pointer : FixedBuffer → ℕ → FixedBuffer
put_pointer s v =
    if leb k_max_numeric_size (avail s) then add s (b'0' ∷ b'x' ∷ convert_hex v) else s

-- The text is what `snprintf` with "%.12g" writes for the number.
unfoldable pub put_double : FixedBuffer → Bytes → FixedBuffer
put_double s text = if leb k_max_numeric_size (avail s) then add s text else s

unfoldable pub put_char : FixedBuffer → ℕ → FixedBuffer
put_char s v = append s (v ∷ [])

-- `none` is the null pointer.
unfoldable pub put_c_string : FixedBuffer → Option Bytes → FixedBuffer
put_c_string s none = append s (codes "(null)")
put_c_string s (some str) = append s str

unfoldable pub put_string : FixedBuffer → Bytes → FixedBuffer
put_string s v = append s v

unfoldable pub put_buffer : FixedBuffer → FixedBuffer → FixedBuffer
put_buffer s v = put_string s (data_to_string v)

-- One value of each kind that the operators take.
pub data Value : Type 0 where
  bool : Bool → Value
  integer : ℤ → Value
  pointer : ℕ → Value
  double : Bytes → Value
  char : ℕ → Value
  c_string : Option Bytes → Value
  string : Bytes → Value
  buffer : FixedBuffer → Value

unfoldable pub put : FixedBuffer → Value → FixedBuffer
unfolding put_bool format_integer put_pointer put_double put_char put_c_string put_string put_buffer
put s (bool v) = put_bool s v
put s (integer v) = format_integer s v
put s (pointer p) = put_pointer s p
put s (double text) = put_double s text
put s (char c) = put_char s c
put s (c_string str) = put_c_string s str
put s (string v) = put_string s v
put s (buffer b) = put_buffer s b

unfoldable pub put_all : FixedBuffer → List Value → FixedBuffer
put_all s [] = s
put_all s (v ∷ vs) = put_all (put s v) vs
