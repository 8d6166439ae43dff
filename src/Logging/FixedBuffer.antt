-- ===== src/Logging/FixedBuffer.antt =====
-- `FixedBuffer` of glacier/base/logstream.h. The bytes between `data_` and `cur_` are `written`;
-- what stands behind `cur_` is never read. `add` is modelled together with the bytes that its
-- caller wrote behind `cur_`. The cookie is a debugging mark without effect.
use glacier.Common.{
  ℕ, ◌-◌, ◌*◌, ◌≤◌, [], ◌++◌, length, length-append, ltb, if◌then◌else◌, arith, Bytes,
}

pub record FixedBuffer : Type 0 where
  pub size : ℕ
  pub written : Bytes

abbrev pub k_small_buffer : ℕ
k_small_buffer = 4000

abbrev pub k_large_buffer : ℕ
k_large_buffer = 4000 * 1000

abbrev pub new_buffer : ℕ → FixedBuffer
new_buffer size = record { size = size; written = [] }

-- `length` and `avail`.
abbrev pub used : FixedBuffer → ℕ
used b = length b.written

abbrev pub avail : FixedBuffer → ℕ
avail b = b.size - used b

abbrev pub add : FixedBuffer → Bytes → FixedBuffer
add b bytes = record b { written = b.written ++ bytes }

unfoldable pub reset : FixedBuffer → FixedBuffer
reset b = record b { written = [] }

unfoldable pub append : FixedBuffer → Bytes → FixedBuffer
append b buf = if ltb (length buf) (avail b) then add b buf else b

abbrev pub data_to_string : FixedBuffer → Bytes
data_to_string b = b.written

-- `cur_` does not pass the end of the buffer.
abbrev pub Fits : FixedBuffer → Type 0
Fits b = used b ≤ b.size

pub append-Fits : (b : FixedBuffer) (buf : Bytes) → Fits b → Fits (append b buf)
unfolding append
append-Fits b buf h = ground (arith, length-append b.written buf)
