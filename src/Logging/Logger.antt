-- ===== src/Logging/Logger.antt =====
-- The front of the logger, glacier/base/logging.h and logging.cc: the levels, the name of a source
-- file, and the layout of a line behind its time. The text of the thread is an argument. Clock prints
-- the time; Statement is a whole log statement, and Output says where the lines go.
pub mod Name
pub mod Clock
pub mod Statement
pub mod Output
pub mod Tests
use glacier.Common.{
  ℕ, ◌+◌, ◌-◌, ◌≡◌, Bool, Option, none, some, List, [], ◌∷◌, ◌++◌, length, take, drop, leb, ◌==◌,
  if◌then◌else◌, Bytes,
}
use glacier.Common.Int.{ℤ, pos}
use glacier.Common.Text.{codes}
use glacier.Logging.FixedBuffer.{FixedBuffer, append}
use glacier.Logging.Stream.{new_stream, put_c_string, put_string, put_char, format_integer}

pub data LogLevel : Type 0 where
  trace debug info warn error fatal : LogLevel

abbrev pub log_level_name : LogLevel → Bytes
log_level_name trace = codes "TRACE "
log_level_name debug = codes "DEBUG "
log_level_name info = codes "INFO  "
log_level_name warn = codes "WARN  "
log_level_name error = codes "ERROR "
log_level_name fatal = codes "FATAL "

-- `strrchr`: the index of the last byte of that value. `i` is the index of the first byte.
unfoldable pub last_index : ℕ → Bytes → ℕ → Option ℕ
last_index c [] i = none
last_index c (x ∷ xs) i =
    let rest = last_index c xs (i + 1) in
    elim rest [ some j ↦ some j | none ↦ if x == c then some i else none ]

pub record SourceFile : Type 0 where
  pub text : Bytes
  pub size : ℕ

-- The constructor from an array of characters; the terminator is one of them.
unfoldable pub of_array : Bytes → SourceFile
of_array arr = elim (last_index b'/' arr 0) [
  | none ↦ record { text = arr; size = length arr }
  | some slash ↦ record { text = drop (slash + 1) arr; size = length arr - (slash + 1) }
]

-- The constructor from a pointer, of the bytes in front of the terminator.
unfoldable pub of_name : Bytes → SourceFile
of_name filename = elim (last_index b'/' filename 0) [
  | none ↦ record { text = filename; size = length filename }
  | some slash ↦ record {
    text = drop (slash + 1) filename;
    size = length (drop (slash + 1) filename);
  }
]

unfoldable pub put_source : FixedBuffer → SourceFile → FixedBuffer
put_source s v = append s (take v.size v.text)

-- `Impl::Impl`, behind the time: the thread and the level.
unfoldable pub begin_line : FixedBuffer → Bytes → LogLevel → FixedBuffer
begin_line timed tid level = append (append timed tid) (log_level_name level)

-- `Impl::finish`.
unfoldable pub finish_line : FixedBuffer → SourceFile → ℤ → FixedBuffer
finish_line s basename line =
    let named = put_source (put_c_string s (some (codes " - "))) basename in
    put_c_string (format_integer (put_c_string named (some (codes ":"))) line) (some (codes "\n"))
