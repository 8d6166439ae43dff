-- ===== src/Logging/Logger/Statement.antt =====
-- A whole log statement: the macros of glacier/base/logging.h, and the constructors and the destructor
-- of `Logger` in logging.cc. The text of the thread is an argument.
pub mod Text
use glacier.Common.{
  ℕ, ◌+◌, ◌-◌, Bool, true, false, Option, none, some, List, [], ◌∷◌, ◌++◌, leb, if◌then◌else◌,
  Bytes,
}
use glacier.Common.Int.{ℤ}
use glacier.Common.Text.{codes}
use glacier.Calendar.Date.{Tm}
use glacier.Logging.FixedBuffer.{FixedBuffer}
use glacier.Logging.Stream.{Value, new_stream, put_c_string, put_char, put_all}
use glacier.Logging.Logger.{
  LogLevel, trace, debug, info, warn, error, fatal, SourceFile, begin_line, finish_line,
}
use glacier.Logging.Logger.Clock.{Clock, format_time}

-- The value of an enumerator.
abbrev pub rank : LogLevel → ℕ
rank trace = 0
rank debug = 1
rank info = 2
rank warn = 3
rank error = 4
rank fatal = 5

-- Whether a macro makes a logger; the last three do so in any case.
abbrev pub is_logged : LogLevel → LogLevel → Bool
is_logged loglevel warn = true
is_logged loglevel error = true
is_logged loglevel fatal = true
is_logged loglevel level = leb (rank loglevel) (rank level)

-- The name of the function, which only the macros of the two lowest levels hand over.
abbrev pub put_func : Bytes → LogLevel → FixedBuffer → FixedBuffer
put_func func trace s = put_char (put_c_string s (some func)) b' '
put_func func debug s = put_char (put_c_string s (some func)) b' '
put_func func level s = s

-- One statement: where it stands, its level, and the values put to its stream.
pub record LogStatement : Type 0 where
  pub file : SourceFile
  pub line : ℤ
  pub level : LogLevel
  pub func : Bytes
  pub values : List Value

-- What a statement does: the message given to `g_output`, and whether it flushes and aborts.
pub record Effect : Type 0 where
  pub message : Option Bytes
  pub aborts : Bool

abbrev pub is_fatal : LogLevel → Bool
is_fatal fatal = true
is_fatal level = false

-- From the constructor to the end of the destructor, behind `formatTime`.
unfoldable pub write_statement : Bytes → LogStatement → FixedBuffer → FixedBuffer
write_statement tid s timed =
    finish_line (put_all (put_func s.func s.level (begin_line timed tid s.level)) s.values) s.file
      s.line

module _ (gmtime : ℤ → Tm) (timegm : Tm → ℤ) where
  unfoldable pub log_statement :
      LogLevel → ℤ → Bytes → LogStatement → Clock → Option (Clock × Effect)
  log_statement loglevel micros tid s c =
      if is_logged loglevel s.level
      then elim (format_time gmtime timegm micros c new_stream) [
        | none ↦ none
        | some (c', timed) ↦ some (
          c',
          record {
            message = some (write_statement tid s timed).written;
            aborts = is_fatal s.level;
          },
        )
      ]
      else some (c, record { message = none; aborts = false })
