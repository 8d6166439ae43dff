-- ===== src/Logging/Logger/Statement/Text.antt =====
-- The line that a log statement of glacier/base/logging.cc writes.
use glacier.Common.{
  ◌+◌, ◌≤◌, ◌≡◌, refl, sym, ap, ◌∙◌, false, none, some, List, [], ◌∷◌, ◌++◌, length, take, All,
  All-append, Bytes, Bool-cases, inl, inr, if◌then◌else◌,
}
use glacier.Common.Int.{ℤ}
use glacier.Common.Text.{codes}
use glacier.Calendar.Date.{Tm}
use glacier.Logging.FixedBuffer.{FixedBuffer, avail}
use glacier.Logging.Stream.{
  Value, c_string, string, char, integer, new_stream, put, put_c_string, put_char, put_string,
  put_all, format_integer,
}
use glacier.Logging.Stream.Laws.{IsPrintable, texts_of, put_all-texts_of}
use glacier.Logging.Logger.{
  LogLevel, trace, debug, info, warn, error, fatal, log_level_name, put_source, begin_line,
  finish_line,
}
use glacier.Logging.Logger.Clock.{Clock, format_time}
use glacier.Logging.Logger.Statement.{
  LogStatement, is_logged, is_fatal, put_func, write_statement, log_statement,
}

put_all-append :
    (s : FixedBuffer) (vs ws : List Value) → put_all s (vs ++ ws) ≡ put_all (put_all s vs) ws
unfolding put_all
put_all-append s [] ws = refl
put_all-append s (v ∷ vs) ws = put_all-append (put s v) vs ws

abbrev func_values : Bytes → LogLevel → List Value
func_values func trace = c_string (some func) ∷ char b' ' ∷ []
func_values func debug = c_string (some func) ∷ char b' ' ∷ []
func_values func level = []

abbrev head_values : Bytes → LogStatement → List Value
head_values tid s = string tid ∷ string (log_level_name s.level) ∷ func_values s.func s.level

abbrev tail_values : LogStatement → List Value
tail_values s =
    c_string (some (codes " - "))
    ∷ string (take s.file.size s.file.text)
    ∷ c_string (some (codes ":"))
    ∷ integer s.line
    ∷ c_string (some (codes "\n"))
    ∷ []

-- Everything that a statement puts behind its time.
abbrev pub values_of : Bytes → LogStatement → List Value
values_of tid s = head_values tid s ++ (s.values ++ tail_values s)

heads :
    (tid func : Bytes) (level : LogLevel) (timed : FixedBuffer)
    → put_func func level (begin_line timed tid level)
      ≡ put_all timed (string tid ∷ string (log_level_name level) ∷ func_values func level)
unfolding put_all put put_string put_c_string put_char begin_line
heads tid func trace timed = refl
heads tid func debug timed = refl
heads tid func info timed = refl
heads tid func warn timed = refl
heads tid func error timed = refl
heads tid func fatal timed = refl

tails :
    (s : LogStatement) (b : FixedBuffer) → finish_line b s.file s.line ≡ put_all b (tail_values s)
unfolding put_all put put_string put_c_string format_integer finish_line put_source
tails s b = refl

write_statement-values_of :
    (tid : Bytes) (s : LogStatement) (timed : FixedBuffer)
    → write_statement tid s timed ≡ put_all timed (values_of tid s)
unfolding write_statement
write_statement-values_of tid s timed =
    ap (λ b. finish_line (put_all b s.values) s.file s.line) (heads tid s.func s.level timed)
    ∙ tails s (put_all (put_all timed (head_values tid s)) s.values)
    ∙ sym (put_all-append (put_all timed (head_values tid s)) s.values (tail_values s))
    ∙ sym (put_all-append timed (head_values tid s) (s.values ++ tail_values s))

abbrev pub IsPrintableStatement : LogStatement → Type 0
IsPrintableStatement s = All IsPrintable s.values × IsPrintable (integer s.line)

values_of-IsPrintable :
    (tid : Bytes) (s : LogStatement) → IsPrintableStatement s → All IsPrintable (values_of tid s)
values_of-IsPrintable tid s h =
    All-append IsPrintable (head_values tid s) (s.values ++ tail_values s) (tt, (tt, func s.level))
      (All-append IsPrintable s.values (tail_values s) h.0 (tt, (tt, (tt, (h.1, (tt, tt))))))
  where
    func : (level : LogLevel) → All IsPrintable (func_values s.func level)
    func trace = (tt, (tt, tt))
    func debug = (tt, (tt, tt))
    func info = tt
    func warn = tt
    func error = tt
    func fatal = tt

-- A statement below the level does nothing. Any other one, once its time was printed and as long as its
-- texts leave 32 bytes of the buffer, hands one message to the output function: the time, the thread, the
-- level, for the two lowest levels the function, the texts of the values in order, and the place; and it
-- aborts exactly if it is fatal.
pub log_statement_lem :
    (gmtime : ℤ → Tm) (timegm : Tm → ℤ) (loglevel : LogLevel) (micros : ℤ) (tid : Bytes)
    (s : LogStatement) (c c' : Clock) (timed : FixedBuffer)
    → format_time gmtime timegm micros c new_stream ≡ some (c', timed)
    → IsPrintableStatement s
    → length (texts_of (values_of tid s)) + 32 ≤ avail timed
    → log_statement gmtime timegm loglevel micros tid s c
      ≡ some (
          if is_logged loglevel s.level
          then (
            c',
            record {
              message = some (timed.written ++ texts_of (values_of tid s));
              aborts = is_fatal s.level;
            },
          )
          else (c, record { message = none; aborts = false }))
unfolding log_statement
log_statement_lem gmtime timegm loglevel micros tid s c c' timed e h fits =
    elim (Bool-cases (is_logged loglevel s.level)) [
      | inl y ↦
          rw (log_statement, y, e)
            (ap (λ b. some (c', record { message = some b.written; aborts = is_fatal s.level }))
              (write_statement-values_of tid s timed
                ∙ put_all-texts_of timed (values_of tid s) (values_of-IsPrintable tid s h) fits))
      | inr y ↦ rw (log_statement, y) refl
    ]
