-- ===== src/Logging/Logger/Output/Lines.antt =====
-- The lines of log statements, and of sequences of them, of glacier/base/logging.cc.
use glacier.Common.{
  ◌+◌, ◌≤◌, ◌≡◌, refl, sym, ◌∙◌, Bool, true, false, Option, none, some, List, [], ◌∷◌, ◌++◌, length,
  length-append, take, arith, ◌==◌, ltb, inl, inr, Bool-cases, if◌then◌else◌, ◌||◌, Bytes,
}
use mathlib.Core.Path.{subst}
use glacier.Common.Int.{ℤ, pos, eqb_ℤ}
use glacier.Calendar.Date.{Tm}
use glacier.Calendar.TimeZone.{Data}
use glacier.Logging.FixedBuffer.{FixedBuffer, append, avail, k_small_buffer}
use glacier.Logging.Stream.{new_stream}
use glacier.Logging.Stream.Laws.{texts_of}
use glacier.Logging.Logger.{LogLevel}
use glacier.Logging.Logger.Clock.{
  Clock, seconds_of, text_of_second, micro_text, micro_length, format_time,
}
use glacier.Logging.Logger.Clock.Cache.{Cached, refresh-keep, print_time}
use glacier.Logging.Logger.Statement.{LogStatement, is_logged, is_fatal}
use glacier.Logging.Logger.Statement.Text.{values_of, IsPrintableStatement}
use glacier.Logging.Logger.Output.{Call, states, sets_level}

append-size : (b : FixedBuffer) (buf : Bytes) → (append b buf).size ≡ b.size
unfolding append
append-size b buf = elim (Bool-cases (ltb (length buf) (avail b))) [
  | inl y ↦ rw (append, y) refl
  | inr y ↦ rw (append, y) refl
]

module _ (gmtime : ℤ → Tm) (timegm : Tm → ℤ) (tid : Bytes) where
  -- The time in front of a line, which the cache has nothing to do with.
  abbrev pub timed : Option Data → ℤ → Bytes → FixedBuffer
  timed tz micros text = append (append new_stream (take 19 text)) (micro_text tz micros)

  -- A statement whose time can be printed, outside the second 0 of the epoch, and whose texts leave 32
  -- bytes of the buffer.
  pub record IsFine (tz : Option Data) (micros : ℤ) (s : LogStatement) : Type 0 where
    pub text : Bytes
    pub text_is : text_of_second gmtime timegm tz (seconds_of micros) ≡ some text
    pub later : eqb_ℤ (seconds_of micros) (pos 0) ≡ false
    pub micro_fits : (length (micro_text tz micros) == micro_length tz) ≡ true
    pub printable : IsPrintableStatement s
    pub fits : length (texts_of (values_of tid s)) + 32 ≤ avail (timed tz micros text)

  abbrev pub AllFine : Option Data → LogLevel → List Call → Type 0
  AllFine tz loglevel [] = Unit
  AllFine tz loglevel (sets_level level ∷ cs) = AllFine tz level cs
  AllFine tz loglevel (states micros s ∷ cs) =
      (is_logged loglevel s.level ≡ true → IsFine tz micros s) × AllFine tz loglevel cs

  -- The line of a statement.
  abbrev pub line_of : Option Data → ℤ → LogStatement → Bytes
  line_of tz micros s = elim (print_time gmtime timegm tz micros) [
    | none ↦ []
    | some b ↦ b.written ++ texts_of (values_of tid s)
  ]

  -- The lines of the statements that are logged, up to the first fatal one.
  abbrev pub lines_of : Option Data → LogLevel → List Call → Bytes
  lines_of tz loglevel [] = []
  lines_of tz loglevel (sets_level level ∷ cs) = lines_of tz level cs
  lines_of tz loglevel (states micros s ∷ cs) =
      let rest = lines_of tz loglevel cs in
      if is_logged loglevel s.level
      then line_of tz micros s ++ (if is_fatal s.level then [] else rest)
      else rest

  abbrev pub is_ended : List Call → Bool
  is_ended [] = false
  is_ended (sets_level level ∷ cs) = is_ended cs
  is_ended (states micros s ∷ cs) = is_fatal s.level || is_ended cs

  pub format_time-timed :
      (micros : ℤ) (s : LogStatement) (c : Clock)
      → Cached gmtime timegm c
      → (f : IsFine c.zone micros s)
      → format_time gmtime timegm micros c new_stream
        ≡ some (
          record c { t_time = f.text; t_lastsecond = seconds_of micros },
          timed c.zone micros f.text,
        )
  unfolding format_time
  format_time-timed micros s c h f =
      rw
        (
          format_time,
          refresh-keep gmtime timegm (seconds_of micros) c h f.later,
          f.text_is,
          f.micro_fits,
        )
        refl

  pub line_of-timed :
      (tz : Option Data) (micros : ℤ) (s : LogStatement) (f : IsFine tz micros s)
      → line_of tz micros s ≡ (timed tz micros f.text).written ++ texts_of (values_of tid s)
  line_of-timed tz micros s f = rw (line_of, print_time, f.text_is, f.micro_fits) refl

  pub line_of-length :
      (tz : Option Data) (micros : ℤ) (s : LogStatement)
      → IsFine tz micros s
      → length (line_of tz micros s) ≤ k_small_buffer
  line_of-length tz micros s f =
      let text = texts_of (values_of tid s) in
      let b = timed tz micros f.text in
      let whole : b.size ≡ k_small_buffer =
        append-size (append new_stream (take 19 f.text)) (micro_text tz micros)
        ∙ append-size new_stream (take 19 f.text) in
      subst (λ l. length l ≤ k_small_buffer) (sym (line_of-timed tz micros s f))
        (omega (arith, whole, f.fits, length-append b.written text))
