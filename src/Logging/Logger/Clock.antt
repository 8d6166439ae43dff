-- ===== src/Logging/Logger/Clock.antt =====
-- `Impl::formatTime` of glacier/base/logging.cc: the text of a second is kept for the lines that follow
-- in it. Times are microseconds since the epoch. `none` stands for an assertion that fails, or a zone
-- without local times. `gmtime_r` of the C library is an argument.
pub mod Cache
use glacier.Common.{
  ℕ, zero, suc, ◌+◌, ◌-◌, ◌*◌, Bool, true, false, Option, none, some, List, [], ◌∷◌, ◌++◌, length,
  take, ◌==◌, if◌then◌else◌, Bytes,
}
use glacier.Common.Int.{ℤ, pos, ◌+ℤ◌, ◌/ℤ◌, ◌%ℤ◌, ltb_ℤ, eqb_ℤ}
use glacier.Common.Text.{codes, fill, print_wide}
use glacier.Calendar.Date.{Tm}
use glacier.Calendar.TimeZone.{Data, to_local_time}
use glacier.Timestamp.{k_micro_seconds_per_second, seconds_since_epoch}
use glacier.Logging.FixedBuffer.{FixedBuffer, append}

-- The text "%4d-%02d-%02d %02d:%02d:%02d".
unfoldable pub time_text : Tm → Bytes
time_text tm_time =
    print_wide false 4 (tm_time.tm_year +ℤ pos 1900)
    ++ (codes "-"
        ++ (print_wide true 2 (tm_time.tm_mon +ℤ pos 1)
            ++ (codes "-"
                ++ (print_wide true 2 tm_time.tm_mday
                    ++ (codes " "
                        ++ (print_wide true 2 tm_time.tm_hour
                            ++ (codes ":"
                                ++ (print_wide true 2 tm_time.tm_min
                                    ++ (codes ":" ++ print_wide true 2 tm_time.tm_sec)))))))))

-- What the logger keeps: `t_time` and `t_lastsecond` of a thread, and `g_logTimeZone`, which is `none`
-- while it is not valid.
pub record Clock : Type 0 where
  pub t_time : Bytes
  pub t_lastsecond : ℤ
  pub zone : Option Data

abbrev pub new_clock : Clock
new_clock = record { t_time = fill 64 0; t_lastsecond = pos 0; zone = none }

abbrev pub set_time_zone : Data → Clock → Clock
set_time_zone tz c = record c { zone = some tz }

abbrev pub seconds_of : ℤ → ℤ
seconds_of micros = seconds_since_epoch (record { micro_seconds_since_epoch = micros })

-- The microseconds, whose text is eight or nine bytes long.
abbrev pub micro_text : Option Data → ℤ → Bytes
micro_text zone micros =
    let text = codes ":" ++ print_wide true 6 (micros %ℤ k_micro_seconds_per_second) in
    elim zone [ some tz ↦ text ++ codes " " | none ↦ text ++ codes "Z " ]

abbrev pub micro_length : Option Data → ℕ
micro_length zone = elim zone [ some tz ↦ 8 | none ↦ 9 ]

abbrev pub put_time : Bytes → Option Data → ℤ → FixedBuffer → Option FixedBuffer
put_time t_time zone micros stream =
    if length (micro_text zone micros) == micro_length zone
    then some (append (append stream (take 19 t_time)) (micro_text zone micros))
    else none

module _ (gmtime : ℤ → Tm) (timegm : Tm → ℤ) where
  abbrev pub broken_down : Option Data → ℤ → Option Tm
  broken_down none seconds = some (gmtime seconds)
  broken_down (some tz) seconds = to_local_time gmtime timegm tz seconds

  -- The text of a second, whose length is asserted.
  unfoldable pub text_of_second : Option Data → ℤ → Option Bytes
  text_of_second zone seconds = elim (broken_down zone seconds) [
    | none ↦ none
    | some tm_time ↦ if length (time_text tm_time) == 19 then some (time_text tm_time) else none
  ]

  -- The update of `t_time`.
  unfoldable pub refresh : ℤ → Clock → Option Clock
  refresh seconds c =
      if eqb_ℤ seconds c.t_lastsecond then some c else elim (text_of_second c.zone seconds) [
        | none ↦ none
        | some text ↦ some (record c { t_time = text; t_lastsecond = seconds })
      ]

  -- `formatTime`.
  unfoldable pub format_time : ℤ → Clock → FixedBuffer → Option (Clock × FixedBuffer)
  format_time micros c stream = elim (refresh (seconds_of micros) c) [
    | none ↦ none
    | some c' ↦ elim (put_time c'.t_time c'.zone micros stream) [
      | none ↦ none
      | some stream' ↦ some (c', stream')
    ]
  ]
