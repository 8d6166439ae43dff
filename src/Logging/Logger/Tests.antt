-- ===== src/Logging/Logger/Tests.antt =====
-- Runs of glacier/base/logging.cc, and instances of its theorems.
use glacier.Common.{
  ◌+◌, ◌≤◌, ◌≡◌, refl, inl, arith, true, false, none, List, Bytes, some, [], ◌∷◌, ◌++◌, length,
}
use glacier.Common.Int.{ℤ, pos, ◌+ℤ◌, ◌/ℤ◌, ◌%ℤ◌}
use glacier.Common.Text.{codes, to_string, print_wide}
use glacier.Calendar.Date.{Tm}
use glacier.Calendar.TimeZone.{zero_tm}
use glacier.Logging.FixedBuffer.{FixedBuffer, append, avail}
use glacier.Logging.Convert.{convert, convert_loop}
use glacier.Logging.Stream.{new_stream, string, integer}
use glacier.Logging.Stream.Laws.{texts_of}
use glacier.Logging.Logger.{info, error, fatal}
use glacier.Logging.Logger.Clock.{Clock, new_clock, time_text, text_of_second, refresh, format_time}
use glacier.Logging.Logger.Clock.Cache.{format_times, print_times, format_times-print_times}
use glacier.Logging.Logger.Statement.{LogStatement}
use glacier.Logging.Logger.Statement.Text.{values_of}
use glacier.Logging.Async.{started}
use glacier.Logging.Logger.Output.{
  Call, states, sets_level, Process, Outputs, default_globals, set_log_level, run_calls,
}
use glacier.Logging.Logger.Output.Lines.{IsFine, AllFine, lines_of, is_ended}
use glacier.Logging.Logger.Output.Laws.{Ends, logging, run_calls-Ends}
use glacier.Logging.Logger.Output.Sinks.{printed, async_log, run_calls-printed}

-- A library that tells the hour of the epoch, and no other.
abbrev gmtime : ℤ → Tm
gmtime seconds = record zero_tm { tm_year = pos 70; tm_mday = pos 1; tm_sec = seconds }

abbrev timegm : Tm → ℤ
timegm t = pos 0

time_test : time_text (gmtime (pos 7)) ≡ codes "1970-01-01 00:00:07"
unfolding time_text print_wide to_string ◌+ℤ◌
time_test = refl

format_times-print_times_example :
    format_times gmtime timegm (pos 7000000 ∷ pos 7999999 ∷ pos 8000000 ∷ []) new_clock
    ≡ print_times gmtime timegm none (pos 7000000 ∷ pos 7999999 ∷ pos 8000000 ∷ [])
unfolding ◌/ℤ◌
format_times-print_times_example =
    format_times-print_times gmtime timegm (pos 7000000 ∷ pos 7999999 ∷ pos 8000000 ∷ []) new_clock
      (inl refl) (refl, (refl, (refl, tt)))

abbrev line : LogStatement
line = record {
  file = record { text = codes "main.cc"; size = 7 };
  line = pos 15;
  level = info;
  func = codes "main";
  values = string (codes "x = ") ∷ integer (pos 7) ∷ [];
}

timed :
    (c : Clock) × (b : FixedBuffer) × (format_time gmtime timegm (pos 7000001) new_clock new_stream
      ≡ some (c, b))
    × (b.written ≡ codes "1970-01-01 00:00:07:000001Z ")
    × (length (texts_of (values_of (codes "   12 ") line)) + 32 ≤ avail b)
unfolding format_time refresh text_of_second time_text print_wide to_string ◌+ℤ◌ ◌/ℤ◌ ◌%ℤ◌ append
    convert convert_loop
timed = (_, _, refl, refl, omega arith)

-- A line, one that the level holds back, and a fatal one, with a line behind it.
abbrev calls : List Call
calls =
    states (pos 7000001) line
    ∷ sets_level error
    ∷ states (pos 7000002) line
    ∷ states (pos 8000003) (record line { level = fatal })
    ∷ states (pos 8000004) line
    ∷ []

abbrev tid : Bytes
tid = codes "   12 "

line-IsFine : IsFine gmtime timegm tid none (pos 7000001) line
unfolding text_of_second time_text print_wide to_string ◌+ℤ◌ ◌/ℤ◌ ◌%ℤ◌ append convert convert_loop
line-IsFine = record {
  text = codes "1970-01-01 00:00:07";
  text_is = refl;
  later = refl;
  micro_fits = refl;
  printable = ((tt, (omega arith, tt)), omega arith);
  fits = omega arith;
}

fatal-IsFine : IsFine gmtime timegm tid none (pos 8000003) (record line { level = fatal })
unfolding text_of_second time_text print_wide to_string ◌+ℤ◌ ◌/ℤ◌ ◌%ℤ◌ append convert convert_loop
fatal-IsFine = record {
  text = codes "1970-01-01 00:00:08";
  text_is = refl;
  later = refl;
  micro_fits = refl;
  printable = ((tt, (omega arith, tt)), omega arith);
  fits = omega arith;
}

calls-AllFine : AllFine gmtime timegm tid none info calls
calls-AllFine =
    ((λ e. line-IsFine), ((λ e. absurd (cc)), ((λ e. fatal-IsFine), ((λ e. absurd (cc)), tt))))

abbrev outputs : Outputs
outputs = record { stdout = record { written = []; buffered = codes "x" }; async = started }

run_calls-printed_example :
    (q : Process Outputs) × (run_calls gmtime timegm tid calls (record {
      globals = set_log_level info (default_globals (λ all. 3));
      clock = new_clock;
      state = outputs;
      aborted = false;
    })
      ≡ some q)
    × (q.aborted ≡ true)
    × (printed q.state ≡ codes "x" ++ lines_of gmtime timegm tid none info calls)
    × (is_ended gmtime timegm tid calls ≡ true → q.state.stdout.written ≡ printed q.state)
run_calls-printed_example =
    run_calls-printed gmtime timegm tid (λ all. 3) calls info new_clock outputs (inl refl)
      calls-AllFine

run_calls-Ends_example :
    (q : Process Outputs) × (run_calls gmtime timegm tid calls
        (logging gmtime timegm tid (async_log (λ all. 3)) info new_clock outputs)
      ≡ some q)
    × Ends gmtime timegm tid
        (async_log (λ all. 3))
        outputs
        (lines_of gmtime timegm tid none info calls)
        true
        q
run_calls-Ends_example =
    run_calls-Ends gmtime timegm tid (async_log (λ all. 3)) calls info new_clock outputs (inl refl)
      (
        record { current = refl; next = refl; front = tt; new1 = refl; new2 = refl; back = tt },
        refl,
      )
      calls-AllFine
