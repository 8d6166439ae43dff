-- ===== src/Logging/Logger/Output/Sinks.antt =====
-- The two sinks of glacier/base/logging.cc are logs: the standard output, however much of its buffer is written
-- out at once, and the buffers of `AsyncLogging`.
use glacier.Common.{
  ℕ, Bool, if◌then◌else◌, ◌++◌, ◌≡◌, sym, ap, ◌∙◌, List, ◌++◌, append_assoc, append-nil, length,
  take, drop, Bool-cases, inl, inr, ltb, take-append-drop, true, false, some, arith, Bytes,
}
use glacier.Logging.FixedBuffer.{avail}
use glacier.Logging.Async.{AsyncLogging, append_line}
use glacier.Logging.Async.Safe.{IsSpareOr}
use glacier.Logging.Async.Content.{Sized, content, append_line-Sized, content-append_line}
use glacier.Logging.Logger.Output.{
  Outputs, default_output, default_flush, default_globals, async_globals, Call, Process, run_calls,
  set_log_level,
}
use glacier.Logging.Logger.Output.Lines.{AllFine, lines_of, is_ended}
use glacier.Logging.Logger.Output.Laws.{IsLog, run_calls-Ends}
use glacier.Calendar.Date.{Tm}
use glacier.Common.Int.{ℤ}
use glacier.Logging.Logger.{LogLevel}
use glacier.Logging.Logger.Clock.{Clock}
use glacier.Logging.Logger.Clock.Cache.{Cached}

-- All bytes that the standard output was given.
abbrev pub printed : Outputs → Bytes
printed o = o.stdout.written ++ o.stdout.buffered

module _ (drain : Bytes → ℕ) where
  pub printed-default_output :
      (m : Bytes) (o : Outputs) → printed (default_output drain m o) ≡ printed o ++ m
  unfolding default_output
  printed-default_output m o =
      let all = o.stdout.buffered ++ m in
      append_assoc o.stdout.written (take (drain all) all) (drop (drain all) all)
      ∙ ap (λ x. o.stdout.written ++ x) (take-append-drop (drain all) all)
      ∙ sym (append_assoc o.stdout.written o.stdout.buffered m)

  abbrev pub stdout_log : IsLog (default_globals drain).sink
  stdout_log = record {
    IsGood = λ o. Unit;
    content = printed;
    output-IsGood = λ m o short g. tt;
    output-content = λ m o short g. printed-default_output m o;
  }

  pub IsSpareOr-append_line :
      (m : Bytes) (s : AsyncLogging)
      → IsSpareOr Unit s.next_buffer
      → IsSpareOr Unit (append_line m s).next_buffer
  unfolding append_line
  IsSpareOr-append_line m s h = elim (Bool-cases (ltb (length m) (avail s.current_buffer))) [
    | inl y ↦ rw (append_line, y) h
    | inr y ↦ rw (append_line, y) tt
  ]

  abbrev pub async_log : IsLog (async_globals drain).sink
  async_log = record {
    IsGood = λ o. Sized o.async × IsSpareOr Unit o.async.next_buffer;
    content = λ o. content o.async;
    output-IsGood =
        λ m o short g. (append_line-Sized m o.async g.0, IsSpareOr-append_line m o.async g.1);
    output-content = λ m o short g. content-append_line m o.async g.0 g.1 (omega (arith, short));
  }

printed-default_flush : (o : Outputs) → printed (default_flush o) ≡ printed o
unfolding default_flush
printed-default_flush o = append-nil (printed o)

-- A flush loses nothing, and leaves nothing in the buffer.
behind_flush :
    (gone : Bool) (last o : Outputs)
    → o ≡ (if gone then default_flush last else last)
    → (printed o ≡ printed last) × (gone ≡ true → o.stdout.written ≡ printed o)
unfolding default_flush
behind_flush true last o e = (
  ap printed e ∙ printed-default_flush last,
  λ g. ap (λ x. x.stdout.written) e ∙ sym (ap printed e ∙ printed-default_flush last),
)
behind_flush false last o e = (ap printed e, λ g. absurd (cc))

-- A program that logs to the standard output, whose C library may keep what it likes in its buffer, from
-- a clock whose buffer holds the text of the last second in the present zone, or that has printed
-- nothing: as long as each statement that is logged is one whose time can be printed, outside the second
-- 0 of the epoch, and whose texts leave 32 bytes of the stream's buffer, the run does not fail. The
-- statements that the level lets through are printed in order, one line each, up to the first fatal one;
-- the process aborts exactly if there is one, and all the lines are then written, none is in the buffer.
pub run_calls-printed :
    (gmtime : ℤ → Tm) (timegm : Tm → ℤ) (tid : Bytes) (drain : Bytes → ℕ) (cs : List Call)
    (loglevel : LogLevel) (c : Clock) (o : Outputs)
    → Cached gmtime timegm c
    → AllFine gmtime timegm tid c.zone loglevel cs
    → (q : Process Outputs) × (run_calls gmtime timegm tid cs (record {
      globals = set_log_level loglevel (default_globals drain);
      clock = c;
      state = o;
      aborted = false;
    })
        ≡ some q)
      × (q.aborted ≡ is_ended gmtime timegm tid cs)
      × (printed q.state ≡ printed o ++ lines_of gmtime timegm tid c.zone loglevel cs)
      × (is_ended gmtime timegm tid cs ≡ true → q.state.stdout.written ≡ printed q.state)
run_calls-printed gmtime timegm tid drain cs loglevel c o h a =
    let (q, e, r) = run_calls-Ends gmtime timegm tid (stdout_log drain) cs loglevel c o h tt a in
    let (same, safe) = behind_flush (is_ended gmtime timegm tid cs) r.last q.state r.state_is in
    (q, e, r.aborted_is, same ∙ r.content_is, safe)
