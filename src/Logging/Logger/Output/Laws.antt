-- ===== src/Logging/Logger/Output/Laws.antt =====
-- What a sequence of statements hands to the output function of glacier/base/logging.cc.
use glacier.Common.{
  ◌≤◌, ◌≡◌, refl, sym, ap, ◌∙◌, Bool, true, false, some, List, [], ◌∷◌, ◌++◌, append_assoc,
  append-nil, length, inl, inr, Bool-cases, if◌then◌else◌, Bytes,
}
use glacier.Common.Int.{ℤ}
use glacier.Calendar.Date.{Tm}
use glacier.Logging.FixedBuffer.{k_small_buffer}
use glacier.Logging.Logger.{LogLevel, trace, debug, info, warn, error, fatal}
use glacier.Logging.Logger.Clock.{Clock, seconds_of}
use glacier.Logging.Logger.Clock.Cache.{Cached}
use glacier.Logging.Logger.Statement.{LogStatement, is_logged, is_fatal, log_statement}
use glacier.Logging.Logger.Statement.Text.{log_statement_lem}
use glacier.Logging.Logger.Output.{
  Sink, Call, states, sets_level, Process, perform, run_call, run_calls,
}
use glacier.Logging.Logger.Output.Lines.{
  IsFine, AllFine, line_of, lines_of, is_ended, format_time-timed, line_of-timed, line_of-length,
}

-- A sink that is a log: in its good states it takes each message of at most the size of a stream's
-- buffer, and puts it behind what it holds.
pub record IsLog {ℓ} {σ : Type ℓ} (k : Sink σ) : Type (ℓ ⊔ 1) where
  pub IsGood : σ → Type 0
  pub content : σ → Bytes
  pub output-IsGood :
      (m : Bytes) (x : σ) → length m ≤ k_small_buffer → IsGood x → IsGood (k.output m x)
  pub output-content :
      (m : Bytes) (x : σ)
      → length m ≤ k_small_buffer
      → IsGood x
      → content (k.output m x) ≡ content x ++ m

module _ (gmtime : ℤ → Tm) (timegm : Tm → ℤ) (tid : Bytes) where
  module _ {ℓ} {σ : Type ℓ} {k : Sink σ} (laws : IsLog k) where
    -- A process that logs to the sink.
    abbrev pub logging : LogLevel → Clock → σ → Process σ
    logging loglevel c x = record {
      globals = record { loglevel = loglevel; sink = k };
      clock = c;
      state = x;
      aborted = false;
    }

    -- Where the calls end: behind a fatal statement the sink was told to flush, and the process is gone.
    pub record Ends (x : σ) (lines : Bytes) (gone : Bool) (q : Process σ) : Type ℓ where
      pub last : σ
      pub state_is : q.state ≡ (if gone then k.flush last else last)
      pub aborted_is : q.aborted ≡ gone
      pub good : laws.IsGood last
      pub content_is : laws.content last ≡ laws.content x ++ lines

    -- The process behind a statement that is logged.
    abbrev behind :
        (micros : ℤ) (s : LogStatement) (c : Clock) (x : σ)
        → IsFine gmtime timegm tid c.zone micros s
        → LogLevel
        → Process σ
    behind micros s c x f loglevel =
        perform
          (record {
            message = some (line_of gmtime timegm tid c.zone micros s);
            aborts = is_fatal s.level;
          })
          (logging loglevel (record c { t_time = f.text; t_lastsecond = seconds_of micros }) x)

    run_call-behind :
        (loglevel : LogLevel) (micros : ℤ) (s : LogStatement) (c : Clock) (x : σ)
        → Cached gmtime timegm c
        → is_logged loglevel s.level ≡ true
        → (f : IsFine gmtime timegm tid c.zone micros s)
        → run_call gmtime timegm tid (states micros s) (logging loglevel c x)
          ≡ some (behind micros s c x f loglevel)
    unfolding run_call
    run_call-behind loglevel micros s c x h y f =
        rw
          (
            run_call,
            log_statement_lem gmtime timegm loglevel micros tid s c _ _
                (format_time-timed gmtime timegm tid micros s c h f) f.printable f.fits,
            y,
            line_of-timed gmtime timegm tid c.zone micros s f,
          )
          refl

    run_call-quiet :
        (loglevel : LogLevel) (micros : ℤ) (s : LogStatement) (c : Clock) (x : σ)
        → is_logged loglevel s.level ≡ false
        → run_call gmtime timegm tid (states micros s) (logging loglevel c x)
          ≡ some (logging loglevel c x)
    unfolding run_call log_statement
    run_call-quiet loglevel micros s c x n = rw (run_call, log_statement, n) refl

    fatal-is_logged :
        (loglevel level : LogLevel) → is_logged loglevel level ≡ false → is_fatal level ≡ false
    fatal-is_logged loglevel trace n = refl
    fatal-is_logged loglevel debug n = refl
    fatal-is_logged loglevel info n = refl
    fatal-is_logged loglevel warn n = refl
    fatal-is_logged loglevel error n = refl
    fatal-is_logged loglevel fatal n = absurd (cc)

    Ends-put :
        (x : σ) (l : Bytes) {lines : Bytes} {gone : Bool} (q : Process σ)
        → laws.content (k.output l x) ≡ laws.content x ++ l
        → Ends (k.output l x) lines gone q
        → Ends x (l ++ lines) gone q
    Ends-put x l {lines = lines} q put r = record {
      last = r.last;
      state_is = r.state_is;
      aborted_is = r.aborted_is;
      good = r.good;
      content_is = r.content_is ∙ ap (λ m. m ++ lines) put ∙ append_assoc (laws.content x) l lines;
    }

    -- Into any sink that is a log and in a good state, from a clock whose buffer holds the text of the
    -- last second in the present zone, or that has printed nothing: a sequence of statements and changes
    -- of the level, where each statement that is logged is one whose time can be printed, outside the
    -- second 0 of the epoch, and whose texts leave 32 bytes of the buffer, does not fail. It leaves
    -- behind what the sink held exactly the lines of the statements that the level lets through at
    -- their time, in order, up to the first fatal one; behind that one the sink was flushed and the
    -- process has aborted, and without one neither was done.
    pub run_calls-Ends :
        (cs : List Call) (loglevel : LogLevel) (c : Clock) (x : σ)
        → Cached gmtime timegm c
        → laws.IsGood x
        → AllFine gmtime timegm tid c.zone loglevel cs
        → (q : Process σ) × (run_calls gmtime timegm tid cs (logging loglevel c x) ≡ some q)
          × Ends x (lines_of gmtime timegm tid c.zone loglevel cs) (is_ended gmtime timegm tid cs) q
    unfolding run_calls run_call
    run_calls-Ends [] loglevel c x h g a = (
      logging loglevel c x,
      refl,
      record {
        last = x;
        state_is = refl;
        aborted_is = refl;
        good = g;
        content_is = sym (append-nil (laws.content x));
      },
    )
    run_calls-Ends (sets_level level ∷ cs) loglevel c x h g a =
        let (q, e, r) = run_calls-Ends cs level c x h g a in (q, e, r)
    run_calls-Ends (states micros s ∷ cs) loglevel c x h g a =
        elim (Bool-cases (is_logged loglevel s.level)) [
          | inl y ↦
              let f = a.0 y in
              let l = line_of gmtime timegm tid c.zone micros s in
              let short = line_of-length gmtime timegm tid c.zone micros s f in
              let said = run_call-behind loglevel micros s c x h y f in
              let put = laws.output-content l x short g in
              let good = laws.output-IsGood l x short g in
              elim (Bool-cases (is_fatal s.level)) [
                | inl d ↦ (
                  behind micros s c x f loglevel,
                  rw (run_calls, said, d) refl,
                  rw (y, d)
                      (record {
                        last = k.output l x;
                        state_is = refl;
                        aborted_is = refl;
                        good = good;
                        content_is = put ∙ ap (λ m. laws.content x ++ m) (sym (append-nil l));
                      }),
                )
                | inr d ↦
                    let c' = record c { t_time = f.text; t_lastsecond = seconds_of micros } in
                    let (q, e, r) =
                      run_calls-Ends cs loglevel c' (k.output l x) (inr f.text_is) good a.1 in
                    (q, rw (run_calls, said, d) e, rw (y, d) (Ends-put x l q put r))
              ]
          | inr n ↦
              let d = fatal-is_logged loglevel s.level n in
              let (q, e, r) = run_calls-Ends cs loglevel c x h g a.1 in
              (q, rw (run_calls, run_call-quiet loglevel micros s c x n) e, rw (n, d) r)
        ]
