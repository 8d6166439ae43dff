-- ===== src/Logging/Logger/Output.antt =====
-- Where the lines of glacier/base/logging.cc go: the functions `g_output` and `g_flush` that `Logger` calls, and
-- the level `g_loglevel` that its macros test. `DefaultOutput` writes to the standard output; how much of
-- its buffer the C library writes out at once is an argument.
pub mod Lines
pub mod Laws
pub mod Sinks
use glacier.Common.{
  ℕ, Bool, true, false, Option, none, some, List, [], ◌∷◌, ◌++◌, take, drop, if◌then◌else◌, Bytes,
}
use glacier.Common.Int.{ℤ}
use glacier.Calendar.Date.{Tm}
use glacier.Logging.Async.{AsyncLogging, append_line}
use glacier.Logging.Logger.{LogLevel, info}
use glacier.Logging.Logger.Clock.{Clock}
use glacier.Logging.Logger.Statement.{LogStatement, Effect, log_statement}

pub record Sink {ℓ} (σ : Type ℓ) : Type ℓ where
  pub output : Bytes → σ → σ
  pub flush : σ → σ

pub record Globals {ℓ} (σ : Type ℓ) : Type ℓ where
  pub loglevel : LogLevel
  pub sink : Sink σ

module _ {ℓ} {σ : Type ℓ} where
  abbrev pub set_log_level : LogLevel → Globals σ → Globals σ
  set_log_level level g = record g { loglevel = level }

  abbrev pub set_output : (Bytes → σ → σ) → Globals σ → Globals σ
  set_output out g = record g { sink = record g.sink { output = out } }

  abbrev pub set_flush : (σ → σ) → Globals σ → Globals σ
  set_flush flush g = record g { sink = record g.sink { flush = flush } }

-- The standard output: what was written, and what waits in its buffer.
pub record Stdout : Type 0 where
  pub written : Bytes
  pub buffered : Bytes

-- What a program has to log to: the standard output, and the `AsyncLogging` that it made.
pub record Outputs : Type 0 where
  pub stdout : Stdout
  pub async : AsyncLogging

unfoldable pub default_flush : Outputs → Outputs
default_flush o = record o {
  stdout = record { written = o.stdout.written ++ o.stdout.buffered; buffered = [] };
}

module _ (drain : Bytes → ℕ) where
  unfoldable pub default_output : Bytes → Outputs → Outputs
  default_output msg o =
      let all = o.stdout.buffered ++ msg in
      record o {
        stdout = record {
          written = o.stdout.written ++ take (drain all) all;
          buffered = drop (drain all) all;
        };
      }

  abbrev pub default_globals : Globals Outputs
  default_globals = record {
    loglevel = info;
    sink = record { output = default_output; flush = default_flush };
  }

  -- The globals behind `setOutput` with a function that hands the message to `AsyncLogging::append`.
  abbrev pub async_globals : Globals Outputs
  async_globals = set_output (λ msg o. record o { async = append_line msg o.async }) default_globals

-- A thread that logs: a statement at a time in microseconds, or a change of the level.
pub data Call : Type 0 where
  states : ℤ → LogStatement → Call
  sets_level : LogLevel → Call

pub record Process {ℓ} (σ : Type ℓ) : Type ℓ where
  pub globals : Globals σ
  pub clock : Clock
  pub state : σ
  pub aborted : Bool

-- The calls of the destructor of `Logger`.
abbrev pub perform {ℓ} : {σ : Type ℓ} → Effect → Process σ → Process σ
perform e p = elim e.message [
  | none ↦ p
  | some msg ↦
      let x = p.globals.sink.output msg p.state in
      if e.aborts
      then record p { state = p.globals.sink.flush x; aborted = true }
      else record p { state = x }
]

module _ (gmtime : ℤ → Tm) (timegm : Tm → ℤ) (tid : Bytes) where
  unfoldable pub run_call {ℓ} : {σ : Type ℓ} → Call → Process σ → Option (Process σ)
  run_call (sets_level level) p = some (record p { globals = set_log_level level p.globals })
  run_call (states micros s) p =
      elim (log_statement gmtime timegm p.globals.loglevel micros tid s p.clock) [
        | none ↦ none
        | some (c, e) ↦ some (perform e (record p { clock = c }))
      ]

  -- Nothing runs behind `abort`.
  unfoldable pub run_calls {ℓ} : {σ : Type ℓ} → List Call → Process σ → Option (Process σ)
  run_calls [] p = some p
  run_calls (c ∷ cs) p = elim (run_call c p) [
    | none ↦ none
    | some q ↦ let rest = run_calls cs q in if q.aborted then some q else rest
  ]
