-- ===== src/Logging/LogFile/Rolls.antt =====
-- When glacier/base/logfile.cc opens no new file.
use glacier.Common.{
  ℕ, ◌≤◌, ◌≡◌, refl, sym, ap, ◌∙◌, inl, inr, some, List, ◌++◌, All, ltb, Bool-cases, arith, ltb→lt,
}
use mathlib.Core.Option.{some-injective}
use glacier.Logging.LogFile.{AppendFile, Machine, LogFile, roll_file, check_time, settle}
use glacier.Logging.LogFile.Keeps.{IsOpen, logged}
use glacier.Logging.LogFile.Refine.{
  run-refines, Call, appends, flushes, run, Suffices, lines_of, after, run-preserves,
}

-- `rollFile` reads no time behind that of the last roll.
abbrev pub IsStill : ℕ → Call → Type 0
IsStill last (appends answers now later line) = later ≤ last
IsStill last flushes = Unit

-- The files closed are the given ones, and so is the time of the last roll.
abbrev Stays : List AppendFile → ℕ → LogFile → Type 0
Stays fs last s = (s.closed ≡ fs) × (s.last_roll ≡ last)

roll_file_late : (m : Machine) (now : ℕ) (s : LogFile) → now ≤ s.last_roll → roll_file m now s ≡ s
unfolding roll_file
roll_file_late m now s h = elim (Bool-cases (ltb s.last_roll now)) [
  | inl e ↦ absurd (omega (arith, h, ltb→lt s.last_roll now e))
  | inr e ↦ rw (roll_file, e) refl
]

after-Stays :
    (m : Machine) (fs : List AppendFile) (last : ℕ) (c : Call) (f : AppendFile) (s : LogFile)
    → s.file ≡ some f
    → IsStill last c
    → Stays fs last s
    → Stays fs last (after m c f s)
unfolding settle check_time roll_file
after-Stays m fs last (appends answers now later line) f s o h (e, d) = ground (arith)
after-Stays m fs last flushes f s o h d = d

-- Within a second the size is no bound: as long as a file is open, `rollFile` reads no time behind
-- that of the last roll, and `fwrite` in the end takes every line whole, no file is closed and the log
-- still grows by every line, however much is appended.
pub run-IsStill :
    (m : Machine) (cs : List Call) (s : LogFile)
    → IsOpen s
    → All Suffices cs
    → All (IsStill s.last_roll) cs
    → (t : LogFile) × (run m cs s ≡ some t)
      × (t.closed ≡ s.closed)
      × (logged t ≡ logged s ++ lines_of cs)
run-IsStill m cs s o h k =
    let (t, e, (same, last)) =
      run-preserves m (Stays s.closed s.last_roll) (IsStill s.last_roll)
        (after-Stays m s.closed s.last_roll) cs s o h k (refl, refl) in
    let (u, d, q, grown) = run-refines m cs s o h in
    (t, e, same, ap logged (some-injective _ _ (sym e ∙ d)) ∙ grown)
