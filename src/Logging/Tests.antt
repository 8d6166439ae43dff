-- ===== src/Logging/Tests.antt =====
-- Runs of glacier/base/logstream.cc, and instances of its theorems.
use glacier.Common.{ℕ, ◌≡◌, refl, sym, arith, true, some, List, [], ◌∷◌, ◌++◌, All, Bytes}
use glacier.Common.Text.{codes, find_byte}
use glacier.Logging.FixedBuffer.{append}
use glacier.Logging.Async.{
  AsyncLogging, started, append_line, inside, writing, swap_buffers, write_buffers, Reach, begins,
  goes, logs, enters, swaps, writes, refill, messages,
}
use glacier.Logging.Async.Safe.{Invariant, Reach-Invariant, Reach-goes_on}
use glacier.Logging.Async.Content.{content, flat, pending}
use glacier.Logging.Async.Order.{IsCalm, content-Reach}
use glacier.Logging.LogFile.{Machine, LogFile, new_log_file, new_log_file_with, roll_file, unopened}
use glacier.Logging.LogFile.Keeps.{logged}
use glacier.Logging.LogFile.Refine.{Call, appends, flushes, run}
use glacier.Logging.LogFile.Pipeline.{logged-Reach}
use glacier.Logging.Stream.{Value, bool, string}
use glacier.Logging.Stream.Laws.{IsPrintable}

abbrev line : List Value
line = string (codes "x = ") ∷ bool true ∷ string (codes " done") ∷ []

line-IsPrintable : All IsPrintable line
line-IsPrintable = (tt, (tt, (tt, tt)))

abbrev notice : ℕ → Bytes
notice n = codes "Dropped"

abbrev line_a : Bytes
line_a = codes "a line\n"

abbrev one_logged : AsyncLogging
one_logged = append_line line_a started

abbrev entered : AsyncLogging
entered = record one_logged { place = inside }

abbrev logs_of_run : List Bytes
logs_of_run = ((([] ++ line_a ∷ []) ++ []) ++ [])

-- A line is one_logged and the thread takes the buffers.
swapped_run :
    (t : AsyncLogging) × (r : Reach notice logs_of_run t) × IsCalm notice logs_of_run t r
    × (t.place ≡ writing)
unfolding append_line swap_buffers
swapped_run = (
  _,
  goes _ [] entered _
      (goes _ [] one_logged entered
        (goes [] (line_a ∷ []) started one_logged begins (logs line_a started))
        (enters one_logged refl refl))
      (swaps entered _ refl refl),
  (((tt, omega arith), tt), tt),
  refl,
)

-- The thread writes the line.
written_run :
    (t : AsyncLogging) × (r : Reach notice (logs_of_run ++ []) t) × IsCalm notice
      (logs_of_run ++ [])
      t
      r
    × (t.output ≡ line_a ∷ [])
unfolding append_line swap_buffers write_buffers refill messages append swapped_run
written_run = (
  _,
  goes logs_of_run [] swapped_run.0 _ swapped_run.1 (writes swapped_run.0 _ swapped_run.3 refl),
  (swapped_run.2, omega arith),
  refl,
)

-- A machine whose times are printed as single bytes, and a file that it makes at second 100.
abbrev machine : Machine
machine = record { host = some (codes "web"); pid = 7; strftime = λ t. t ∷ [] }

abbrev made : LogFile
made = roll_file machine 100 (unopened (codes "log") 4000 3 1024)

made_lem : new_log_file machine 100 (codes "log") 4000 ≡ some made
unfolding new_log_file_with find_byte
made_lem = refl

-- The line, which the kernel takes in two parts.
abbrev calls : List Call
calls = appends (3 ∷ 0 ∷ 9 ∷ []) 101 101 line_a ∷ flushes ∷ []

logged-Reach_example :
    (t : LogFile) × (run machine calls made ≡ some t)
    × (logged t ++ pending written_run.0 ≡ flat (logs_of_run ++ []))
logged-Reach_example =
    logged-Reach notice (logs_of_run ++ []) written_run.0 written_run.1 machine 100 (codes "log")
      4000 made calls written_run.2 (omega arith) made_lem (sym written_run.3)
      (omega arith, (tt, tt))

content-Reach_example : content swapped_run.0 ≡ line_a
content-Reach_example = content-Reach notice logs_of_run swapped_run.0 swapped_run.1 swapped_run.2

Reach-Invariant_example : Invariant swapped_run.0
Reach-Invariant_example = Reach-Invariant notice logs_of_run swapped_run.0 swapped_run.1

Reach-goes_on_example :
    (swapped_run.0.place ≡ inside → (t : AsyncLogging) × (swap_buffers swapped_run.0 ≡ some t))
    × (swapped_run.0.place ≡ writing
        → (t : AsyncLogging) × (write_buffers notice swapped_run.0 ≡ some t))
Reach-goes_on_example = Reach-goes_on notice logs_of_run swapped_run.0 swapped_run.1
