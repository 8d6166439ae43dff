-- ===== src/Logging/LogFile/Tests.antt =====
-- Runs of glacier/base/logfile.cc, and instances of its theorems.
use glacier.Common.{◌≡◌, refl, arith, some, List, [], ◌∷◌, ◌++◌}
use mathlib.Core.List.{head-eq_of_cons-eq}
use glacier.Common.Text.{codes, find_byte}
use glacier.Logging.LogFile.{Machine, LogFile, new_log_file, new_log_file_with, roll_file, unopened}
use glacier.Logging.LogFile.Keeps.{IsOpen, logged}
use glacier.Logging.LogFile.Refine.{Call, appends, flushes, run, run-refines}
use glacier.Logging.LogFile.Names.{IsDistinct, names_of, run-IsDistinct}

-- A machine whose times are printed as single bytes.
abbrev machine : Machine
machine = record { host = some (codes "web"); pid = 7; strftime = λ t. t ∷ [] }

-- A file that rolls behind 4 bytes, made at second 100.
abbrev made : LogFile
made = roll_file machine 100 (unopened (codes "log") 4 3 1024)

made_lem : new_log_file machine 100 (codes "log") 4 ≡ some made
unfolding new_log_file_with find_byte
made_lem = refl

made-IsOpen : IsOpen made
unfolding roll_file
made-IsOpen = (_, refl)

-- Two lines, the second of which the kernel takes in two parts.
abbrev calls : List Call
calls =
    appends (9 ∷ []) 101 101 (codes "first\n")
    ∷ flushes
    ∷ appends (3 ∷ 0 ∷ 9 ∷ []) 102 103 (codes "second\n")
    ∷ []

run-refines_example :
    (t : LogFile) × (run machine calls made ≡ some t)
    × IsOpen t
    × (logged t ≡ logged made ++ codes "first\nsecond\n")
run-refines_example =
    run-refines machine calls made made-IsOpen (omega arith, (tt, (omega arith, tt)))

run-IsDistinct_example : (t : LogFile) × (run machine calls made ≡ some t) × IsDistinct (names_of t)
run-IsDistinct_example =
    run-IsDistinct machine 100 (codes "log") 4 made calls (λ t u e. head-eq_of_cons-eq e)
      (omega arith) made_lem (omega arith, (tt, (omega arith, tt)))
