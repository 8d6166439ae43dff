-- ===== src/Logging/LogFile/Pipeline.antt =====
-- The way of a line through glacier/base/asynclogging.cc into the files of logfile.cc.
use glacier.Common.{ℕ, ◌<◌, ◌≡◌, refl, sym, ap, ◌∙◌, some, List, [], ◌∷◌, ◌++◌, All, Bytes}
use glacier.Logging.Async.{AsyncLogging, Reach}
use glacier.Logging.Async.Content.{flat, pending}
use glacier.Logging.Async.Order.{IsCalm, content-Reach}
use glacier.Logging.LogFile.{Machine, LogFile, new_log_file}
use glacier.Logging.LogFile.Keeps.{logged}
use glacier.Logging.LogFile.Refine.{
  Call, appends, flushes, run, Suffices, lines_of, run-refines, new_log_file-IsOpen,
}

-- The lines that the calls append, one by one.
abbrev pub appended : List Call → List Bytes
appended [] = []
appended (appends answers now later line ∷ cs) = line ∷ appended cs
appended (flushes ∷ cs) = appended cs

flat-appended : (cs : List Call) → flat (appended cs) ≡ lines_of cs
flat-appended [] = refl
flat-appended (appends answers now later line ∷ cs) = ap (λ x. line ++ x) (flat-appended cs)
flat-appended (flushes ∷ cs) = flat-appended cs

-- However the threads interleave, as long as every line is shorter than a buffer, at most 25 buffers
-- wait when the thread writes, `fwrite` in the end takes every line whole, and every `fopen` succeeds:
-- once the messages of
-- the thread went through a log file made behind time 0, the files, oldest first, followed by the
-- bytes that wait in buffers, are exactly the lines logged so far, in order.
pub logged-Reach :
    (notice : ℕ → Bytes) (ls : List Bytes) (s : AsyncLogging) (r : Reach notice ls s) (m : Machine)
    (now : ℕ) (name : Bytes) (roll_size : ℕ) (new : LogFile) (cs : List Call)
    → IsCalm notice ls s r
    → 0 < now
    → new_log_file m now name roll_size ≡ some new
    → appended cs ≡ s.output
    → All Suffices cs
    → (t : LogFile) × (run m cs new ≡ some t) × (logged t ++ pending s ≡ flat ls)
logged-Reach notice ls s r m now name roll_size new cs calm p made same h =
    let (o, empty) = new_log_file-IsOpen m now name roll_size new p made in
    let (t, e, q, grown) = run-refines m cs new o h in
    (
      t,
      e,
      ap (λ x. x ++ pending s)
            (grown ∙ ap (λ x. x ++ lines_of cs) empty ∙ sym (flat-appended cs) ∙ ap flat same)
          ∙ content-Reach notice ls s r calm,
    )
