-- ===== src/Logging/LogFile/Refine.antt =====
-- What any sequence of calls of glacier/base/logfile.cc leaves in the files: an append-only log.
use glacier.Common.{
  ℕ, ◌+◌, ◌≤◌, ◌<◌, ◌≡◌, refl, sym, ap, ◌∙◌, Option, none, some, List, [], ◌∷◌, ◌++◌, append-nil,
  append_assoc, length, All, Bytes, lt→ltb,
}
use mathlib.Core.Path.{subst}
use mathlib.Core.Option.{some-injective}
use glacier.Common.Text.{find_from}
use glacier.Logging.LogFile.{
  AppendFile, flush_file, Machine, LogFile, close_file, roll_file, settle, append, flush, unopened,
  new_log_file_with, new_log_file,
}
use glacier.Logging.LogFile.Keeps.{
  total, with_line, append_file-total, contents-append, logged, IsOpen, Keeps, flushed-Keeps,
  settle-Keeps,
}

-- A call of the log file: a line, with the answers of `fwrite` and the times that are read.
pub data Call : Type 0 where
  appends : List ℕ → ℕ → ℕ → Bytes → Call
  flushes : Call

unfoldable pub call : Machine → Call → LogFile → Option LogFile
call m (appends answers now later line) s = append m answers now later line s
call m flushes s = flush s

unfoldable pub run : Machine → List Call → LogFile → Option LogFile
run m [] s = some s
run m (c ∷ cs) s = elim (call m c s) [ none ↦ none | some t ↦ run m cs t ]

-- `fwrite` answers at least once, and its answers add up to the bytes of the line.
abbrev pub Suffices : Call → Type 0
Suffices (appends [] now later line) = ⊥
Suffices (appends (a ∷ answers) now later line) = length line ≤ a + total answers
Suffices flushes = Unit

-- The line that a call adds to the abstract log.
abbrev pub line_of : Call → Bytes
line_of (appends answers now later line) = line
line_of flushes = []

abbrev pub lines_of : List Call → Bytes
lines_of [] = []
lines_of (c ∷ cs) = line_of c ++ lines_of cs

-- The state behind a call whose bytes are all taken.
abbrev pub after : Machine → Call → AppendFile → LogFile → LogFile
after m (appends answers now later line) f s =
    settle m now later (with_line line f) (record s { file = some (with_line line f) })
after m flushes f s = record s { file = some (flush_file f) }

call-after :
    (m : Machine) (c : Call) (f : AppendFile) (s : LogFile)
    → s.file ≡ some f
    → Suffices c
    → call m c s ≡ some (after m c f s)
unfolding call append flush
call-after m (appends [] now later line) f s o h = elim h [ ]
call-after m (appends (a ∷ answers) now later line) f s o h =
    rw (call, append, o, append_file-total a answers line f h) refl
call-after m flushes f s o h = rw (call, flush, o) refl

after-Keeps :
    (m : Machine) (c : Call) (f : AppendFile) (s : LogFile)
    → s.file ≡ some f
    → Keeps (logged s ++ line_of c) (after m c f s)
after-Keeps m (appends answers now later line) f s o =
    let g = with_line line f in
    let (q, same) = settle-Keeps m now later g (record s { file = some g }) refl in
    (
      q,
      same
          ∙ contents-append s.closed (close_file (some g))
          ∙ rw (o, contents-append s.closed (close_file (some f)))
              (simp (append_assoc, append-nil)),
    )
after-Keeps m flushes f s o =
    let (q, same) = flushed-Keeps s.last_flush f s o in (q, same ∙ sym (append-nil (logged s)))

-- What every call of a kind `Q` that takes its bytes preserves, a run of such calls preserves, and
-- the run succeeds.
pub run-preserves {ℓ κ} :
    (m : Machine) (P : LogFile → Type ℓ) (Q : Call → Type κ)
    → ((c : Call) (f : AppendFile) (s : LogFile) → s.file ≡ some f → Q c → P s → P (after m c f s))
    → (cs : List Call) (s : LogFile) → IsOpen s
    → All Suffices cs
    → All Q cs
    → P s
    → (t : LogFile) × (run m cs s ≡ some t) × P t
unfolding run
run-preserves m P Q step [] s o h k p = (s, refl, p)
run-preserves m P Q step (c ∷ cs) s (f, o) h k p =
    let u = after m c f s in
    let (t, rest, q) =
      run-preserves m P Q step cs u (after-Keeps m c f s o).0 h.1 k.1 (step c f s o k.0 p) in
    (t, rw (run, call-after m c f s o h.0) rest, q)

-- What the constructor with a name and a size makes.
pub new_log_file-first :
    (m : Machine) (now : ℕ) (name : Bytes) (roll_size : ℕ) (s : LogFile)
    → new_log_file m now name roll_size ≡ some s
    → roll_file m now (unopened name roll_size 3 1024) ≡ s
unfolding new_log_file_with
new_log_file-first m now name roll_size s e = go (find_from b'/' name 0) e
  where
    go :
        (o : Option ℕ)
        → elim o as (λ x. Option LogFile) [
          | some slash ↦ none
          | none ↦ some (roll_file m now (unopened name roll_size 3 1024))
        ]
          ≡ some s
        → roll_file m now (unopened name roll_size 3 1024) ≡ s
    go (some slash) f = cc
    go none f = some-injective _ _ f

-- A log file made behind time 0 is open and empty.
pub new_log_file-IsOpen :
    (m : Machine) (now : ℕ) (name : Bytes) (roll_size : ℕ) (s : LogFile)
    → 0 < now
    → new_log_file m now name roll_size ≡ some s
    → IsOpen s × (logged s ≡ [])
unfolding roll_file
new_log_file-IsOpen m now name roll_size s p e =
    subst (λ t. IsOpen t × (logged t ≡ [])) (new_log_file-first m now name roll_size s e)
      (rw (roll_file, lt→ltb 0 now p) ((_, refl), refl))

-- Refinement of an append-only log. Whatever the sequence of appends and flushes, the clock and the
-- sizes of the writes, as long as a file is open, `fwrite` in the end takes every line whole,
-- and every `fopen` succeeds:
-- the calls succeed, a file stays open, and the files, oldest first, hold the log before followed by
-- the lines, in order.
pub run-refines :
    (m : Machine) (cs : List Call) (s : LogFile)
    → IsOpen s
    → All Suffices cs
    → (t : LogFile) × (run m cs s ≡ some t) × IsOpen t × (logged t ≡ logged s ++ lines_of cs)
unfolding run
run-refines m [] s o h = (s, refl, o, sym (append-nil (logged s)))
run-refines m (c ∷ cs) s (f, o) h =
    let (p, same) = after-Keeps m c f s o in
    let (t, rest, q, same') = run-refines m cs (after m c f s) p h.1 in
    (
      t,
      rw (run, call-after m c f s o h.0) rest,
      q,
      same' ∙ ap (λ x. x ++ lines_of cs) same ∙ append_assoc (logged s) (line_of c) (lines_of cs),
    )
