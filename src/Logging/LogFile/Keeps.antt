-- ===== src/Logging/LogFile/Keeps.antt =====
-- What the parts of `LogFile::append` of glacier/base/logfile.cc do to the bytes of the files.
use glacier.Common.{
  ℕ, ◌+◌, ◌≤◌, ◌≡◌, refl, sym, ap, ◌∙◌, inl, inr, some, List, [], ◌∷◌, ◌++◌, append-nil,
  append_assoc, length, length-drop, take, drop, take-append-drop, min, ltb, leb, ◌==◌, not,
  Bool-cases, arith, Bytes,
}
use glacier.Logging.LogFile.{
  AppendFile, flush_file, write, append_rest, append_file, count_bytes, Machine, LogFile,
  close_file, start_of_day, roll_file, check_time, settle,
}

abbrev pub total : List ℕ → ℕ
total [] = 0
total (a ∷ answers) = a + total answers

-- With answers that add up to the bytes that remain, the loop writes them all.
append_rest-total :
    (answers : List ℕ) (line : Bytes) (f : AppendFile)
    → length line ≤ total answers
    → append_rest answers line f ≡ some (record f { content = f.content ++ line })
unfolding append_rest
append_rest-total answers [] f h =
    ap (λ c. some (record f { content = c })) (sym (append-nil f.content))
append_rest-total [] (c ∷ cs) f h = absurd (omega (arith, h))
append_rest-total (a ∷ answers) (c ∷ cs) f h =
    let n = min a (length (c ∷ cs)) in
    append_rest-total answers (drop n (c ∷ cs)) (write a (c ∷ cs) f).1
      (omega (arith, h, length-drop n (c ∷ cs)))
    ∙ ap (λ x. some (record f { content = x }))
        (append_assoc f.content (take n (c ∷ cs)) (drop n (c ∷ cs))
          ∙ ap (λ x. f.content ++ x) (take-append-drop n (c ∷ cs)))

-- The file behind an append that succeeds.
abbrev pub with_line : Bytes → AppendFile → AppendFile
with_line line f = count_bytes (length line) (record f { content = f.content ++ line })

pub append_file-total :
    (a : ℕ) (answers : List ℕ) (line : Bytes) (f : AppendFile)
    → length line ≤ a + total answers
    → append_file (a ∷ answers) line f ≡ some (with_line line f)
unfolding append_file
append_file-total a answers line f h =
    let n = min a (length line) in
    rw
      (
        append_file,
        append_rest-total answers (drop n line) (write a line f).1
            (omega (arith, h, length-drop n line)),
      )
      (ap (λ x. some (count_bytes (length line) (record f { content = x })))
        (append_assoc f.content (take n line) (drop n line)
          ∙ ap (λ x. f.content ++ x) (take-append-drop n line)))

abbrev pub contents : List AppendFile → Bytes
contents [] = []
contents (f ∷ fs) = f.content ++ contents fs

pub contents-append : (fs gs : List AppendFile) → contents (fs ++ gs) ≡ contents fs ++ contents gs
contents-append [] gs = refl
contents-append (f ∷ fs) gs =
    ap (λ x. f.content ++ x) (contents-append fs gs)
    ∙ sym (append_assoc f.content (contents fs) (contents gs))

-- The abstract log: the bytes of all files, oldest first.
abbrev pub logged : LogFile → Bytes
logged s = contents (s.closed ++ close_file s.file)

-- A state in which a file is open.
abbrev pub IsOpen : LogFile → Type 0
IsOpen s = (f : AppendFile) × (s.file ≡ some f)

-- The file is open and the log is the one given.
abbrev pub Keeps : Bytes → LogFile → Type 0
Keeps log s = IsOpen s × (logged s ≡ log)

roll_file-Keeps :
    (m : Machine) (now : ℕ) (s : LogFile) → IsOpen s → Keeps (logged s) (roll_file m now s)
unfolding roll_file
roll_file-Keeps m now s o = elim (Bool-cases (ltb s.last_roll now)) [
  | inl e ↦
      rw (roll_file, e)
        (
          (_, refl),
          contents-append (s.closed ++ close_file s.file) (_ ∷ []) ∙ append-nil (logged s),
        )
  | inr e ↦ rw (roll_file, e) (o, refl)
]

-- Writing the open file out changes no byte of the log.
pub flushed-Keeps :
    (t : ℕ) (f : AppendFile) (s : LogFile)
    → s.file ≡ some f
    → Keeps (logged s) (record s { last_flush = t; file = some (flush_file f) })
flushed-Keeps t f s o = ((_, refl), rw o refl)

check_time-Keeps :
    (m : Machine) (now later : ℕ) (f : AppendFile) (s : LogFile)
    → s.file ≡ some f
    → Keeps (logged s) (check_time m now later f s)
unfolding check_time
check_time-Keeps m now later f s o =
    elim (Bool-cases (not (start_of_day now == s.start_of_period))) [
      | inl e ↦ rw (check_time, e) (roll_file-Keeps m later s (f, o))
      | inr e ↦ elim (Bool-cases (ltb (s.last_flush + s.flush_interval) now)) [
        | inl d ↦ rw (check_time, e, d) (flushed-Keeps now f s o)
        | inr d ↦ rw (check_time, e, d) ((f, o), refl)
      ]
    ]

pub settle-Keeps :
    (m : Machine) (now later : ℕ) (f : AppendFile) (s : LogFile)
    → s.file ≡ some f
    → Keeps (logged s) (settle m now later f s)
unfolding settle
settle-Keeps m now later f s o = elim (Bool-cases (ltb s.roll_size f.written_bytes)) [
  | inl e ↦ rw (settle, e) (roll_file-Keeps m later s (f, o))
  | inr e ↦ elim (Bool-cases (leb s.check_every_n (s.count + 1))) [
    | inl d ↦ rw (settle, e, d) (check_time-Keeps m now later f (record s { count = 0 }) o)
    | inr d ↦ rw (settle, e, d) ((f, o), refl)
  ]
]
