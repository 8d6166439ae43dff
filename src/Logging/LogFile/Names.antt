-- ===== src/Logging/LogFile/Names.antt =====
-- The files that glacier/base/logfile.cc opens have different names, and when none is opened.
use glacier.Common.{
  ℕ, ◌+◌, ◌≤◌, ◌<◌, ◌≡◌, refl, sym, ap, ◌∙◌, inl, inr, ◌≢◌, some, List, [], ◌∷◌, ◌++◌, map, All,
  All-append, ltb, leb, ◌==◌, not, Bool-cases, arith, Bytes, ltb→lt,
}
use mathlib.Core.Path.{subst}
use mathlib.Core.List.{append_cancel_left, append_cancel_right}
use glacier.Logging.LogFile.{
  AppendFile, flush_file, get_log_file_name, Machine, LogFile, close_file, start_of_day,
  new_log_file, roll_file, check_time, settle, unopened,
}
use glacier.Logging.LogFile.Keeps.{with_line}
use glacier.Logging.LogFile.Refine.{
  Call, appends, flushes, run, Suffices, after, run-preserves, new_log_file-first,
  new_log_file-IsOpen,
}

abbrev pub names : List AppendFile → List Bytes
names fs = map (λ f. f.filename) fs

-- The names of all the files, oldest first.
abbrev pub names_of : LogFile → List Bytes
names_of s = names (s.closed ++ close_file s.file)

abbrev pub IsDistinct : List Bytes → Type 0
IsDistinct [] = Unit
IsDistinct (n ∷ ns) = All (λ x. n ≢ x) ns × IsDistinct ns

abbrev Ascends : List ℕ → Type 0
Ascends [] = Unit
Ascends (t ∷ ts) = All (λ u. t < u) ts × Ascends ts

-- The times at which the files of a state were opened.
abbrev Dated : Machine → LogFile → Type 0
Dated m s =
    (ts : List ℕ) × Ascends ts
    × All (λ u. u ≤ s.last_roll) ts
    × (names_of s ≡ map (get_log_file_name m s.basename) ts)

Ascends-append :
    (ts : List ℕ) (b u : ℕ)
    → Ascends ts
    → All (λ t. t ≤ b) ts
    → b < u
    → Ascends (ts ++ u ∷ []) × All (λ t. t ≤ u) (ts ++ u ∷ [])
Ascends-append [] b u a h l = ((tt, tt), (omega arith, tt))
Ascends-append (t ∷ ts) b u a h l =
    let (more, below) = Ascends-append ts b u a.1 h.1 l in
    (
      (All-append (λ x. t < x) ts (u ∷ []) a.0 (omega (arith, l, h.0), tt), more),
      (omega (arith, l, h.0), below),
    )

names-append : (fs gs : List AppendFile) → names (fs ++ gs) ≡ names fs ++ names gs
names-append [] gs = refl
names-append (f ∷ fs) gs = ap (λ x. f.filename ∷ x) (names-append fs gs)

map-append : (g : ℕ → Bytes) (ts us : List ℕ) → map g (ts ++ us) ≡ map g ts ++ map g us
map-append g [] us = refl
map-append g (t ∷ ts) us = ap (λ x. g t ∷ x) (map-append g ts us)

-- Writing to the open file changes no name.
names_of-same :
    (s : LogFile) (f g : AppendFile)
    → s.file ≡ some f
    → g.filename ≡ f.filename
    → names (s.closed ++ close_file (some g)) ≡ names_of s
names_of-same s f g o e =
    rw
      (
        o,
        names-append s.closed (close_file (some g)),
        names-append s.closed (close_file (some f)),
        e,
      )
      refl

roll_file-Dated : (m : Machine) (now : ℕ) (s : LogFile) → Dated m s → Dated m (roll_file m now s)
unfolding roll_file
roll_file-Dated m now s (ts, a, h, e) = elim (Bool-cases (ltb s.last_roll now)) [
  | inl l ↦
      let (more, below) = Ascends-append ts s.last_roll now a h (ltb→lt s.last_roll now l) in
      rw (roll_file, l)
        (
          ts ++ now ∷ [],
          more,
          below,
          names-append (s.closed ++ close_file s.file) (_ ∷ [])
              ∙ ap (λ x. x ++ get_log_file_name m s.basename now ∷ []) e
              ∙ sym (map-append (get_log_file_name m s.basename) ts (now ∷ [])),
        )
  | inr l ↦ rw (roll_file, l) (ts, a, h, e)
]

check_time-Dated :
    (m : Machine) (now later : ℕ) (f : AppendFile) (s : LogFile)
    → s.file ≡ some f
    → Dated m s
    → Dated m (check_time m now later f s)
unfolding check_time
check_time-Dated m now later f s o d =
    elim (Bool-cases (not (start_of_day now == s.start_of_period))) [
      | inl e ↦ rw (check_time, e) (roll_file-Dated m later s d)
      | inr e ↦ elim (Bool-cases (ltb (s.last_flush + s.flush_interval) now)) [
        | inl l ↦
            rw (check_time, e, l) (d.0, d.1, d.2, names_of-same s f (flush_file f) o refl ∙ d.3)
        | inr l ↦ rw (check_time, e, l) d
      ]
    ]

settle-Dated :
    (m : Machine) (now later : ℕ) (f : AppendFile) (s : LogFile)
    → s.file ≡ some f
    → Dated m s
    → Dated m (settle m now later f s)
unfolding settle
settle-Dated m now later f s o d = elim (Bool-cases (ltb s.roll_size f.written_bytes)) [
  | inl e ↦ rw (settle, e) (roll_file-Dated m later s d)
  | inr e ↦ elim (Bool-cases (leb s.check_every_n (s.count + 1))) [
    | inl l ↦ rw (settle, e, l) (check_time-Dated m now later f (record s { count = 0 }) o d)
    | inr l ↦ rw (settle, e, l) d
  ]
]

after-Dated :
    (m : Machine) (c : Call) (f : AppendFile) (s : LogFile)
    → s.file ≡ some f
    → Unit {0}
    → Dated m s
    → Dated m (after m c f s)
after-Dated m (appends answers now later line) f s o h d =
    settle-Dated m now later (with_line line f) (record s { file = some (with_line line f) }) refl
      (d.0, d.1, d.2, names_of-same s f (with_line line f) o refl ∙ d.3)
after-Dated m flushes f s o h d = (d.0, d.1, d.2, names_of-same s f (flush_file f) o refl ∙ d.3)

-- Different times make different names, where they make different texts.
file_name-injective :
    (m : Machine) (name : Bytes) (t u : ℕ)
    → get_log_file_name m name t ≡ get_log_file_name m name u
    → m.strftime t ≡ m.strftime u
file_name-injective m name t u e =
    append_cancel_right (m.strftime t) (m.strftime u) _ (append_cancel_left name _ _ e)

distinct :
    (m : Machine) (name : Bytes) (ts : List ℕ)
    → ((t u : ℕ) → m.strftime t ≡ m.strftime u → t ≡ u)
    → Ascends ts
    → IsDistinct (map (get_log_file_name m name) ts)
distinct m name [] inj a = tt
distinct m name (t ∷ ts) inj a = (go ts a.0, distinct m name ts inj a.1)
  where
    go :
        (us : List ℕ)
        → All (λ u. t < u) us
        → All (λ x. get_log_file_name m name t ≢ x) (map (get_log_file_name m name) us)
    go [] h = tt
    go (u ∷ us) h =
        (λ e. absurd (omega (arith, h.0, inj t u (file_name-injective m name t u e))), go us h.1)

-- No file is opened twice: as long as `strftime` makes different texts of different times, whatever
-- the sequence of appends and flushes on a log file made behind time 0, as long as `fwrite` in the end
-- takes every line whole, and whatever the clock reads,
-- also where it runs backwards, the files of the run have different names.
pub run-IsDistinct :
    (m : Machine) (now : ℕ) (name : Bytes) (roll_size : ℕ) (s : LogFile) (cs : List Call)
    → ((t u : ℕ) → m.strftime t ≡ m.strftime u → t ≡ u)
    → 0 < now
    → new_log_file m now name roll_size ≡ some s
    → All Suffices cs
    → (t : LogFile) × (run m cs s ≡ some t) × IsDistinct (names_of t)
run-IsDistinct m now name roll_size s cs inj p made h =
    let (o, empty) = new_log_file-IsOpen m now name roll_size s p made in
    let first =
      subst (Dated m) (new_log_file-first m now name roll_size s made)
        (roll_file-Dated m now (unopened name roll_size 3 1024) ([], tt, tt, refl)) in
    let (t, e, (ts, a, b, same)) =
      run-preserves m (Dated m) (λ c. Unit {0}) (after-Dated m) cs s o h (units cs) first in
    (t, e, subst IsDistinct (sym same) (distinct m t.basename ts inj a))
  where
    units : (cs : List Call) → All (λ c. Unit {0}) cs
    units [] = tt
    units (c ∷ cs) = (tt, units cs)
