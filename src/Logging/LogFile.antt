-- ===== src/Logging/LogFile.antt =====
-- `AppendFile` and `LogFile` of glacier/base/logfile.h and logfile.cc. A call of `fwrite_unlocked`
-- takes the next answer of a script, how many bytes it took; `none` means that the script ended while
-- the loop goes on, or that the code fails. What `time` reads is an argument of each call, and so
-- are the name of the host, the process and the text that `strftime` makes of a time.
pub mod Rolls
pub mod Keeps
pub mod Refine
pub mod Names
pub mod Pipeline
pub mod Tests
use glacier.Common.{
  ℕ, ◌+◌, ◌-◌, ◌*◌, ◌/◌, ◌%◌, ◌^◌, min, Bool, true, false, Option, none, some, List, [], ◌∷◌, ◌++◌,
  length, take, drop, ltb, leb, ◌==◌, not, if◌then◌else◌, Bytes,
}
use glacier.Common.Text.{codes, find_from, to_string}

-- `content` is what was handed to the stream of the file, and `flushed` how many bytes of it
-- `fflush` or `fclose` wrote out.
pub record AppendFile : Type 0 where
  pub filename : Bytes
  pub content : Bytes
  pub flushed : ℕ
  pub written_bytes : ℕ

-- The constructor, whose `fopen` is taken to succeed: the source does not test it.
abbrev pub open_file : Bytes → AppendFile
open_file filename = record { filename = filename; content = []; flushed = 0; written_bytes = 0 }

-- `AppendFile::flush`; closing a file writes it out too.
abbrev pub flush_file : AppendFile → AppendFile
flush_file f = record f { flushed = length f.content }

-- `AppendFile::write`: how many bytes the call took, and the file behind it.
abbrev pub write : ℕ → Bytes → AppendFile → ℕ × AppendFile
write answer logline f = (
  min answer (length logline),
  record f { content = f.content ++ take (min answer (length logline)) logline },
)

-- The loop of `AppendFile::append`, over the bytes that remain.
unfoldable pub append_rest : List ℕ → Bytes → AppendFile → Option AppendFile
append_rest answers [] f = some f
append_rest [] (c ∷ cs) f = none
append_rest (a ∷ answers) (c ∷ cs) f =
    append_rest answers (drop (write a (c ∷ cs) f).0 (c ∷ cs)) (write a (c ∷ cs) f).1

abbrev pub count_bytes : ℕ → AppendFile → AppendFile
count_bytes len f = record f { written_bytes = (f.written_bytes + len) % 2 ^ 64 }

-- `AppendFile::append`, which calls `write` at least once.
unfoldable pub append_file : List ℕ → Bytes → AppendFile → Option AppendFile
append_file [] logline f = none
append_file (a ∷ answers) logline f =
    elim (append_rest answers (drop (write a logline f).0 logline) (write a logline f).1) [
      | none ↦ none
      | some g ↦ some (count_bytes (length logline) g)
    ]

pub record Machine : Type 0 where
  pub host : Option Bytes
  pub pid : ℕ
  pub strftime : ℕ → Bytes

-- `hostname`: a buffer of 256 bytes keeps 255 of them.
abbrev pub hostname : Machine → Bytes
hostname m = elim m.host [ none ↦ codes "unknownhost" | some name ↦ take 255 name ]

-- `getLogFileName` at the time that it reads; `strftime` is the text that `.%Y%m%d-%H%M%S.` asks for.
abbrev pub get_log_file_name : Machine → Bytes → ℕ → Bytes
get_log_file_name m basename now =
    basename ++ (m.strftime now ++ (hostname m ++ (codes "." ++ (to_string m.pid ++ codes ".log"))))

-- `closed` are the files that were open before, oldest first; `file` is null in front of the first.
pub record LogFile : Type 0 where
  pub basename : Bytes
  pub roll_size : ℕ
  pub flush_interval : ℕ
  pub check_every_n : ℕ
  pub count : ℕ
  pub start_of_period : ℕ
  pub last_roll : ℕ
  pub last_flush : ℕ
  pub file : Option AppendFile
  pub closed : List AppendFile

abbrev pub k_roll_per_seconds : ℕ
k_roll_per_seconds = 60 * 60 * 24

abbrev pub start_of_day : ℕ → ℕ
start_of_day now = now / k_roll_per_seconds * k_roll_per_seconds

-- The old file, closed by its last owner.
abbrev pub close_file : Option AppendFile → List AppendFile
close_file none = []
close_file (some f) = flush_file f ∷ []

-- `rollFile` at the time that it reads.
unfoldable pub roll_file : Machine → ℕ → LogFile → LogFile
roll_file m now s =
    if ltb s.last_roll now
    then record s {
      start_of_period = start_of_day now;
      last_roll = now;
      last_flush = now;
      file = some (open_file (get_log_file_name m s.basename now));
      closed = s.closed ++ close_file s.file;
    }
    else s

abbrev pub unopened : Bytes → ℕ → ℕ → ℕ → LogFile
unopened name roll_size flush_interval check_every_n = record {
  basename = name;
  roll_size = roll_size;
  flush_interval = flush_interval;
  check_every_n = check_every_n;
  count = 0;
  start_of_period = 0;
  last_roll = 0;
  last_flush = 0;
  file = none;
  closed = [];
}

-- The constructor with all its arguments; `none` is the assertion that fails.
unfoldable pub new_log_file_with : Machine → ℕ → Bytes → ℕ → ℕ → ℕ → Option LogFile
new_log_file_with m now name roll_size flush_interval check_every_n = elim (find_from b'/' name 0) [
  | some slash ↦ none
  | none ↦ some (roll_file m now (unopened name roll_size flush_interval check_every_n))
]

-- The constructor with a name and a size.
abbrev pub new_log_file : Machine → ℕ → Bytes → ℕ → Option LogFile
new_log_file m now name roll_size = new_log_file_with m now name roll_size 3 1024

-- What `append` does every `check_every_n` lines, at the time `now` that it reads and the time `later`
-- that `rollFile` reads behind it.
unfoldable pub check_time : Machine → ℕ → ℕ → AppendFile → LogFile → LogFile
check_time m now later f s =
    if not (start_of_day now == s.start_of_period)
    then roll_file m later s
    else if ltb (s.last_flush + s.flush_interval) now
    then record s { last_flush = now; file = some (flush_file f) }
    else s

-- `append`, behind the write of the line.
unfoldable pub settle : Machine → ℕ → ℕ → AppendFile → LogFile → LogFile
settle m now later f s =
    if ltb s.roll_size f.written_bytes
    then roll_file m later s
    else if leb s.check_every_n (s.count + 1)
    then check_time m now later f (record s { count = 0 })
    else record s { count = s.count + 1 }

-- `append`; `none` also where `file_` is null.
unfoldable pub append : Machine → List ℕ → ℕ → ℕ → Bytes → LogFile → Option LogFile
append m answers now later logline s = elim s.file [
  | none ↦ none
  | some f ↦ elim (append_file answers logline f) [
    | none ↦ none
    | some g ↦ some (settle m now later g (record s { file = some g }))
  ]
]

unfoldable pub flush : LogFile → Option LogFile
flush s = elim s.file [ none ↦ none | some f ↦ some (record s { file = some (flush_file f) }) ]
