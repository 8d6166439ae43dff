-- ===== src/Logging/Async.antt =====
-- `AsyncLogging` of glacier/base/asynclogging.cc: the front end that the other threads call, and the
-- thread that writes. The mutex makes `append` and the first part of a round of the thread whole
-- steps; `Step` lets them come in any order. `output` are the calls of `LogFile::append`, and the
-- text that tells of dropped messages is an argument, since it holds a time.
pub mod Content
pub mod Order
pub mod Rounds
pub mod Safe
use glacier.Common.{
  ℕ, ◌-◌, ◌≡◌, Bool, true, false, Option, none, some, List, [], ◌∷◌, ◌++◌, map, length, take, ltb,
  if◌then◌else◌, Bytes,
}
use glacier.Logging.FixedBuffer.{FixedBuffer, k_large_buffer, new_buffer, avail, append, reset}

-- Where the thread stands: at the test of `running_`, behind it, between the two parts of a round,
-- or at its end.
pub data Place : Type 0 where
  at_test inside writing ended : Place

pub record AsyncLogging : Type 0 where
  pub running : Bool
  pub current_buffer : FixedBuffer
  pub next_buffer : Option FixedBuffer
  pub buffers : List FixedBuffer
  pub place : Place
  pub new_buffer1 : Option FixedBuffer
  pub new_buffer2 : Option FixedBuffer
  pub buffers_to_write : List FixedBuffer
  pub output : List Bytes

abbrev pub large_buffer : FixedBuffer
large_buffer = new_buffer k_large_buffer

-- The state behind `start`.
abbrev pub started : AsyncLogging
started = record {
  running = true;
  current_buffer = large_buffer;
  next_buffer = some large_buffer;
  buffers = [];
  place = at_test;
  new_buffer1 = some large_buffer;
  new_buffer2 = some large_buffer;
  buffers_to_write = [];
  output = [];
}

-- The buffer that takes the place of a full one.
abbrev pub next_or_new : Option FixedBuffer → FixedBuffer
next_or_new none = large_buffer
next_or_new (some b) = b

unfoldable pub append_line : Bytes → AsyncLogging → AsyncLogging
append_line line s =
    if ltb (length line) (avail s.current_buffer)
    then record s { current_buffer = append s.current_buffer line }
    else record s {
      buffers = s.buffers ++ s.current_buffer ∷ [];
      current_buffer = append (next_or_new s.next_buffer) line;
      next_buffer = none;
    }

abbrev pub stop : AsyncLogging → AsyncLogging
stop s = record s { running = false }

-- The part of a round under the mutex; `none` is the use of a null pointer.
unfoldable pub swap_buffers : AsyncLogging → Option AsyncLogging
swap_buffers s = elim s.new_buffer1 [
  | none ↦ none
  | some b ↦ some (elim s.next_buffer [
    | none ↦ record s {
      current_buffer = b;
      new_buffer1 = none;
      buffers_to_write = s.buffers ++ s.current_buffer ∷ [];
      buffers = [];
      next_buffer = s.new_buffer2;
      new_buffer2 = none;
      place = writing;
    }
    | some n ↦ record s {
      current_buffer = b;
      new_buffer1 = none;
      buffers_to_write = s.buffers ++ s.current_buffer ∷ [];
      buffers = [];
      place = writing;
    }
  ])
]

-- The last buffer of the list taken back, for a pointer that is null.
unfoldable pub refill :
    Option FixedBuffer → List FixedBuffer → Option (FixedBuffer × List FixedBuffer)
refill (some b) bs = some (b, bs)
refill none [] = none
refill none (b ∷ []) = some (reset b, [])
refill none (b ∷ c ∷ bs) = elim (refill none (c ∷ bs)) [
  | none ↦ none
  | some (last, front) ↦ some (last, b ∷ front)
]

abbrev pub datas : List FixedBuffer → List Bytes
datas bs = map (λ b. b.written) bs

-- What is written of a list of buffers.
unfoldable pub messages : (ℕ → Bytes) → List FixedBuffer → List Bytes
messages notice bs =
    if ltb 25 (length bs) then notice (length bs - 2) ∷ datas (take 2 bs) else datas bs

-- The part of a round without the mutex; `none` is an assertion that fails.
unfoldable pub write_buffers : (ℕ → Bytes) → AsyncLogging → Option AsyncLogging
write_buffers notice s = elim (refill s.new_buffer1 (take 2 s.buffers_to_write)) [
  | none ↦ none
  | some (b1, rest) ↦ elim (refill s.new_buffer2 rest) [
    | none ↦ none
    | some (b2, rest') ↦ some (record s {
      new_buffer1 = some b1;
      new_buffer2 = some b2;
      buffers_to_write = [];
      output = s.output ++ messages notice s.buffers_to_write;
      place = at_test;
    })
  ]
]

-- One step of the program with the lines that it logs; `notice` is the text about dropped messages.
pub data Step (notice : ℕ → Bytes) : List Bytes → AsyncLogging → AsyncLogging → Type 0 where
  logs : (line : Bytes) (s : AsyncLogging) → Step notice (line ∷ []) s (append_line line s)
  stops : (s : AsyncLogging) → Step notice [] s (stop s)
  enters :
      (s : AsyncLogging)
      → s.place ≡ at_test
      → s.running ≡ true
      → Step notice [] s (record s { place = inside })
  leaves :
      (s : AsyncLogging)
      → s.place ≡ at_test
      → s.running ≡ false
      → Step notice [] s (record s { place = ended })
  swaps : (s t : AsyncLogging) → s.place ≡ inside → swap_buffers s ≡ some t → Step notice [] s t
  writes :
      (s t : AsyncLogging)
      → s.place ≡ writing
      → write_buffers notice s ≡ some t
      → Step notice [] s t

-- The states that the program reaches, each with the lines logged so far.
pub data Reach (notice : ℕ → Bytes) : List Bytes → AsyncLogging → Type 0 where
  begins : Reach notice [] started
  goes :
      (ls ms : List Bytes) (s t : AsyncLogging)
      → Reach notice ls s
      → Step notice ms s t
      → Reach notice (ls ++ ms) t
