-- ===== src/Logging/Async/Order.antt =====
-- What glacier/base/asynclogging.cc does with the lines: none is lost, and none overtakes another.
use glacier.Common.{
  ℕ, ◌≤◌, ◌<◌, ◌≡◌, refl, sym, ap, ◌∙◌, Option, none, some, List, ◌++◌, append-nil, length, Bytes,
}
use mathlib.Core.Path.{subst}
use glacier.Logging.FixedBuffer.{FixedBuffer, k_large_buffer}
use glacier.Logging.Async.{
  AsyncLogging, Step, logs, stops, enters, leaves, swaps, writes, Reach, begins, goes,
}
use glacier.Logging.Async.Safe.{IsSpareOr, Holds, Invariant, Reach-Invariant}
use glacier.Logging.Async.Content.{
  flat, flat-append, content, Sized, append_line-Sized, content-append_line,
}
use glacier.Logging.Async.Rounds.{swap_buffers-content, write_buffers-content}

-- A step that logs only lines shorter than a buffer, and finds at most 25 buffers to write.
abbrev pub IsCalmStep :
    (notice : ℕ → Bytes) (ms : List Bytes) (s t : AsyncLogging) → Step notice ms s t → Type 0
IsCalmStep notice _ _ _ (logs line s) = length line < k_large_buffer
IsCalmStep notice _ _ _ (writes s t p e) = length s.buffers_to_write ≤ 25
IsCalmStep notice _ _ _ _ = Unit

abbrev pub IsCalm :
    (notice : ℕ → Bytes) (ls : List Bytes) (s : AsyncLogging) → Reach notice ls s → Type 0
IsCalm notice _ _ begins = Unit
IsCalm notice _ _ (goes ls ms s t r x) = IsCalm notice ls s r × IsCalmStep notice ms s t x

Step-content :
    (notice : ℕ → Bytes) (ms : List Bytes) (s t : AsyncLogging)
    → Invariant s
    → Sized s
    → (x : Step notice ms s t) → IsCalmStep notice ms s t x
    → (content t ≡ content s ++ flat ms) × Sized t
Step-content notice _ _ _ i z (logs line s) c = (
  content-append_line line s z (spare _ s.next_buffer i.front) c
      ∙ ap (λ x. content s ++ x) (sym (append-nil line)),
  append_line-Sized line s z,
)
  where
    spare : (P : Type 0) (m : Option FixedBuffer) → IsSpareOr P m → IsSpareOr Unit m
    spare P none h = tt
    spare P (some b) h = h
Step-content notice _ _ _ i z (stops s) c = (
  sym (append-nil (content s)),
  record {
    current = z.current;
    next = z.next;
    front = z.front;
    new1 = z.new1;
    new2 = z.new2;
    back = z.back;
  },
)
Step-content notice _ _ _ i z (enters s p r) c = (
  sym (append-nil (content s)),
  record {
    current = z.current;
    next = z.next;
    front = z.front;
    new1 = z.new1;
    new2 = z.new2;
    back = z.back;
  },
)
Step-content notice _ _ _ i z (leaves s p r) c = (
  sym (append-nil (content s)),
  record {
    current = z.current;
    next = z.next;
    front = z.front;
    new1 = z.new1;
    new2 = z.new2;
    back = z.back;
  },
)
Step-content notice _ _ _ i z (swaps s t p e) c =
    let (same, sized) = swap_buffers-content s t (subst (λ q. Holds q s) p i.back) z e in
    (same ∙ sym (append-nil (content s)), sized)
Step-content notice _ _ _ i z (writes s t p e) c =
    let (same, sized) = write_buffers-content notice s t c z e in
    (same ∙ sym (append-nil (content s)), sized)

Reach-Sized :
    (notice : ℕ → Bytes) (ls : List Bytes) (s : AsyncLogging) (r : Reach notice ls s)
    → IsCalm notice ls s r
    → (content s ≡ flat ls) × Sized s
Reach-Sized notice _ _ begins c =
    (refl, record { current = refl; next = refl; front = tt; new1 = refl; new2 = refl; back = tt })
Reach-Sized notice _ _ (goes ls ms s t r x) c =
    let (same, sized) = Reach-Sized notice ls s r c.0 in
    let (step, sized') = Step-content notice ms s t (Reach-Invariant notice ls s r) sized x c.1 in
    (step ∙ ap (λ y. y ++ flat ms) same ∙ sym (flat-append ls ms), sized')

-- However the threads interleave, as long as every line is shorter than a buffer and at most 25
-- buffers wait when the thread writes: what the file was given, followed by the buffers that wait
-- and the current one, is exactly the lines logged so far, in order.
pub content-Reach :
    (notice : ℕ → Bytes) (ls : List Bytes) (s : AsyncLogging) (r : Reach notice ls s)
    → IsCalm notice ls s r
    → content s ≡ flat ls
content-Reach notice ls s r c = (Reach-Sized notice ls s r c).0
