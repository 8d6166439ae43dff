-- ===== src/Logging/Async/Safe.antt =====
-- The assertions of glacier/base/asynclogging.cc hold in every state that the program reaches.
use glacier.Common.{
  ℕ, ◌+◌, ◌≤◌, ◌≡◌, refl, sym, ◌∙◌, inl, inr, Option, none, some, List, [], ◌∷◌, ◌++◌, length,
  length-append, take, ltb, Bytes, arith, Bool-cases, length-take,
}
use mathlib.Core.Path.{subst}
use mathlib.Core.Option.{some-injective}
use glacier.Logging.FixedBuffer.{FixedBuffer, avail, append, reset}
use glacier.Logging.Async.{
  Place, at_test, inside, writing, ended, AsyncLogging, next_or_new, append_line, stop,
  swap_buffers, refill, messages, write_buffers, Step, logs, stops, enters, leaves, swaps, writes,
  Reach, begins, goes,
}

-- A spare buffer is there and holds nothing.
abbrev pub IsSpare : Option FixedBuffer → Type 0
IsSpare none = ⊥
IsSpare (some b) = b.written ≡ []

-- A buffer that is taken back later if it is not there.
abbrev pub IsSpareOr : Type 0 → Option FixedBuffer → Type 0
IsSpareOr P none = P
IsSpareOr P (some b) = b.written ≡ []

-- What holds at each place of the thread.
abbrev pub Holds : Place → AsyncLogging → Type 0
Holds writing s =
    (s.new_buffer1 ≡ none)
    × (1 ≤ length s.buffers_to_write)
    × IsSpareOr (2 ≤ length s.buffers_to_write) s.new_buffer2
Holds _ s = IsSpare s.new_buffer1 × IsSpare s.new_buffer2 × (s.buffers_to_write ≡ [])

pub record Invariant (s : AsyncLogging) : Type 0 where
  pub front : IsSpareOr (1 ≤ length s.buffers) s.next_buffer
  pub back : Holds s.place s

Holds-same :
    (p : Place) (s t : AsyncLogging)
    → s.new_buffer1 ≡ t.new_buffer1
    → s.new_buffer2 ≡ t.new_buffer2
    → s.buffers_to_write ≡ t.buffers_to_write
    → Holds p s
    → Holds p t
Holds-same writing s t a b c h = rw (← a, ← b, ← c) h
Holds-same at_test s t a b c h = rw (← a, ← b, ← c) h
Holds-same inside s t a b c h = rw (← a, ← b, ← c) h
Holds-same ended s t a b c h = rw (← a, ← b, ← c) h

append_line-Invariant :
    (line : Bytes) (s : AsyncLogging) → Invariant s → Invariant (append_line line s)
unfolding append_line
append_line-Invariant line s i = elim (Bool-cases (ltb (length line) (avail s.current_buffer))) [
  | inl y ↦
      rw (append_line, y)
        (record {
          front = i.front;
          back =
              Holds-same s.place s (record s { current_buffer = append s.current_buffer line }) refl
                refl refl i.back;
        })
  | inr y ↦
      rw (append_line, y)
        (record {
          front = omega (arith, length-append s.buffers (s.current_buffer ∷ []));
          back =
              Holds-same s.place s
                (record s {
                  buffers = s.buffers ++ s.current_buffer ∷ [];
                  current_buffer = append (next_or_new s.next_buffer) line;
                  next_buffer = none;
                })
                refl refl refl i.back;
        })
]

swap_buffers-Invariant :
    (s t : AsyncLogging) → Invariant s → s.place ≡ inside → swap_buffers s ≡ some t → Invariant t
unfolding swap_buffers
swap_buffers-Invariant s t i p e =
    go s.new_buffer1 s.new_buffer2 s.next_buffer (subst (λ q. Holds q s) p i.back) i.front e
  where
    many : 1 ≤ length s.buffers → 2 ≤ length (s.buffers ++ s.current_buffer ∷ [])
    many h = omega (arith, length-append s.buffers (s.current_buffer ∷ []), h)

    some_one : 1 ≤ length (s.buffers ++ s.current_buffer ∷ [])
    some_one = omega (arith, length-append s.buffers (s.current_buffer ∷ []))

    go :
        (m1 m2 n : Option FixedBuffer)
        → IsSpare m1 × IsSpare m2 × (s.buffers_to_write ≡ [])
        → IsSpareOr (1 ≤ length s.buffers) n
        → swap_buffers (record s { new_buffer1 = m1; new_buffer2 = m2; next_buffer = n }) ≡ some t
        → Invariant t
    go none m2 n h f e = absurd h.0
    go (some b) none n h f e = absurd h.1
    go (some b) (some b2) none h f e =
        subst Invariant (some-injective _ _ e)
          (record { front = h.1; back = (refl, some_one, many f) })
    go (some b) (some b2) (some n) h f e =
        subst Invariant (some-injective _ _ e) (record { front = f; back = (refl, some_one, h.1) })

-- Taking a buffer back succeeds when one is there to take.
refill-some :
    (m : Option FixedBuffer) (bs : List FixedBuffer)
    → IsSpareOr (1 ≤ length bs) m
    → (b : FixedBuffer) × (rest : List FixedBuffer) × (refill m bs ≡ some (b, rest))
      × (b.written ≡ [])
      × (length bs ≤ length rest + 1)
unfolding refill reset
refill-some (some b) bs h = (b, bs, refl, h, omega arith)
refill-some none [] h = absurd (omega arith)
refill-some none (b ∷ []) h = (reset b, [], refl, refl, omega arith)
refill-some none (b ∷ c ∷ bs) h =
    let (last, front, e, w, l) = refill-some none (c ∷ bs) (omega arith) in
    (last, b ∷ front, rw (refill, e) refl, w, omega (arith, l))

refill-kept : (b : FixedBuffer) (bs : List FixedBuffer) → refill (some b) bs ≡ some (b, bs)
unfolding refill
refill-kept b bs = refl

weaken : {P Q : Type 0} (m : Option FixedBuffer) → (P → Q) → IsSpareOr P m → IsSpareOr Q m
weaken none f h = f h
weaken (some b) f h = h

take_two : (bs : List FixedBuffer) (n : ℕ) → n ≤ 2 → n ≤ length bs → n ≤ length (take 2 bs)
take_two bs n h k = rw (length-take 2 bs) (ground arith)

-- The second part of a round goes through, and both spare buffers are back.
write_buffers-Invariant :
    (notice : ℕ → Bytes) (s : AsyncLogging)
    → Invariant s
    → s.place ≡ writing
    → (t : AsyncLogging) × (write_buffers notice s ≡ some t) × Invariant t
unfolding write_buffers
write_buffers-Invariant notice s i p =
    let (e1, l, m2) = subst (λ q. Holds q s) p i.back in
    let two : List FixedBuffer = take 2 s.buffers_to_write in
    let (b1, rest, r1, w1, l1) =
      refill-some none two (take_two s.buffers_to_write 1 (omega arith) l) in
    let (b2, rest2, r2, w2, l2) = refill-some s.new_buffer2 rest (
      weaken s.new_buffer2 (λ k. one rest (take_two s.buffers_to_write 2 (omega arith) k) l1) m2) in
    (
      record s {
        new_buffer1 = some b1;
        new_buffer2 = some b2;
        buffers_to_write = [];
        output = s.output ++ messages notice s.buffers_to_write;
        place = at_test;
      },
      rw (write_buffers, e1, r1, r2) refl,
      record { front = i.front; back = (w1, w2, refl) },
    )
  where
    one : (rest : List FixedBuffer) {n : ℕ} → 2 ≤ n → n ≤ length rest + 1 → 1 ≤ length rest
    one rest h k = omega (arith, h, k)

Invariant-Step :
    (notice : ℕ → Bytes) (ms : List Bytes) (s t : AsyncLogging)
    → Invariant s
    → Step notice ms s t
    → Invariant t
Invariant-Step notice _ _ _ i (logs line s) = append_line-Invariant line s i
Invariant-Step notice _ _ _ i (stops s) = record {
  front = i.front;
  back = Holds-same s.place s (stop s) refl refl refl i.back;
}
Invariant-Step notice _ _ _ i (enters s p r) = record {
  front = i.front;
  back = subst (λ q. Holds q s) p i.back;
}
Invariant-Step notice _ _ _ i (leaves s p r) = record {
  front = i.front;
  back = subst (λ q. Holds q s) p i.back;
}
Invariant-Step notice _ _ _ i (swaps s t p e) = swap_buffers-Invariant s t i p e
Invariant-Step notice _ _ _ i (writes s t p e) =
    let (u, f, j) = write_buffers-Invariant notice s i p in
    subst Invariant (some-injective _ _ (sym f ∙ e)) j

-- However the threads interleave, the spare buffers of the writing thread are there and empty
-- whenever it tests `running_` or takes the mutex, and while it writes there are as many buffers to
-- take back as it is short of.
pub Reach-Invariant :
    (notice : ℕ → Bytes) (ls : List Bytes) (s : AsyncLogging) → Reach notice ls s → Invariant s
Reach-Invariant notice _ _ begins = record { front = refl; back = (refl, refl, refl) }
Reach-Invariant notice _ _ (goes ls ms s t r x) =
    Invariant-Step notice ms s t (Reach-Invariant notice ls s r) x

-- In every state that the program reaches, the part of a round that comes next goes through: no
-- null buffer is used under the mutex, and no assertion fails while writing.
pub Reach-goes_on :
    (notice : ℕ → Bytes) (ls : List Bytes) (s : AsyncLogging)
    → Reach notice ls s
    → (s.place ≡ inside → (t : AsyncLogging) × (swap_buffers s ≡ some t))
      × (s.place ≡ writing → (t : AsyncLogging) × (write_buffers notice s ≡ some t))
unfolding swap_buffers
Reach-goes_on notice ls s r =
    let i = Reach-Invariant notice ls s r in
    (
      λ p. swap s.new_buffer1 (subst (λ q. Holds q s) p i.back).0,
      λ p. let (t, e, j) = write_buffers-Invariant notice s i p in (t, e),
    )
  where
    swap :
        (m : Option FixedBuffer)
        → IsSpare m
        → (t : AsyncLogging) × (swap_buffers (record s { new_buffer1 = m }) ≡ some t)
    swap none h = absurd h
    swap (some b) h = (_, refl)
