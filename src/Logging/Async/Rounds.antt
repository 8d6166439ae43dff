-- ===== src/Logging/Async/Rounds.antt =====
-- What a round of the thread of glacier/base/asynclogging.cc does to those bytes.
use glacier.Common.{
  ℕ, zero, suc, ◌≤◌, ◌≡◌, refl, ap, ◌∙◌, false, Option, none, some, List, [], ◌∷◌, ◌++◌,
  append_assoc, append-nil, length, take, ltb, Bytes, arith, All, All-append,
}
use mathlib.Core.Path.{subst}
use mathlib.Core.Option.{some-injective}
use glacier.Logging.FixedBuffer.{FixedBuffer, reset}
use glacier.Logging.Async.{
  at_test, inside, AsyncLogging, swap_buffers, refill, messages, datas, write_buffers,
}
use glacier.Logging.Async.Safe.{IsSpare, Holds}
use glacier.Logging.Async.Content.{
  flat, flat-append, held, content, IsLarge, IsLargeIfThere, IsLargePair, Sized, held-current,
}

pub swap_buffers-content :
    (s t : AsyncLogging)
    → Holds inside s
    → Sized s
    → swap_buffers s ≡ some t
    → (content t ≡ content s) × Sized t
unfolding swap_buffers
swap_buffers-content s t h z e = go s.new_buffer1 s.next_buffer h.0 z.new1 z.next e
  where
    same :
        (b : FixedBuffer)
        → b.written ≡ []
        → flat s.output ++ (held (s.buffers ++ s.current_buffer ∷ []) ++ b.written) ≡ content s
    same b w =
        ap (λ x. flat s.output ++ x)
          (rw (w, h.2) (append-nil _ ∙ held-current s.buffers s.current_buffer))

    full : All IsLarge (s.buffers ++ s.current_buffer ∷ [])
    full = All-append IsLarge s.buffers (s.current_buffer ∷ []) z.front (z.current, tt)

    go :
        (m n : Option FixedBuffer)
        → IsSpare m
        → IsLargeIfThere m
        → IsLargeIfThere n
        → swap_buffers (record s { new_buffer1 = m; next_buffer = n }) ≡ some t
        → (content t ≡ content s) × Sized t
    go none n a b c e = absurd a
    go (some b) none a l c e =
        subst (λ t. (content t ≡ content s) × Sized t) (some-injective _ _ e)
          (
            same b a,
            record { current = l; next = z.new2; front = tt; new1 = tt; new2 = tt; back = full },
          )
    go (some b) (some n) a l c e =
        subst (λ t. (content t ≡ content s) × Sized t) (some-injective _ _ e)
          (
            same b a,
            record { current = l; next = c; front = tt; new1 = tt; new2 = z.new2; back = full },
          )

refill-IsLarge :
    (m : Option FixedBuffer) (bs : List FixedBuffer)
    → IsLargeIfThere m
    → All IsLarge bs
    → IsLargePair (refill m bs)
unfolding refill reset
refill-IsLarge (some b) bs h k = (h, k)
refill-IsLarge none [] h k = tt
refill-IsLarge none (b ∷ []) h k = (k.0, tt)
refill-IsLarge none (b ∷ c ∷ bs) h k =
    go (refill none (c ∷ bs)) (refill-IsLarge none (c ∷ bs) tt k.1)
  where
    go :
        (p : Option (FixedBuffer × List FixedBuffer))
        → IsLargePair p
        → IsLargePair (elim p [ none ↦ none | some (last, front) ↦ some (last, b ∷ front) ])
    go none x = tt
    go (some (last, front)) x = (x.0, (k.0, x.1))

take-All : (n : ℕ) (bs : List FixedBuffer) → All IsLarge bs → All IsLarge (take n bs)
take-All zero bs h = tt
take-All (suc n) [] h = tt
take-All (suc n) (b ∷ bs) h = (h.0, take-All n bs h.1)

messages-few :
    (notice : ℕ → Bytes) (bs : List FixedBuffer) → length bs ≤ 25 → messages notice bs ≡ datas bs
unfolding messages
messages-few notice bs h = rw (messages, few) refl
  where
    few : ltb 25 (length bs) ≡ false
    few = ground (arith, h)

pub write_buffers-content :
    (notice : ℕ → Bytes) (s t : AsyncLogging)
    → length s.buffers_to_write ≤ 25
    → Sized s
    → write_buffers notice s ≡ some t
    → (content t ≡ content s) × Sized t
unfolding write_buffers
write_buffers-content notice s t few z e =
    go (refill s.new_buffer1 (take 2 s.buffers_to_write))
      (refill-IsLarge s.new_buffer1 _ z.new1 (take-All 2 s.buffers_to_write z.back)) e
  where
    result : FixedBuffer → FixedBuffer → AsyncLogging
    result b1 b2 = record s {
      new_buffer1 = some b1;
      new_buffer2 = some b2;
      buffers_to_write = [];
      output = s.output ++ messages notice s.buffers_to_write;
      place = at_test;
    }

    same :
        flat (s.output ++ messages notice s.buffers_to_write)
          ++ (held s.buffers ++ s.current_buffer.written)
        ≡ content s
    same =
        rw
          (
            messages-few notice s.buffers_to_write few,
            flat-append s.output (datas s.buffers_to_write),
          )
          (append_assoc (flat s.output) (held s.buffers_to_write)
            (held s.buffers ++ s.current_buffer.written))

    last :
        (b1 : FixedBuffer)
        → IsLarge b1
        → (q : Option (FixedBuffer × List FixedBuffer)) → IsLargePair q
        → elim q [ none ↦ none | some (b2, rest') ↦ some (result b1 b2) ] ≡ some t
        → (content t ≡ content s) × Sized t
    last b1 l none x e = cc
    last b1 l (some (b2, rest)) x e =
        subst (λ t. (content t ≡ content s) × Sized t) (some-injective _ _ e)
          (
            same,
            record {
              current = z.current;
              next = z.next;
              front = z.front;
              new1 = l;
              new2 = x.0;
              back = tt;
            },
          )

    go :
        (p : Option (FixedBuffer × List FixedBuffer))
        → IsLargePair p
        → elim p [
          | none ↦ none
          | some (b1, rest) ↦ elim (refill s.new_buffer2 rest) [
            | none ↦ none
            | some (b2, rest') ↦ some (result b1 b2)
          ]
        ]
          ≡ some t
        → (content t ≡ content s) × Sized t
    go none x e = cc
    go (some (b1, rest)) x e =
        last b1 x.0 (refill s.new_buffer2 rest) (refill-IsLarge s.new_buffer2 rest z.new2 x.1) e
