-- ===== src/Logging/Async/Content.antt =====
-- What the operations of glacier/base/asynclogging.cc do to the bytes that are written and that wait.
use glacier.Common.{
  ◌-◌, ◌<◌, ◌≡◌, refl, sym, ap, ◌∙◌, inl, inr, true, Option, none, some, List, [], ◌∷◌, ◌++◌,
  append_assoc, append-nil, length, ltb, Bytes, arith, Bool-cases, All, All-append,
}
use glacier.Logging.FixedBuffer.{FixedBuffer, avail, append, k_large_buffer}
use glacier.Logging.Async.{AsyncLogging, next_or_new, append_line, datas}
use glacier.Logging.Async.Safe.{IsSpareOr}

abbrev pub flat : List Bytes → Bytes
flat [] = []
flat (l ∷ ls) = l ++ flat ls

pub flat-append : (ls ms : List Bytes) → flat (ls ++ ms) ≡ flat ls ++ flat ms
flat-append [] ms = refl
flat-append (l ∷ ls) ms =
    ap (λ x. l ++ x) (flat-append ls ms) ∙ sym (append_assoc l (flat ls) (flat ms))

datas-append : (bs cs : List FixedBuffer) → datas (bs ++ cs) ≡ datas bs ++ datas cs
datas-append [] cs = refl
datas-append (b ∷ bs) cs = ap (λ x. b.written ∷ x) (datas-append bs cs)

abbrev pub held : List FixedBuffer → Bytes
held bs = flat (datas bs)

pub held-append : (bs cs : List FixedBuffer) → held (bs ++ cs) ≡ held bs ++ held cs
held-append bs cs = ap flat (datas-append bs cs) ∙ flat-append (datas bs) (datas cs)

-- All that was written and all that waits, oldest first.
abbrev pub pending : AsyncLogging → Bytes
pending s = held s.buffers_to_write ++ (held s.buffers ++ s.current_buffer.written)

abbrev pub content : AsyncLogging → Bytes
content s = flat s.output ++ pending s

-- Every buffer is a large one.
abbrev pub IsLarge : FixedBuffer → Type 0
IsLarge b = b.size ≡ k_large_buffer

abbrev pub IsLargeIfThere : Option FixedBuffer → Type 0
IsLargeIfThere none = Unit
IsLargeIfThere (some b) = IsLarge b

abbrev pub IsLargePair : Option (FixedBuffer × List FixedBuffer) → Type 0
IsLargePair none = Unit
IsLargePair (some (b, bs)) = IsLarge b × All IsLarge bs

pub record Sized (s : AsyncLogging) : Type 0 where
  pub current : IsLarge s.current_buffer
  pub next : IsLargeIfThere s.next_buffer
  pub front : All IsLarge s.buffers
  pub new1 : IsLargeIfThere s.new_buffer1
  pub new2 : IsLargeIfThere s.new_buffer2
  pub back : All IsLarge s.buffers_to_write

pub assoc3 : (a b c d e : Bytes) → a ++ (b ++ (c ++ (d ++ e))) ≡ (a ++ (b ++ (c ++ d))) ++ e
assoc3 a b c d e = sym (
    append_assoc a (b ++ (c ++ d)) e
    ∙ ap (λ x. a ++ x) (append_assoc b (c ++ d) e ∙ ap (λ x. b ++ x) (append_assoc c d e)))

-- The list of full buffers with the current one behind them.
pub held-current :
    (bs : List FixedBuffer) (b : FixedBuffer) → held (bs ++ b ∷ []) ≡ held bs ++ b.written
held-current bs b = held-append bs (b ∷ []) ∙ ap (λ x. held bs ++ x) (append-nil b.written)

pub fresh_append :
    (m : Option FixedBuffer) (line : Bytes)
    → IsLargeIfThere m
    → IsSpareOr Unit m
    → length line < k_large_buffer
    → (append (next_or_new m) line).written ≡ line
unfolding append
fresh_append none line l e h = ground (arith, h)
fresh_append (some b) line l e h = rw (append, l, e, room) refl
  where
    room : ltb (length line) (k_large_buffer - 0) ≡ true
    room = ground (arith, h)

pub append-IsLarge : (b : FixedBuffer) (line : Bytes) → IsLarge b → IsLarge (append b line)
unfolding append
append-IsLarge b line h = elim (Bool-cases (ltb (length line) (avail b))) [
  | inl y ↦ rw (append, y) h
  | inr y ↦ rw (append, y) h
]

pub next-IsLarge : (m : Option FixedBuffer) → IsLargeIfThere m → IsLarge (next_or_new m)
next-IsLarge none h = refl
next-IsLarge (some b) h = h

pub append_line-Sized : (line : Bytes) (s : AsyncLogging) → Sized s → Sized (append_line line s)
unfolding append_line
append_line-Sized line s z = elim (Bool-cases (ltb (length line) (avail s.current_buffer))) [
  | inl y ↦
      rw (append_line, y)
        (record {
          current = append-IsLarge s.current_buffer line z.current;
          next = z.next;
          front = z.front;
          new1 = z.new1;
          new2 = z.new2;
          back = z.back;
        })
  | inr y ↦
      rw (append_line, y)
        (record {
          current =
              append-IsLarge (next_or_new s.next_buffer) line (next-IsLarge s.next_buffer z.next);
          next = tt;
          front = All-append IsLarge s.buffers (s.current_buffer ∷ []) z.front (z.current, tt);
          new1 = z.new1;
          new2 = z.new2;
          back = z.back;
        })
]

pub content-append_line :
    (line : Bytes) (s : AsyncLogging)
    → Sized s
    → IsSpareOr Unit s.next_buffer
    → length line < k_large_buffer
    → content (append_line line s) ≡ content s ++ line
unfolding append_line append
content-append_line line s z n h = elim (Bool-cases (ltb (length line) (avail s.current_buffer))) [
  | inl y ↦
      rw (append_line, y, append)
        (assoc3 (flat s.output) (held s.buffers_to_write) (held s.buffers) s.current_buffer.written
          line)
  | inr y ↦
      rw
        (
          append_line,
          y,
          fresh_append s.next_buffer line z.next n h,
          held-current s.buffers s.current_buffer,
          append_assoc (held s.buffers) s.current_buffer.written line,
        )
        (assoc3 (flat s.output) (held s.buffers_to_write) (held s.buffers) s.current_buffer.written
          line)
]
