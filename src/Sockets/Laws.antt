-- ===== src/Sockets/Laws.antt =====
-- What the read and write loops of glacier/utils.cc do with the bytes.
use glacier.Common.{
  ℕ, ◌+◌, ◌≤◌, ◌≡◌, refl, sym, ap, ◌∙◌, inl, inr, true, false, Option, none, some, List, [], ◌∷◌,
  ◌++◌, append_assoc, append-nil, length, take, drop, take-append-drop, length-append, length-take,
  Bool-cases, drop-append, ◌==◌, if◌then◌else◌, Bytes, arith,
}
use mathlib.Core.Path.{subst}
use mathlib.Core.Option.{some-injective}
use glacier.Common.Int.{pos, negsuc}
use glacier.Sockets.{
  ReadEvent, chunk, read_eintr, read_eagain, read_failed, WriteEvent, wrote, write_eintr,
  write_eagain, write_failed, ReadResult, readn_loop, readn, Ending, finished, blocked, broken,
  Written, write_loop, WriteResult, finish_writen, writen,
}

-- The bytes that a script of reads delivers before the event that ends the loop.
abbrev pub delivered : List ReadEvent → Bytes
delivered (chunk (c ∷ cs) ∷ es) = (c ∷ cs) ++ delivered es
delivered (read_eintr ∷ es) = delivered es
delivered _ = []

-- The event that ends the loop, if there is one.
abbrev pub stops_with : List ReadEvent → Option ReadEvent
stops_with [] = none
stops_with (chunk [] ∷ es) = some (chunk [])
stops_with (chunk (c ∷ cs) ∷ es) = stops_with es
stops_with (read_eintr ∷ es) = stops_with es
stops_with (read_eagain ∷ es) = some read_eagain
stops_with (read_failed ∷ es) = some read_failed

-- What the caller is told about each such event, with what the buffer then holds.
abbrev Told : ReadEvent → ℕ → ReadResult → Type 0
Told (chunk _) n x = (x.cnt ≡ pos n) × (x.zero ≡ true)
Told read_eagain n x = (x.cnt ≡ pos n) × (x.zero ≡ false)
Told _ n x = (x.cnt ≡ negsuc 0) × (x.zero ≡ false)

abbrev pub Tells : Option ReadEvent → Bytes → ℕ → Option ReadResult → Type 0
Tells none buf n r = r ≡ none
Tells (some e) buf n r = (x : ReadResult) × (r ≡ some x) × (x.in_buffer ≡ buf) × Told e n x

readn_loop-Tells :
    (es : List ReadEvent) (sum : ℕ) (buf : Bytes)
    → Tells
        (stops_with es)
        (buf ++ delivered es)
        (sum + length (delivered es))
        (readn_loop es sum buf)
unfolding readn_loop
readn_loop-Tells [] sum buf = refl
readn_loop-Tells (chunk [] ∷ es) sum buf =
    (_, refl, sym (append-nil buf), (ap pos (omega arith), refl))
readn_loop-Tells (chunk (c ∷ cs) ∷ es) sum buf =
    let total : sum + length (c ∷ cs) + length (delivered es)
        ≡ sum + length ((c ∷ cs) ++ delivered es) =
      omega (arith, length-append cs (delivered es)) in
    let told = readn_loop-Tells es (sum + length (c ∷ cs)) (buf ++ c ∷ cs) in
    rw (← append_assoc buf (c ∷ cs) (delivered es), ← total) told
readn_loop-Tells (read_eintr ∷ es) sum buf = readn_loop-Tells es sum buf
readn_loop-Tells (read_eagain ∷ es) sum buf =
    (_, refl, sym (append-nil buf), (ap pos (omega arith), refl))
readn_loop-Tells (read_failed ∷ es) sum buf = (_, refl, sym (append-nil buf), (refl, refl))

-- `readn` appends to the buffer all that the kernel delivers before the call that ends the loop,
-- answers how much that was, or -1 on an error, and reports the end of the stream; with no such
-- call it goes on.
pub readn-Tells :
    (es : List ReadEvent) (buf : Bytes)
    → Tells (stops_with es) (buf ++ delivered es) (length (delivered es)) (readn es buf)
unfolding readn
readn-Tells es buf =
    let total : 0 + length (delivered es) ≡ length (delivered es) = omega arith in
    rw total at (readn_loop-Tells es 0 buf)

-- The kernel takes no more bytes than it is given.
abbrev pub Obeys : List WriteEvent → Bytes → Type 0
Obeys es [] = Unit
Obeys [] (c ∷ cs) = Unit
Obeys (wrote n ∷ es) (c ∷ cs) = (n ≤ length (c ∷ cs)) × Obeys es (drop n (c ∷ cs))
Obeys (write_eintr ∷ es) (c ∷ cs) = Obeys es (c ∷ cs)
Obeys (_ ∷ es) (c ∷ cs) = Unit

-- What is known of the loop's end, from the bytes that were sent before and that were left.
pub record Conserves (sum : ℕ) (sent bs : Bytes) (w : Written) : Type 0 where
  pub kept : w.sent ++ w.left ≡ sent ++ bs
  pub counted : w.write_sum + length sent ≡ sum + length w.sent
  pub done : w.ending ≡ finished → w.left ≡ []

pub write_loop-Conserves :
    (es : List WriteEvent) (sum : ℕ) (sent bs : Bytes) {w : Written}
    → Obeys es bs
    → write_loop es sum sent bs ≡ some w
    → Conserves sum sent bs w
unfolding write_loop
write_loop-Conserves es sum sent [] o h =
    subst (Conserves sum sent []) (some-injective _ _ h)
      (record { kept = refl; counted = refl; done = λ _. refl })
write_loop-Conserves [] sum sent (c ∷ cs) o h = cc
write_loop-Conserves (wrote n ∷ es) sum sent (c ∷ cs) o h =
    let r = write_loop-Conserves es (sum + n) (sent ++ take n (c ∷ cs)) (drop n (c ∷ cs)) o.1 h in
    record {
      kept =
          r.kept
          ∙ append_assoc sent (take n (c ∷ cs)) (drop n (c ∷ cs))
          ∙ ap (◌++◌ sent) (take-append-drop n (c ∷ cs));
      counted =
          omega
            (arith, r.counted, length-append sent (take n (c ∷ cs)), length-take n (c ∷ cs), o.0);
      done = r.done;
    }
write_loop-Conserves (write_eintr ∷ es) sum sent (c ∷ cs) o h =
    write_loop-Conserves es sum sent (c ∷ cs) o h
write_loop-Conserves (write_eagain ∷ es) sum sent (c ∷ cs) o h =
    subst (Conserves sum sent (c ∷ cs)) (some-injective _ _ h)
      (record { kept = refl; counted = refl; done = λ e. cc })
write_loop-Conserves (write_failed ∷ es) sum sent (c ∷ cs) o h =
    subst (Conserves sum sent (c ∷ cs)) (some-injective _ _ h)
      (record { kept = refl; counted = refl; done = λ e. cc })

-- What `writen` answers, and what it does with the string: the bytes that the kernel took are a prefix, and the rest is what stays; after an error the string is whole.
pub data Kept (buf : Bytes) (r : WriteResult) : Type 0 where
  advanced : r.taken ++ r.buf ≡ buf → r.result ≡ pos (length r.taken) → Kept buf r
  failed : (left : Bytes) → r.taken ++ left ≡ buf → r.buf ≡ buf → r.result ≡ negsuc 0 → Kept buf r

pub kept_buffer :
    (buf : Bytes) (w : Written)
    → Conserves 0 [] buf w
    → (if w.write_sum == length buf then [] else drop w.write_sum buf) ≡ w.left
kept_buffer buf w c =
    rw (sum_is, ← c.kept)
      (elim (Bool-cases (length w.sent == length (w.sent ++ w.left))) [
        | inl all ↦ rw all (nil w.left (ground (arith, length-append w.sent w.left, all)))
        | inr part ↦ rw part (drop-append w.sent w.left)
      ])
  where
    sum_is : w.write_sum ≡ length w.sent
    sum_is = omega (arith, c.counted)

    nil : (l : Bytes) → length l ≡ 0 → [] ≡ l
    nil [] e = refl
    nil (x ∷ l) e = absurd (omega arith)

finish_writen-Kept :
    (buf : Bytes) (e : Ending) (w : Written)
    → w.ending ≡ e
    → Conserves 0 [] buf w
    → Kept buf (finish_writen buf w)
unfolding finish_writen
finish_writen-Kept buf broken w h c = rw (h, finish_writen) (failed w.left c.kept refl refl)
finish_writen-Kept buf finished w h c =
    rw (h, finish_writen)
      (advanced (rw (kept_buffer buf w c) c.kept) (ap pos (omega (arith, c.counted))))
finish_writen-Kept buf blocked w h c =
    rw (h, finish_writen)
      (advanced (rw (kept_buffer buf w c) c.kept) (ap pos (omega (arith, c.counted))))

-- Whenever `writen` of a string returns, from a kernel that takes no more than it is given: the
-- bytes taken and the string that stays make up the string given, and the answer counts the bytes
-- taken; or the answer is -1, and the string stays whole though a prefix of it was taken.
pub writen-Kept :
    (es : List WriteEvent) (buf : Bytes) {r : WriteResult}
    → Obeys es buf
    → writen es buf ≡ some r
    → Kept buf r
unfolding writen
writen-Kept es buf o h = go (write_loop es 0 [] buf) refl h
  where
    go :
        (m : Option Written)
        → write_loop es 0 [] buf ≡ m
        → {r : WriteResult}
        → (elim m [ none ↦ none | some w ↦ some (finish_writen buf w) ]) ≡ some r
        → Kept buf r
    go none e h = cc
    go (some w) e h =
        subst (Kept buf) (some-injective _ _ h)
          (finish_writen-Kept buf w.ending w refl (write_loop-Conserves es 0 [] buf o e))
