-- ===== src/Http/Connection/Fuel.antt =====
-- `handleRead` of glacier/httpdata.cc calls itself no more often than there are calls of `read`.
use glacier.Common.{
  ℕ, zero, suc, ◌+◌, Bool, true, false, ◌≤◌, ◌<◌, ◌≡◌, ◌≢◌, refl, sym, ap, not, ◌&&◌, Option, none,
  some, List, [], ◌∷◌, ◌++◌, length, if◌then◌else◌, Bytes, arith, Bool-cases, inl, inr,
}
use mathlib.Core.Path.{subst}
use glacier.Common.Int.{ℤ, pos, negsuc}
use glacier.Sockets.{
  ReadEvent, chunk, read_eintr, read_eagain, read_failed, ReadResult, readn_loop, readn,
  WriteResult, writen,
}
use glacier.Http.{HttpData}
use glacier.Http.Response.{World, FileSystem}
use glacier.Http.Connection.{
  Outcome, breaks, proceeds, unknown, after_readn, read_loop, after_writen, handle_write, flush,
  reset, seperate_timer, call, conclude, after_loop, after_outcome, Reading, returned, waiting,
  spent, handle_read, is_disconnecting, is_disconnected, is_empty, is_finish,
}
use glacier.Http.Connection.Answers.{Left, Within, WithinPair}
use glacier.Http.Connection.Within.{after_readn-Within}

-- Whatever `readn` answers, it has called `read` at least once.
Shorter : List ReadEvent → Option ReadResult → Type 0
Shorter es none = Unit
Shorter es (some r) = length r.unread < length es

readn_loop-Shorter :
    (es : List ReadEvent) (sum : ℕ) (buf : Bytes) → Shorter es (readn_loop es sum buf)
unfolding readn_loop Shorter
readn_loop-Shorter [] sum buf = tt
readn_loop-Shorter (chunk [] ∷ es) sum buf = omega arith
readn_loop-Shorter (chunk (c ∷ cs) ∷ es) sum buf =
    longer es (chunk (c ∷ cs)) _ (readn_loop-Shorter es (sum + length (c ∷ cs)) (buf ++ c ∷ cs))
  where
    longer :
        (es : List ReadEvent) (e : ReadEvent) (r : Option ReadResult)
        → Shorter es r
        → Shorter (e ∷ es) r
    longer es e none h = tt
    longer es e (some r) h = omega (arith, h)
readn_loop-Shorter (read_eintr ∷ es) sum buf = longer es _ (readn_loop-Shorter es sum buf)
  where
    longer :
        (es : List ReadEvent) (r : Option ReadResult) → Shorter es r → Shorter (read_eintr ∷ es) r
    longer es none h = tt
    longer es (some r) h = omega (arith, h)
readn_loop-Shorter (read_eagain ∷ es) sum buf = omega arith
readn_loop-Shorter (read_failed ∷ es) sum buf = omega arith

read_loop-Within :
    (n : ℕ) (fs : FileSystem) (d : HttpData) (w : World)
    → Left (suc n) w
    → Within n (read_loop fs d w)
unfolding read_loop readn Shorter
read_loop-Within n fs d w h =
    go (readn w.reads d.in_buffer) (readn_loop-Shorter w.reads 0 d.in_buffer)
  where
    go :
        (m : Option ReadResult)
        → Shorter w.reads m
        → Within n (elim m [
          | none ↦ unknown
          | some r ↦
              after_readn fs r
                (record d { in_buffer = r.in_buffer })
                (record w { reads = r.unread })
        ])
    go none s = tt
    go (some r) s = after_readn-Within n fs r _ _ (omega (arith, s, h))

after_writen-world : (r : WriteResult) (d : HttpData) (w : World) → (after_writen r d w).1 ≡ w
unfolding after_writen
after_writen-world r d w = go r.result
  where
    go : (c : ℤ) → (after_writen (record r { result = c }) d w).1 ≡ w
    go (pos k) = refl
    go (negsuc k) = refl

flush-Within : (n : ℕ) (d : HttpData) (w : World) → Left n w → WithinPair n (flush d w)
unfolding flush handle_write
flush-Within n d w h = elim (Bool-cases (is_empty d.out_buffer)) [
  | inl y ↦ rw (flush, y) h
  | inr y ↦
      rw (flush, y)
        (elim (Bool-cases (not d.error && not (is_disconnected d.connstate))) [
          | inl z ↦ rw (handle_write, z) (go (writen w.writes d.out_buffer))
          | inr z ↦ rw (handle_write, z) h
        ])
]
  where
    go :
        (m : Option WriteResult)
        → WithinPair n (elim m [
          | none ↦ none
          | some r ↦
              some (after_writen r d (record w { writes = r.unused; sent = w.sent ++ r.taken }))
        ])
    go none = tt
    go (some r) =
        subst (Left n)
          (sym (after_writen-world r d (record w { writes = r.unused; sent = w.sent ++ r.taken })))
          h

reset-Left : (n : ℕ) (d : HttpData) (w : World) → Left n w → Left n (reset d w).1
unfolding reset seperate_timer call
reset-Left n d w h = go d.timer
  where
    go : (t : Option ℕ) → Left n (reset (record d { timer = t }) w).1
    go none = h
    go (some t) = h

abbrev Handler : Type 0
Handler = HttpData → World → Reading

-- Two handlers that agree on every world with at most `n` calls of `read` left.
abbrev Agree : ℕ → Handler → Handler → Type 0
Agree n f g = (d : HttpData) (w : World) → Left n w → f d w ≡ g d w

conclude-Agree : (n : ℕ) (f g : Handler) → Agree n f g → Agree n (conclude f) (conclude g)
unfolding conclude
conclude-Agree n f g k d w h = elim (Bool-cases (not d.error && is_finish d.state)) [
  | inl y ↦
      elim (Bool-cases (
        not (is_empty (reset d w).0.in_buffer) && not (is_disconnecting (reset d w).0.connstate))) [
          | inl z ↦ rw (conclude, y, z) (k _ _ (reset-Left n d w h))
          | inr z ↦ rw (conclude, y, z) refl
        ]
  | inr y ↦ rw (conclude, y) refl
]

after_loop-Agree : (n : ℕ) (f g : Handler) → Agree n f g → Agree n (after_loop f) (after_loop g)
unfolding after_loop
after_loop-Agree n f g k d w h =
    ap (λ m. if d.error then returned d w else m) (go (flush d w) (flush-Within n d w h))
  where
    go :
        (m : Option (HttpData × World))
        → WithinPair n m
        → elim m [ none ↦ waiting | some (d', w') ↦ conclude f d' w' ]
          ≡ elim m [ none ↦ waiting | some (d', w') ↦ conclude g d' w' ]
    go none h = refl
    go (some (d', w')) h = conclude-Agree n f g k d' w' h

after_outcome-Agree :
    (n : ℕ) (f g : Handler) (o : Outcome)
    → Agree n f g
    → Within n o
    → after_outcome f o ≡ after_outcome g o
unfolding after_outcome
after_outcome-Agree n f g (breaks d w) k h = after_loop-Agree n f g k d w h
after_outcome-Agree n f g (proceeds d w) k h = after_loop-Agree n f g k d w h
after_outcome-Agree n f g unknown k h = refl

read_loop-ended :
    (fs : FileSystem) (d : HttpData) (w : World) → w.reads ≡ [] → read_loop fs d w ≡ unknown
unfolding read_loop readn readn_loop
read_loop-ended fs d w e = rw (read_loop, e) refl

no_reads : (es : List ReadEvent) → length es ≤ 0 → es ≡ []
no_reads [] h = refl
no_reads (e ∷ es) h = absurd (omega arith)

handle_read-Agree :
    (n : ℕ) (fs : FileSystem) (f g : ℕ)
    → n < f
    → n < g
    → Agree n (handle_read fs f) (handle_read fs g)
unfolding handle_read after_outcome
handle_read-Agree n fs zero g p q d w h = absurd (omega arith)
handle_read-Agree n fs (suc f) zero p q d w h = absurd (omega arith)
handle_read-Agree zero fs (suc f) (suc g) p q d w h =
    rw (read_loop-ended fs d w (no_reads w.reads h)) refl
handle_read-Agree (suc n) fs (suc f) (suc g) p q d w h =
    after_outcome-Agree n (handle_read fs f) (handle_read fs g) (read_loop fs d w)
      (handle_read-Agree n fs f g (omega arith) (omega arith)) (read_loop-Within n fs d w h)

-- A handler that ends within its fuel in every world with at most `n` calls of `read` left.
abbrev Settles : ℕ → Handler → Type 0
Settles n f = (d : HttpData) (w : World) → Left n w → f d w ≢ spent

conclude-Settles : (n : ℕ) (f : Handler) → Settles n f → Settles n (conclude f)
unfolding conclude
conclude-Settles n f k d w h = elim (Bool-cases (not d.error && is_finish d.state)) [
  | inl y ↦
      elim (Bool-cases (
        not (is_empty (reset d w).0.in_buffer) && not (is_disconnecting (reset d w).0.connstate))) [
          | inl z ↦ rw (conclude, y, z) (k _ _ (reset-Left n d w h))
          | inr z ↦ rw (conclude, y, z) cc
        ]
  | inr y ↦ elim (Bool-cases (not d.error && is_disconnected d.connstate)) [
    | inl z ↦ rw (conclude, y, z) cc
    | inr z ↦ rw (conclude, y, z) cc
  ]
]

after_loop-Settles : (n : ℕ) (f : Handler) → Settles n f → Settles n (after_loop f)
unfolding after_loop
after_loop-Settles n f k d w h = either d.error _ (go (flush d w) (flush-Within n d w h))
  where
    either : (b : Bool) (r : Reading) → r ≢ spent → (if b then returned d w else r) ≢ spent
    either true r e = cc
    either false r e = e

    go :
        (m : Option (HttpData × World))
        → WithinPair n m
        → elim m [ none ↦ waiting | some (d', w') ↦ conclude f d' w' ] ≢ spent
    go none h = cc
    go (some (d', w')) h = conclude-Settles n f k d' w' h

after_outcome-Settles :
    (n : ℕ) (f : Handler) (o : Outcome) → Settles n f → Within n o → after_outcome f o ≢ spent
unfolding after_outcome
after_outcome-Settles n f (breaks d w) k h = after_loop-Settles n f k d w h
after_outcome-Settles n f (proceeds d w) k h = after_loop-Settles n f k d w h
after_outcome-Settles n f unknown k h = cc

handle_read-Settles : (n : ℕ) (fs : FileSystem) (f : ℕ) → n < f → Settles n (handle_read fs f)
unfolding handle_read after_outcome
handle_read-Settles n fs zero p d w h = absurd (omega arith)
handle_read-Settles zero fs (suc f) p d w h = rw (read_loop-ended fs d w (no_reads w.reads h)) cc
handle_read-Settles (suc n) fs (suc f) p d w h =
    after_outcome-Settles n (handle_read fs f) (read_loop fs d w)
      (handle_read-Settles n fs f (omega arith)) (read_loop-Within n fs d w h)

-- `handleRead` does not call itself for ever. With more fuel than the kernel has answers to `read` left it
-- never runs out, so it returns, or one of its loops waits for an answer that the script does not hold; it
-- satisfies the recursion of the source, its call of itself being the handler with the same fuel; and any
-- such fuel gives the same end.
pub handle_read-fuel :
    (fs : FileSystem) (fuel : ℕ) (d : HttpData) (w : World)
    → length w.reads < fuel
    → (handle_read fs fuel d w ≢ spent)
      × (handle_read fs fuel d w ≡ after_outcome (handle_read fs fuel) (read_loop fs d w))
      × (handle_read fs fuel d w ≡ handle_read fs (suc (length w.reads)) d w)
unfolding handle_read
handle_read-fuel fs fuel d w h =
    let agree = handle_read-Agree (length w.reads) fs fuel in
    (
      handle_read-Settles (length w.reads) fs fuel h d w (omega arith),
      agree (suc fuel) h (omega (arith, h)) d w (omega arith),
      agree (suc (length w.reads)) h (omega arith) d w (omega arith),
    )
