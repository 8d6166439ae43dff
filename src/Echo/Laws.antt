-- ===== src/Echo/Laws.antt =====
-- What the echo server of echoserv sends back.
use glacier.Common.{
  append-nil, true, none, sym, ℕ, zero, suc, ◌+◌, ◌<◌, ◌≡◌, ◌≢◌, refl, ap, ◌∙◌, false, some, List,
  [], ◌∷◌, ◌++◌, append_assoc, map, length, take, drop, All, ◌==◌, Bytes, arith,
}
use glacier.Common.Int.{pos}
use glacier.Sockets.{WriteEvent, wrote}
use glacier.Echo.Main.{Accepted, connection, main_loop}
use glacier.Echo.{
  ReadByte, byte, end_of_stream, read_eintr, overlay, terminate, readline_loop, readline,
  writeline_loop, writeline, c_string, serve,
}

-- The bytes of a line in front of its end.
abbrev pub IsLineByte : ℕ → Type 0
IsLineByte c = (c ≢ b'\n') × (c ≢ 0)

-- The answers of `read` to a line that arrives byte by byte.
abbrev pub bytes_of : Bytes → List ReadByte → List ReadByte
bytes_of [] es = es
bytes_of (c ∷ cs) es = byte c ∷ bytes_of cs es

pub readline_loop-line :
    (cs : Bytes) (left n : ℕ) (stored buffer : Bytes) (es : List ReadByte)
    → All IsLineByte cs
    → length cs < left
    → readline_loop left n stored buffer (bytes_of (cs ++ b'\n' ∷ []) es)
      ≡ some (terminate (n + length cs) (stored ++ (cs ++ b'\n' ∷ [])) buffer es)
unfolding readline_loop
readline_loop-line [] zero n stored buffer es h l = absurd (omega arith)
readline_loop-line [] (suc left) n stored buffer es h l =
    ap (λ k. some (terminate k (stored ++ b'\n' ∷ []) buffer es)) (omega arith)
readline_loop-line (c ∷ cs) zero n stored buffer es h l = absurd (omega arith)
readline_loop-line (c ∷ cs) (suc left) n stored buffer es h l =
    rw (readline_loop, no_end)
      (readline_loop-line cs left (n + 1) (stored ++ c ∷ []) buffer es h.1 (omega (arith, l))
        ∙ ap (λ s. some (terminate (n + 1 + length cs) s buffer es))
            (append_assoc stored (c ∷ []) (cs ++ b'\n' ∷ []))
        ∙ ap (λ k. some (terminate k (stored ++ (c ∷ cs ++ b'\n' ∷ [])) buffer es)) (omega arith))
  where
    no_end : (c == b'\n') ≡ false
    no_end = ground (arith, h.0.0)

pub c_string-append : (cs rest : Bytes) → All (λ c. c ≢ 0) cs → c_string (cs ++ 0 ∷ rest) ≡ cs
unfolding c_string
c_string-append [] rest h = refl
c_string-append (c ∷ cs) rest h =
    rw (c_string, nonzero) (ap (λ x. c ∷ x) (c_string-append cs rest h.1))
  where
    nonzero : (c == 0) ≡ false
    nonzero = ground (arith, h.0)

pub line-All : (cs : Bytes) → All IsLineByte cs → All (λ c. c ≢ 0) (cs ++ b'\n' ∷ [])
line-All [] h = (omega arith, tt)
line-All (c ∷ cs) h = (h.0.1, line-All cs h.1)

pub whole :
    (line : Bytes) (ws : List WriteEvent)
    → writeline line (wrote (length line) ∷ ws)
      ≡ some (record { result = pos (length line); sent = line })
unfolding writeline writeline_loop
whole [] ws = refl
whole (c ∷ cs) ws =
    ap (λ t. writeline_loop (length (c ∷ cs)) (c ∷ t) (drop (length cs) cs) ws) (take_all cs)
    ∙ ap (λ t. writeline_loop (length (c ∷ cs)) (c ∷ cs) t ws) (drop_all cs)
  where
    take_all : (cs : Bytes) → take (length cs) cs ≡ cs
    take_all [] = refl
    take_all (c ∷ cs) = ap (λ x. c ∷ x) (take_all cs)

    drop_all : (cs : Bytes) → drop (length cs) cs ≡ []
    drop_all [] = refl
    drop_all (c ∷ cs) = drop_all cs

-- A line without a zero byte, of at most 997 bytes and its line feed, is sent back as it came when
-- the socket takes it at once, whatever the buffer held before.
pub serve-line :
    (cs buffer : Bytes) (rs : List ReadByte) (ws : List WriteEvent)
    → All IsLineByte cs
    → length cs < 998
    → (b : Bytes) × (serve buffer
          (bytes_of (cs ++ b'\n' ∷ []) rs)
          (wrote (length (cs ++ b'\n' ∷ [])) ∷ ws)
        ≡ some (cs ++ b'\n' ∷ [], b))
unfolding serve readline terminate
serve-line cs buffer rs ws h l = (
  kept,
  rw (serve, readline, readline_loop-line cs 998 1 [] buffer rs h l, terminate, text, whole line ws)
      refl,
)
  where
    line : Bytes
    line = cs ++ b'\n' ∷ []

    kept : Bytes
    kept = overlay (line ++ 0 ∷ []) buffer

    text : c_string kept ≡ line
    text = ap c_string (append_assoc line (0 ∷ []) _) ∙ c_string-append line _ (line-All cs h)

-- A client that closes the connection without a byte is sent the line that the buffer still holds
-- from the connection before, as long as the socket takes the line at once.
pub serve_silent_client :
    (old rest : Bytes) (rs : List ReadByte) (ws : List WriteEvent)
    → All (λ c. c ≢ 0) old
    → serve (old ++ 0 ∷ rest) (end_of_stream ∷ rs) (wrote (length old) ∷ ws)
      ≡ some (old, old ++ 0 ∷ rest)
unfolding serve readline readline_loop
serve_silent_client old rest rs ws h =
    rw (serve, readline, readline_loop, c_string-append old rest h, whole old ws) refl

-- `Readline` counts an interrupted call of `read` as a byte: with each interruption in front of a
-- line, the answer is one more than the bytes stored.
pub readline_interrupted :
    (cs buffer : Bytes) (rs : List ReadByte)
    → All IsLineByte cs
    → length cs < 997
    → readline 999 buffer (read_eintr ∷ bytes_of (cs ++ b'\n' ∷ []) rs)
      ≡ some (terminate (2 + length cs) (cs ++ b'\n' ∷ []) buffer rs)
unfolding readline readline_loop
readline_interrupted cs buffer rs h l = readline_loop-line cs 997 2 [] buffer rs h l

-- A connection on which one line arrives, is taken back at once, and is closed.
abbrev pub visit : Bytes → Accepted
visit cs = connection (bytes_of (cs ++ b'\n' ∷ []) []) (wrote (length (cs ++ b'\n' ∷ [])) ∷ []) true

abbrev pub echoes : List Bytes → List Bytes
echoes ls = map (λ cs. cs ++ b'\n' ∷ []) ls

-- One client behind another, each with a line without a zero byte, of at most 997 bytes and its line
-- feed, on a socket that takes it at once: every client is sent its own line, in order, whatever the
-- buffer held before, and the server waits for the next.
pub main_loop-visits :
    (ls : List Bytes) (buffer : Bytes) (sent : List Bytes)
    → All (λ cs. All IsLineByte cs × (length cs < 998)) ls
    → main_loop buffer sent (map visit ls) ≡ record { sent = sent ++ echoes ls; message = none }
unfolding main_loop
main_loop-visits [] buffer sent h =
    ap (λ s. record { sent = s; message = none }) (sym (append-nil sent))
main_loop-visits (cs ∷ ls) buffer sent h =
    let (b, e) = serve-line cs buffer [] [] h.0.0 h.0.1 in
    rw (main_loop, e)
      (main_loop-visits ls b (sent ++ (cs ++ b'\n' ∷ []) ∷ []) h.1
        ∙ ap (λ s. record { sent = s; message = none })
            (append_assoc sent ((cs ++ b'\n' ∷ []) ∷ []) (echoes ls)))
