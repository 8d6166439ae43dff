-- ===== src/Echo.antt =====
-- The echo server of echoserv: `Readline` and `Writeline` of echoserv/helper.c, and one turn of the
-- loop of echoserv/echoserv.c. Each call of `read` takes the next event of a script; `none` means
-- that the script ends while the function goes on. The buffer is the array of its bytes.
pub mod Main
pub mod Laws
pub mod Client
pub mod Tests
use glacier.Common.{
  ℕ, zero, suc, ◌+◌, ◌-◌, Bool, true, false, Option, none, some, List, [], ◌∷◌, ◌++◌, length, take,
  drop, ◌==◌, if◌then◌else◌, Bytes,
}
use glacier.Common.Int.{ℤ, pos, negsuc}
use glacier.Sockets.{WriteEvent, wrote, write_eintr, write_eagain, write_failed}

-- What `read` of one byte answers.
pub data ReadByte : Type 0 where
  byte : ℕ → ReadByte
  end_of_stream read_eintr read_failed : ReadByte

pub record Line : Type 0 where
  pub result : ℤ
  pub buffer : Bytes
  pub unread : List ReadByte

-- The bytes `stored` are written over the front of the array.
abbrev pub overlay : Bytes → Bytes → Bytes
overlay stored buffer = stored ++ drop (length stored) buffer

-- The end of `Readline`: the terminator, and the count.
unfoldable pub terminate : ℕ → Bytes → Bytes → List ReadByte → Line
terminate n stored buffer es = record {
  result = pos n;
  buffer = overlay (stored ++ 0 ∷ []) buffer;
  unread = es;
}

-- The loop with `left` rounds to go, so that `n + left` is `maxlen`.
unfoldable pub readline_loop : ℕ → ℕ → Bytes → Bytes → List ReadByte → Option Line
readline_loop zero n stored buffer es = some (terminate n stored buffer es)
readline_loop (suc left) n stored buffer [] = none
readline_loop (suc left) n stored buffer (byte c ∷ es) =
    let rest = readline_loop left (n + 1) (stored ++ c ∷ []) buffer es in
    if c == b'\n' then some (terminate n (stored ++ c ∷ []) buffer es) else rest
readline_loop (suc left) n stored buffer (end_of_stream ∷ es) =
    if n == 1
    then some (record { result = pos 0; buffer = overlay stored buffer; unread = es })
    else some (terminate n stored buffer es)
readline_loop (suc left) n stored buffer (read_eintr ∷ es) =
    readline_loop left (n + 1) stored buffer es
readline_loop (suc left) n stored buffer (read_failed ∷ es) =
    some (record { result = negsuc 0; buffer = overlay stored buffer; unread = es })

unfoldable pub readline : ℕ → Bytes → List ReadByte → Option Line
readline maxlen buffer es = readline_loop (maxlen - 1) 1 [] buffer es

pub record Sent : Type 0 where
  pub result : ℤ
  pub sent : Bytes

-- `Writeline` over the bytes that are left; `n` is what it answers. A `write` that takes nothing
-- leaves `errno` as it was, which is taken not to be EINTR.
unfoldable pub writeline_loop : ℕ → Bytes → Bytes → List WriteEvent → Option Sent
writeline_loop n sent [] es = some (record { result = pos n; sent = sent })
writeline_loop n sent (c ∷ cs) [] = none
writeline_loop n sent (c ∷ cs) (wrote zero ∷ es) = some (record { result = negsuc 0; sent = sent })
writeline_loop n sent (c ∷ cs) (wrote (suc k) ∷ es) =
    writeline_loop n (sent ++ take (suc k) (c ∷ cs)) (drop (suc k) (c ∷ cs)) es
writeline_loop n sent (c ∷ cs) (write_eintr ∷ es) = writeline_loop n sent (c ∷ cs) es
writeline_loop n sent (c ∷ cs) (_ ∷ es) = some (record { result = negsuc 0; sent = sent })

unfoldable pub writeline : Bytes → List WriteEvent → Option Sent
writeline line es = writeline_loop (length line) [] line es

-- The bytes in front of the first zero, as `strlen` counts them.
unfoldable pub c_string : Bytes → Bytes
c_string [] = []
c_string (c ∷ cs) = if c == 0 then [] else c ∷ c_string cs

abbrev pub max_line : ℕ
max_line = 1000

-- One connection: what is sent back, and the buffer that the next connection finds.
unfoldable pub serve : Bytes → List ReadByte → List WriteEvent → Option (Bytes × Bytes)
serve buffer rs ws = elim (readline (max_line - 1) buffer rs) [
  | none ↦ none
  | some l ↦ elim (writeline (c_string l.buffer) ws) [
    | none ↦ none
    | some s ↦ some (s.sent, l.buffer)
  ]
]
