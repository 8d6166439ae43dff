-- ===== src/Sockets.antt =====
-- The read and write loops of glacier/utils.cc. Every call of `read` or `write` takes the next
-- event of a script, which stands for the kernel; `none` means that the script ended while the loop
-- goes on, so the result is not yet known.
pub mod Whole
pub mod Laws
pub mod Open
pub mod Tests
use glacier.Common.{
  ℕ, ◌+◌, Bool, true, false, Option, none, some, List, [], ◌∷◌, ◌++◌, length, take, drop, ◌==◌,
  if◌then◌else◌, Bytes,
}
use glacier.Common.Int.{ℤ, pos, negsuc}

-- What `read` answers: bytes, none of them at the end of the stream, or an error by its `errno`.
pub data ReadEvent : Type 0 where
  chunk : Bytes → ReadEvent
  read_eintr read_eagain read_failed : ReadEvent

-- What `write` answers: how many bytes it took, or an error.
pub data WriteEvent : Type 0 where
  wrote : ℕ → WriteEvent
  write_eintr write_eagain write_failed : WriteEvent

pub record ReadResult : Type 0 where
  pub cnt : ℤ
  pub in_buffer : Bytes
  pub zero : Bool
  pub unread : List ReadEvent

unfoldable pub readn_loop : List ReadEvent → ℕ → Bytes → Option ReadResult
readn_loop [] read_sum in_buffer = none
readn_loop (chunk [] ∷ es) read_sum in_buffer =
    some (record { cnt = pos read_sum; in_buffer = in_buffer; zero = true; unread = es })
readn_loop (chunk (c ∷ cs) ∷ es) read_sum in_buffer =
    readn_loop es (read_sum + length (c ∷ cs)) (in_buffer ++ c ∷ cs)
readn_loop (read_eintr ∷ es) read_sum in_buffer = readn_loop es read_sum in_buffer
readn_loop (read_eagain ∷ es) read_sum in_buffer =
    some (record { cnt = pos read_sum; in_buffer = in_buffer; zero = false; unread = es })
readn_loop (read_failed ∷ es) read_sum in_buffer =
    some (record { cnt = negsuc 0; in_buffer = in_buffer; zero = false; unread = es })

unfoldable pub readn : List ReadEvent → Bytes → Option ReadResult
readn es in_buffer = readn_loop es 0 in_buffer

-- How a write loop ended; `left` are the bytes behind `ptr`, and `sent` those that `write` took.
pub data Ending : Type 0 where
  finished blocked broken : Ending

pub record Written : Type 0 where
  pub ending : Ending
  pub write_sum : ℕ
  pub sent : Bytes
  pub left : Bytes
  pub unused : List WriteEvent

-- The loop that both `writen` share, over the bytes from `ptr` on.
unfoldable pub write_loop : List WriteEvent → ℕ → Bytes → Bytes → Option Written
write_loop es write_sum sent [] =
    some (record { ending = finished; write_sum = write_sum; sent = sent; left = []; unused = es })
write_loop [] write_sum sent (c ∷ cs) = none
write_loop (wrote n ∷ es) write_sum sent (c ∷ cs) =
    write_loop es (write_sum + n) (sent ++ take n (c ∷ cs)) (drop n (c ∷ cs))
write_loop (write_eintr ∷ es) write_sum sent (c ∷ cs) = write_loop es write_sum sent (c ∷ cs)
write_loop (write_eagain ∷ es) write_sum sent (c ∷ cs) =
    some
      (record { ending = blocked; write_sum = write_sum; sent = sent; left = c ∷ cs; unused = es })
write_loop (write_failed ∷ es) write_sum sent (c ∷ cs) =
    some
      (record { ending = broken; write_sum = write_sum; sent = sent; left = c ∷ cs; unused = es })

pub record WriteResult : Type 0 where
  pub result : ℤ
  pub buf : Bytes
  pub taken : Bytes
  pub unused : List WriteEvent

-- `writen` of a string: what is left of it stays in the buffer.
unfoldable pub finish_writen : Bytes → Written → WriteResult
finish_writen buf w = elim w.ending [
  | broken ↦ record { result = negsuc 0; buf = buf; taken = w.sent; unused = w.unused }
  | _ ↦ record {
    result = pos w.write_sum;
    buf = if w.write_sum == length buf then [] else drop w.write_sum buf;
    taken = w.sent;
    unused = w.unused;
  }
]

unfoldable pub writen : List WriteEvent → Bytes → Option WriteResult
writen es buf = elim (write_loop es 0 [] buf) [ none ↦ none | some w ↦ some (finish_writen buf w) ]

-- `writen` of a raw buffer.
unfoldable pub writen_raw : List WriteEvent → Bytes → Option WriteResult
writen_raw es buff = elim (write_loop es 0 [] buff) [
  | none ↦ none
  | some w ↦ some (record {
    result = elim w.ending [ broken ↦ negsuc 0 | _ ↦ pos w.write_sum ];
    buf = w.left;
    taken = w.sent;
    unused = w.unused;
  })
]
