-- ===== src/Sockets/Tests.antt =====
-- Runs of the loops of glacier/utils.cc, and instances of their theorems.
use glacier.Common.{◌≤◌, ◌≡◌, refl, arith, true, false, some, List, [], ◌∷◌, length}
use glacier.Common.Int.{pos, negsuc}
use glacier.Common.Text.{codes}
use glacier.Sockets.{
  ReadEvent, chunk, read_eintr, read_eagain, WriteEvent, wrote, write_eintr, write_failed, readn,
  WriteResult, write_loop, finish_writen, writen,
}
use glacier.Sockets.Open.{Address, no_socket, refused, works, returns, open_clientfd, open_listenfd}
use glacier.Sockets.Open.Laws.{open_first}
use glacier.Sockets.Whole.{taking}
use glacier.Sockets.Laws.{Tells, readn-Tells, Obeys, Kept, writen-Kept}

abbrev arriving : List ReadEvent
arriving = chunk (codes "ab") ∷ read_eintr ∷ chunk (codes "c") ∷ read_eagain ∷ []

readn-Tells_example : Tells (some read_eagain) (codes "xabc") 3 (readn arriving (codes "x"))
readn-Tells_example = readn-Tells arriving (codes "x")

abbrev pieces : List WriteEvent
pieces = wrote 2 ∷ write_eintr ∷ wrote 1 ∷ []

pieces-Obeys : Obeys pieces (codes "abc") × (length (codes "abc") ≤ taking pieces)
pieces-Obeys = (ground arith, ground arith)

abbrev failing : List WriteEvent
failing = wrote 2 ∷ write_failed ∷ []

abbrev after_failure : WriteResult
after_failure = record { result = negsuc 0; buf = codes "abc"; taken = codes "ab"; unused = [] }

failing-Obeys : Obeys failing (codes "abc")
failing-Obeys = ground arith

failing_run : writen failing (codes "abc") ≡ some after_failure
unfolding writen write_loop finish_writen
failing_run = refl

writen-Kept_example : Kept (codes "abc") after_failure
writen-Kept_example = writen-Kept failing (codes "abc") failing-Obeys failing_run

-- An address without a socket, one that refuses, one that works.
abbrev addresses : List Address
addresses = no_socket ∷ refused 4 true ∷ works 5 ∷ []

open_first_example :
    (open_clientfd (some addresses) ≡ returns (pos 5) (4 ∷ 5 ∷ []) (4 ∷ []))
    × (open_listenfd (some addresses) false ≡ returns (negsuc 0) (4 ∷ 5 ∷ []) (4 ∷ 5 ∷ []))
open_first_example = open_first addresses false (tt, (refl, (tt, tt)))
