-- ===== src/System/Idle.antt =====
-- The turns of a connection with the heap of timers of its loop: glacier/httpdata.cc and epoll.cc with
-- glacier/timer.cc. A timer is numbered by the calls of `addTimer` in front of it.
pub mod Closes
pub mod Laws
use glacier.Common.{ℕ, ◌+◌, Bool, Option, none, some, List, [], ◌∷◌, ltb, length, if◌then◌else◌}
use glacier.Http.{HttpData, Events}
use glacier.Http.Response.{
  Call, update_poller, add_to_poller, close_in_loop, remove_from_poller, reset_timer, World,
  FileSystem,
}
use glacier.Http.Connection.{handle_close}
use glacier.Poller.{put_at}
use glacier.Timers.{Timer, Clock, add_timer, reset_in, handle_expired_event}
use glacier.System.{Worker, performs, new_channel, silent, serve_turn}

pub record Timed : Type 0 where
  pub worker : Worker
  pub heap : List Timer

-- The timer of a call with this timeout, if it has one, and how many were made then.
abbrev pub timed : Clock → ℕ → ℕ → ℕ → List Timer → List Timer
timed now fd made timeout heap = if ltb 0 timeout then add_timer now made fd timeout heap else heap

abbrev pub counted : ℕ → ℕ → ℕ
counted timeout made = if ltb 0 timeout then made + 1 else made

-- What the calls of a handler do to the heap.
unfoldable pub heap_after : Clock → ℕ → ℕ → List Call → List Timer → List Timer
heap_after now fd made [] heap = heap
heap_after now fd made (update_poller ev timeout ∷ cs) heap =
    heap_after now fd (counted timeout made) cs (timed now fd made timeout heap)
heap_after now fd made (add_to_poller ev timeout ∷ cs) heap =
    heap_after now fd (counted timeout made) cs (timed now fd made timeout heap)
heap_after now fd made (reset_timer n ∷ cs) heap = heap_after now fd made cs (reset_in n heap)
heap_after now fd made (close_in_loop ∷ cs) heap = heap_after now fd made cs heap
heap_after now fd made (remove_from_poller ∷ cs) heap = heap_after now fd made cs heap

-- A turn of the descriptor `fd`, and what it does to the heap.
unfoldable pub timed_turn :
    Bool → FileSystem → ℕ → ℕ → Events → Clock → World → Timed → Option (Timed × World)
timed_turn ok fs fuel fd revents now x s = elim (serve_turn ok fs fuel fd revents x s.worker) [
  | none ↦ none
  | some (w, x') ↦ some (
    record { worker = w; heap = heap_after now fd (length s.worker.poller.timers) x'.calls s.heap },
    x',
  )
]

-- `handleClose` of a connection, called by the destructor of its timer. `removeFromPoller` looks at the
-- descriptor of the channel only.
unfoldable pub close_one : Bool → ℕ → Worker → Worker
close_one ok fd w = elim (w.connections fd) [
  | none ↦ w
  | some d ↦
      let (d', x) = handle_close d silent in
      let b =
        performs ok x.calls (record { channel = new_channel fd; http = d'; epoll = w.poller }) in
      record w { poller = b.epoll; connections = put_at fd (some b.http) w.connections }
]

unfoldable pub close_all : Bool → List ℕ → Worker → Worker
close_all ok [] w = w
close_all ok (fd ∷ fds) w = close_all ok fds (close_one ok fd w)

-- `handleExpired` of the loop.
unfoldable pub expire : Bool → Clock → Timed → Timed
expire ok now s =
    let (heap, closed) = handle_expired_event now s.heap in
    record { worker = close_all ok closed s.worker; heap = heap }
