-- ===== src/System.antt =====
-- The parts of the server together: what glacier/tcpserver.cc accepts goes through `queueInLoop` of
-- glacier/eventloop.cc to a loop, whose round calls `HttpData::newEvent`; and a turn of that loop
-- takes a descriptor from glacier/epoll.cc through glacier/channel.cc to the handlers of
-- glacier/httpdata.cc, whose calls of the loop come back to the poller. Loops and connections are
-- numbers, those of connections their descriptors.
pub mod Start
pub mod Deal
pub mod Registered
pub mod Serve
pub mod Whole
pub mod Idle
pub mod Tests
use glacier.Common.{
  ℕ, ◌+◌, Bool, true, false, Option, none, some, List, [], ◌∷◌, ◌++◌, ltb, ◌==◌, length,
  if◌then◌else◌,
}
use glacier.Http.{HttpData, new_http_data, disconnected, Events, no_events}
use glacier.Http.Response.{
  Call, update_poller, add_to_poller, close_in_loop, remove_from_poller, reset_timer, World,
  FileSystem,
}
use glacier.Http.Connection.{new_event}
use glacier.Http.Turn.{run_callbacks}
use glacier.Poller.{
  Channel, equal_and_update_last_events, handle_events, Table, put_at, Epoll, epoll_add, epoll_mod,
  epoll_del, get_active_channels,
}
use glacier.Reactor.{EventLoop, wakeup, push_functor, round}
use glacier.Server.{Accept, TcpServer, accept_round}

-- A loop with its poller and the connections that it serves.
pub record Worker : Type 0 where
  pub loop : EventLoop
  pub poller : Epoll
  pub connections : Table HttpData

-- The server with the poller of its own loop, and the loops that it deals connections out to.
pub record System : Type 0 where
  pub server : TcpServer
  pub poller : Epoll
  pub workers : ℕ → Worker

-- `queueInLoop`, called by another thread.
abbrev pub queue_from_outside : ℕ → Worker → Worker
queue_from_outside cb w = record w { loop = wakeup (push_functor cb w.loop) }

abbrev pub at_loop : ℕ → (Worker → Worker) → (ℕ → Worker) → ℕ → Worker
at_loop loop f ws n = if n == loop then f (ws n) else ws n

-- The last line of `handleNewConn`, for each of these connections.
unfoldable pub deal : List (ℕ × ℕ) → (ℕ → Worker) → ℕ → Worker
deal [] ws = ws
deal ((loop, fd) ∷ qs) ws = deal qs (at_loop loop (queue_from_outside fd) ws)

-- A turn of the acceptor, and what it queues.
unfoldable pub accept_step : List Accept → Bool → System → Option System
accept_step es ok s = elim (accept_round es ok (record s.server { queued = [] }) s.poller) [
  | none ↦ none
  | some (t, e) ↦ some (record s { server = t; poller = e; workers = deal t.queued s.workers })
]

-- A timer that the poller adds for a connection becomes that of the connection.
abbrev pub linked : ℕ → Epoll → HttpData → HttpData
linked timeout e d = if ltb 0 timeout then record d { timer = some (length e.timers) } else d

-- The channel and the connection, with the poller of their loop.
pub record Bound : Type 0 where
  pub channel : Channel
  pub http : HttpData
  pub epoll : Epoll

-- The events of the channel are set in front of each of these calls.
abbrev pub with_events : Events → Channel → Channel
with_events e c = record c { events = e }

-- What a call of a handler does: `addToPoller`, `updatePoller`, `handleClose` by `runInLoop` in the
-- loop's own thread, and `removeFromPoller`. The reset of a timer touches the timer only.
unfoldable pub perform : Bool → Call → Bound → Bound
perform ok (update_poller ev timeout) b =
    let c = with_events ev b.channel in
    record {
      channel = (equal_and_update_last_events c).1;
      http = linked timeout b.epoll b.http;
      epoll = epoll_mod ok c timeout b.epoll;
    }
perform ok (add_to_poller ev timeout) b =
    let c = with_events ev b.channel in
    record {
      channel = (equal_and_update_last_events c).1;
      http = linked timeout b.epoll b.http;
      epoll = epoll_add ok c timeout b.epoll;
    }
perform ok close_in_loop b = record b {
  http = record b.http { connstate = disconnected };
  epoll = epoll_del ok b.channel b.epoll;
}
perform ok remove_from_poller b = record b { epoll = epoll_del ok b.channel b.epoll }
perform ok (reset_timer t) b = b

unfoldable pub performs : Bool → List Call → Bound → Bound
performs ok [] b = b
performs ok (c ∷ cs) b = performs ok cs (perform ok c b)

-- The channel of a new connection, with its holder.
abbrev pub new_channel : ℕ → Channel
new_channel fd = record {
  fd = fd;
  events = no_events;
  revents = no_events;
  lastevents = no_events;
  holder = some fd;
}

abbrev pub silent : World
silent = record { reads = []; writes = []; sent = []; calls = [] }

-- One functor of a loop: `newEvent` of a connection.
unfoldable pub run_functor : Bool → ℕ → Worker → Worker
run_functor ok fd w =
    let (d, x) = new_event new_http_data silent in
    let b = performs ok x.calls (record { channel = new_channel fd; http = d; epoll = w.poller }) in
    record w { poller = b.epoll; connections = put_at fd (some b.http) w.connections }

unfoldable pub run_functors : Bool → List ℕ → Worker → Worker
run_functors ok [] w = w
run_functors ok (fd ∷ fds) w = run_functors ok fds (run_functor ok fd w)

-- A round of a loop in which no connection is active, with what its functors do.
unfoldable pub worker_round : Bool → Worker → Worker
worker_round ok w = record (run_functors ok w.loop.pending_functors w) { loop = round w.loop }

-- The handlers of the active channel `c` of the connection `d`, and then their calls.
unfoldable pub channel_turn :
    Bool → FileSystem → ℕ → Channel → HttpData → World → Epoll → Option (Bound × World)
channel_turn ok fs fuel c d x e =
    elim (run_callbacks fs fuel (handle_events c) (record d { events = no_events })
      (record x { calls = [] })) [
        | none ↦ none
        | some (d', x') ↦
            some (performs ok x'.calls (record { channel = c; http = d'; epoll = e }), x')
      ]

-- A turn of the descriptor `fd`, whose peer is `x`, when the poller tells of it; `none` where it is not
-- active.
unfoldable pub serve_turn :
    Bool → FileSystem → ℕ → ℕ → Events → World → Worker → Option (Worker × World)
serve_turn ok fs fuel fd revents x w = elim (get_active_channels ((fd, revents) ∷ []) w.poller) [
  | [] ↦ none
  | c ∷ cs ↦ elim (w.connections fd) [
    | none ↦ none
    | some d ↦ elim (channel_turn ok fs fuel c d x w.poller) [
      | none ↦ none
      | some (b, x') ↦
          some
            (record w { poller = b.epoll; connections = put_at fd (some b.http) w.connections }, x')
    ]
  ]
]
