-- ===== src/Server.antt =====
-- The server, glacier/tcpserver.h and tcpserver.cc: the acceptor, which hands connections to the loops
-- in turn. Every call of `accept` takes the next answer of a script; `none` as a result means that the
-- script ended while the code still loops, or that it aborts.
pub mod Laws
pub mod Tests
use glacier.Common.{
  ℕ, zero, suc, ◌+◌, ◌≤◌, Bool, true, false, Option, none, some, List, [], ◌∷◌, ◌++◌, leb, ◌==◌,
  if◌then◌else◌,
}
use glacier.Http.{Events, no_events}
use glacier.Poller.{equal_and_update_last_events, Channel, Epoll, epoll_add, epoll_mod}
use glacier.Loops.{EventLoopThreadPool, new_loop_pool, start_loops, get_next_loop}

-- What `accept` answers: a descriptor, with whether `fcntl` can make it one that does not block, or an
-- error.
pub data Accept : Type 0 where
  accepts : ℕ → Bool → Accept
  accept_failed : Accept

-- `queued` are the connections handed to a loop, each with its loop; `closed` the descriptors closed
-- again, `nonblocking` and `nodelay` those set so.
pub record TcpServer : Type 0 where
  pub pool : EventLoopThreadPool
  pub accept_channel : Channel
  pub nonblocking : List ℕ
  pub nodelay : List ℕ
  pub closed : List ℕ
  pub queued : List (ℕ × ℕ)
  pub started : Bool

abbrev pub maxfds : ℕ
maxfds = 100000

abbrev pub in_edge_triggered : Events
in_edge_triggered = record no_events { epollin = true; epollet = true }

abbrev pub set_events : Events → TcpServer → TcpServer
set_events e s = record s { accept_channel = record s.accept_channel { events = e } }

-- The constructor, with the loop and the descriptor that `open_listenfd` returned.
abbrev pub new_server : ℕ → ℕ → ℕ → TcpServer
new_server loop thread_num listenfd = record {
  pool = new_loop_pool loop thread_num;
  accept_channel = record {
    fd = listenfd;
    events = no_events;
    revents = no_events;
    lastevents = no_events;
    holder = none;
  };
  nonblocking = [];
  nodelay = [];
  closed = [];
  queued = [];
  started = false;
}

-- `start`, with the loops that the threads make and whether `epoll_ctl` succeeds. The channel in the
-- table is the server's own, so its last events are updated here too.
unfoldable pub start : List ℕ → Bool → TcpServer → Epoll → TcpServer × Epoll
start made ok s e =
    let c = record s.accept_channel { events = in_edge_triggered } in
    (
      record s {
        pool = start_loops made s.pool;
        accept_channel = record c { lastevents = in_edge_triggered };
        started = true;
      },
      epoll_add ok c 0 e,
    )

-- What happens to a connection behind the bound and `fcntl`.
unfoldable pub hand_over : ℕ → TcpServer → Option TcpServer
hand_over connfd s = elim (get_next_loop s.pool) [
  | none ↦ none
  | some (loop, pool) ↦ some (record s {
    pool = pool;
    nonblocking = s.nonblocking ++ connfd ∷ [];
    nodelay = s.nodelay ++ connfd ∷ [];
    queued = s.queued ++ (loop, connfd) ∷ [];
  })
]

-- `handleNewConn`. A descriptor of number 0 ends the loop as an error does.
unfoldable pub handle_new_conn : List Accept → TcpServer → Option TcpServer
handle_new_conn [] s = none
handle_new_conn (accept_failed ∷ es) s = some (set_events in_edge_triggered s)
handle_new_conn (accepts zero ok ∷ es) s = some (set_events in_edge_triggered s)
handle_new_conn (accepts (suc n) ok ∷ es) s =
    let closing = handle_new_conn es (record s { closed = s.closed ++ suc n ∷ [] }) in
    if leb maxfds (suc n)
    then closing
    else if ok
    then elim (hand_over (suc n) s) [ none ↦ none | some t ↦ handle_new_conn es t ]
    else some s

-- `handleThisConn`, with whether `epoll_ctl` succeeds. The channel is the server's own, so its last events
-- are updated here too.
abbrev pub handle_this_conn : Bool → TcpServer → Epoll → TcpServer × Epoll
handle_this_conn ok s e = (
  record s { accept_channel = (equal_and_update_last_events s.accept_channel).1 },
  epoll_mod ok s.accept_channel 0 e,
)

-- A turn of the acceptor's channel: `handleEvents` resets the events, and then calls both.
unfoldable pub accept_round : List Accept → Bool → TcpServer → Epoll → Option (TcpServer × Epoll)
accept_round es ok s e = elim (handle_new_conn es (set_events no_events s)) [
  | none ↦ none
  | some t ↦ some (handle_this_conn ok t e)
]
