-- ===== src/Reactor/Construct.antt =====
-- The constructor and the destructor of glacier/eventloop.cc, and the turns of the wakeup channel. Loops
-- are numbers; the variable of a thread is the loop that it knows of, if any.
pub mod Laws
use glacier.Common.{
  ℕ, zero, suc, Bool, true, false, Option, none, some, List, [], ◌∷◌, if◌then◌else◌,
}
use glacier.Http.{Events, no_events}
use glacier.Poller.{
  Channel, Callback, error_callback, read_callback, write_callback, conn_callback, handle_events,
  Epoll, equal_and_update_last_events, epoll_add, epoll_mod, get_active_channels,
}
use glacier.Reactor.{EventLoop, wakeup, push_functor, queue_in_loop}

-- `createEventfd`, which aborts where `eventfd` fails.
abbrev pub create_eventfd : Option ℕ → Option ℕ
create_eventfd answer = answer

abbrev pub new_epoll : Epoll
new_epoll = record { fd2chan = λ n. none; fd2http = λ n. none; registered = λ n. none; timers = [] }

-- The constructor's look at the variable of its thread: an error is only logged.
abbrev pub remember : ℕ → Option ℕ → Option ℕ
remember loop known = elim known [ none ↦ some loop | some other ↦ some other ]

abbrev pub wakeup_events : Events
wakeup_events = record no_events { epollin = true; epollet = true }

-- The wakeup channel with its events set.
abbrev pub wakeup_channel : ℕ → Channel
wakeup_channel fd = record {
  fd = fd;
  events = wakeup_events;
  revents = no_events;
  lastevents = no_events;
  holder = none;
}

-- `EventLoop::EventLoop`: the variable of the thread and the poller, from what `eventfd` answers and
-- whether `epoll_ctl` succeeds.
unfoldable pub construct : ℕ → Option ℕ → Bool → Option ℕ → Option (Option ℕ × Epoll)
construct loop answer ok known = elim (create_eventfd answer) [
  | none ↦ none
  | some fd ↦ some (remember loop known, epoll_add ok (wakeup_channel fd) 0 new_epoll)
]

-- `EventLoop::~EventLoop`, on the variable of the thread.
abbrev pub destruct : Option ℕ → Option ℕ
destruct known = none

-- `runInLoop`: the callback that is called at once, if one is, and the loop.
unfoldable pub run_in_loop : Bool → ℕ → EventLoop → Option ℕ × EventLoop
run_in_loop in_loop_thread cb s =
    if in_loop_thread then (some cb, s) else (none, wakeup (push_functor cb s))

-- The callbacks of the wakeup channel: `handleRead` sets its events, `handleConn` updates the poller.
unfoldable pub wakeup_callbacks : Bool → List Callback → Channel → Epoll → Epoll
wakeup_callbacks ok [] c e = e
wakeup_callbacks ok (read_callback ∷ cs) c e =
    wakeup_callbacks ok cs (record c { events = wakeup_events }) e
wakeup_callbacks ok (conn_callback ∷ cs) c e =
    wakeup_callbacks ok cs (equal_and_update_last_events c).1 (epoll_mod ok c 0 e)
wakeup_callbacks ok (error_callback ∷ cs) c e = wakeup_callbacks ok cs c e
wakeup_callbacks ok (write_callback ∷ cs) c e = wakeup_callbacks ok cs c e

-- A turn of the wakeup channel; `none` where it is not active.
unfoldable pub wakeup_turn : Bool → ℕ → Events → Epoll → Option Epoll
wakeup_turn ok fd revents e = elim (get_active_channels ((fd, revents) ∷ []) e) [
  | [] ↦ none
  | c ∷ cs ↦ some (wakeup_callbacks ok (handle_events c) c e)
]

-- So many turns, each told of by the same flags.
unfoldable pub wakeup_turns : Bool → ℕ → ℕ → Events → Epoll → Option Epoll
wakeup_turns ok zero fd revents e = some e
wakeup_turns ok (suc n) fd revents e = elim (wakeup_turn ok fd revents e) [
  | none ↦ none
  | some e' ↦ wakeup_turns ok n fd revents e'
]
