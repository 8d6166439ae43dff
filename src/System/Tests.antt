-- ===== src/System/Tests.antt =====
-- A run of the whole server, and the instance of its theorem.
use glacier.Common.{ℕ, List, ◌+◌, ◌<◌, ◌≤◌, ◌≡◌, refl, arith, true, none, some, [], ◌∷◌, ◌++◌}
use mathlib.Core.List.{Memᴰ}
use glacier.Http.Response.{World}
use glacier.Http.Turn.Answers.{answers_of, answer_of, readable}
use glacier.Http.Tests.{disk, socket, asked, asked-IsServed}
use glacier.Poller.{Epoll, Channel}
use glacier.Reactor.{
  EventLoop, new_event_loop, begin_loop, test_quit, Reach, made, goes, begins, tests, polling,
}
use glacier.Loops.Laws.{pool_behind}
use glacier.Server.{new_server, in_edge_triggered}
use glacier.Server.Laws.{waiting}
use glacier.System.{System, Worker, accept_step, worker_round}
use glacier.System.Registered.{IsWaiting}
use glacier.System.Serve.{serve_turns}
use glacier.System.Idle.{Timed, timed_turn, expire}
use glacier.System.Idle.Closes.{IsGone}
use glacier.System.Idle.Laws.{IsLinked, timed_turn-expire}
use glacier.System.Serve.{with_scripts}
use glacier.System.{new_channel}
use glacier.Timers.{Timer, Clock, new_timer, milliseconds}
use glacier.Timers.Laws.{IsHeap, real}
use glacier.Http.{new_http_data, lookup, assign}
use glacier.Http.Connection.{default_event}
use glacier.Http.Response.{wants_keep_alive}
use glacier.Common.Text.{str_eq}
use glacier.System.Whole.{accept_step-answers_of}

abbrev empty : Epoll
empty = record { fd2chan = λ n. none; fd2http = λ n. none; registered = λ n. none; timers = [] }

abbrev loop : EventLoop
loop = record (begin_loop new_event_loop) { place = polling }

loop-Reach : Reach [] loop
unfolding test_quit
loop-Reach =
    goes [] [] _ _ (goes [] [] _ _ made (begins new_event_loop refl refl))
      (tests (begin_loop new_event_loop) refl)

-- Two loops that wait, of which the first was handed out once, and the acceptor, registered.
abbrev system : System
system = record {
  server = record (new_server 1 2 3) {
    pool = pool_behind 1 1 8 (9 ∷ []);
    accept_channel = record (new_server 1 2 3).accept_channel { lastevents = in_edge_triggered };
  };
  poller = record empty { registered = λ n. some in_edge_triggered };
  workers = λ n. record { loop = loop; poller = empty; connections = λ fd. none };
}

accept_step-answers_of_example :
    (t : System) × (w : Worker) × (x' : World) × (accept_step
        (waiting (5 ∷ 100000 ∷ 6 ∷ 7 ∷ []))
        true
        system
      ≡ some t)
    × ((worker_round true (t.workers 9)).loop.ran ≡ 5 ∷ 7 ∷ [])
    × (serve_turns true disk 1 7 (asked ∷ asked ∷ []) socket (worker_round true (t.workers 9))
        ≡ some (w, x'))
    × (x'.sent ≡ socket.sent ++ answers_of (asked ∷ asked ∷ []))
    × IsWaiting 7 w
accept_step-answers_of_example =
    accept_step-answers_of 1 1 8 (9 ∷ []) (5 ∷ 100000 ∷ 6 ∷ 7 ∷ []) system refl (omega arith) refl 9
      7 [] (Memᴰ.tail (Memᴰ.tail (Memᴰ.head refl))) loop-Reach refl disk 0 (asked ∷ asked ∷ [])
      socket (asked-IsServed, (asked-IsServed, tt))

-- A loop with one connection, whose timer is the second of three in the heap.
abbrev at : ℕ → Clock
at s = record { tv_sec = s; tv_usec = 0 }

abbrev heap : List Timer
heap = new_timer (at 0) 4 8 1000 ∷ new_timer (at 1) 3 7 2000 ∷ new_timer (at 2) 5 9 300000 ∷ []

abbrev registered : Channel
registered = record (new_channel 7) { events = default_event; lastevents = default_event }

abbrev timed : Timed
timed = record {
  worker = record {
    loop = loop;
    poller = record empty { fd2chan = λ n. some registered; registered = λ n. some default_event };
    connections = λ n. some (record new_http_data { timer = some 3 });
  };
  heap = heap;
}

abbrev timed-IsWaiting : IsWaiting 7 timed.worker
timed-IsWaiting = record {
  http = record new_http_data { timer = some 3 };
  registered = record { channel = registered; in_table = refl; fd_is = refl; synced = refl };
  in_connections = refl;
  waits = refl;
}

timed-IsHeap : IsHeap timed.heap
unfolding new_timer milliseconds
timed-IsHeap = ((omega arith, (omega arith, tt)), ((omega arith, tt), (tt, tt)))

timed_turn-expire_example :
    (t : Timed) × (x' : World) × (timed_turn true disk 1 7 readable
        (at 2)
        (with_scripts asked socket)
        timed
      ≡ some (t, x'))
    × (x'.sent ≡ socket.sent ++ answer_of asked)
    × (j : IsWaiting 7 t.worker) × IsHeap t.heap
    × IsLinked 7 j.http.timer t.heap
    × (real (at 300) < real (at 2) + 300000 → IsWaiting 7 (expire true (at 300) t).worker)
    × (real (at 2) + 300000 ≤ real (at 300) → IsGone 7 (expire true (at 300) t).worker)
unfolding new_timer wants_keep_alive lookup assign str_eq
timed_turn-expire_example =
    timed_turn-expire disk 0 7 asked socket timed (at 2) (at 300) asked-IsServed timed-IsWaiting
      timed-IsHeap ((λ e. cc), ((λ e. refl), ((λ e. cc), tt))) refl
