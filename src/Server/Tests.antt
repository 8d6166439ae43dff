-- ===== src/Server/Tests.antt =====
-- Runs of glacier/tcpserver.cc, and instances of its theorems.
use glacier.Common.{◌≡◌, refl, arith, true, false, none, some, [], ◌∷◌}
use glacier.Http.{no_events}
use glacier.Poller.{Epoll}
use glacier.Loops.Laws.{pool_behind}
use glacier.Server.{
  TcpServer, accepts, new_server, in_edge_triggered, handle_new_conn, accept_round, set_events,
}
use glacier.Server.Laws.{waiting, before, served, handle_new_conn-waiting, accept_round_deaf, dealt}

-- Two loops, of which the first was handed out once.
abbrev server : TcpServer
server = record (set_events no_events (new_server 1 2 3)) {
  pool = pool_behind 1 1 8 (9 ∷ []);
  accept_channel = record (new_server 1 2 3).accept_channel { lastevents = in_edge_triggered };
}

abbrev epoll : Epoll
epoll = record {
  fd2chan = λ n. none;
  fd2http = λ n. none;
  registered = λ n. some in_edge_triggered;
  timers = [];
}

handle_new_conn-waiting_example :
    handle_new_conn (waiting (5 ∷ 100000 ∷ 6 ∷ [])) server
    ≡ some (set_events in_edge_triggered (served 1 1 8 (9 ∷ []) (5 ∷ 100000 ∷ 6 ∷ []) server))
handle_new_conn-waiting_example =
    handle_new_conn-waiting 1 1 8 (9 ∷ []) (5 ∷ 100000 ∷ 6 ∷ []) server refl (omega arith)

dealt_test : dealt 1 8 (9 ∷ []) (5 ∷ 6 ∷ []) ≡ (9, 5) ∷ (8, 6) ∷ []
dealt_test = refl

accept_round_deaf_example :
    (t : TcpServer) × (f : Epoll) × (accept_round
        (before (5 ∷ []) (accepts 6 false ∷ []))
        true
        server
        epoll
      ≡ some (t, f))
    × (f.registered 3 ≡ some no_events)
    × (t.closed ≡ [])
    × (t.queued ≡ (9, 5) ∷ [])
accept_round_deaf_example =
    accept_round_deaf 1 1 8 (9 ∷ []) (5 ∷ []) 6 [] server epoll refl (omega arith) (omega arith)
      (omega arith) refl
