-- ===== src/Poller/Tests.antt =====
-- Runs of glacier/epoll.cc, and instances of its theorems.
use glacier.Common.{◌≡◌, refl, true, none, some, [], ◌∷◌}
use glacier.Http.{no_events}
use glacier.Poller.{Channel, Epoll, handle_events, read_callback, conn_callback}

abbrev channel : Channel
channel = record {
  fd = 4;
  events = record no_events { epollout = true };
  revents = record no_events { epollin = true };
  lastevents = record no_events { epollin = true };
  holder = some 9;
}

abbrev epoll : Epoll
epoll = record {
  fd2chan = λ n. some channel;
  fd2http = λ n. none;
  registered = λ n. some channel.lastevents;
  timers = [];
}

read_test : handle_events channel ≡ read_callback ∷ conn_callback ∷ []
unfolding handle_events
read_test = refl
