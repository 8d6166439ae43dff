-- ===== src/System/Whole.antt =====
-- A connection from `accept` to its answers.
use glacier.Common.{ℕ, suc, ◌<◌, ◌≡◌, refl, sym, ap, ◌∙◌, true, some, List, [], ◌++◌, All}
use mathlib.Core.Path.{subst}
use mathlib.Core.List.{Memᴰ}
use mathlib.Core.List.Memᴰ
use glacier.Http.Response.{World, FileSystem}
use glacier.Http.Turn.Answers.{Request, answers_of, IsServed}
use glacier.Poller.Laws.{IsSynced}
use glacier.Reactor.{polling, Reach, round}
use glacier.Reactor.Round.{round-Reach}
use glacier.Loops.Laws.{pool_behind}
use glacier.Server.Laws.{waiting, small, dealt, accept_round-waiting}
use glacier.System.{System, Worker, deal, accept_step, worker_round}
use glacier.System.Deal.{dealt_to, dealt_to-Memᴰ, deal-Queued}
use glacier.System.Registered.{IsWaiting, run_functors-Memᴰ}
use glacier.System.Serve.{serve_turns, serve_turns-IsWaiting}

worker_round-IsWaiting :
    (fd : ℕ) (w : Worker) → Memᴰ fd w.loop.pending_functors → IsWaiting fd (worker_round true w)
unfolding worker_round
worker_round-IsWaiting fd w m =
    let i = run_functors-Memᴰ fd w.loop.pending_functors w m in
    record {
      http = i.http;
      registered = i.registered;
      in_connections = i.in_connections;
      waits = i.waits;
    }

worker_round-loop : (w : Worker) → (worker_round true w).loop ≡ round w.loop
unfolding worker_round
worker_round-loop w = refl

-- The loop `loop` with what it was dealt, and its next round.
module _ (loop : ℕ) (qs : List (ℕ × ℕ)) (ws : ℕ → Worker) where
  after_round : Worker
  after_round = worker_round true (deal qs ws loop)

  after_round-IsWaiting : (fd : ℕ) → Memᴰ (loop, fd) qs → IsWaiting fd after_round
  unfolding after_round
  after_round-IsWaiting fd m =
      let q = deal-Queued loop qs ws in
      worker_round-IsWaiting fd (deal qs ws loop) (
        subst (Memᴰ fd) (sym q.pending_is)
          (Memᴰ.append_right (ws loop).loop.pending_functors (dealt_to-Memᴰ loop fd qs m)))

  after_round-Reach :
      (cs : List ℕ)
      → Reach cs (ws loop).loop
      → (ws loop).loop.place ≡ polling
      → Reach (cs ++ dealt_to loop qs) after_round.loop
        × (after_round.loop.ran ≡ cs ++ dealt_to loop qs)
  unfolding after_round worker_round
  after_round-Reach cs r p =
      let q = deal-Queued loop qs ws in
      let (reach, place, ran, pending) =
        round-Reach (cs ++ dealt_to loop qs) (deal qs ws loop).loop (q.reach cs r)
          (q.place_kept ∙ p) in
      (reach, ran)

-- From `accept` to the answers. The server, whose loops were handed out `k` times, takes the connections
-- that wait, each of which `fcntl` makes nonblocking, in a turn of its acceptor alone; a loop that waits in `poll` is dealt those whose turn is its own, and its next round calls
-- every functor that was ever queued in it, in order, `newEvent` of each such connection among them.
-- Every connection so dealt is then registered: whatever number of requests its peer sends, under the
-- conditions of `IsServed` on each, the turns of the connection send their answers in order and nothing
-- else, and it is still registered, and waits for the next request. The last events of the acceptor are
-- taken to be those that the kernel has, and each `epoll_ctl` to succeed.
pub accept_step-answers_of :
    (baseloop k l : ℕ) (ls fds : List ℕ) (s : System)
    → s.server.pool ≡ pool_behind baseloop k l ls
    → All (λ n. 0 < n) fds
    → IsSynced s.server.accept_channel s.poller
    → (loop fd : ℕ) (cs : List ℕ) → Memᴰ (loop, fd) (dealt k l ls (small fds))
    → Reach cs (s.workers loop).loop
    → (s.workers loop).loop.place ≡ polling
    → (fs : FileSystem) (fuel : ℕ) (rs : List Request) (x : World) → All (IsServed fs) rs
    → (t : System) × (w : Worker) × (x' : World) × (accept_step (waiting fds) true s ≡ some t)
      × ((worker_round true (t.workers loop)).loop.ran
          ≡ cs ++ dealt_to loop (dealt k l ls (small fds)))
      × (serve_turns true fs (suc fuel) fd rs x (worker_round true (t.workers loop)) ≡ some (w, x'))
      × (x'.sent ≡ x.sent ++ answers_of rs)
      × IsWaiting fd w
unfolding accept_step after_round
accept_step-answers_of baseloop k l ls fds s p h y loop fd cs m r pl fs fuel rs x g =
    let qs = dealt k l ls (small fds) in
    let (t, e, accepted, registered, queued_are) =
      accept_round-waiting baseloop k l ls fds (record s.server { queued = [] }) s.poller p h y in
    let (w, x', served, sent, again) =
      serve_turns-IsWaiting fs fuel fd rs x (after_round loop qs s.workers) g
        (after_round-IsWaiting loop qs s.workers fd m) in
    (
      record s { server = t; poller = e; workers = deal qs s.workers },
      w,
      x',
      rw (accept_step, accepted)
          (ap (λ q. some (record s { server = t; poller = e; workers = deal q s.workers }))
            queued_are),
      (after_round-Reach loop qs s.workers cs r pl).1,
      served,
      sent,
      again,
    )
