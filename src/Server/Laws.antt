-- ===== src/Server/Laws.antt =====
-- What glacier/tcpserver.cc does with the connections that the kernel has.
use glacier.Common.{
  ℕ, zero, suc, ◌+◌, ◌%◌, ◌<◌, ◌≡◌, refl, sym, ap, ◌∙◌, true, false, none, some, List, [], ◌∷◌,
  ◌++◌, append-nil, append_assoc, length, get_elem?, leb, leb→le, if◌then◌else◌, Bool-cases, inl,
  inr, arith, All,
}
use native.Mathlib.Nat.{add-zero}
use glacier.Http.{no_events}
use glacier.Poller.{Epoll}
use glacier.Poller.Laws.{IsSynced, epoll_mod-IsSynced}
use glacier.Loops.{get_next_loop}
use glacier.Loops.Laws.{pool_behind, get_next_loop-pool_behind}
use glacier.Server.{
  Accept, accepts, accept_failed, TcpServer, maxfds, in_edge_triggered, set_events, hand_over,
  handle_new_conn, handle_this_conn, accept_round,
}

-- The answers of a kernel that has these connections waiting and can make each one nonblocking, in
-- front of others.
abbrev pub before : List ℕ → List Accept → List Accept
before [] es = es
before (fd ∷ fds) es = accepts fd true ∷ before fds es

abbrev pub waiting : List ℕ → List Accept
waiting fds = before fds (accept_failed ∷ [])

-- The descriptors below the bound and those from it on.
abbrev pub small : List ℕ → List ℕ
small [] = []
small (fd ∷ fds) = let rest = small fds in if leb maxfds fd then rest else fd ∷ rest

abbrev pub large : List ℕ → List ℕ
large [] = []
large (fd ∷ fds) = let rest = large fds in if leb maxfds fd then fd ∷ rest else rest

-- The loop whose turn is the `k`-th, and the connections dealt out from that turn on.
abbrev pub loop_of : ℕ → ℕ → List ℕ → ℕ
loop_of k l ls = elim (get_elem? (l ∷ ls) (k % length (l ∷ ls))) [ none ↦ l | some loop ↦ loop ]

abbrev pub dealt : ℕ → ℕ → List ℕ → List ℕ → List (ℕ × ℕ)
dealt k l ls [] = []
dealt k l ls (fd ∷ fds) = (loop_of k l ls, fd) ∷ dealt (k + 1) l ls fds

-- The server with those connections seen to.
abbrev pub served : ℕ → ℕ → ℕ → List ℕ → List ℕ → TcpServer → TcpServer
served baseloop k l ls fds s = record s {
  pool = pool_behind baseloop (k + length (small fds)) l ls;
  nonblocking = s.nonblocking ++ small fds;
  nodelay = s.nodelay ++ small fds;
  closed = s.closed ++ large fds;
  queued = s.queued ++ dealt k l ls (small fds);
}

deals :
    (baseloop k l : ℕ) (ls : List ℕ)
    → get_next_loop (pool_behind baseloop k l ls)
      ≡ some (loop_of k l ls, pool_behind baseloop (k + 1) l ls)
deals baseloop k l ls =
    let (loop, at, e) = get_next_loop-pool_behind baseloop k l ls in rw (loop_of, at) e

-- One connection below the bound handed over.
abbrev handed : ℕ → ℕ → ℕ → List ℕ → ℕ → TcpServer → TcpServer
handed baseloop k l ls fd s = record s {
  pool = pool_behind baseloop (k + 1) l ls;
  nonblocking = s.nonblocking ++ fd ∷ [];
  nodelay = s.nodelay ++ fd ∷ [];
  queued = s.queued ++ (loop_of k l ls, fd) ∷ [];
}

hand_over-handed :
    (baseloop k l : ℕ) (ls : List ℕ) (fd : ℕ) (s : TcpServer)
    → s.pool ≡ pool_behind baseloop k l ls
    → hand_over fd s ≡ some (handed baseloop k l ls fd s)
unfolding hand_over
hand_over-handed baseloop k l ls fd s p = rw (hand_over, p, deals baseloop k l ls) refl

handle_new_conn-before :
    (baseloop k l : ℕ) (ls fds : List ℕ) (es : List Accept) (s : TcpServer)
    → s.pool ≡ pool_behind baseloop k l ls
    → All (λ fd. 0 < fd) fds
    → handle_new_conn (before fds es) s ≡ handle_new_conn es (served baseloop k l ls fds s)
unfolding handle_new_conn
handle_new_conn-before baseloop k l ls [] es s p h = ap (handle_new_conn es) (λ i. record s {
  pool = (p ∙ ap (λ j. pool_behind baseloop j l ls) (sym (add-zero k))) i;
  nonblocking = sym (append-nil s.nonblocking) i;
  nodelay = sym (append-nil s.nodelay) i;
  closed = sym (append-nil s.closed) i;
  queued = sym (append-nil s.queued) i;
})
handle_new_conn-before baseloop k l ls (zero ∷ fds) es s p h = absurd (omega (arith, h.0))
handle_new_conn-before baseloop k l ls (suc n ∷ fds) es s p h =
    elim (Bool-cases (leb maxfds (suc n))) [
      | inl e ↦
          let t = record s { closed = s.closed ++ suc n ∷ [] } in
          rw (handle_new_conn, e)
            (handle_new_conn-before baseloop k l ls fds es t p h.1
              ∙ ap (λ x. handle_new_conn es (record (served baseloop k l ls fds s) { closed = x }))
                  (append_assoc s.closed (suc n ∷ []) (large fds)))
      | inr e ↦
          let t = handed baseloop k l ls (suc n) s in
          let rest = small fds in
          rw (handle_new_conn, e, hand_over-handed baseloop k l ls (suc n) s p)
            (handle_new_conn-before baseloop (k + 1) l ls fds es t refl h.1
              ∙ ap (handle_new_conn es) (λ i. record (served baseloop k l ls fds s) {
                pool = ap (λ j. pool_behind baseloop j l ls) (later (length rest)) i;
                nonblocking = append_assoc s.nonblocking (suc n ∷ []) rest i;
                nodelay = append_assoc s.nodelay (suc n ∷ []) rest i;
                queued =
                    append_assoc s.queued ((loop_of k l ls, suc n) ∷ []) (dealt (k + 1) l ls rest)
                      i;
              }))
    ]
  where
    later : (m : ℕ) → k + 1 + m ≡ k + suc m
    later m = omega arith

-- The server whose loops were handed out `k` times takes every connection that waits, as long as
-- `fcntl` makes each of them nonblocking: those below the bound become nonblocking and go to the loops in turn, from the `k`-th turn on; those from it on are
-- closed; and the acceptor asks for the next event.
pub handle_new_conn-waiting :
    (baseloop k l : ℕ) (ls fds : List ℕ) (s : TcpServer)
    → s.pool ≡ pool_behind baseloop k l ls
    → All (λ fd. 0 < fd) fds
    → handle_new_conn (waiting fds) s
      ≡ some (set_events in_edge_triggered (served baseloop k l ls fds s))
unfolding handle_new_conn
handle_new_conn-waiting baseloop k l ls fds s p h =
    handle_new_conn-before baseloop k l ls fds (accept_failed ∷ []) s p h

refused :
    (fd : ℕ) (es : List Accept) (s : TcpServer)
    → 0 < fd
    → fd < maxfds
    → handle_new_conn (accepts fd false ∷ es) s ≡ some s
unfolding handle_new_conn
refused zero es s p q = absurd (omega (arith, p))
refused (suc n) es s p q = elim (Bool-cases (leb maxfds (suc n))) [
  | inl e ↦ absurd (omega (arith, q, leb→le maxfds (suc n) e))
  | inr e ↦ rw (handle_new_conn, e) refl
]

-- As long as the last events of the acceptor are those that the kernel has, and `epoll_ctl` succeeds, a
-- turn that takes every connection that waits leaves the acceptor registered for the next one.
pub accept_round-waiting :
    (baseloop k l : ℕ) (ls fds : List ℕ) (s : TcpServer) (e : Epoll)
    → s.pool ≡ pool_behind baseloop k l ls
    → All (λ fd. 0 < fd) fds
    → IsSynced s.accept_channel e
    → (t : TcpServer) × (f : Epoll) × (accept_round (waiting fds) true s e ≡ some (t, f))
      × (f.registered s.accept_channel.fd ≡ some in_edge_triggered)
      × (t.queued ≡ s.queued ++ dealt k l ls (small fds))
unfolding accept_round
accept_round-waiting baseloop k l ls fds s e p h y =
    let t = set_events in_edge_triggered (served baseloop k l ls fds (set_events no_events s)) in
    (
      (handle_this_conn true t e).0,
      (handle_this_conn true t e).1,
      rw (accept_round, handle_new_conn-waiting baseloop k l ls fds (set_events no_events s) p h)
          refl,
      epoll_mod-IsSynced t.accept_channel 0 e y,
      refl,
    )

-- Behind a connection below the bound that cannot be made nonblocking, the acceptor is registered for no
-- event at all, and the connection is neither closed nor handed over; the connections in front of it go
-- to the loops in turn as ever. The last events of the acceptor are taken to be those that the kernel
-- has, and `epoll_ctl` to succeed.
pub accept_round_deaf :
    (baseloop k l : ℕ) (ls fds : List ℕ) (fd : ℕ) (es : List Accept) (s : TcpServer) (e : Epoll)
    → s.pool ≡ pool_behind baseloop k l ls
    → All (λ n. 0 < n) fds
    → 0 < fd
    → fd < maxfds
    → IsSynced s.accept_channel e
    → (t : TcpServer) × (f : Epoll) × (accept_round (before fds (accepts fd false ∷ es)) true s e
        ≡ some (t, f))
      × (f.registered s.accept_channel.fd ≡ some no_events)
      × (t.closed ≡ s.closed ++ large fds)
      × (t.queued ≡ s.queued ++ dealt k l ls (small fds))
unfolding accept_round
accept_round_deaf baseloop k l ls fds fd es s e p h q r y =
    let t = served baseloop k l ls fds (set_events no_events s) in
    (
      (handle_this_conn true t e).0,
      (handle_this_conn true t e).1,
      rw
          (
            accept_round,
            handle_new_conn-before baseloop k l ls fds (accepts fd false ∷ es)
                  (set_events no_events s) p h
                ∙ refused fd es t q r,
          )
          refl,
      epoll_mod-IsSynced t.accept_channel 0 e y,
      refl,
      refl,
    )
