-- ===== src/System/Start.antt =====
-- glacier/main.cc up to the call of `loop`: the main loop, and the server with four loops. What the log
-- line of the start does is not part of it.
use glacier.Common.{ℕ, ◌≡◌, refl, Bool, true, Option, none, some, List, [], ◌∷◌}
use glacier.Poller.{epoll_add, equal_and_update_last_events}
use glacier.Poller.Laws.{put_at-same, IsSynced}
use glacier.Reactor.Construct.{construct}
use glacier.Loops.Laws.{pool_behind}
use glacier.Server.{new_server, start, in_edge_triggered}
use glacier.System.{System, Worker}

-- `main`, with what `eventfd` answers, the listening socket, the loops that the threads make, and whether
-- `epoll_ctl` succeeds. The main loop is the loop of number 0.
unfoldable pub main_start : Option ℕ → ℕ → List ℕ → Bool → (ℕ → Worker) → Option System
main_start answer listenfd made ok workers = elim (construct 0 answer ok none) [
  | none ↦ none
  | some (known, e) ↦
      let (s, e') = start made ok (new_server 0 4 listenfd) e in
      some (record { server = s; poller = e'; workers = workers })
]

-- The server that `main` starts is one that `accept_step-answers_of` speaks of.
pub main_start-IsSynced :
    (fd listenfd l1 l2 l3 l4 : ℕ) (workers : ℕ → Worker)
    → (s : System) × (main_start (some fd) listenfd (l1 ∷ l2 ∷ l3 ∷ l4 ∷ []) true workers ≡ some s)
      × (s.server.pool ≡ pool_behind 0 0 l1 (l2 ∷ l3 ∷ l4 ∷ []))
      × IsSynced s.server.accept_channel s.poller
      × (s.workers ≡ workers)
unfolding main_start construct start epoll_add equal_and_update_last_events
main_start-IsSynced fd listenfd l1 l2 l3 l4 workers =
    (_, refl, refl, put_at-same listenfd (some in_edge_triggered) _, refl)
