-- ===== src/System/Registered.antt =====
-- The connections that a loop's round registers.
use glacier.Common.{
  ℕ, ◌≡◌, refl, sym, ◌∙◌, true, false, some, List, [], ◌∷◌, ◌==◌, Bool-cases, inl, inr, arith,
}
use mathlib.Core.Path.{subst}
use mathlib.Core.List.{Memᴰ}
use mathlib.Core.List.Memᴰ.{head, tail}
use glacier.Http.{HttpData}
use glacier.Http.Connection.{call, new_event}
use glacier.Http.Connection.Stages.{awaiting}
use glacier.Poller.{epoll_add, equal_and_update_last_events, add_timer}
use glacier.Poller.Laws.{put_at-same, put_at-other}
use glacier.Poller.Registered.{IsRegistered}
use glacier.System.{Worker, perform, performs, run_functor, run_functors}

-- The worker waits for a request of the connection `fd`.
pub record IsWaiting (fd : ℕ) (w : Worker) : Type 0 where
  pub http : HttpData
  pub registered : IsRegistered fd w.poller
  pub in_connections : w.connections fd ≡ some http
  pub waits : awaiting http ≡ http

run_functor-new : (fd : ℕ) (w : Worker) → IsWaiting fd (run_functor true fd w)
unfolding run_functor perform performs new_event call epoll_add equal_and_update_last_events
run_functor-new fd w = record {
  http = _;
  registered = record {
    channel = _;
    in_table = put_at-same fd _ _;
    fd_is = refl;
    synced = put_at-same fd _ _;
  };
  in_connections = put_at-same fd _ _;
  waits = refl;
}

run_functor-kept :
    (fd cb : ℕ) (w : Worker)
    → (fd == cb) ≡ false
    → IsWaiting fd w
    → IsWaiting fd (run_functor true cb w)
unfolding run_functor perform performs new_event call epoll_add equal_and_update_last_events
    add_timer
run_functor-kept fd cb w n i = record {
  http = i.http;
  registered = record {
    channel = i.registered.channel;
    in_table = put_at-other cb fd _ _ n ∙ i.registered.in_table;
    fd_is = i.registered.fd_is;
    synced = put_at-other cb fd _ _ n ∙ i.registered.synced;
  };
  in_connections = put_at-other cb fd _ _ n ∙ i.in_connections;
  waits = i.waits;
}

run_functor-IsWaiting :
    (fd cb : ℕ) (w : Worker) → IsWaiting fd w → IsWaiting fd (run_functor true cb w)
run_functor-IsWaiting fd cb w i = elim (Bool-cases (fd == cb)) [
  | inl e ↦
      let same : cb ≡ fd = ground (arith, e) in
      subst (λ n. IsWaiting fd (run_functor true n w)) (sym same) (run_functor-new fd w)
  | inr e ↦ run_functor-kept fd cb w e i
]

run_functors-IsWaiting :
    (fd : ℕ) (fds : List ℕ) (w : Worker) → IsWaiting fd w → IsWaiting fd (run_functors true fds w)
unfolding run_functors
run_functors-IsWaiting fd [] w i = i
run_functors-IsWaiting fd (cb ∷ fds) w i =
    run_functors-IsWaiting fd fds (run_functor true cb w) (run_functor-IsWaiting fd cb w i)

-- Functors that `newEvent` of the connection `fd` is among leave it waiting for a request.
pub run_functors-Memᴰ :
    (fd : ℕ) (fds : List ℕ) (w : Worker) → Memᴰ fd fds → IsWaiting fd (run_functors true fds w)
unfolding run_functors
run_functors-Memᴰ fd [] w m = elim m [ ]
run_functors-Memᴰ fd (cb ∷ fds) w (head e) =
    run_functors-IsWaiting fd fds (run_functor true cb w)
      (subst (λ n. IsWaiting fd (run_functor true n w)) e (run_functor-new fd w))
run_functors-Memᴰ fd (cb ∷ fds) w (tail m) = run_functors-Memᴰ fd fds (run_functor true cb w) m
