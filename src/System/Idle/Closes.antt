-- ===== src/System/Idle/Closes.antt =====
-- What `handleExpired` does to the connections of a loop.
use glacier.Common.{
  ℕ, ◌≡◌, ◌≢◌, refl, ap, ◌∙◌, true, false, Option, none, some, List, [], ◌∷◌, ◌==◌, Bool-cases, inl,
  inr, arith, All,
}
use mathlib.Core.Path.{subst}
use mathlib.Core.List.{Memᴰ}
use mathlib.Core.List.Memᴰ.{head, tail}
use glacier.Http.{HttpData}
use glacier.Http.Connection.{call, handle_close}
use glacier.Poller.{put_at, epoll_del}
use glacier.Poller.Laws.{put_at-same, put_at-other}
use glacier.System.{Worker, perform, performs}
use glacier.System.Registered.{IsWaiting}
use glacier.System.Idle.{close_one, close_all}

close_one-kept :
    (fd c : ℕ) (w : Worker) → (fd == c) ≡ false → IsWaiting fd w → IsWaiting fd (close_one true c w)
unfolding close_one performs perform handle_close call epoll_del
close_one-kept fd c w n i = go (w.connections c) refl
  where
    go : (o : Option HttpData) → w.connections c ≡ o → IsWaiting fd (close_one true c w)
    go none e = rw (close_one, e) i
    go (some d) e =
        rw (close_one, e)
          (record {
            http = i.http;
            registered = record {
              channel = i.registered.channel;
              in_table = put_at-other c fd _ _ n ∙ i.registered.in_table;
              fd_is = i.registered.fd_is;
              synced = put_at-other c fd _ _ n ∙ i.registered.synced;
            };
            in_connections = put_at-other c fd _ _ n ∙ i.in_connections;
            waits = i.waits;
          })

-- Connections of other descriptors are closed.
pub close_all-IsWaiting :
    (fd : ℕ) (cs : List ℕ) (w : Worker)
    → All (λ c. c ≢ fd) cs
    → IsWaiting fd w
    → IsWaiting fd (close_all true cs w)
unfolding close_all
close_all-IsWaiting fd [] w h i = i
close_all-IsWaiting fd (c ∷ cs) w h i =
    close_all-IsWaiting fd cs (close_one true c w) h.1
      (close_one-kept fd c w (ground (arith, h.0)) i)

-- The kernel no longer has the descriptor.
abbrev pub IsGone : ℕ → Worker → Type 0
IsGone fd w = w.poller.registered fd ≡ none

close_one_lem : (fd : ℕ) (w : Worker) → IsWaiting fd w → IsGone fd (close_one true fd w)
unfolding close_one performs perform handle_close call epoll_del
close_one_lem fd w i = rw (close_one, i.in_connections) (put_at-same fd none _)

close_one-IsGone : (fd c : ℕ) (w : Worker) → IsGone fd w → IsGone fd (close_one true c w)
unfolding close_one performs perform handle_close call epoll_del
close_one-IsGone fd c w g = go (w.connections c) refl
  where
    go : (o : Option HttpData) → w.connections c ≡ o → IsGone fd (close_one true c w)
    go none e = rw (close_one, e) g
    go (some d) e =
        rw (close_one, e)
          (elim (Bool-cases (fd == c)) [
            | inl y ↦
                let same : fd ≡ c = ground (arith, y) in
                ap (put_at c none w.poller.registered) same ∙ put_at-same c none w.poller.registered
            | inr y ↦ put_at-other c fd none w.poller.registered y ∙ g
          ])

close_all-IsGone :
    (fd : ℕ) (cs : List ℕ) (w : Worker) → IsGone fd w → IsGone fd (close_all true cs w)
unfolding close_all
close_all-IsGone fd [] w g = g
close_all-IsGone fd (c ∷ cs) w g =
    close_all-IsGone fd cs (close_one true c w) (close_one-IsGone fd c w g)

-- A connection is among those that are closed.
pub close_all-Memᴰ :
    (fd : ℕ) (cs : List ℕ) (w : Worker)
    → IsWaiting fd w
    → Memᴰ fd cs
    → IsGone fd (close_all true cs w)
unfolding close_all
close_all-Memᴰ fd [] w i m = elim m [ ]
close_all-Memᴰ fd (c ∷ cs) w i (head e) =
    close_all-IsGone fd cs (close_one true c w)
      (subst (λ n. IsGone fd (close_one true n w)) e (close_one_lem fd w i))
close_all-Memᴰ fd (c ∷ cs) w i (tail m) = elim (Bool-cases (fd == c)) [
  | inl y ↦
      let same : fd ≡ c = ground (arith, y) in
      close_all-IsGone fd cs (close_one true c w)
        (subst (λ n. IsGone fd (close_one true n w)) same (close_one_lem fd w i))
  | inr y ↦ close_all-Memᴰ fd cs (close_one true c w) (close_one-kept fd c w y i) m
]
