-- ===== src/Poller/Registered.antt =====
-- A channel in the table of glacier/epoll.cc, and in the kernel's.
use glacier.Common.{
  ℕ, ◌≡◌, refl, ap, ◌∙◌, Bool, true, false, Option, none, some, ltb, if◌then◌else◌, Bool-cases, inl,
  inr,
}
use mathlib.Core.Path.{subst}
use glacier.Poller.{
  Channel, Epoll, Table, add_timer, epoll_mod, events_eq, equal_and_update_last_events, refresh,
}
use glacier.Poller.Laws.{put_at-same, epoll_mod-IsSynced}

-- The poller knows the channel of the descriptor `fd`, with the last events that the kernel has.
pub record IsRegistered (fd : ℕ) (e : Epoll) : Type 0 where
  pub channel : Channel
  pub in_table : e.fd2chan fd ≡ some channel
  pub fd_is : channel.fd ≡ fd
  pub synced : e.registered fd ≡ some channel.lastevents

add_timer-fd2chan :
    (c : Channel) (timeout : ℕ) (e : Epoll)
    → (if ltb 0 timeout then add_timer c timeout e else e).fd2chan ≡ e.fd2chan
unfolding add_timer
add_timer-fd2chan c timeout e = go (ltb 0 timeout) c.holder
  where
    go :
        (b : Bool) (h : Option ℕ)
        → (if b then add_timer (record c { holder = h }) timeout e else e).fd2chan ≡ e.fd2chan
    go true none = refl
    go true (some h) = refl
    go false h = refl

refresh-same : (c old : Channel) (t : Table Channel) → t c.fd ≡ some old → refresh c t c.fd ≡ some c
unfolding refresh
refresh-same c old t e = rw (refresh, e) (put_at-same c.fd (some c) t)

epoll_mod-fd2chan :
    (c old : Channel) (timeout : ℕ) (e : Epoll)
    → e.fd2chan c.fd ≡ some old
    → (epoll_mod true c timeout e).fd2chan c.fd ≡ some (record c { lastevents = c.events })
unfolding epoll_mod equal_and_update_last_events
epoll_mod-fd2chan c old timeout e h =
    let updated = record c { lastevents = c.events } in
    let timed = if ltb 0 timeout then add_timer c timeout e else e in
    let known : timed.fd2chan c.fd ≡ some old =
      ap (λ (t : Table Channel). t c.fd) (add_timer-fd2chan c timeout e) ∙ h in
    elim (Bool-cases (events_eq c.lastevents c.events)) [
      | inl y ↦
          rw (epoll_mod, equal_and_update_last_events, y)
            (refresh-same updated old timed.fd2chan known)
      | inr y ↦
          rw (epoll_mod, equal_and_update_last_events, y)
            (refresh-same updated old timed.fd2chan known)
    ]

-- A registered channel whose events change stays registered.
pub epoll_mod-IsRegistered :
    (fd : ℕ) (c old : Channel) (timeout : ℕ) (e : Epoll)
    → c.fd ≡ fd
    → e.fd2chan fd ≡ some old
    → e.registered fd ≡ some c.lastevents
    → IsRegistered fd (epoll_mod true c timeout e)
epoll_mod-IsRegistered fd c old timeout e f =
    subst
      (λ n.
        e.fd2chan n ≡ some old
        → e.registered n ≡ some c.lastevents
        → IsRegistered n (epoll_mod true c timeout e))
      f
      (λ h s. record {
        channel = record c { lastevents = c.events };
        in_table = epoll_mod-fd2chan c old timeout e h;
        fd_is = refl;
        synced = epoll_mod-IsSynced c timeout e s;
      })
