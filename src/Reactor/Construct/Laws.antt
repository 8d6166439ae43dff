-- ===== src/Reactor/Construct/Laws.antt =====
-- The wakeup channel of glacier/eventloop.cc stays with the poller.
use glacier.Common.{ℕ, zero, suc, ◌≡◌, refl, sym, ap, ◌∙◌, true, Option, some}
use glacier.Http.{Events, no_events}
use glacier.Poller.{
  Epoll, handle_events, get_active_channels, epoll_add, epoll_mod, equal_and_update_last_events,
}
use glacier.Poller.Laws.{put_at-same, epoll_mod-IsSynced}
use glacier.Poller.Registered.{IsRegistered, epoll_mod-IsRegistered}
use glacier.Reactor.Construct.{
  construct, wakeup_channel, wakeup_events, wakeup_callbacks, wakeup_turn, wakeup_turns, remember,
  new_epoll,
}

abbrev pub readable : Events
readable = record no_events { epollin = true }

-- Registered for reading, edge triggered.
pub record IsArmed (fd : ℕ) (e : Epoll) : Type 0 where
  pub registered : IsRegistered fd e
  pub kernel : e.registered fd ≡ some wakeup_events

wakeup_turn-IsArmed :
    (fd : ℕ) (e : Epoll)
    → IsArmed fd e
    → (e' : Epoll) × (wakeup_turn true fd readable e ≡ some e') × IsArmed fd e'
unfolding wakeup_turn get_active_channels wakeup_callbacks handle_events
    equal_and_update_last_events
wakeup_turn-IsArmed fd e a =
    let c = record a.registered.channel { revents = readable; events = wakeup_events } in
    (
      epoll_mod true c 0 e,
      rw (wakeup_turn, get_active_channels, a.registered.in_table) refl,
      record {
        registered =
            epoll_mod-IsRegistered fd c a.registered.channel 0 e a.registered.fd_is
              a.registered.in_table a.registered.synced;
        kernel =
            ap (λ n. (epoll_mod true c 0 e).registered n) (sym a.registered.fd_is)
            ∙ epoll_mod-IsSynced c 0 e
                (ap (λ n. e.registered n) a.registered.fd_is ∙ a.registered.synced);
      },
    )

wakeup_turns-IsArmed :
    (n fd : ℕ) (e : Epoll)
    → IsArmed fd e
    → (e' : Epoll) × (wakeup_turns true n fd readable e ≡ some e') × IsArmed fd e'
unfolding wakeup_turns
wakeup_turns-IsArmed zero fd e a = (e, refl, a)
wakeup_turns-IsArmed (suc n) fd e a =
    let (f, once, b) = wakeup_turn-IsArmed fd e a in
    let (g, more, c) = wakeup_turns-IsArmed n fd f b in (g, rw (wakeup_turns, once) more, c)

-- The loop stays within reach of the other threads: where `eventfd` and each `epoll_ctl` succeed, the
-- constructor registers the wakeup channel for reading, edge triggered, and after any number of turns in
-- which it was readable it is still registered so, and known to the poller.
pub construct-IsArmed :
    (loop fd n : ℕ) (known : Option ℕ)
    → (e e' : Epoll) × (construct loop (some fd) true known ≡ some (remember loop known, e))
      × (wakeup_turns true n fd readable e ≡ some e')
      × IsArmed fd e'
unfolding construct epoll_add equal_and_update_last_events
construct-IsArmed loop fd n known =
    let e : Epoll = epoll_add true (wakeup_channel fd) 0 new_epoll in
    let armed : IsArmed fd e = record {
      registered = record {
        channel = record (wakeup_channel fd) { lastevents = wakeup_events };
        in_table = put_at-same fd _ _;
        fd_is = refl;
        synced = put_at-same fd _ _;
      };
      kernel = put_at-same fd _ _;
    } in
    let (f, more, a) = wakeup_turns-IsArmed n fd e armed in (e, f, refl, more, a)
