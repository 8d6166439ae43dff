-- ===== src/Poller/Laws.antt =====
-- The table of glacier/epoll.cc agrees with the kernel's.
use glacier.Common.{
  ℕ, ◌≡◌, refl, sym, ap, ◌∙◌, Bool, true, false, Option, none, some, List, [], ◌∷◌, ◌++◌, ltb, ◌==◌,
  if◌then◌else◌, Bool-cases, inl, inr, arith, All,
}
use glacier.Http.{Events}
use glacier.Poller.{
  Channel, bool_eq, conjunction, flags_eq, events_eq, equal_and_update_last_events, put_at, Epoll,
  add_timer, epoll_mod, epoll_del, get_active_channels, Wait, events_of, poll,
}

bool_eq_sound : (a b : Bool) → bool_eq a b ≡ true → a ≡ b
bool_eq_sound true b e = sym e
bool_eq_sound false true e = cc
bool_eq_sound false false e = refl

conjunction-All : (bs : List Bool) → conjunction bs ≡ true → All (λ b. b ≡ true) bs
unfolding conjunction
conjunction-All [] h = tt
conjunction-All (true ∷ bs) h = (refl, conjunction-All bs h)
conjunction-All (false ∷ bs) h = cc

events_eq_sound : (d e : Events) → events_eq d e ≡ true → d ≡ e
unfolding events_eq
events_eq_sound d e h = λ i. record {
  epollin = bool_eq_sound d.epollin e.epollin all.0 i;
  epollpri = bool_eq_sound d.epollpri e.epollpri all.1.0 i;
  epollout = bool_eq_sound d.epollout e.epollout all.1.1.0 i;
  epollerr = bool_eq_sound d.epollerr e.epollerr all.1.1.1.0 i;
  epollhup = bool_eq_sound d.epollhup e.epollhup all.1.1.1.1.0 i;
  epollrdhup = bool_eq_sound d.epollrdhup e.epollrdhup all.1.1.1.1.1.0 i;
  epolloneshot = bool_eq_sound d.epolloneshot e.epolloneshot all.1.1.1.1.1.1.0 i;
  epollet = bool_eq_sound d.epollet e.epollet all.1.1.1.1.1.1.1.0 i;
}
  where
    all : All (λ b. b ≡ true) (flags_eq d e)
    all = conjunction-All (flags_eq d e) h

pub put_at-same : {A : Type 0} (fd : ℕ) (v : Option A) (t : ℕ → Option A) → put_at fd v t fd ≡ v
unfolding put_at
put_at-same fd v t = rw (put_at, same) refl
  where
    same : (fd == fd) ≡ true
    same = ground arith

pub put_at-other :
    {A : Type 0} (fd n : ℕ) (v : Option A) (t : ℕ → Option A)
    → (n == fd) ≡ false
    → put_at fd v t n ≡ t n
unfolding put_at
put_at-other fd n v t e = rw (put_at, e) refl

add_timer-registered :
    (c : Channel) (timeout : ℕ) (e : Epoll) → (add_timer c timeout e).registered ≡ e.registered
unfolding add_timer
add_timer-registered c timeout e = go c.holder
  where
    go : (h : Option ℕ) → (add_timer (record c { holder = h }) timeout e).registered ≡ e.registered
    go none = refl
    go (some h) = refl

-- A channel's last events are those that the kernel has.
abbrev pub IsSynced : Channel → Epoll → Type 0
IsSynced c e = e.registered c.fd ≡ some c.lastevents

timed-registered :
    (c : Channel) (timeout : ℕ) (e : Epoll)
    → (if ltb 0 timeout then add_timer c timeout e else e).registered ≡ e.registered
timed-registered c timeout e = elim (Bool-cases (ltb 0 timeout)) [
  | inl y ↦ rw y (add_timer-registered c timeout e)
  | inr y ↦ rw y refl
]

-- `epoll_mod` may skip the call of `epoll_ctl`: when the channel's last events are those that the
-- kernel has, and a call that is made succeeds, the kernel has the channel's present events
-- afterwards, with the call or without it.
pub epoll_mod-IsSynced :
    (c : Channel) (timeout : ℕ) (e : Epoll)
    → IsSynced c e
    → (epoll_mod true c timeout e).registered c.fd ≡ some c.events
unfolding epoll_mod equal_and_update_last_events
epoll_mod-IsSynced c timeout e s = elim (Bool-cases (events_eq c.lastevents c.events)) [
  | inl y ↦
      rw (epoll_mod, equal_and_update_last_events, y)
        (ap (λ t. t c.fd) (timed-registered c timeout e)
          ∙ s
          ∙ ap some (events_eq_sound c.lastevents c.events y))
  | inr y ↦ rw (epoll_mod, equal_and_update_last_events, y) (put_at-same c.fd (some c.events) _)
]

-- Behind `epoll_del`, no event of the descriptor reaches a channel, whatever the kernel answers.
pub get_active_channels-epoll_del :
    (ok : Bool) (c : Channel) (e : Epoll) (rs : List (ℕ × Events))
    → All (λ r. r.0 ≡ c.fd) rs
    → get_active_channels rs (epoll_del ok c e) ≡ []
unfolding get_active_channels epoll_del
get_active_channels-epoll_del ok c e [] h = refl
get_active_channels-epoll_del ok c e ((fd, r) ∷ rs) h =
    rw (get_active_channels, h.0, put_at-same c.fd none e.fd2chan)
      (get_active_channels-epoll_del ok c e rs h.1)

-- An answer in which no channel is active.
abbrev pub IsQuiet : Epoll → Wait → Type 0
IsQuiet e w = get_active_channels (events_of w) e ≡ []

-- `poll` passes over errors, over waits whose time is up, and over descriptors without a channel, and
-- returns with the first answer that has an active channel: until one comes it waits, so that nothing
-- behind it in the loop is reached, the check of the timers neither.
pub poll-IsQuiet :
    (ws vs : List Wait) (w : Wait) (e : Epoll) (c : Channel) (cs : List Channel)
    → All (IsQuiet e) ws
    → get_active_channels (events_of w) e ≡ c ∷ cs
    → (poll ws e ≡ none) × (poll (ws ++ w ∷ vs) e ≡ some (c ∷ cs, vs))
unfolding poll
poll-IsQuiet [] vs w e c cs h a = (refl, rw (poll, a) refl)
poll-IsQuiet (v ∷ ws) vs w e c cs h a =
    let (waits, returns) = poll-IsQuiet ws vs w e c cs h.1 a in
    (rw (poll, h.0) waits, rw (poll, h.0) returns)
