-- ===== src/Poller.antt =====
-- The poller: `Channel` of glacier/channel.h and channel.cc, `Epoll` of glacier/epoll.cc. A channel
-- that is registered is the one in the table, so the operations take its descriptor. The kernel's
-- own table of interests is `registered`, and each operation takes whether `epoll_ctl` succeeds.
pub mod Laws
pub mod Registered
pub mod Tests
use glacier.Common.{
  ℕ, Bool, true, false, not, ◌&&◌, ◌||◌, Option, none, some, List, [], ◌∷◌, ◌++◌, ltb, ◌==◌,
  if◌then◌else◌,
}
use glacier.Http.{Events, no_events}

pub record Channel : Type 0 where
  pub fd : ℕ
  pub events : Events
  pub revents : Events
  pub lastevents : Events
  pub holder : Option ℕ

abbrev pub bool_eq : Bool → Bool → Bool
bool_eq true b = b
bool_eq false b = not b

-- `==` of two sets of flags.
unfoldable pub conjunction : List Bool → Bool
conjunction [] = true
conjunction (b ∷ bs) = b && conjunction bs

abbrev pub flags_eq : Events → Events → List Bool
flags_eq d e =
    bool_eq d.epollin e.epollin
    ∷ bool_eq d.epollpri e.epollpri
    ∷ bool_eq d.epollout e.epollout
    ∷ bool_eq d.epollerr e.epollerr
    ∷ bool_eq d.epollhup e.epollhup
    ∷ bool_eq d.epollrdhup e.epollrdhup
    ∷ bool_eq d.epolloneshot e.epolloneshot
    ∷ bool_eq d.epollet e.epollet
    ∷ []

unfoldable pub events_eq : Events → Events → Bool
events_eq d e = conjunction (flags_eq d e)

unfoldable pub equal_and_update_last_events : Channel → Bool × Channel
equal_and_update_last_events c =
    (events_eq c.lastevents c.events, record c { lastevents = c.events })

pub data Callback : Type 0 where
  error_callback read_callback write_callback conn_callback : Callback

-- The callbacks that `handleEvents` calls, in order, behind the reset of `events_`.
unfoldable pub handle_events : Channel → List Callback
handle_events c =
    let r = c.revents in
    if r.epollhup && not r.epollin
    then []
    else if r.epollerr
    then error_callback ∷ []
    else ((if r.epollin || r.epollpri || r.epollrdhup then read_callback ∷ [] else [])
        ++ ((if r.epollout then write_callback ∷ [] else []) ++ conn_callback ∷ []))

-- A table by descriptor, and one entry of it set.
abbrev pub Table : Type 0 → Type 0
Table A = ℕ → Option A

unfoldable pub put_at : {A : Type 0} → ℕ → Option A → Table A → Table A
put_at fd v t n = if n == fd then v else t n

-- `timers` are the calls of `addTimer`: the connection and the timeout.
pub record Epoll : Type 0 where
  pub fd2chan : Table Channel
  pub fd2http : Table ℕ
  pub registered : Table Events
  pub timers : List (ℕ × ℕ)

unfoldable pub add_timer : Channel → ℕ → Epoll → Epoll
add_timer c timeout e = elim c.holder [
  | none ↦ e
  | some h ↦ record e { timers = e.timers ++ (h, timeout) ∷ [] }
]

unfoldable pub epoll_add : Bool → Channel → ℕ → Epoll → Epoll
epoll_add ok c timeout e =
    let timed =
      if ltb 0 timeout
      then record (add_timer c timeout e) {
        fd2http = put_at c.fd c.holder (add_timer c timeout e).fd2http;
      }
      else e in
    let updated = (equal_and_update_last_events c).1 in
    if ok
    then record timed {
      fd2chan = put_at c.fd (some updated) timed.fd2chan;
      registered = put_at c.fd (some c.events) timed.registered;
    }
    else record timed { fd2chan = put_at c.fd none timed.fd2chan }

-- A change of the channel, which its entry in the table shows if there is one.
unfoldable pub refresh : Channel → Table Channel → Table Channel
refresh c t = put_at c.fd (elim (t c.fd) [ none ↦ none | some old ↦ some c ]) t

unfoldable pub epoll_mod : Bool → Channel → ℕ → Epoll → Epoll
epoll_mod ok c timeout e =
    let timed = if ltb 0 timeout then add_timer c timeout e else e in
    let updated = (equal_and_update_last_events c).1 in
    if (equal_and_update_last_events c).0
    then record timed { fd2chan = refresh updated timed.fd2chan }
    else if ok
    then record timed {
      fd2chan = refresh updated timed.fd2chan;
      registered = put_at c.fd (some c.events) timed.registered;
    }
    else record timed { fd2chan = put_at c.fd none timed.fd2chan }

unfoldable pub epoll_del : Bool → Channel → Epoll → Epoll
epoll_del ok c e = record e {
  fd2chan = put_at c.fd none e.fd2chan;
  fd2http = put_at c.fd none e.fd2http;
  registered = if ok then put_at c.fd none e.registered else e.registered;
}

-- The channels of the descriptors that have events.
unfoldable pub get_active_channels : List (ℕ × Events) → Epoll → List Channel
get_active_channels [] e = []
get_active_channels ((fd, r) ∷ rs) e =
    let rest = get_active_channels rs e in
    elim (e.fd2chan fd) [
      | none ↦ rest
      | some c ↦ record c { revents = r; events = no_events } ∷ rest
    ]

-- What `epoll_wait` answers: an error, or the descriptors that have events, none of them when the time is
-- up.
pub data Wait : Type 0 where
  wait_failed : Wait
  waited : List (ℕ × Events) → Wait

abbrev pub events_of : Wait → List (ℕ × Events)
events_of wait_failed = []
events_of (waited rs) = rs

-- `poll`: the active channels, with the answers that are left; `none` means that it still waits.
unfoldable pub poll : List Wait → Epoll → Option (List Channel × List Wait)
poll [] e = none
poll (w ∷ ws) e =
    let rest = poll ws e in
    elim (get_active_channels (events_of w) e) [ [] ↦ rest | c ∷ cs ↦ some (c ∷ cs, ws) ]
