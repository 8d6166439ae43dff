-- ===== src/Timers.antt =====
-- The timers of glacier/timer.cc. The clock is an argument, in whole seconds and microseconds. The
-- heap of the manager is a list in the order of expiry, as `std::priority_queue` with `TimerCmp`
-- hands its timers out; a timer's destructor closes the connection that it still holds.
pub mod Laws
pub mod Expiry
pub mod Tests
use glacier.Common.{
  ℕ, ◌+◌, ◌*◌, ◌/◌, ◌%◌, Bool, true, false, not, ◌||◌, Option, none, some, List, [], ◌∷◌, ◌++◌, ltb,
  ◌==◌, if◌then◌else◌,
}

-- The connection that the timer holds is its number. `number` tells a timer from the others, as the
-- pointers to it do.
pub record Timer : Type 0 where
  pub number : ℕ
  pub deleted : Bool
  pub expiredtime : ℕ
  pub httpdata : Option ℕ

-- A point of time: `tv_sec` and `tv_usec`.
pub record Clock : Type 0 where
  pub tv_sec : ℕ
  pub tv_usec : ℕ

-- The milliseconds that the program counts, from zero every 10000 seconds.
unfoldable pub milliseconds : Clock → ℕ
milliseconds now = now.tv_sec % 10000 * 1000 + now.tv_usec / 1000

unfoldable pub new_timer : Clock → ℕ → ℕ → ℕ → Timer
new_timer now number req timeout = record {
  number = number;
  deleted = false;
  expiredtime = milliseconds now + timeout;
  httpdata = some req;
}

unfoldable pub update : Clock → ℕ → Timer → Timer
update now timeout t = record t { expiredtime = milliseconds now + timeout }

-- `isValid`, which marks a timer that has expired.
unfoldable pub is_valid : Clock → Timer → Bool × Timer
is_valid now t =
    if ltb (milliseconds now) t.expiredtime then (true, t) else (false, record t { deleted = true })

unfoldable pub reset : Timer → Timer
reset t = record t { httpdata = none; deleted = true }

-- `heap_.push`.
unfoldable pub push : Timer → List Timer → List Timer
push t [] = t ∷ []
push t (u ∷ us) =
    let rest = push t us in if ltb u.expiredtime t.expiredtime then u ∷ rest else t ∷ u ∷ us

unfoldable pub add_timer : Clock → ℕ → ℕ → ℕ → List Timer → List Timer
add_timer now number req timeout heap = push (new_timer now number req timeout) heap

-- `reset` through a pointer to the timer of this number.
unfoldable pub reset_in : ℕ → List Timer → List Timer
reset_in number [] = []
reset_in number (t ∷ ts) =
    let rest = reset_in number ts in if t.number == number then reset t ∷ rest else t ∷ rest

-- What a destructor closes.
abbrev pub closes : Timer → List ℕ
closes t = elim t.httpdata [ none ↦ [] | some c ↦ c ∷ [] ]

-- `handleExpiredEvent`: the heap that is left, and the connections that were closed.
unfoldable pub handle_expired_event : Clock → List Timer → List Timer × List ℕ
handle_expired_event now [] = ([], [])
handle_expired_event now (t ∷ ts) =
    let rest = handle_expired_event now ts in
    if t.deleted || not (is_valid now t).0 then (rest.0, closes t ++ rest.1) else (t ∷ ts, [])
