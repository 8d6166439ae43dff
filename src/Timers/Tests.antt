-- ===== src/Timers/Tests.antt =====
-- Runs of glacier/timer.cc, and instances of its theorems.
use glacier.Common.{ℕ, ◌≡◌, refl, false, some, List, [], ◌∷◌}
use glacier.Timers.{Timer, Clock, milliseconds, is_valid, handle_expired_event}

abbrev at : ℕ → Clock
at s = record { tv_sec = s; tv_usec = 0 }

abbrev timer : ℕ → ℕ → Timer
timer e c = record { number = c; deleted = false; expiredtime = e; httpdata = some c }

abbrev heap : List Timer
heap = timer 10 1 ∷ timer 60000 2 ∷ []

expired_test : (handle_expired_event (at 50) heap).1 ≡ 1 ∷ []
unfolding handle_expired_event is_valid milliseconds
expired_test = refl
