-- ===== src/Reactor/Tests.antt =====
-- Runs of glacier/eventloop.cc, and instances of its theorems.
use glacier.Common.{◌≡◌, refl, inl, inr, true, false, none, some, [], ◌∷◌, ◌++◌}
use glacier.Reactor.{
  EventLoop, new_event_loop, Reach, made, goes, pushes, quits, wakes, begins, tests, polls, reads,
  handled, swaps, called, expires, wakeup, test_quit, polling, at_test, round,
}
use glacier.Reactor.Order.{queued, queued-Reach}
use glacier.Reactor.Wakeup.{WillWake, Reach-WillWake}
use glacier.Reactor.Round.{round-Reach}
use glacier.Reactor.Thread.{
  LoopThread, new_loop_thread, Reaches, created, moves, starts, makes, returns, enters, turns,
  stops,
}
use glacier.Poller.{Epoll}
use glacier.Reactor.Construct.{construct, wakeup_turns, destruct, remember}
use glacier.Reactor.Construct.Laws.{readable, IsArmed, construct-IsArmed}
use glacier.Reactor.Thread.Laws.{stops-WillWake}

-- Another thread queues a functor and has yet to call `wakeup`; the loop begins and waits.
waiting_run : (s : EventLoop) × Reach (((5 ∷ []) ++ []) ++ []) s × (s.place ≡ polling)
unfolding test_quit
waiting_run = (
  _,
  goes _ [] _ _
      (goes _ [] _ _ (goes [] (5 ∷ []) _ _ made (pushes 5 new_event_loop)) (begins _ refl refl))
      (tests _ refl),
  refl,
)

queued-Reach_example : queued waiting_run.0 ≡ 5 ∷ []
queued-Reach_example = queued-Reach (5 ∷ []) waiting_run.0 waiting_run.1

Reach-WillWake_example : WillWake waiting_run.0
unfolding waiting_run test_quit
Reach-WillWake_example =
    Reach-WillWake (5 ∷ []) waiting_run.0 waiting_run.1 waiting_run.2 (inl (λ e. cc))

round-Reach_example :
    Reach (5 ∷ []) (round waiting_run.0)
    × ((round waiting_run.0).place ≡ at_test)
    × ((round waiting_run.0).ran ≡ 5 ∷ [])
    × ((round waiting_run.0).pending_functors ≡ [])
round-Reach_example = round-Reach (5 ∷ []) waiting_run.0 waiting_run.1 waiting_run.2

-- A call of `quit` in front of `loop` is lost: the loop waits with nothing left to wake it.
quit_lost :
    (s : EventLoop) × Reach [] s
    × (s.place ≡ polling)
    × (s.quit ≡ false)
    × (s.edge ≡ false)
    × (s.waking ≡ 0)
unfolding test_quit wakeup
quit_lost = (
  _,
  goes [] [] _ _
      (goes [] [] _ _
        (goes [] [] _ _
          (goes [] [] _ _
            (goes [] [] _ _
              (goes [] [] _ _
                (goes [] [] _ _
                  (goes [] [] _ _
                    (goes [] [] _ _
                      (goes [] [] _ _ (goes [] [] _ _ made (quits new_event_loop)) (wakes _ 0 refl))
                      (begins _ refl refl))
                    (tests _ refl))
                  (polls _ refl))
                (reads _ refl))
              (handled _ refl))
            (swaps _ refl))
          (called _ refl refl))
        (expires _ refl))
      (tests _ refl),
  refl,
  refl,
  refl,
  refl,
)

-- The owner has its loop, which waits, and destroys it.
stopped_run : (s : LoopThread) × Reaches [] s × (s.begun ≡ true) × (s.loop.place ≡ polling)
unfolding test_quit
stopped_run = (
  _,
  moves [] [] _ _
      (moves [] [] _ _
        (moves [] [] _ _
          (moves [] [] _ _
            (moves [] [] _ _ (moves [] [] _ _ created (starts new_loop_thread refl)) (makes _ refl))
            (returns _ refl refl))
          (enters _ refl refl refl))
        (turns [] _ _ refl (inr (λ e. cc)) (tests _ refl)))
      (stops _ refl refl),
  refl,
  refl,
)

stops-WillWake_example :
    (stopped_run.0.loop.quit ≡ true)
    × (stopped_run.0.loop.place ≡ polling → WillWake stopped_run.0.loop)
stops-WillWake_example = stops-WillWake [] stopped_run.0 stopped_run.1 stopped_run.2

construct-IsArmed_example :
    (e e' : Epoll) × (construct 1 (some 4) true none ≡ some (some 1, e))
    × (wakeup_turns true 3 4 readable e ≡ some e')
    × IsArmed 4 e'
construct-IsArmed_example = construct-IsArmed 1 4 3 none

-- The destructor of a second loop of a thread forgets the first, which is still there: a third is not
-- noticed.
second_forgotten : remember 3 (destruct (remember 2 (remember 1 none))) ≡ some 3
second_forgotten = refl
