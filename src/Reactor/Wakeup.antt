-- ===== src/Reactor/Wakeup.antt =====
-- The loop of glacier/eventloop.cc does not sleep on work that another thread queued.
use glacier.Common.{ℕ, ◌≡◌, ◌≢◌, ◌<◌, refl, true, false, List, [], ◌⊎◌, arith}
use glacier.Reactor.{
  Place, polling, before_functors, calling, handling, EventLoop, Step, Reach, pushes, quits, wakes,
  queues, quits_itself, begins, tests, polls, reads, handled, swaps, calls, called, expires, made,
  goes, wakeup, test_quit,
}
use glacier.Reactor.Order.{queue_in_loop-cases}

-- `epoll_wait` will tell of the wakeup channel, or a thread is about to see to it.
abbrev pub WillWake : EventLoop → Type 0
WillWake s = (s.edge ≡ true) ⊎ (0 < s.waking)

-- The flag of `doPendingFunctors` at each place.
abbrev Flagged : Place → EventLoop → Type 0
Flagged calling s = s.calling_pending_functors ≡ true
Flagged _ s = s.calling_pending_functors ≡ false

-- A count that `epoll_wait` has told of is still to be read.
abbrev Counted : Place → EventLoop → Type 0
Counted (handling true) s = Unit
Counted _ s = 0 < s.counter → s.edge ≡ true

-- Functors that wait are on the way to `doPendingFunctors`, or will wake the loop.
abbrev Awaited : Place → EventLoop → Type 0
Awaited (handling w) s = Unit
Awaited before_functors s = Unit
Awaited _ s = s.pending_functors ≢ [] → WillWake s

-- A loop that is to quit will not sleep.
abbrev Quitting : Place → EventLoop → Type 0
Quitting polling s = s.quit ≡ true → WillWake s
Quitting _ s = Unit

abbrev Invariant : EventLoop → Type 0
Invariant s = Flagged s.place s × Counted s.place s × Awaited s.place s × Quitting s.place s

Step-Invariant : (ds : List ℕ) (s t : EventLoop) → Invariant s → Step ds s t → Invariant t
unfolding wakeup test_quit
Step-Invariant _ _ _ i (pushes cb s) = ground arith
Step-Invariant _ _ _ i (quits s) = ground arith
Step-Invariant _ _ _ i (wakes s n e) = ground arith
Step-Invariant _ _ _ i (queues cb s p) =
    queue_in_loop-cases Invariant cb s (λ e. ground arith) (λ e. ground arith)
Step-Invariant _ _ _ i (quits_itself s p) = ground arith
Step-Invariant _ _ _ i (begins s p l) = ground arith
Step-Invariant _ _ _ i (tests s p) = ground arith
Step-Invariant _ _ _ i (polls s p) = ground arith
Step-Invariant _ _ _ i (reads s p) = ground arith
Step-Invariant _ _ _ i (handled s p) = ground arith
Step-Invariant _ _ _ i (swaps s p) = ground arith
Step-Invariant _ _ _ i (calls cb rest s p e) = ground arith
Step-Invariant _ _ _ i (called s p e) = ground arith
Step-Invariant _ _ _ i (expires s p) = ground arith

pub Reach-Invariant : (cs : List ℕ) (s : EventLoop) → Reach cs s → Invariant s
Reach-Invariant _ _ made = (refl, (λ h. absurd (omega (arith, h))), (λ h. absurd (h refl)), tt)
Reach-Invariant _ _ (goes cs ds s t r x) = Step-Invariant ds s t (Reach-Invariant cs s r) x

-- No wakeup is lost. However the threads interleave: where the loop waits in `poll` although functors
-- are queued or it was told to quit, the wakeup channel is active or a thread is between its push and
-- its `wakeup`.
pub Reach-WillWake :
    (cs : List ℕ) (s : EventLoop)
    → Reach cs s
    → s.place ≡ polling
    → (s.pending_functors ≢ []) ⊎ (s.quit ≡ true)
    → WillWake s
Reach-WillWake cs s r p h = ground (arith, Reach-Invariant cs s r)
