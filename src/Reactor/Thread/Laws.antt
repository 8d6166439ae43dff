-- ===== src/Reactor/Thread/Laws.antt =====
-- What the owner of an `EventLoopThread` of glacier/eventloop_thread.cc can rely on.
use glacier.Common.{ℕ, ◌≡◌, ◌≢◌, refl, true, false, List, [], ◌++◌, append-nil, inr, ◌⊎◌, arith}
use mathlib.Core.Path.{subst}
use glacier.Reactor.{
  EventLoop, begin_loop, outside, polling, Step, Reach, made, goes, pushes, quits, wakes, queues,
  quits_itself, begins, tests, polls, reads, handled, swaps, calls, called, expires, wakeup,
  test_quit,
}
use glacier.Reactor.Order.{queue_in_loop-cases}
use glacier.Reactor.Wakeup.{WillWake, Reach-WillWake}
use glacier.Reactor.Thread.{
  idle, starting, holds, joining, gone, Runner, not_started, making, published, running, ended,
  LoopThread, told_to_quit, is_running, Move, starts, makes, returns, enters, turns, leaves, stops,
  destroys_ended, destroys_idle, joins, Reaches, created, moves,
}

-- A loop that was told to quit keeps that in mind, if it is in `loop` already.
Step-quit :
    (ds : List ℕ) (s t : EventLoop)
    → (t.place ≡ outside) ⊎ (s.place ≢ outside)
    → Step ds s t
    → s.quit ≡ true
    → t.quit ≡ true
unfolding wakeup test_quit
Step-quit _ _ _ w (pushes cb s) q = q
Step-quit _ _ _ w (quits s) q = refl
Step-quit _ _ _ w (wakes s n e) q = ground arith
Step-quit _ _ _ w (queues cb s p) q =
    queue_in_loop-cases (λ t. t.quit ≡ true) cb s (λ e. ground arith) (λ e. q)
Step-quit _ _ _ w (quits_itself s p) q = refl
Step-quit _ _ _ w (begins s p l) q = ground arith
Step-quit _ _ _ w (tests s p) q = ground arith
Step-quit _ _ _ w (polls s p) q = q
Step-quit _ _ _ w (reads s p) q = q
Step-quit _ _ _ w (handled s p) q = q
Step-quit _ _ _ w (swaps s p) q = q
Step-quit _ _ _ w (calls cb rest s p e) q = q
Step-quit _ _ _ w (called s p e) q = q
Step-quit _ _ _ w (expires s p) q = q

-- The owner and the loop, by where the thread stands.
abbrev pub At : Runner → List ℕ → LoopThread → Type 0
At not_started cs s =
    (cs ≡ []) × (s.has_loop ≡ false) × (s.begun ≡ false) × ((s.owner ≡ idle) ⊎ (s.owner ≡ gone))
At making cs s = (cs ≡ []) × (s.has_loop ≡ false) × (s.begun ≡ false) × (s.owner ≡ starting)
At published cs s = (s.has_loop ≡ true) × (s.owner ≢ idle) × (s.begun ≡ false)
At running cs s = (s.has_loop ≡ true) × (s.owner ≢ idle) × (s.begun ≡ true → s.loop.quit ≡ true)
At ended cs s = (s.has_loop ≡ false) × (s.owner ≢ idle) × (s.begun ≡ true → s.loop.quit ≡ true)

pub record Sound (cs : List ℕ) (s : LoopThread) : Type 0 where
  pub reach : Reach cs s.loop
  pub at : At s.runner cs s

-- Any step of the loop but that into `loop`, wherever the thread stands.
At-turns :
    (r : Runner) (cs ds : List ℕ) (s : LoopThread) (l : EventLoop)
    → At r cs s
    → s.has_loop ≡ true
    → (s.begun ≡ true → s.loop.quit ≡ true → l.quit ≡ true)
    → At r (cs ++ ds) (record s { loop = l })
At-turns not_started cs ds s l i h k = ground arith
At-turns making cs ds s l i h k = ground arith
At-turns published cs ds s l i h k = ground arith
At-turns running cs ds s l i h k = ground arith
At-turns ended cs ds s l i h k = ground arith

-- The owner tells the loop to quit.
At-stops :
    (r : Runner) (cs : List ℕ) (s : LoopThread)
    → At r cs s
    → s.owner ≡ holds
    → s.has_loop ≡ true
    → At r cs (record s {
      owner = joining;
      stoped = true;
      loop = told_to_quit s.loop;
      begun = is_running r;
    })
At-stops not_started cs s i o h = ground arith
At-stops making cs s i o h = ground arith
At-stops published cs s i o h = ground arith
At-stops running cs s i o h = ground arith
At-stops ended cs s i o h = ground arith

Move-At :
    (cs ds : List ℕ) (s t : LoopThread) → At s.runner cs s → Move ds s t → At t.runner (cs ++ ds) t
Move-At cs _ _ _ i (starts s o) = rw append-nil ground arith
Move-At cs _ _ _ i (makes s r) = ground arith
Move-At cs _ _ _ i (returns s o h) = rw append-nil ground arith
Move-At cs _ _ _ i (enters s r p l) = ground arith
Move-At cs _ _ _ i (turns ds s l h w x) =
    At-turns s.runner cs ds s l i h (λ b q. Step-quit ds s.loop l w x q)
Move-At cs _ _ _ i (leaves s r p) = ground arith
Move-At cs _ _ _ i (stops s o h) = rw append-nil (At-stops s.runner cs s i o h)
Move-At cs _ _ _ i (destroys_ended s o h) = rw append-nil ground arith
Move-At cs _ _ _ i (destroys_idle s o) = rw append-nil ground arith
Move-At cs _ _ _ i (joins s o r) = rw append-nil ground arith

-- The loop in the thread is one that Reactor speaks of.
Move-Reach :
    (cs ds : List ℕ) (s t : LoopThread) → Sound cs s → Move ds s t → Reach (cs ++ ds) t.loop
Move-Reach cs _ _ _ i (starts s o) = rw append-nil i.reach
Move-Reach cs _ _ _ i (makes s r) =
    let at_making : At making cs s = subst (λ r. At r cs s) r i.at in
    rw (append-nil, at_making.0) made
Move-Reach cs _ _ _ i (returns s o h) = rw append-nil i.reach
Move-Reach cs _ _ _ i (enters s r p l) =
    goes cs [] s.loop (begin_loop s.loop) i.reach (begins s.loop p l)
Move-Reach cs _ _ _ i (turns ds s l h w x) = goes cs ds s.loop l i.reach x
Move-Reach cs _ _ _ i (leaves s r p) = rw append-nil i.reach
Move-Reach cs _ _ _ i (stops s o h) = goes cs [] s.loop (told_to_quit s.loop) i.reach (quits s.loop)
Move-Reach cs _ _ _ i (destroys_ended s o h) = rw append-nil i.reach
Move-Reach cs _ _ _ i (destroys_idle s o) = rw append-nil i.reach
Move-Reach cs _ _ _ i (joins s o r) = rw append-nil i.reach

At-quit :
    (r : Runner) (cs : List ℕ) (s : LoopThread) → At r cs s → s.begun ≡ true → s.loop.quit ≡ true
At-quit not_started cs s i b = ground arith
At-quit making cs s i b = ground arith
At-quit published cs s i b = ground arith
At-quit running cs s i b = i.2 b
At-quit ended cs s i b = i.2 b

pub Reaches-Sound : (cs : List ℕ) (s : LoopThread) → Reaches cs s → Sound cs s
Reaches-Sound _ _ created = record { reach = made; at = ground arith }
Reaches-Sound _ _ (moves cs ds s t r m) =
    let i : Sound cs s = Reaches-Sound cs s r in
    record { reach = Move-Reach cs ds s t i m; at = Move-At cs ds s t i.at m }

-- The destructor is not left waiting. However the threads interleave: once the destructor has told the
-- loop to quit, and `loop` had begun by then, the loop is to quit for good, and it does not sleep on
-- that in `poll`: the wakeup channel is active, or the destructor is in front of its `wakeup`.
pub stops-WillWake :
    (cs : List ℕ) (s : LoopThread)
    → Reaches cs s
    → s.begun ≡ true
    → (s.loop.quit ≡ true) × (s.loop.place ≡ polling → WillWake s.loop)
stops-WillWake cs s r b =
    let i : Sound cs s = Reaches-Sound cs s r in
    let q : s.loop.quit ≡ true = At-quit s.runner cs s i.at b in
    (q, λ p. Reach-WillWake cs s.loop i.reach p (inr q))
