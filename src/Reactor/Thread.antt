-- ===== src/Reactor/Thread.antt =====
-- `EventLoopThread` of glacier/eventloop_thread.h and eventloop_thread.cc: the thread that makes a loop and
-- runs it, and its owner, which waits for the loop and in the end stops it. The loop is that of
-- Reactor, with whatever its own callbacks and the other threads do to it.
pub mod Laws
use glacier.Common.{ℕ, ◌+◌, ◌≡◌, ◌≢◌, ◌⊎◌, Bool, true, false, List, [], ◌++◌}
use glacier.Reactor.{EventLoop, new_event_loop, begin_loop, Place, outside, Step}

-- Where the owner stands: in front of `startLoop`, in its wait, behind it, in the destructor's `join`, or
-- behind the destructor; and what ends the program, a thread destroyed without a `join`.
pub data Owner : Type 0 where
  idle starting holds joining gone terminated : Owner

-- Where the thread stands: not started, in front of the loop's construction, behind the hand-over, in
-- `loop`, or at its end.
pub data Runner : Type 0 where
  not_started making published running ended : Runner

-- `has_loop` tells that `loop_` is not null; `begun` that the loop had begun when it was told to quit.
pub record LoopThread : Type 0 where
  pub owner : Owner
  pub runner : Runner
  pub has_loop : Bool
  pub stoped : Bool
  pub loop : EventLoop
  pub begun : Bool

abbrev pub new_loop_thread : LoopThread
new_loop_thread = record {
  owner = idle;
  runner = not_started;
  has_loop = false;
  stoped = false;
  loop = new_event_loop;
  begun = false;
}

abbrev pub is_running : Runner → Bool
is_running running = true
is_running _ = false

-- The call of `quit` by another thread, in front of its `wakeup`.
abbrev pub told_to_quit : EventLoop → EventLoop
told_to_quit l = record l { quit = true; waking = l.waking + 1 }

-- One step, with the functors that it queues. While the loop exists, its own thread and those that
-- hold it take any step of Reactor's but the one into `loop`, which is the thread's alone.
pub data Move : List ℕ → LoopThread → LoopThread → Type 0 where
  starts :
      (s : LoopThread) → s.owner ≡ idle → Move [] s (record s { owner = starting; runner = making })
  makes :
      (s : LoopThread)
      → s.runner ≡ making
      → Move [] s (record s { runner = published; has_loop = true; loop = new_event_loop })
  returns :
      (s : LoopThread)
      → s.owner ≡ starting
      → s.has_loop ≡ true
      → Move [] s (record s { owner = holds })
  enters :
      (s : LoopThread)
      → s.runner ≡ published
      → s.loop.place ≡ outside
      → s.loop.looping ≡ false
      → Move [] s (record s { runner = running; loop = begin_loop s.loop })
  turns :
      (ds : List ℕ) (s : LoopThread) (l : EventLoop)
      → s.has_loop ≡ true
      → (l.place ≡ outside) ⊎ (s.loop.place ≢ outside)
      → Step ds s.loop l
      → Move ds s (record s { loop = l })
  leaves :
      (s : LoopThread)
      → s.runner ≡ running
      → s.loop.place ≡ outside
      → Move [] s (record s { runner = ended; has_loop = false })
  stops :
      (s : LoopThread)
      → s.owner ≡ holds
      → s.has_loop ≡ true
      → Move [] s (record s {
        owner = joining;
        stoped = true;
        loop = told_to_quit s.loop;
        begun = is_running s.runner;
      })
  destroys_ended :
      (s : LoopThread)
      → s.owner ≡ holds
      → s.has_loop ≡ false
      → Move [] s (record s { owner = terminated; stoped = true })
  destroys_idle :
      (s : LoopThread) → s.owner ≡ idle → Move [] s (record s { owner = gone; stoped = true })
  joins :
      (s : LoopThread)
      → s.owner ≡ joining
      → s.runner ≡ ended
      → Move [] s (record s { owner = gone })

-- What an `EventLoopThread` reaches, with the functors queued so far.
pub data Reaches : List ℕ → LoopThread → Type 0 where
  created : Reaches [] new_loop_thread
  moves : (cs ds : List ℕ) (s t : LoopThread) → Reaches cs s → Move ds s t → Reaches (cs ++ ds) t
