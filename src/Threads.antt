-- ===== src/Threads.antt =====
-- The thread pool of glacier/base/threadpool.h. Tasks are numbers. `Step` lets the steps of the workers
-- and of the threads that commit and destroy come in any order. A worker holds the mutex at `looked`
-- only, so a step that takes the mutex asks that no worker stands there.
pub mod Laws
pub mod Sleep
pub mod Futures
pub mod Tests
use glacier.Common.{ℕ, zero, suc, ◌+◌, ◌≡◌, Bool, true, false, List, [], ◌∷◌, ◌++◌, map, All}

-- Where a worker stands: at the test of `stoped_`, in front of the test of the wait, behind that test
-- with the mutex in hand, asleep on the condition variable, in a task, or at its end.
pub data Worker : Type 0 where
  at_test awake looked asleep ended : Worker
  runs : ℕ → Worker

-- `taken` are the tasks that left the queue, in that order, and `done` those that have run, so that
-- their futures are ready; `notifying` are the calls of `commit` in
-- front of their `notify_one`, and `notifying_all` is the destructor in front of its `notify_all`.
pub record ThreadPool : Type 0 where
  pub threads : List Worker
  pub tasks : List ℕ
  pub stoped : Bool
  pub taken : List ℕ
  pub done : List ℕ
  pub notifying : ℕ
  pub notifying_all : Bool

abbrev pub copies : ℕ → Worker → List Worker
copies zero w = []
copies (suc n) w = w ∷ copies n w

abbrev pub new_pool : ℕ → ThreadPool
new_pool num_thread = record {
  threads = copies num_thread at_test;
  tasks = [];
  stoped = false;
  taken = [];
  done = [];
  notifying = 0;
  notifying_all = false;
}

-- One worker goes from one place to another.
pub data Moves (v w : Worker) : List Worker → List Worker → Type 0 where
  here : (ws : List Worker) → Moves v w (v ∷ ws) (w ∷ ws)
  there : (u : Worker) (ws xs : List Worker) → Moves v w ws xs → Moves v w (u ∷ ws) (u ∷ xs)

abbrev pub IsOutside : Worker → Type 0
IsOutside looked = ⊥
IsOutside _ = Unit

abbrev pub IsUp : Worker → Type 0
IsUp asleep = ⊥
IsUp _ = Unit

-- `notify_all`, for one worker.
abbrev pub wake : Worker → Worker
wake asleep = awake
wake w = w

-- The push of a task, in front of `notify_one`.
abbrev pub push_task : ℕ → ThreadPool → ThreadPool
push_task t p = record p { tasks = p.tasks ++ t ∷ []; notifying = p.notifying + 1 }

-- One step, with the tasks that it queues. `commits` is the template, which throws once the pool is
-- stopped; `commits_void` and `runs_inline` are the other `commit`, which does not ask, and the first
-- is also the push of a template that was called in time but comes late. A worker may wake up without
-- a call.
pub data Step : List ℕ → ThreadPool → ThreadPool → Type 0 where
  commits :
      (t : ℕ) (p : ThreadPool)
      → p.stoped ≡ false
      → All IsOutside p.threads
      → Step (t ∷ []) p (push_task t p)
  commits_void :
      (t : ℕ) (p : ThreadPool) (w : Worker) (ws : List Worker)
      → p.threads ≡ w ∷ ws
      → All IsOutside p.threads
      → Step (t ∷ []) p (push_task t p)
  runs_inline : (t : ℕ) (p : ThreadPool) → p.threads ≡ [] → Step [] p p
  notifies_one :
      (p : ThreadPool) (ws : List Worker) (n : ℕ)
      → p.notifying ≡ suc n
      → Moves asleep awake p.threads ws
      → Step [] p (record p { threads = ws; notifying = n })
  notifies_none :
      (p : ThreadPool) (n : ℕ)
      → p.notifying ≡ suc n
      → All IsUp p.threads
      → Step [] p (record p { notifying = n })
  stops : (p : ThreadPool) → Step [] p (record p { stoped = true; notifying_all = true })
  notifies_all :
      (p : ThreadPool)
      → p.notifying_all ≡ true
      → Step [] p (record p { threads = map wake p.threads; notifying_all = false })
  enters :
      (p : ThreadPool) (ws : List Worker)
      → p.stoped ≡ false
      → Moves at_test awake p.threads ws
      → Step [] p (record p { threads = ws })
  leaves :
      (p : ThreadPool) (ws : List Worker)
      → p.stoped ≡ true
      → Moves at_test ended p.threads ws
      → Step [] p (record p { threads = ws })
  looks :
      (p : ThreadPool) (ws : List Worker)
      → p.stoped ≡ false
      → p.tasks ≡ []
      → All IsOutside p.threads
      → Moves awake looked p.threads ws
      → Step [] p (record p { threads = ws })
  sleeps :
      (p : ThreadPool) (ws : List Worker)
      → Moves looked asleep p.threads ws
      → Step [] p (record p { threads = ws })
  wakes :
      (p : ThreadPool) (ws : List Worker)
      → Moves asleep awake p.threads ws
      → Step [] p (record p { threads = ws })
  quits :
      (p : ThreadPool) (ws : List Worker)
      → p.stoped ≡ true
      → p.tasks ≡ []
      → All IsOutside p.threads
      → Moves awake ended p.threads ws
      → Step [] p (record p { threads = ws })
  takes :
      (p : ThreadPool) (ws : List Worker) (t : ℕ) (ts : List ℕ)
      → p.tasks ≡ t ∷ ts
      → All IsOutside p.threads
      → Moves awake (runs t) p.threads ws
      → Step [] p (record p { threads = ws; tasks = ts; taken = p.taken ++ t ∷ [] })
  finishes :
      (p : ThreadPool) (ws : List Worker) (t : ℕ)
      → Moves (runs t) at_test p.threads ws
      → Step [] p (record p { threads = ws; done = p.done ++ t ∷ [] })

-- What a pool of `n` threads reaches, with the tasks queued so far.
pub data Reach (n : ℕ) : List ℕ → ThreadPool → Type 0 where
  begins : Reach n [] (new_pool n)
  goes : (cs ds : List ℕ) (p q : ThreadPool) → Reach n cs p → Step ds p q → Reach n (cs ++ ds) q
