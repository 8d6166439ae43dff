-- ===== src/Threads/Tests.antt =====
-- Runs of glacier/base/threadpool.h, and instances of its theorems.
use glacier.Common.{◌≡◌, ◌<◌, ◌+◌, refl, true, false, [], ◌∷◌, ◌++◌}
use glacier.Threads.{
  asleep, ended, ThreadPool, new_pool, here, commits, stops, notifies_all, enters, looks, sleeps,
  leaves, takes, finishes, Reach, begins, goes,
}
use glacier.Threads.Laws.{queue-Reach}
use glacier.Threads.Futures.{count, count-Reach}
use glacier.Threads.Sleep.{Reach-notifying}

-- The only worker sleeps, and then a task is committed.
busy_run :
    (p : ThreadPool) × Reach 1 (5 ∷ []) p
    × (p.threads ≡ asleep ∷ [])
    × (p.tasks ≡ 5 ∷ [])
    × (p.taken ≡ [])
busy_run = (
  _,
  goes [] (5 ∷ []) _ _
      (goes [] [] _ _
        (goes [] [] _ _ (goes [] [] _ _ begins (enters (new_pool 1) _ refl (here [])))
          (looks _ _ refl refl (tt, tt) (here [])))
        (sleeps _ _ (here [])))
      (commits 5 _ refl (tt, tt)),
  refl,
  refl,
  refl,
)

queue-Reach_example : busy_run.0.taken ++ busy_run.0.tasks ≡ 5 ∷ []
queue-Reach_example = queue-Reach 1 (5 ∷ []) busy_run.0 busy_run.1

Reach-notifying_example : 0 < busy_run.0.notifying
unfolding busy_run
Reach-notifying_example =
    Reach-notifying 1 (5 ∷ []) busy_run.0 busy_run.1 (tt, tt) (λ e. cc) (λ e. cc)

-- The destructor does not take the mutex: a worker that has looked, and sleeps behind `notify_all`,
-- is not told of the end.
stop_lost :
    (p : ThreadPool) × Reach 1 [] p
    × (p.threads ≡ asleep ∷ [])
    × (p.stoped ≡ true)
    × (p.notifying ≡ 0)
    × (p.notifying_all ≡ false)
stop_lost = (
  _,
  goes [] [] _ _
      (goes [] [] _ _
        (goes [] [] _ _
          (goes [] [] _ _ (goes [] [] _ _ begins (enters (new_pool 1) _ refl (here [])))
            (looks _ _ refl refl (tt, tt) (here [])))
          (stops _))
        (notifies_all _ refl))
      (sleeps _ _ (here [])),
  refl,
  refl,
  refl,
  refl,
)

-- Of two tasks one is run, and then the pool ends.
ended_run :
    (p : ThreadPool) × Reach 1 (5 ∷ 6 ∷ []) p
    × (p.threads ≡ ended ∷ [])
    × (p.tasks ≡ 6 ∷ [])
    × (p.done ≡ 5 ∷ [])
ended_run = (
  _,
  goes (5 ∷ 6 ∷ []) [] _ _
      (goes (5 ∷ 6 ∷ []) [] _ _
        (goes (5 ∷ 6 ∷ []) [] _ _
          (goes (5 ∷ 6 ∷ []) [] _ _
            (goes (5 ∷ []) (6 ∷ []) _ _
              (goes [] (5 ∷ []) _ _ (goes [] [] _ _ begins (enters (new_pool 1) _ refl (here [])))
                (commits 5 _ refl (tt, tt)))
              (commits 6 _ refl (tt, tt)))
            (takes _ _ 5 (6 ∷ []) refl (tt, tt) (here [])))
          (finishes _ _ 5 (here [])))
        (stops _))
      (leaves _ _ refl (here [])),
  refl,
  refl,
  refl,
)

count-Reach_example : 1 ≡ count 6 ended_run.0.done + count 6 ended_run.0.tasks
unfolding ended_run
count-Reach_example = count-Reach 1 (5 ∷ 6 ∷ []) ended_run.0 ended_run.1 (tt, tt) 6
