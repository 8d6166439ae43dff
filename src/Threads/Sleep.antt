-- ===== src/Threads/Sleep.antt =====
-- The condition variable of glacier/base/threadpool.h does not lose the wakeup of a task.
use glacier.Common.{ℕ, ◌<◌, ◌≡◌, ◌≢◌, refl, List, [], ◌∷◌, All, map, ◌⊎◌, inl, inr, arith}
use glacier.Threads.{
  Worker, at_test, awake, looked, asleep, ended, runs, ThreadPool, Moves, here, there, Step,
  IsOutside, IsUp, wake, commits, commits_void, runs_inline, notifies_one, notifies_none, stops,
  notifies_all, enters, leaves, looks, sleeps, wakes, quits, takes, finishes, Reach, begins, goes,
}

abbrev pub IsAsleep : Worker → Type 0
IsAsleep asleep = Unit
IsAsleep _ = ⊥

-- A worker that has just moved to where no worker sleeps is one that is not asleep.
moved_up : (v w : Worker) (ws xs : List Worker) → IsUp w → Moves v w ws xs → All IsAsleep xs → ⊥
moved_up v at_test _ _ k (here ws) h = h.0
moved_up v awake _ _ k (here ws) h = h.0
moved_up v asleep _ _ k (here ws) h = k
moved_up v looked _ _ k (here ws) h = h.0
moved_up v ended _ _ k (here ws) h = h.0
moved_up v (runs t) _ _ k (here ws) h = h.0
moved_up v w _ _ k (there u ws xs m) h = moved_up v w ws xs k m h.1

moved-IsOutside :
    (v w : Worker) (ws xs : List Worker)
    → IsOutside w
    → Moves v w ws xs
    → All IsOutside ws
    → All IsOutside xs
moved-IsOutside v w _ _ k (here ws) h = (k, h.1)
moved-IsOutside v w _ _ k (there u ws xs m) h = (h.0, moved-IsOutside v w ws xs k m h.1)

no_looked : (w : Worker) (ws xs : List Worker) → Moves looked w ws xs → All IsOutside ws → ⊥
no_looked w _ _ (here ws) h = h.0
no_looked w _ _ (there u ws xs m) h = no_looked w ws xs m h.1

woken-IsOutside : (ws : List Worker) → All IsOutside ws → All IsOutside (map wake ws)
woken-IsOutside [] h = tt
woken-IsOutside (w ∷ ws) h = (one w h.0, woken-IsOutside ws h.1)
  where
    one : (w : Worker) → IsOutside w → IsOutside (wake w)
    one at_test k = tt
    one awake k = tt
    one looked k = k
    one asleep k = tt
    one ended k = tt
    one (runs t) k = tt

woken_up : (ws : List Worker) → ws ≢ [] → All IsAsleep (map wake ws) → ⊥
woken_up [] e h = e refl
woken_up (w ∷ ws) e h = one w h.0
  where
    one : (w : Worker) → IsAsleep (wake w) → ⊥
    one at_test k = k
    one awake k = k
    one looked k = k
    one asleep k = k
    one ended k = k
    one (runs t) k = k

up_asleep : (ws : List Worker) → ws ≢ [] → All IsUp ws → All IsAsleep ws → ⊥
up_asleep [] e u h = e refl
up_asleep (asleep ∷ ws) e u h = u.0
up_asleep (at_test ∷ ws) e u h = h.0
up_asleep (awake ∷ ws) e u h = h.0
up_asleep (looked ∷ ws) e u h = h.0
up_asleep (ended ∷ ws) e u h = h.0
up_asleep (runs t ∷ ws) e u h = h.0

-- The queue stays empty while a worker holds the mutex in front of its sleep.
abbrev Locked : ThreadPool → Type 0
Locked p = (All IsOutside p.threads) ⊎ (p.tasks ≡ [])

abbrev IsHeard : ThreadPool → Type 0
IsHeard p = All IsAsleep p.threads → p.threads ≢ [] → p.tasks ≢ [] → 0 < p.notifying

Locked-move :
    (v w : Worker) (ws xs : List Worker) (ts : List ℕ)
    → IsOutside w
    → Moves v w ws xs
    → (All IsOutside ws) ⊎ (ts ≡ [])
    → (All IsOutside xs) ⊎ (ts ≡ [])
Locked-move v w ws xs ts k m (inl h) = inl (moved-IsOutside v w ws xs k m h)
Locked-move v w ws xs ts k m (inr e) = inr e

Step-Locked : (ds : List ℕ) (p q : ThreadPool) → Locked p → Step ds p q → Locked q
Step-Locked _ _ _ h (commits t p s o) = inl o
Step-Locked _ _ _ h (commits_void t p w ws s o) = inl o
Step-Locked _ _ _ h (runs_inline t p s) = h
Step-Locked _ _ _ h (notifies_one p ws n k m) = Locked-move asleep awake p.threads ws p.tasks tt m h
Step-Locked _ _ _ h (notifies_none p n k u) = h
Step-Locked _ _ _ h (stops p) = h
Step-Locked _ _ _ (inl h) (notifies_all p k) = inl (woken-IsOutside p.threads h)
Step-Locked _ _ _ (inr e) (notifies_all p k) = inr e
Step-Locked _ _ _ h (enters p ws s m) = Locked-move at_test awake p.threads ws p.tasks tt m h
Step-Locked _ _ _ h (leaves p ws s m) = Locked-move at_test ended p.threads ws p.tasks tt m h
Step-Locked _ _ _ h (looks p ws s e o m) = inr e
Step-Locked _ _ _ h (sleeps p ws m) = Locked-move looked asleep p.threads ws p.tasks tt m h
Step-Locked _ _ _ h (wakes p ws m) = Locked-move asleep awake p.threads ws p.tasks tt m h
Step-Locked _ _ _ h (quits p ws s e o m) = inr e
Step-Locked _ _ _ h (takes p ws t ts e o m) =
    inl (moved-IsOutside awake (runs t) p.threads ws tt m o)
Step-Locked _ _ _ h (finishes p ws t m) = Locked-move (runs t) at_test p.threads ws p.tasks tt m h

Step-IsHeard : (ds : List ℕ) (p q : ThreadPool) → Locked p → IsHeard p → Step ds p q → IsHeard q
Step-IsHeard _ _ _ l h (commits t p s o) = λ a n e. omega arith
Step-IsHeard _ _ _ l h (commits_void t p w ws s o) = λ a n e. omega arith
Step-IsHeard _ _ _ l h (runs_inline t p s) = h
Step-IsHeard _ _ _ l h (notifies_one p ws n k m) =
    λ a _ e. absurd (moved_up asleep awake p.threads ws tt m a)
Step-IsHeard _ _ _ l h (notifies_none p n k u) = λ a t e. absurd (up_asleep p.threads t u a)
Step-IsHeard _ _ _ l h (stops p) = h
Step-IsHeard _ _ _ l h (notifies_all p k) =
    λ a t e. absurd (woken_up p.threads (λ x. t (nil p.threads x)) a)
  where
    nil : (ws : List Worker) → ws ≡ [] → map wake ws ≡ []
    nil ws x = rw x refl
Step-IsHeard _ _ _ l h (enters p ws s m) =
    λ a _ e. absurd (moved_up at_test awake p.threads ws tt m a)
Step-IsHeard _ _ _ l h (leaves p ws s m) =
    λ a _ e. absurd (moved_up at_test ended p.threads ws tt m a)
Step-IsHeard _ _ _ l h (looks p ws s x o m) = λ a _ e. absurd (e x)
Step-IsHeard _ _ _ (inl o) h (sleeps p ws m) = absurd (no_looked asleep p.threads ws m o)
Step-IsHeard _ _ _ (inr x) h (sleeps p ws m) = λ a _ e. absurd (e x)
Step-IsHeard _ _ _ l h (wakes p ws m) = λ a _ e. absurd (moved_up asleep awake p.threads ws tt m a)
Step-IsHeard _ _ _ l h (quits p ws s x o m) = λ a _ e. absurd (e x)
Step-IsHeard _ _ _ l h (takes p ws t ts x o m) =
    λ a _ e. absurd (moved_up awake (runs t) p.threads ws tt m a)
Step-IsHeard _ _ _ l h (finishes p ws t m) =
    λ a _ e. absurd (moved_up (runs t) at_test p.threads ws tt m a)

record Sound (p : ThreadPool) : Type 0 where
  locked : Locked p
  heard : IsHeard p

Reach-Sound : (n : ℕ) (cs : List ℕ) (p : ThreadPool) → Reach n cs p → Sound p
Reach-Sound n _ _ begins = record { locked = inr refl; heard = λ a t e. absurd (e refl) }
Reach-Sound n _ _ (goes cs ds p q r x) =
    let i : Sound p = Reach-Sound n cs p r in
    record {
      locked = Step-Locked ds p q i.locked x;
      heard = Step-IsHeard ds p q i.locked i.heard x;
    }

-- No wakeup of a task is lost. However the threads interleave: where every worker of a pool that has
-- some sleeps although tasks are queued, a call of `commit` is still in front of its `notify_one`.
pub Reach-notifying :
    (n : ℕ) (cs : List ℕ) (p : ThreadPool)
    → Reach n cs p
    → All IsAsleep p.threads
    → p.threads ≢ []
    → p.tasks ≢ []
    → 0 < p.notifying
Reach-notifying n cs p r = (Reach-Sound n cs p r).heard
