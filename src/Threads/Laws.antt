-- ===== src/Threads/Laws.antt =====
-- What the workers of glacier/base/threadpool.h do with the tasks.
use glacier.Common.{
  ℕ, zero, suc, ◌+◌, arith, ◌≡◌, refl, sym, ap, ◌∙◌, true, false, List, [], ◌∷◌, ◌++◌, append-nil,
  append_assoc, All, map,
}
use mathlib.Core.Path.{subst}
use native.Mathlib.Nat.{zero-add, add-zero}
use glacier.Threads.{
  Worker, at_test, awake, looked, asleep, ended, runs, ThreadPool, copies, new_pool, Moves, here,
  there, Step, IsOutside, IsUp, wake, push_task, commits, commits_void, runs_inline, notifies_one,
  notifies_none, stops, notifies_all, enters, leaves, looks, sleeps, wakes, quits, takes, finishes,
  Reach, begins, goes,
}

queue-Step :
    (cs ds : List ℕ) (p q : ThreadPool)
    → p.taken ++ p.tasks ≡ cs
    → Step ds p q
    → q.taken ++ q.tasks ≡ cs ++ ds
queue-Step cs _ _ _ e (commits t p s o) =
    sym (append_assoc p.taken p.tasks (t ∷ [])) ∙ ap (λ x. x ++ t ∷ []) e
queue-Step cs _ _ _ e (commits_void t p w ws s o) =
    sym (append_assoc p.taken p.tasks (t ∷ [])) ∙ ap (λ x. x ++ t ∷ []) e
queue-Step cs _ _ _ e (runs_inline t p s) = e ∙ sym (append-nil cs)
queue-Step cs _ _ _ e (stops p) = e ∙ sym (append-nil cs)
queue-Step cs _ _ _ e (notifies_one p ws n k m) = e ∙ sym (append-nil cs)
queue-Step cs _ _ _ e (notifies_none p n k u) = e ∙ sym (append-nil cs)
queue-Step cs _ _ _ e (notifies_all p k) = e ∙ sym (append-nil cs)
queue-Step cs _ _ _ e (looks p ws s t o m) = e ∙ sym (append-nil cs)
queue-Step cs _ _ _ e (sleeps p ws m) = e ∙ sym (append-nil cs)
queue-Step cs _ _ _ e (wakes p ws m) = e ∙ sym (append-nil cs)
queue-Step cs _ _ _ e (enters p ws s m) = e ∙ sym (append-nil cs)
queue-Step cs _ _ _ e (leaves p ws s m) = e ∙ sym (append-nil cs)
queue-Step cs _ _ _ e (quits p ws s t o m) = e ∙ sym (append-nil cs)
queue-Step cs _ _ _ e (takes p ws t ts q o m) =
    append_assoc p.taken (t ∷ []) ts ∙ ap (λ x. p.taken ++ x) (sym q) ∙ e ∙ sym (append-nil cs)
queue-Step cs _ _ _ e (finishes p ws t m) = e ∙ sym (append-nil cs)

-- However the threads interleave, the tasks that workers took, followed by those in the queue, are
-- the tasks queued so far, in order: none is lost, run twice or overtaken.
pub queue-Reach : (n : ℕ) (cs : List ℕ) (p : ThreadPool) → Reach n cs p → p.taken ++ p.tasks ≡ cs
queue-Reach n _ _ begins = refl
queue-Reach n _ _ (goes cs ds p q r s) = queue-Step cs ds p q (queue-Reach n cs p r) s

abbrev pub IsAtWork : Worker → Type 0
IsAtWork ended = ⊥
IsAtWork _ = Unit

moved :
    (v w : Worker) (ws xs : List Worker)
    → IsAtWork w
    → Moves v w ws xs
    → All IsAtWork ws
    → All IsAtWork xs
moved v w _ _ k (here ws) h = (k, h.1)
moved v w _ _ k (there u ws xs m) h = (h.0, moved v w ws xs k m h.1)

woken : (ws : List Worker) → All IsAtWork ws → All IsAtWork (map wake ws)
woken [] h = tt
woken (w ∷ ws) h = (one w h.0, woken ws h.1)
  where
    one : (w : Worker) → IsAtWork w → IsAtWork (wake w)
    one at_test k = tt
    one awake k = tt
    one looked k = tt
    one asleep k = tt
    one ended k = k
    one (runs t) k = tt

abbrev AtWork : ThreadPool → Type 0
AtWork p = p.stoped ≡ false → All IsAtWork p.threads

AtWork-Step : (ds : List ℕ) (p q : ThreadPool) → AtWork p → Step ds p q → AtWork q
AtWork-Step _ _ _ h (commits t p s o) = h
AtWork-Step _ _ _ h (commits_void t p w ws s o) = h
AtWork-Step _ _ _ h (runs_inline t p s) = h
AtWork-Step _ _ _ h (stops p) = λ e. cc
AtWork-Step _ _ _ h (notifies_one p ws n k m) = λ e. moved asleep awake p.threads ws tt m (h e)
AtWork-Step _ _ _ h (notifies_none p n k u) = h
AtWork-Step _ _ _ h (notifies_all p k) = λ e. woken p.threads (h e)
AtWork-Step _ _ _ h (looks p ws s t o m) = λ e. moved awake looked p.threads ws tt m (h e)
AtWork-Step _ _ _ h (sleeps p ws m) = λ e. moved looked asleep p.threads ws tt m (h e)
AtWork-Step _ _ _ h (wakes p ws m) = λ e. moved asleep awake p.threads ws tt m (h e)
AtWork-Step _ _ _ h (enters p ws s m) = λ e. moved at_test awake p.threads ws tt m (h e)
AtWork-Step _ _ _ h (leaves p ws s m) = λ e. cc
AtWork-Step _ _ _ h (quits p ws s t o m) = λ e. cc
AtWork-Step _ _ _ h (takes p ws t ts q o m) = λ e. moved awake (runs t) p.threads ws tt m (h e)
AtWork-Step _ _ _ h (finishes p ws t m) = λ e. moved (runs t) at_test p.threads ws tt m (h e)

-- Until the pool is stopped, no worker has ended.
pub Reach-IsAtWork :
    (n : ℕ) (cs : List ℕ) (p : ThreadPool)
    → Reach n cs p
    → p.stoped ≡ false
    → All IsAtWork p.threads
Reach-IsAtWork n _ _ begins e = all n
  where
    all : (n : ℕ) → All IsAtWork (copies n at_test)
    all zero = tt
    all (suc n) = (tt, all n)
Reach-IsAtWork n _ _ (goes cs ds p q r s) e = AtWork-Step ds p q (Reach-IsAtWork n cs p r) s e

abbrev full : ℕ → List ℕ → ThreadPool
full n ts = record (new_pool n) { tasks = ts }

all_copies : (P : Worker → Type 0) (n : ℕ) → P at_test → All P (copies n at_test)
all_copies P zero k = tt
all_copies P (suc n) k = (k, all_copies P n k)

committing :
    (n : ℕ) (ts us : List ℕ) → Reach n ts (full n ts) → Reach n (ts ++ us) (full n (ts ++ us))
committing n ts [] r = subst (λ x. Reach n x (full n x)) (sym (append-nil ts)) r
committing n ts (u ∷ us) r =
    subst (λ x. Reach n x (full n x)) (append_assoc ts (u ∷ []) us)
      (committing n (ts ++ u ∷ []) us (
        subst (λ x. Reach n x (full n (ts ++ u ∷ []))) (append-nil (ts ++ u ∷ []))
          (goes (ts ++ u ∷ []) [] (push_task u (full n ts)) _
            (goes ts (u ∷ []) (full n ts) _ r
              (commits u (full n ts) refl (all_copies IsOutside n tt)))
            (notifies_none _ 0 refl (all_copies IsUp n tt)))))

abbrev stopped : ℕ → ℕ → List ℕ → ThreadPool
stopped gone left ts = record {
  threads = copies gone ended ++ copies left at_test;
  tasks = ts;
  stoped = true;
  taken = [];
  done = [];
  notifying = 0;
  notifying_all = false;
}

next_leaves :
    (gone left : ℕ)
    → Moves at_test ended
        (copies gone ended ++ copies (suc left) at_test)
        (copies (suc gone) ended ++ copies left at_test)
next_leaves zero left = here (copies left at_test)
next_leaves (suc gone) left = there ended _ _ (next_leaves gone left)

leaving :
    (n gone left : ℕ) (ts cs : List ℕ)
    → Reach n cs (stopped gone left ts)
    → Reach n cs (stopped (gone + left) 0 ts)
leaving n gone zero ts cs r = rw add-zero r
leaving n gone (suc left) ts cs r =
    subst (λ k. Reach n cs (stopped k 0 ts)) (omega arith)
      (leaving n (suc gone) left ts cs (
        subst (λ x. Reach n x (stopped (suc gone) left ts)) (append-nil cs)
          (goes cs [] (stopped gone (suc left) ts) _ r (leaves _ _ refl (next_leaves gone left)))))

map-copies : (n : ℕ) → map wake (copies n at_test) ≡ copies n at_test
map-copies zero = refl
map-copies (suc n) = ap (λ ws. at_test ∷ ws) (map-copies n)

stopping : (n : ℕ) (ts : List ℕ) → Reach n ts (full n ts) → Reach n ts (stopped 0 n ts)
stopping n ts r =
    subst (λ ws. Reach n ts (record (stopped 0 n ts) { threads = ws })) (map-copies n)
      (subst (λ x. Reach n x (record (stopped 0 n ts) { threads = map wake (copies n at_test) }))
        (append-nil (ts ++ []) ∙ append-nil ts)
        (goes (ts ++ []) [] _ _ (goes ts [] (full n ts) _ r (stops (full n ts)))
          (notifies_all _ refl)))

abbrev pub abandoned : ℕ → List ℕ → ThreadPool
abandoned n ts = record {
  threads = copies n ended;
  tasks = ts;
  stoped = true;
  taken = [];
  done = [];
  notifying = 0;
  notifying_all = false;
}

-- Every list of tasks may be abandoned: a pool of any size reaches a state in which all its tasks
-- are still queued and every one of its workers has ended.
pub tasks_abandoned : (n : ℕ) (ts : List ℕ) → Reach n ts (abandoned n ts)
tasks_abandoned n ts =
    subst
      (λ ws. Reach n ts (record {
        threads = ws;
        tasks = ts;
        stoped = true;
        taken = [];
        done = [];
        notifying = 0;
        notifying_all = false;
      }))
      (append-nil (copies (0 + n) ended) ∙ ap (λ k. copies k ended) (zero-add n))
      (leaving n 0 n ts ts (stopping n ts (committing n [] ts begins)))
