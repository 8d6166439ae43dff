-- ===== src/Threads/Futures.antt =====
-- The futures of `commit` of glacier/base/threadpool.h, behind the joins of the destructor.
use glacier.Common.{
  ℕ, zero, suc, ◌+◌, ◌≡◌, refl, sym, ap, ◌∙◌, List, [], ◌∷◌, ◌++◌, All, map, arith, ◌==◌,
  if◌then◌else◌,
}
use glacier.Threads.{
  Worker, at_test, awake, looked, asleep, ended, runs, ThreadPool, copies, Moves, here, there, Step,
  wake, commits, commits_void, runs_inline, notifies_one, notifies_none, stops, notifies_all,
  enters, leaves, looks, sleeps, wakes, quits, takes, finishes, Reach, begins, goes,
}
use glacier.Threads.Laws.{queue-Reach}

-- How often `t` is among these tasks, and how many workers run it.
abbrev pub count : ℕ → List ℕ → ℕ
count t [] = 0
count t (u ∷ us) = let rest = count t us in if t == u then suc rest else rest

abbrev is_at : ℕ → Worker → ℕ
is_at t (runs u) = if t == u then 1 else 0
is_at t _ = 0

abbrev busy : ℕ → List Worker → ℕ
busy t [] = 0
busy t (w ∷ ws) = is_at t w + busy t ws

count-append : (t : ℕ) (us vs : List ℕ) → count t (us ++ vs) ≡ count t us + count t vs
count-append t [] vs = omega arith
count-append t (u ∷ us) vs = ground (arith, count-append t us vs)

busy-Moves :
    (t : ℕ) (v w : Worker) (ws xs : List Worker)
    → Moves v w ws xs
    → busy t ws + is_at t w ≡ busy t xs + is_at t v
busy-Moves t v w _ _ (here ws) = omega arith
busy-Moves t v w _ _ (there u ws xs m) = omega (arith, busy-Moves t v w ws xs m)

busy-wake : (t : ℕ) (ws : List Worker) → busy t (map wake ws) ≡ busy t ws
busy-wake t [] = refl
busy-wake t (w ∷ ws) = omega (arith, one w, busy-wake t ws)
  where
    one : (w : Worker) → is_at t (wake w) ≡ is_at t w
    one at_test = refl
    one awake = refl
    one looked = refl
    one asleep = refl
    one ended = refl
    one (runs u) = refl

busy-copies : (t n : ℕ) → busy t (copies n at_test) ≡ 0
busy-copies t zero = refl
busy-copies t (suc n) = omega (arith, busy-copies t n)

abbrev Accounted : ℕ → ThreadPool → Type 0
Accounted t p = count t p.taken ≡ count t p.done + busy t p.threads

Step-Accounted :
    (t : ℕ) (ds : List ℕ) (p q : ThreadPool) → Accounted t p → Step ds p q → Accounted t q
Step-Accounted t _ _ _ h (commits u p s o) = h
Step-Accounted t _ _ _ h (commits_void u p w ws s o) = h
Step-Accounted t _ _ _ h (runs_inline u p s) = h
Step-Accounted t _ _ _ h (notifies_one p ws n k m) =
    omega (arith, h, busy-Moves t asleep awake p.threads ws m)
Step-Accounted t _ _ _ h (notifies_none p n k u) = h
Step-Accounted t _ _ _ h (stops p) = h
Step-Accounted t _ _ _ h (notifies_all p k) = omega (arith, h, busy-wake t p.threads)
Step-Accounted t _ _ _ h (enters p ws s m) =
    omega (arith, h, busy-Moves t at_test awake p.threads ws m)
Step-Accounted t _ _ _ h (leaves p ws s m) =
    omega (arith, h, busy-Moves t at_test ended p.threads ws m)
Step-Accounted t _ _ _ h (looks p ws s e o m) =
    omega (arith, h, busy-Moves t awake looked p.threads ws m)
Step-Accounted t _ _ _ h (sleeps p ws m) =
    omega (arith, h, busy-Moves t looked asleep p.threads ws m)
Step-Accounted t _ _ _ h (wakes p ws m) = omega (arith, h, busy-Moves t asleep awake p.threads ws m)
Step-Accounted t _ _ _ h (quits p ws s e o m) =
    omega (arith, h, busy-Moves t awake ended p.threads ws m)
Step-Accounted t _ _ _ h (takes p ws u us e o m) =
    ground (arith, h, busy-Moves t awake (runs u) p.threads ws m, count-append t p.taken (u ∷ []))
Step-Accounted t _ _ _ h (finishes p ws u m) =
    ground (arith, h, busy-Moves t (runs u) at_test p.threads ws m, count-append t p.done (u ∷ []))

Reach-Accounted : (n : ℕ) (cs : List ℕ) (p : ThreadPool) → Reach n cs p → (t : ℕ) → Accounted t p
Reach-Accounted n _ _ begins t = omega (arith, busy-copies t n)
Reach-Accounted n _ _ (goes cs ds p q r s) t =
    Step-Accounted t ds p q (Reach-Accounted n cs p r t) s

abbrev pub IsEnded : Worker → Type 0
IsEnded ended = Unit
IsEnded _ = ⊥

busy-IsEnded : (t : ℕ) (ws : List Worker) → All IsEnded ws → busy t ws ≡ 0
busy-IsEnded t [] h = refl
busy-IsEnded t (ended ∷ ws) h = omega (arith, busy-IsEnded t ws h.1)
busy-IsEnded t (at_test ∷ ws) h = absurd h.0
busy-IsEnded t (awake ∷ ws) h = absurd h.0
busy-IsEnded t (looked ∷ ws) h = absurd h.0
busy-IsEnded t (asleep ∷ ws) h = absurd h.0
busy-IsEnded t (runs u ∷ ws) h = absurd h.0

-- However the threads interleave: once every worker has ended, so that the joins of the destructor
-- return, each task was run exactly as often as it was queued, less its entries that are left in the
-- queue; the futures of those alone are never ready.
pub count-Reach :
    (n : ℕ) (cs : List ℕ) (p : ThreadPool)
    → Reach n cs p
    → All IsEnded p.threads
    → (t : ℕ) → count t cs ≡ count t p.done + count t p.tasks
count-Reach n cs p r h t =
    ap (count t) (sym (queue-Reach n cs p r))
    ∙ omega (
      arith,
      count-append t p.taken p.tasks,
      Reach-Accounted n cs p r t,
      busy-IsEnded t p.threads h,
    )
