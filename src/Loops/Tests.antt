-- ===== src/Loops/Tests.antt =====
-- Runs of glacier/eventloop_threadpool.cc and base/countdown.cc, and an instance of the theorem.
use glacier.Common.{◌≡◌, ◌<◌, ◌≤◌, refl, true, some, [], ◌∷◌}
use glacier.Common.Int.{pos, ◌-ℤ◌}
use glacier.Loops.{
  new_loop_pool, start_loops, get_next_loop, next_loops, new_latch, count_down, may_pass,
}
use glacier.Loops.Latch.{
  Latched, new_latched, Reach, begins, goes, waits, passes, sleeps, counts_down, down, Reach-downs,
}

turn_test :
    next_loops 5 (start_loops (7 ∷ 8 ∷ []) (new_loop_pool 1 2)) ≡ some (7 ∷ 8 ∷ 7 ∷ 8 ∷ 7 ∷ [])
unfolding next_loops get_next_loop
turn_test = refl

latch_test : may_pass (count_down (count_down (new_latch (pos 2)))) ≡ true
unfolding count_down ◌-ℤ◌
latch_test = refl

-- A thread waits and sleeps, the only call comes, and the thread returns.
passed_run : (s : Latched) × Reach 1 s × (s.passed ≡ 1) × (s.downs ≡ 1)
unfolding down count_down ◌-ℤ◌
passed_run = (
  _,
  goes _ _
      (goes _ _ (goes _ _ (goes _ _ begins (waits (new_latched 1))) (sleeps _ 0 refl refl))
        (counts_down _))
      (passes _ 0 refl refl),
  refl,
  refl,
)

Reach-downs_example :
    (0 < passed_run.0.passed → 1 ≤ passed_run.0.downs)
    × (passed_run.0.downs ≡ 1 → passed_run.0.asleep ≡ 0)
Reach-downs_example = Reach-downs 1 passed_run.0 passed_run.1
