-- ===== src/Loops.antt =====
-- The threads of the event loops, glacier/eventloop_threadpool.h and eventloop_threadpool.cc, and the
-- latch of glacier/base/countdown.h and countdown.cc. Loops are numbers.
pub mod Laws
pub mod Latch
pub mod Tests
use glacier.Common.{
  ℕ, zero, suc, ◌+◌, ◌%◌, Bool, true, false, not, Option, none, some, List, [], ◌∷◌, ◌++◌,
  get_elem?, ◌==◌, if◌then◌else◌,
}
use glacier.Common.Int.{ℤ, pos, ◌-ℤ◌, eqb_ℤ}

pub record EventLoopThreadPool : Type 0 where
  pub baseloop : ℕ
  pub started : Bool
  pub num_threads : ℕ
  pub next : ℕ
  pub loops : List ℕ

abbrev pub new_loop_pool : ℕ → ℕ → EventLoopThreadPool
new_loop_pool baseloop num_threads = record {
  baseloop = baseloop;
  started = false;
  num_threads = num_threads;
  next = 0;
  loops = [];
}

-- `start`, with the loops that the threads make.
abbrev pub start_loops : List ℕ → EventLoopThreadPool → EventLoopThreadPool
start_loops made p = record p { started = true; loops = p.loops ++ made }

abbrev pub is_empty : List ℕ → Bool
is_empty [] = true
is_empty (l ∷ ls) = false

-- `getNextLoop`; `none` is the assertion that fails, or an index behind the end.
unfoldable pub get_next_loop : EventLoopThreadPool → Option (ℕ × EventLoopThreadPool)
get_next_loop p =
    if not p.started
    then none
    else if is_empty p.loops
    then some (p.baseloop, p)
    else elim (get_elem? p.loops p.next) [
      | none ↦ none
      | some loop ↦ some (loop, record p { next = (p.next + 1) % p.num_threads })
    ]

-- The loops that so many calls hand out.
unfoldable pub next_loops : ℕ → EventLoopThreadPool → Option (List ℕ)
next_loops zero p = some []
next_loops (suc n) p = elim (get_next_loop p) [
  | none ↦ none
  | some (loop, p') ↦ elim (next_loops n p') [ none ↦ none | some loops ↦ some (loop ∷ loops) ]
]

-- `CountDownLatch`: its count, and whether the waiting threads were woken.
pub record CountDownLatch : Type 0 where
  pub count : ℤ
  pub notified : Bool

abbrev pub new_latch : ℤ → CountDownLatch
new_latch count = record { count = count; notified = false }

unfoldable pub count_down : CountDownLatch → CountDownLatch
count_down l =
    let count = l.count -ℤ pos 1 in
    record { count = count; notified = if eqb_ℤ count (pos 0) then true else l.notified }

-- The condition under which `wait` returns.
abbrev pub may_pass : CountDownLatch → Bool
may_pass l = eqb_ℤ l.count (pos 0)
