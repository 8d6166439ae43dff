-- ===== src/Loops/Laws.antt =====
-- The loops of glacier/eventloop_threadpool.cc are handed out in turn.
use glacier.Common.{
  ℕ, zero, suc, ◌+◌, ◌%◌, ◌<◌, ◌≡◌, refl, ap, true, some, List, [], ◌∷◌, length, get_elem?, arith,
}
use native.Mathlib.Nat.{mod-add-mod, mod-lt}
use glacier.Loops.{EventLoopThreadPool, get_next_loop}

-- A started pool with as many loops as threads, at least one, behind its first `k` calls.
abbrev pub pool_behind : ℕ → ℕ → ℕ → List ℕ → EventLoopThreadPool
pool_behind baseloop k l ls = record {
  baseloop = baseloop;
  started = true;
  num_threads = length (l ∷ ls);
  next = k % length (l ∷ ls);
  loops = l ∷ ls;
}

within : (ls : List ℕ) (i : ℕ) → i < length ls → (loop : ℕ) × (get_elem? ls i ≡ some loop)
within [] i h = absurd (omega arith)
within (l ∷ ls) zero h = (l, refl)
within (l ∷ ls) (suc i) h = within ls i (omega (arith, h))

-- A started pool hands its loops out in turn: the call behind `k` others gets the loop whose index is
-- `k` modulo their number, and the pool is then behind `k + 1` calls.
pub get_next_loop-pool_behind :
    (baseloop k l : ℕ) (ls : List ℕ)
    → (loop : ℕ) × (get_elem? (l ∷ ls) (k % length (l ∷ ls)) ≡ some loop)
      × (get_next_loop (pool_behind baseloop k l ls)
          ≡ some (loop, pool_behind baseloop (k + 1) l ls))
unfolding get_next_loop
get_next_loop-pool_behind baseloop k l ls =
    let (loop, at) = within (l ∷ ls) (k % length (l ∷ ls)) (mod-lt k (omega arith)) in
    (
      loop,
      at,
      rw (get_next_loop, at)
          (ap (λ n. some (loop, record (pool_behind baseloop k l ls) { next = n }))
            (mod-add-mod k (length (l ∷ ls)) 1)),
    )
