-- ===== src/Loops/Latch.antt =====
-- Threads at the latch of glacier/base/countdown.cc. The mutex makes `countDown`, and each test in
-- `wait`, one step; a thread whose test fails sleeps, and one that wakes up, told or not, tests again.
use glacier.Common.{
  ℕ, suc, ◌+◌, ◌≤◌, ◌<◌, ◌≡◌, refl, true, false, arith, if◌then◌else◌, Bool-cases, inl, inr,
}
use glacier.Common.Int.{pos, pos_part, neg_part, -ℤ_parts}
use glacier.Loops.{CountDownLatch, new_latch, count_down, may_pass}

-- How many threads sleep in `wait`, are awake in it, or have returned from it, and how many calls of
-- `countDown` there were.
pub record Latched : Type 0 where
  pub latch : CountDownLatch
  pub asleep : ℕ
  pub awake : ℕ
  pub passed : ℕ
  pub downs : ℕ

abbrev pub new_latched : ℕ → Latched
new_latched count = record {
  latch = new_latch (pos count);
  asleep = 0;
  awake = 0;
  passed = 0;
  downs = 0;
}

-- `countDown`, with its `notify_all`.
unfoldable pub down : Latched → Latched
down s =
    let l = count_down s.latch in
    let t = record s { latch = l; downs = s.downs + 1 } in
    if may_pass l then record t { asleep = 0; awake = s.awake + s.asleep } else t

pub data Step : Latched → Latched → Type 0 where
  waits : (s : Latched) → Step s (record s { awake = s.awake + 1 })
  passes :
      (s : Latched) (n : ℕ)
      → s.awake ≡ suc n
      → may_pass s.latch ≡ true
      → Step s (record s { awake = n; passed = s.passed + 1 })
  sleeps :
      (s : Latched) (n : ℕ)
      → s.awake ≡ suc n
      → may_pass s.latch ≡ false
      → Step s (record s { awake = n; asleep = s.asleep + 1 })
  wakes :
      (s : Latched) (n : ℕ)
      → s.asleep ≡ suc n
      → Step s (record s { asleep = n; awake = s.awake + 1 })
  counts_down : (s : Latched) → Step s (down s)

pub data Reach (count : ℕ) : Latched → Type 0 where
  begins : Reach count (new_latched count)
  goes : (s t : Latched) → Reach count s → Step s t → Reach count t

-- The count is what the calls left of it; while it is zero nobody sleeps; and nobody has passed before.
record Sound (count : ℕ) (s : Latched) : Type 0 where
  count_is : pos_part s.latch.count + s.downs ≡ neg_part s.latch.count + count
  asleep_is : s.downs ≡ count → s.asleep ≡ 0
  passed_is : 0 < s.passed → count ≤ s.downs

module _ (count : ℕ) (s : Latched) (i : Sound count s) where
  pass : may_pass s.latch ≡ true → s.downs ≡ count
  pass h = ground (arith, i.count_is)

  sleep : may_pass s.latch ≡ false → s.downs ≡ count → ⊥
  sleep h d = ground (arith, i.count_is)

  counted :
      pos_part (count_down s.latch).count + (s.downs + 1)
      ≡ neg_part (count_down s.latch).count + count
  unfolding count_down
  counted = omega (arith, i.count_is, -ℤ_parts s.latch.count (pos 1))

  down-Sound : Sound count (down s)
  unfolding down
  down-Sound = elim (Bool-cases (may_pass (count_down s.latch))) [
    | inl e ↦
        rw (down, e)
          (record {
            count_is = counted;
            asleep_is = λ d. refl;
            passed_is = λ p. omega (arith, i.passed_is p);
          })
    | inr e ↦
        rw (down, e)
          (record {
            count_is = counted;
            asleep_is = λ d. absurd (ground (arith, counted, e, d));
            passed_is = λ p. omega (arith, i.passed_is p);
          })
  ]

Step-Sound : (count : ℕ) (s t : Latched) → Sound count s → Step s t → Sound count t
Step-Sound count _ _ i (waits s) = record {
  count_is = i.count_is;
  asleep_is = i.asleep_is;
  passed_is = i.passed_is;
}
Step-Sound count _ _ i (passes s n e h) = record {
  count_is = i.count_is;
  asleep_is = i.asleep_is;
  passed_is = λ _. omega (arith, pass count s i h);
}
Step-Sound count _ _ i (sleeps s n e h) = record {
  count_is = i.count_is;
  asleep_is = λ d. absurd (sleep count s i h d);
  passed_is = i.passed_is;
}
Step-Sound count _ _ i (wakes s n e) = record {
  count_is = i.count_is;
  asleep_is = λ d. absurd (omega (arith, i.asleep_is d, e));
  passed_is = i.passed_is;
}
Step-Sound count _ _ i (counts_down s) = down-Sound count s i

Reach-Sound : (count : ℕ) (s : Latched) → Reach count s → Sound count s
Reach-Sound count _ begins = record {
  count_is = omega arith;
  asleep_is = λ d. refl;
  passed_is = λ p. absurd (omega (arith, p));
}
Reach-Sound count _ (goes s t r x) = Step-Sound count s t (Reach-Sound count s r) x

-- However the threads interleave: no thread has returned from `wait` before as many calls of `countDown`
-- as the latch was made for, and behind exactly so many no thread sleeps in `wait`.
pub Reach-downs :
    (count : ℕ) (s : Latched)
    → Reach count s
    → (0 < s.passed → count ≤ s.downs) × (s.downs ≡ count → s.asleep ≡ 0)
Reach-downs count s r = let i = Reach-Sound count s r in (i.passed_is, i.asleep_is)
