-- ===== src/Timers/Laws.antt =====
-- When the timers of glacier/timer.cc expire, and what the manager does about it.
use glacier.Common.{
  ℕ, ◌+◌, ◌*◌, ◌/◌, ◌%◌, ◌≤◌, ◌<◌, ◌≡◌, inl, inr, true, false, not, ◌||◌, List, [], ◌∷◌, All, ltb,
  Bool-cases, arith,
}
use glacier.Timers.{Timer, Clock, milliseconds, new_timer, is_valid, push, handle_expired_event}

abbrev pub IsClock : Clock → Type 0
IsClock c = c.tv_usec < 1000000

-- The milliseconds since the epoch.
abbrev pub real : Clock → ℕ
real c = c.tv_sec * 1000 + c.tv_usec / 1000

-- While the clock stays in one span of 10000 seconds, a timer is valid exactly as long as fewer
-- milliseconds than its timeout have passed.
pub is_valid-new_timer :
    (start now : Clock) (number req timeout : ℕ)
    → start.tv_sec / 10000 ≡ now.tv_sec / 10000
    → (is_valid now (new_timer start number req timeout)).0 ≡ ltb (real now) (real start + timeout)
unfolding is_valid new_timer milliseconds
is_valid-new_timer start now number req timeout e = ground (arith, e)

-- A timer that is to expire behind the end of a span of 10000 seconds never expires: it is valid at
-- every time.
pub is_valid_for_ever :
    (start now : Clock) (number req timeout : ℕ)
    → IsClock now
    → 10000000 ≤ start.tv_sec % 10000 * 1000 + start.tv_usec / 1000 + timeout
    → (is_valid now (new_timer start number req timeout)).0 ≡ true
unfolding is_valid new_timer milliseconds
is_valid_for_ever start now number req timeout c h = ground (arith, h, c)

-- In the order of expiry.
abbrev pub AreAfter : ℕ → List Timer → Type 0
AreAfter n ts = All (λ t. n ≤ t.expiredtime) ts

abbrev pub IsHeap : List Timer → Type 0
IsHeap [] = Unit
IsHeap (t ∷ ts) = AreAfter t.expiredtime ts × IsHeap ts

AreAfter-weaken : (m n : ℕ) (ts : List Timer) → m ≤ n → AreAfter n ts → AreAfter m ts
AreAfter-weaken m n [] h k = tt
AreAfter-weaken m n (t ∷ ts) h k = (omega (arith, h, k.0), AreAfter-weaken m n ts h k.1)

AreAfter-push :
    (n : ℕ) (t : Timer) (ts : List Timer)
    → n ≤ t.expiredtime
    → AreAfter n ts
    → AreAfter n (push t ts)
unfolding push
AreAfter-push n t [] h k = (h, tt)
AreAfter-push n t (u ∷ us) h k = elim (Bool-cases (ltb u.expiredtime t.expiredtime)) [
  | inl y ↦ rw (push, y) (k.0, AreAfter-push n t us h k.1)
  | inr y ↦ rw (push, y) (h, k)
]

-- Adding a timer keeps the heap in the order of expiry.
pub push-IsHeap : (t : Timer) (ts : List Timer) → IsHeap ts → IsHeap (push t ts)
unfolding push
push-IsHeap t [] h = (tt, tt)
push-IsHeap t (u ∷ us) h = elim (Bool-cases (ltb u.expiredtime t.expiredtime)) [
  | inl y ↦
      rw (push, y) (AreAfter-push u.expiredtime t us (ground (arith, y)) h.0, push-IsHeap t us h.1)
  | inr y ↦
      rw (push, y)
        (
          (
            ground (arith, y),
            AreAfter-weaken t.expiredtime u.expiredtime us (ground (arith, y)) h.0,
          ),
          h,
        )
]

-- The time is before the expiry of a timer.
abbrev pub IsLive : Clock → Timer → Type 0
IsLive now t = milliseconds now < t.expiredtime

-- After the expired timers are handled, none that has expired is left in the heap, and the heap is
-- still in order.
pub handle_expired_event-IsLive :
    (now : Clock) (ts : List Timer)
    → IsHeap ts
    → All (IsLive now) (handle_expired_event now ts).0 × IsHeap (handle_expired_event now ts).0
unfolding handle_expired_event is_valid
handle_expired_event-IsLive now [] h = (tt, tt)
handle_expired_event-IsLive now (t ∷ ts) h =
    elim (Bool-cases (t.deleted || not (is_valid now t).0)) [
      | inl y ↦ rw (handle_expired_event, y) (handle_expired_event-IsLive now ts h.1)
      | inr y ↦ rw (handle_expired_event, y) ((live t y, all ts h.0 (live t y)), h)
    ]
  where
    live : (t : Timer) → (t.deleted || not (is_valid now t).0) ≡ false → IsLive now t
    live t e = ground (arith, e)

    all : (ts : List Timer) {n : ℕ} → AreAfter n ts → milliseconds now < n → All (IsLive now) ts
    all [] h k = tt
    all (u ∷ us) h k = (omega (arith, h.0, k), all us h.1 k)
