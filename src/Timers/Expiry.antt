-- ===== src/Timers/Expiry.antt =====
-- Which connections `handleExpiredEvent` of glacier/timer.cc closes.
use glacier.Common.{
  ℕ, ◌≤◌, ◌<◌, ◌≡◌, ◌≢◌, refl, sym, ap, true, false, not, ◌||◌, Option, none, some, List, [], ◌∷◌,
  ltb, ◌==◌, Bool-cases, inl, inr, arith, All, All-append,
}
use mathlib.Core.Path.{subst}
use mathlib.Core.List.{Memᴰ}
use mathlib.Core.List.Memᴰ
use mathlib.Core.List.Memᴰ.{head, tail}
use glacier.Timers.{
  Timer, Clock, milliseconds, is_valid, reset, push, reset_in, closes, handle_expired_event,
}
use glacier.Timers.Laws.{AreAfter, IsHeap}

pub All-push :
    (P : Timer → Type 0) (t : Timer) (ts : List Timer) → P t → All P ts → All P (push t ts)
unfolding push
All-push P t [] k h = (k, tt)
All-push P t (u ∷ us) k h = elim (Bool-cases (ltb u.expiredtime t.expiredtime)) [
  | inl y ↦ rw (push, y) (h.0, All-push P t us k h.1)
  | inr y ↦ rw (push, y) (k, h)
]

pub Memᴰ-push : (t : Timer) (ts : List Timer) → Memᴰ t (push t ts)
unfolding push
Memᴰ-push t [] = head refl
Memᴰ-push t (u ∷ us) = elim (Bool-cases (ltb u.expiredtime t.expiredtime)) [
  | inl y ↦ rw (push, y) (tail (Memᴰ-push t us))
  | inr y ↦ rw (push, y) (head refl)
]

-- What holds of each timer of another number, and of each that was reset, holds behind the reset.
pub All-reset_in :
    (P Q : Timer → Type 0) (n : ℕ) (ts : List Timer)
    → ((t : Timer) → P t → t.number ≢ n → Q t)
    → ((t : Timer) → P t → Q (reset t))
    → All P ts
    → All Q (reset_in n ts)
unfolding reset_in
All-reset_in P Q n [] f g h = tt
All-reset_in P Q n (t ∷ ts) f g h = elim (Bool-cases (t.number == n)) [
  | inl y ↦ rw (reset_in, y) (g t h.0, All-reset_in P Q n ts f g h.1)
  | inr y ↦ rw (reset_in, y) (f t h.0 (λ e. ground (arith, y, e)), All-reset_in P Q n ts f g h.1)
]

pub reset_in-IsHeap : (n : ℕ) (ts : List Timer) → IsHeap ts → IsHeap (reset_in n ts)
unfolding reset_in reset
reset_in-IsHeap n [] h = tt
reset_in-IsHeap n (t ∷ ts) h =
    let after : AreAfter t.expiredtime (reset_in n ts) =
      All-reset_in (λ u. t.expiredtime ≤ u.expiredtime) (λ u. t.expiredtime ≤ u.expiredtime) n ts
        (λ u k e. k) (λ u k. k) h.0 in
    elim (Bool-cases (t.number == n)) [
      | inl y ↦ rw (reset_in, y) (after, reset_in-IsHeap n ts h.1)
      | inr y ↦ rw (reset_in, y) (after, reset_in-IsHeap n ts h.1)
    ]

-- A timer that holds the connection is not deleted and expires behind `now`.
abbrev pub IsSafe : Clock → ℕ → Timer → Type 0
IsSafe now fd t = t.httpdata ≡ some fd → (t.deleted ≡ false) × (milliseconds now < t.expiredtime)

closes-safe : (fd : ℕ) (t : Timer) → t.httpdata ≢ some fd → All (λ c. c ≢ fd) (closes t)
closes-safe fd t h = go t.httpdata h
  where
    go : (o : Option ℕ) → o ≢ some fd → All (λ c. c ≢ fd) (elim o [ none ↦ [] | some c ↦ c ∷ [] ])
    go none k = tt
    go (some c) k = (λ e. k (ap some e), tt)

-- A connection is not closed as long as each timer that holds it is valid.
pub handle_expired_event-IsSafe :
    (now : Clock) (fd : ℕ) (ts : List Timer)
    → All (IsSafe now fd) ts
    → All (λ c. c ≢ fd) (handle_expired_event now ts).1
unfolding handle_expired_event is_valid
handle_expired_event-IsSafe now fd [] h = tt
handle_expired_event-IsSafe now fd (t ∷ ts) h =
    elim (Bool-cases (t.deleted || not (is_valid now t).0)) [
      | inl y ↦
          rw (handle_expired_event, y)
            (All-append (λ c. c ≢ fd) (closes t) (handle_expired_event now ts).1
              (closes-safe fd t (λ e. ground (arith, y, h.0 e)))
              (handle_expired_event-IsSafe now fd ts h.1))
      | inr y ↦ rw (handle_expired_event, y) tt
    ]

All-Memᴰ : (P : Timer → Type 0) (t : Timer) (ts : List Timer) → All P ts → Memᴰ t ts → P t
All-Memᴰ P t [] h m = elim m [ ]
All-Memᴰ P t (u ∷ us) h (head e) = subst P (sym e) h.0
All-Memᴰ P t (u ∷ us) h (tail m) = All-Memᴰ P t us h.1 m

popped :
    (now : Clock) (t : Timer)
    → t.expiredtime ≤ milliseconds now
    → (t.deleted || not (is_valid now t).0) ≡ true
unfolding is_valid
popped now t e = ground arith

closes-held : (fd : ℕ) (t : Timer) → t.httpdata ≡ some fd → Memᴰ fd (closes t)
closes-held fd t h = rw h (head refl)

-- A connection is closed once a timer that holds it has expired.
pub handle_expired_event-Memᴰ :
    (now : Clock) (fd : ℕ) (t : Timer) (ts : List Timer)
    → IsHeap ts
    → Memᴰ t ts
    → t.httpdata ≡ some fd
    → t.expiredtime ≤ milliseconds now
    → Memᴰ fd (handle_expired_event now ts).1
unfolding handle_expired_event
handle_expired_event-Memᴰ now fd t [] h m c e = elim m [ ]
handle_expired_event-Memᴰ now fd t (u ∷ us) h (head k) c e =
    rw (handle_expired_event, popped now u (subst (λ v. v.expiredtime ≤ milliseconds now) k e))
      (Memᴰ.append_left (handle_expired_event now us).1
        (closes-held fd u (subst (λ v. v.httpdata ≡ some fd) k c)))
handle_expired_event-Memᴰ now fd t (u ∷ us) h (tail m) c e =
    let before : u.expiredtime ≤ t.expiredtime =
      All-Memᴰ (λ v. u.expiredtime ≤ v.expiredtime) t us h.0 m in
    rw (handle_expired_event, popped now u (omega (arith, before, e)))
      (Memᴰ.append_right (closes u) (handle_expired_event-Memᴰ now fd t us h.1 m c e))
