-- ===== src/System/Idle/Laws.antt =====
-- When a connection that is left idle is closed.
use glacier.Common.{
  ℕ, suc, ◌+◌, ◌/◌, ◌≤◌, ◌<◌, ◌≡◌, ◌≢◌, refl, sym, ap, ◌∙◌, true, Option, none, some, List, [], ◌∷◌,
  ◌++◌, length, arith, All, All-weaken,
}
use mathlib.Core.Path.{subst}
use mathlib.Core.List.{Memᴰ}
use mathlib.Core.Option.{some-injective}
use glacier.Http.Response.{World, FileSystem, update_poller}
use glacier.Http.Connection.{call}
use glacier.Http.Connection.Serves.{detached}
use glacier.Http.Turn.Answers.{readable, reading, timeout_of, Request, answer_of, IsServed}
use glacier.Timers.{
  Timer, Clock, milliseconds, new_timer, push, add_timer, reset, reset_in, handle_expired_event,
}
use glacier.Timers.Laws.{IsHeap, push-IsHeap, real}
use glacier.Timers.Expiry.{
  All-push, Memᴰ-push, All-reset_in, reset_in-IsHeap, IsSafe, handle_expired_event-IsSafe,
  handle_expired_event-Memᴰ,
}
use glacier.System.Registered.{IsWaiting}
use glacier.System.Serve.{with_scripts, stays, timeout_of-positive, serve_turn-IsWaiting}
use glacier.System.Idle.{Timed, heap_after, timed_turn, expire}
use glacier.System.Idle.Closes.{close_all-IsWaiting, IsGone, close_all-Memᴰ}

-- No timer but the one that the connection points to holds it.
abbrev pub IsLinked : ℕ → Option ℕ → List Timer → Type 0
IsLinked fd link heap = All (λ t. t.httpdata ≡ some fd → link ≡ some t.number) heap

-- The heap behind the reset of the timer that the connection points to.
abbrev let_go : Option ℕ → List Timer → List Timer
let_go none heap = heap
let_go (some n) heap = reset_in n heap

abbrev IsFree : ℕ → Timer → Type 0
IsFree fd t = t.httpdata ≢ some fd

let_go-IsFree :
    (fd : ℕ) (link : Option ℕ) (heap : List Timer)
    → IsLinked fd link heap
    → All (IsFree fd) (let_go link heap)
unfolding reset
let_go-IsFree fd none heap h =
    All-weaken (λ t. t.httpdata ≡ some fd → none ≡ some t.number) (IsFree fd) heap
      (λ t k e. let broken = k e in cc) h
let_go-IsFree fd (some n) heap h =
    All-reset_in (λ t. t.httpdata ≡ some fd → some n ≡ some t.number) (IsFree fd) n heap
      (λ t k e x. e (sym (some-injective n t.number (k x)))) (λ t k. λ e. cc) h

let_go-IsHeap : (link : Option ℕ) (heap : List Timer) → IsHeap heap → IsHeap (let_go link heap)
let_go-IsHeap none heap h = h
let_go-IsHeap (some n) heap h = reset_in-IsHeap n heap h

heap_after-let_go :
    (start : Clock) (fd made timeout : ℕ) (link : Option ℕ) (heap : List Timer) (x : World)
    → x.calls ≡ []
    → 0 < timeout
    → heap_after start fd made ((detached link x).calls ++ update_poller reading timeout ∷ []) heap
      ≡ push (new_timer start made fd timeout) (let_go link heap)
unfolding heap_after call add_timer
heap_after-let_go start fd made timeout none heap x e h = rw e (ground (arith, h))
heap_after-let_go start fd made timeout (some n) heap x e h = rw e (ground (arith, h))

-- The turn that the theorem starts with, once and for all.
module _ (fd : ℕ) (start now : Clock) (made timeout : ℕ) (q : List Timer)
    (span : start.tv_sec / 10000 ≡ now.tv_sec / 10000) where
  newest : Timer
  newest = new_timer start made fd timeout

  not_yet :
      All (IsFree fd) q
      → real now < real start + timeout
      → All (λ c. c ≢ fd) (handle_expired_event now (push newest q)).1
  unfolding newest new_timer milliseconds
  not_yet free early = handle_expired_event-IsSafe now fd (push newest q) (
      All-push (IsSafe now fd) newest q (λ e. (refl, omega (arith, early, span)))
        (All-weaken (IsFree fd) (IsSafe now fd) q (λ t k e. absurd (k e)) free))

  by_now :
      IsHeap q
      → real start + timeout ≤ real now
      → Memᴰ fd (handle_expired_event now (push newest q)).1
  unfolding newest new_timer milliseconds
  by_now heap late =
      handle_expired_event-Memᴰ now fd newest (push newest q) (push-IsHeap newest q heap)
        (Memᴰ-push newest q) refl (omega (arith, late, span))

  newest-IsLinked : All (IsFree fd) q → IsLinked fd (some made) (push newest q)
  unfolding newest new_timer
  newest-IsLinked free =
      All-push (λ t. t.httpdata ≡ some fd → some made ≡ some t.number) newest q (λ e. refl)
        (All-weaken (IsFree fd) (λ t. t.httpdata ≡ some fd → some made ≡ some t.number) q
          (λ t k e. absurd (k e)) free)

-- When `handleExpired` closes an idle connection. A connection that waits, and is held
-- by no timer but the one that it points to, serves a request at `start`, under the conditions of
-- `IsServed`. The timer that it then points to is again the only one that holds it, with the timeout that
-- belongs to the request. At a time `now` of the same span of 10000 seconds, the loop's `handleExpired`
-- leaves the connection registered and waiting if fewer milliseconds have passed than the timeout, and
-- otherwise takes it from the poller, whatever the other timers are. Each `epoll_ctl` succeeds.
pub timed_turn-expire :
    (fs : FileSystem) (fuel fd : ℕ) (r : Request) (x : World) (s : Timed) (start now : Clock)
    → IsServed fs r
    → (i : IsWaiting fd s.worker) → IsHeap s.heap
    → IsLinked fd i.http.timer s.heap
    → start.tv_sec / 10000 ≡ now.tv_sec / 10000
    → let timeout = timeout_of (stays r i.http.keep_alive) in
      (t : Timed) × (x' : World) × (timed_turn true fs
          (suc fuel)
          fd
          readable
          start
          (with_scripts r x)
          s
        ≡ some (t, x'))
      × (x'.sent ≡ x.sent ++ answer_of r)
      × (j : IsWaiting fd t.worker) × IsHeap t.heap
      × IsLinked fd j.http.timer t.heap
      × (real now < real start + timeout → IsWaiting fd (expire true now t).worker)
      × (real start + timeout ≤ real now → IsGone fd (expire true now t).worker)
unfolding timed_turn expire newest
timed_turn-expire fs fuel fd r x s start now k i h l span =
    let made = length s.worker.poller.timers in
    let timeout = timeout_of (stays r i.http.keep_alive) in
    let y : World = record (with_scripts r x) { calls = [] } in
    let q = let_go i.http.timer s.heap in
    let free = let_go-IsFree fd i.http.timer s.heap l in
    let ordered = let_go-IsHeap i.http.timer s.heap h in
    let (w, x', e, sent, j, linked, calls) = serve_turn-IsWaiting fs fuel fd r x s.worker k i in
    let heap = push (new_timer start made fd timeout) q in
    let heap_is : heap_after start fd made x'.calls s.heap ≡ heap =
      ap (λ cs. heap_after start fd made cs s.heap) calls
      ∙ heap_after-let_go start fd made timeout i.http.timer s.heap y refl
          (timeout_of-positive (stays r i.http.keep_alive)) in
    (
      record { worker = w; heap = heap },
      x',
      rw (timed_turn, e) (ap (λ z. some (record { worker = w; heap = z }, x')) heap_is),
      sent,
      j,
      push-IsHeap _ q ordered,
      subst (λ o. IsLinked fd o heap) (sym linked)
          (newest-IsLinked fd start now made timeout q span free),
      λ early. close_all-IsWaiting fd _ w (not_yet fd start now made timeout q span free early) j,
      λ late. close_all-Memᴰ fd _ w j (by_now fd start now made timeout q span ordered late),
    )
