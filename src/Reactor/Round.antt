-- ===== src/Reactor/Round.antt =====
-- A round of the loop of glacier/eventloop.cc by itself.
use glacier.Common.{ℕ, Bool, ◌≡◌, refl, sym, ap, ◌∙◌, true, false, List, [], ◌∷◌, ◌++◌, append-nil}
use mathlib.Core.Path.{subst}
use glacier.Reactor.{
  calling, expiring, polling, at_test, handling, before_functors, EventLoop, Step, Reach, goes,
  polls, reads, handled, swaps, calls, called, expires, call_functor, call_functors,
  do_pending_functors, return_from_poll, handle_channels, end_handling, swap_functors, end_round,
  round,
}
use glacier.Reactor.Order.{queued-Reach}

-- A step that queues nothing.
silently : (cs : List ℕ) (s t : EventLoop) → Reach cs s → Step [] s t → Reach cs t
silently cs s t r x = subst (λ y. Reach y t) (append-nil cs) (goes cs [] s t r x)

-- The loop over the functors calls them all, and leaves what was queued behind the swap.
call_functors_lem :
    (fs : List ℕ) (s : EventLoop)
    → s.place ≡ calling
    → s.functors ≡ fs
    → ((call_functors fs s).place ≡ calling)
      × ((call_functors fs s).functors ≡ [])
      × ((call_functors fs s).pending_functors ≡ s.pending_functors)
unfolding call_functors
call_functors_lem [] s p e = (p, e, refl)
call_functors_lem (cb ∷ fs) s p e = call_functors_lem fs (call_functor cb fs s) p refl

call_functors-Reach :
    (cs fs : List ℕ) (s : EventLoop)
    → s.place ≡ calling
    → s.functors ≡ fs
    → Reach cs s
    → Reach cs (call_functors fs s)
unfolding call_functors
call_functors-Reach cs [] s p e r = r
call_functors-Reach cs (cb ∷ fs) s p e r =
    call_functors-Reach cs fs (call_functor cb fs s) p refl (silently cs s _ r (calls cb fs s p e))

do_pending_functors_lem :
    (cs : List ℕ) (s : EventLoop)
    → s.place ≡ before_functors
    → Reach cs s
    → Reach cs (do_pending_functors s)
      × ((do_pending_functors s).place ≡ expiring)
      × ((do_pending_functors s).functors ≡ [])
      × ((do_pending_functors s).pending_functors ≡ [])
unfolding do_pending_functors
do_pending_functors_lem cs s p r =
    let u = swap_functors s in
    let v = call_functors s.pending_functors u in
    let (place, none_left, none_new) = call_functors_lem s.pending_functors u refl refl in
    let reached =
      call_functors-Reach cs s.pending_functors u refl refl (silently cs s u r (swaps s p)) in
    (silently cs v _ reached (called v place none_left), refl, none_left, none_new)

handle_channels_lem :
    (cs : List ℕ) (woken : Bool) (s : EventLoop)
    → s.place ≡ handling woken
    → Reach cs s
    → Reach cs (handle_channels woken s) × ((handle_channels woken s).place ≡ handling false)
handle_channels_lem cs true s p r = (silently cs s _ r (reads s p), refl)
handle_channels_lem cs false s p r = (r, p)

-- A round that `poll` starts, in which no callback queues and no other thread steps, is a run of the
-- loop that ends at the test of `quit_` with every functor called that was ever queued, in order.
pub round-Reach :
    (cs : List ℕ) (s : EventLoop)
    → Reach cs s
    → s.place ≡ polling
    → Reach cs (round s)
      × ((round s).place ≡ at_test)
      × ((round s).ran ≡ cs)
      × ((round s).pending_functors ≡ [])
unfolding round
round-Reach cs s r p =
    let polled = silently cs s (return_from_poll s) r (polls s p) in
    let (handling_done, place) = handle_channels_lem cs s.edge (return_from_poll s) refl polled in
    let u = handle_channels s.edge (return_from_poll s) in
    let quiet = silently cs u (end_handling u) handling_done (handled u place) in
    let v = do_pending_functors (end_handling u) in
    let (called_all, at, none_left, none_new) =
      do_pending_functors_lem cs (end_handling u) refl quiet in
    let reached = silently cs v (end_round v) called_all (expires v at) in
    (
      reached,
      refl,
      sym (append-nil v.ran)
          ∙ ap (λ x. v.ran ++ x) (sym (ap (λ y. y ++ v.pending_functors) none_left ∙ none_new))
          ∙ queued-Reach cs (end_round v) reached,
      none_new,
    )
