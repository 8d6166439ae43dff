-- ===== src/Reactor.antt =====
-- The event loop, glacier/eventloop.h and eventloop.cc, with the wait of `Epoll::poll` of
-- glacier/epoll.cc. Functors are numbers. `Step` lets the steps of the loop's own thread and those of
-- the others come in any order; the mutex makes each look at the queue one step, and what another
-- thread does between its push and its `wakeup` is counted in `waking`.
pub mod Order
pub mod Wakeup
pub mod Round
pub mod Thread
pub mod Construct
pub mod Tests
use glacier.Common.{
  ℕ, zero, suc, ◌+◌, ◌-◌, ◌^◌, ◌≡◌, Bool, true, false, not, ◌||◌, Option, none, some, List, [], ◌∷◌,
  ◌++◌, ltb, if◌then◌else◌,
}

-- Where the loop's thread stands: outside of `loop`, at the test of `quit_`, in `poll`, among the
-- active channels, with the wakeup channel among those still to handle or not, in front of
-- `doPendingFunctors`, among the functors, or in front of `handleExpired`.
pub data Place : Type 0 where
  outside at_test polling before_functors calling expiring : Place
  handling : Bool → Place

-- `counter` is the event descriptor's count, and `edge` whether it was written since `epoll_wait` told
-- of it last. `functors` are those of `doPendingFunctors` still to call, `ran` those it has called.
pub record EventLoop : Type 0 where
  pub looping : Bool
  pub quit : Bool
  pub event_handling : Bool
  pub calling_pending_functors : Bool
  pub pending_functors : List ℕ
  pub counter : ℕ
  pub edge : Bool
  pub waking : ℕ
  pub place : Place
  pub functors : List ℕ
  pub ran : List ℕ

abbrev pub new_event_loop : EventLoop
new_event_loop = record {
  looping = false;
  quit = false;
  event_handling = false;
  calling_pending_functors = false;
  pending_functors = [];
  counter = 0;
  edge = false;
  waking = 0;
  place = outside;
  functors = [];
  ran = [];
}

-- `wakeup`: the descriptor does not block, and a write that would pass its largest value fails, which
-- is only logged.
unfoldable pub wakeup : EventLoop → EventLoop
wakeup s =
    if ltb s.counter (2 ^ 64 - 2) then record s { counter = s.counter + 1; edge = true } else s

-- `handleRead`: a read takes the whole count, and fails on an empty one, which is only logged.
abbrev pub handle_read : EventLoop → EventLoop
handle_read s = record s { counter = 0 }

abbrev pub push_functor : ℕ → EventLoop → EventLoop
push_functor cb s = record s { pending_functors = s.pending_functors ++ cb ∷ [] }

-- Whether `queueInLoop` calls `wakeup` behind its push.
abbrev pub wakes_after_push : Bool → EventLoop → Bool
wakes_after_push in_loop_thread s = not in_loop_thread || s.calling_pending_functors

-- `queueInLoop` in the loop's own thread.
unfoldable pub queue_in_loop : ℕ → EventLoop → EventLoop
queue_in_loop cb s =
    if wakes_after_push true s then wakeup (push_functor cb s) else push_functor cb s

-- The steps of `loop`. `loop` up to the test of `quit_`:
abbrev pub begin_loop : EventLoop → EventLoop
begin_loop s = record s { looping = true; quit = false; place = at_test }

-- The test.
unfoldable pub test_quit : EventLoop → EventLoop
test_quit s =
    if s.quit then record s { looping = false; place = outside } else record s { place = polling }

-- What `poll` returns with, behind `epoll_wait`.
abbrev pub return_from_poll : EventLoop → EventLoop
return_from_poll s = record s { edge = false; event_handling = true; place = handling s.edge }

-- The wakeup channel's turn.
abbrev pub handle_wakeup : EventLoop → EventLoop
handle_wakeup s = record (handle_read s) { place = handling false }

abbrev pub end_handling : EventLoop → EventLoop
end_handling s = record s { event_handling = false; place = before_functors }

-- `doPendingFunctors` up to its loop: the flag, and the swap.
abbrev pub swap_functors : EventLoop → EventLoop
swap_functors s = record s {
  calling_pending_functors = true;
  functors = s.pending_functors;
  pending_functors = [];
  place = calling;
}

-- One functor of the loop.
abbrev pub call_functor : ℕ → List ℕ → EventLoop → EventLoop
call_functor cb rest s = record s { functors = rest; ran = s.ran ++ cb ∷ [] }

-- The end of `doPendingFunctors`.
abbrev pub end_functors : EventLoop → EventLoop
end_functors s = record s { calling_pending_functors = false; place = expiring }

-- `handleExpired`, which touches nothing of the loop but its table of channels.
abbrev pub end_round : EventLoop → EventLoop
end_round s = record s { place = at_test }

-- The loop of `doPendingFunctors`, over the functors that are left.
unfoldable pub call_functors : List ℕ → EventLoop → EventLoop
call_functors [] s = s
call_functors (cb ∷ rest) s = call_functors rest (call_functor cb rest s)

unfoldable pub do_pending_functors : EventLoop → EventLoop
do_pending_functors s = end_functors (call_functors s.pending_functors (swap_functors s))

-- The active channels, of which only the wakeup channel touches the loop.
abbrev pub handle_channels : Bool → EventLoop → EventLoop
handle_channels true s = handle_wakeup s
handle_channels false s = s

-- The body of the loop behind the test, where nothing else runs and no callback queues.
unfoldable pub round : EventLoop → EventLoop
round s =
    end_round (do_pending_functors (end_handling (handle_channels s.edge (return_from_poll s))))

-- The places at which callbacks of the loop's own thread run, so that they may queue.
abbrev pub RunsCallbacks : Place → Type 0
RunsCallbacks (handling w) = Unit
RunsCallbacks calling = Unit
RunsCallbacks _ = ⊥

-- One step, with the functors that it queues. `poll` returns only with an active channel: the wakeup
-- channel where `edge` is set, and others in any case.
pub data Step : List ℕ → EventLoop → EventLoop → Type 0 where
  pushes :
      (cb : ℕ) (s : EventLoop)
      → Step (cb ∷ []) s (record (push_functor cb s) { waking = s.waking + 1 })
  quits : (s : EventLoop) → Step [] s (record s { quit = true; waking = s.waking + 1 })
  wakes : (s : EventLoop) (n : ℕ) → s.waking ≡ suc n → Step [] s (wakeup (record s { waking = n }))
  queues : (cb : ℕ) (s : EventLoop) → RunsCallbacks s.place → Step (cb ∷ []) s (queue_in_loop cb s)
  quits_itself : (s : EventLoop) → RunsCallbacks s.place → Step [] s (record s { quit = true })
  begins : (s : EventLoop) → s.place ≡ outside → s.looping ≡ false → Step [] s (begin_loop s)
  tests : (s : EventLoop) → s.place ≡ at_test → Step [] s (test_quit s)
  polls : (s : EventLoop) → s.place ≡ polling → Step [] s (return_from_poll s)
  reads : (s : EventLoop) → s.place ≡ handling true → Step [] s (handle_wakeup s)
  handled : (s : EventLoop) → s.place ≡ handling false → Step [] s (end_handling s)
  swaps : (s : EventLoop) → s.place ≡ before_functors → Step [] s (swap_functors s)
  calls :
      (cb : ℕ) (rest : List ℕ) (s : EventLoop)
      → s.place ≡ calling
      → s.functors ≡ cb ∷ rest
      → Step [] s (call_functor cb rest s)
  called : (s : EventLoop) → s.place ≡ calling → s.functors ≡ [] → Step [] s (end_functors s)
  expires : (s : EventLoop) → s.place ≡ expiring → Step [] s (end_round s)

-- What a loop reaches, with the functors queued so far.
pub data Reach : List ℕ → EventLoop → Type 0 where
  made : Reach [] new_event_loop
  goes : (cs ds : List ℕ) (s t : EventLoop) → Reach cs s → Step ds s t → Reach (cs ++ ds) t
