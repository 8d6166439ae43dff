-- ===== src/Reactor/Order.antt =====
-- The functors of glacier/eventloop.cc run in the order in which they were queued, each once.
use glacier.Common.{
  ℕ, Bool, if◌then◌else◌, ◌-◌, ◌^◌, ◌≡◌, refl, sym, ap, ◌∙◌, true, false, List, [], ◌∷◌, ◌++◌,
  append-nil, append_assoc, inl, inr, Bool-cases, ltb,
}
use mathlib.Core.Path.{subst}
use glacier.Reactor.{
  Place, outside, at_test, polling, before_functors, calling, expiring, handling, EventLoop, Step,
  Reach, pushes, quits, wakes, queues, quits_itself, begins, tests, polls, reads, handled, swaps,
  calls, called, expires, made, goes, wakeup, push_functor, queue_in_loop, test_quit,
}

-- The functors queued, by where they stand.
abbrev pub queued : EventLoop → List ℕ
queued s = s.ran ++ (s.functors ++ s.pending_functors)

-- Functors are left to call only among the functors.
abbrev InCalls : Place → List ℕ → Type 0
InCalls calling fs = Unit
InCalls _ fs = fs ≡ []

pub record Ordered (cs : List ℕ) (s : EventLoop) : Type 0 where
  pub all : queued s ≡ cs
  pub left : InCalls s.place s.functors

wakeup-Ordered : (cs : List ℕ) (s : EventLoop) → Ordered cs s → Ordered cs (wakeup s)
unfolding wakeup
wakeup-Ordered cs s o = elim (Bool-cases (ltb s.counter (2 ^ 64 - 2))) [
  | inl e ↦ rw (wakeup, e) (record { all = o.all; left = o.left })
  | inr e ↦ rw (wakeup, e) o
]

-- `queueInLoop` in the loop's own thread either wakes the loop up or does not.
pub queue_in_loop-cases {ℓ} :
    (P : EventLoop → Type ℓ) (cb : ℕ) (s : EventLoop)
    → (s.calling_pending_functors ≡ true → P (wakeup (push_functor cb s)))
    → (s.calling_pending_functors ≡ false → P (push_functor cb s))
    → P (queue_in_loop cb s)
unfolding queue_in_loop
queue_in_loop-cases P cb s h k = go s.calling_pending_functors refl
  where
    go :
        (b : Bool)
        → s.calling_pending_functors ≡ b
        → P (if b then wakeup (push_functor cb s) else push_functor cb s)
    go true e = h e
    go false e = k e

pushed :
    (rs fs ps cs : List ℕ) (cb : ℕ)
    → rs ++ (fs ++ ps) ≡ cs
    → rs ++ (fs ++ (ps ++ cb ∷ [])) ≡ cs ++ cb ∷ []
pushed rs fs ps cs cb e = rw (← e) (simp (append_assoc))

InCalls-at :
    (cs : List ℕ) (s : EventLoop) (p : Place) → s.place ≡ p → Ordered cs s → InCalls p s.functors
InCalls-at cs s p e o = subst (λ q. InCalls q s.functors) e o.left

Step-Ordered :
    (cs ds : List ℕ) (s t : EventLoop) → Ordered cs s → Step ds s t → Ordered (cs ++ ds) t
unfolding test_quit
Step-Ordered cs _ _ _ o (pushes cb s) = record {
  all = pushed s.ran s.functors s.pending_functors cs cb o.all;
  left = o.left;
}
Step-Ordered cs _ _ _ o (quits s) = rw append-nil (record { all = o.all; left = o.left })
Step-Ordered cs _ _ _ o (wakes s n e) =
    rw append-nil
      (wakeup-Ordered cs (record s { waking = n }) (record { all = o.all; left = o.left }))
Step-Ordered cs _ _ _ o (queues cb s p) =
    let more : Ordered (cs ++ cb ∷ []) (push_functor cb s) = record {
      all = pushed s.ran s.functors s.pending_functors cs cb o.all;
      left = o.left;
    } in
    queue_in_loop-cases (Ordered (cs ++ cb ∷ [])) cb s
      (λ e. wakeup-Ordered (cs ++ cb ∷ []) (push_functor cb s) more) (λ e. more)
Step-Ordered cs _ _ _ o (quits_itself s p) = rw append-nil (record { all = o.all; left = o.left })
Step-Ordered cs _ _ _ o (begins s p l) =
    rw append-nil (record { all = o.all; left = InCalls-at cs s outside p o })
Step-Ordered cs _ _ _ o (tests s p) = elim (Bool-cases s.quit) [
  | inl e ↦
      rw (append-nil, test_quit, e) (record { all = o.all; left = InCalls-at cs s at_test p o })
  | inr e ↦
      rw (append-nil, test_quit, e) (record { all = o.all; left = InCalls-at cs s at_test p o })
]
Step-Ordered cs _ _ _ o (polls s p) =
    rw append-nil (record { all = o.all; left = InCalls-at cs s polling p o })
Step-Ordered cs _ _ _ o (reads s p) =
    rw append-nil (record { all = o.all; left = InCalls-at cs s (handling true) p o })
Step-Ordered cs _ _ _ o (handled s p) =
    rw append-nil (record { all = o.all; left = InCalls-at cs s (handling false) p o })
Step-Ordered cs _ _ _ o (swaps s p) = rw append-nil (record {
  all =
      ap (λ x. s.ran ++ x)
        (append-nil s.pending_functors
          ∙ sym (ap (λ x. x ++ s.pending_functors) (InCalls-at cs s before_functors p o)))
      ∙ o.all;
  left = tt;
})
Step-Ordered cs _ _ _ o (calls cb rest s p e) = rw append-nil (record {
  all =
      append_assoc s.ran (cb ∷ []) (rest ++ s.pending_functors)
      ∙ ap (λ x. s.ran ++ (x ++ s.pending_functors)) (sym e)
      ∙ o.all;
  left = subst (λ q. InCalls q rest) (sym p) tt;
})
Step-Ordered cs _ _ _ o (called s p e) = rw append-nil (record { all = o.all; left = e })
Step-Ordered cs _ _ _ o (expires s p) =
    rw append-nil (record { all = o.all; left = InCalls-at cs s expiring p o })

Reach-Ordered : (cs : List ℕ) (s : EventLoop) → Reach cs s → Ordered cs s
Reach-Ordered _ _ made = record { all = refl; left = refl }
Reach-Ordered _ _ (goes cs ds s t r x) = Step-Ordered cs ds s t (Reach-Ordered cs s r) x

-- However the threads interleave, the functors that the loop has called, followed by those of the
-- round and those that still wait, are the functors queued so far, in order: none is lost, called twice
-- or overtaken.
pub queued-Reach : (cs : List ℕ) (s : EventLoop) → Reach cs s → queued s ≡ cs
queued-Reach cs s r = (Reach-Ordered cs s r).all
