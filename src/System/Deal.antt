-- ===== src/System/Deal.antt =====
-- What the loops hold when connections are dealt out to them.
use glacier.Common.{
  ℕ, ◌≡◌, refl, sym, ap, ◌∙◌, Bool, true, false, List, [], ◌∷◌, ◌++◌, append-nil, append_assoc,
  ◌==◌, if◌then◌else◌, Bool-cases, inl, inr, arith,
}
use mathlib.Core.Path.{subst}
use mathlib.Core.List.{Memᴰ}
use mathlib.Core.List.Memᴰ.{head, tail}
use glacier.Reactor.{EventLoop, wakeup, push_functor, Reach, goes, pushes, wakes}
use glacier.System.{Worker, queue_from_outside, at_loop, deal}

-- The connections among these that are dealt to `loop`.
abbrev pub dealt_to : ℕ → List (ℕ × ℕ) → List ℕ
dealt_to loop [] = []
dealt_to loop ((l, fd) ∷ qs) = let rest = dealt_to loop qs in if loop == l then fd ∷ rest else rest

pub dealt_to-Memᴰ :
    (loop fd : ℕ) (qs : List (ℕ × ℕ)) → Memᴰ (loop, fd) qs → Memᴰ fd (dealt_to loop qs)
dealt_to-Memᴰ loop fd [] m = elim m [ ]
dealt_to-Memᴰ loop fd ((l, f) ∷ qs) (head e) =
    let same : (loop == l) ≡ true = ground (arith, ap (λ (p : ℕ × ℕ). p.0) e) in
    rw same (head (ap (λ (p : ℕ × ℕ). p.1) e))
dealt_to-Memᴰ loop fd ((l, f) ∷ qs) (tail m) = elim (Bool-cases (loop == l)) [
  | inl e ↦ rw e (tail (dealt_to-Memᴰ loop fd qs m))
  | inr e ↦ rw e (dealt_to-Memᴰ loop fd qs m)
]

-- `queueInLoop` by another thread is two steps of the loop's.
queue-Reach :
    (cb : ℕ) (cs : List ℕ) (s : EventLoop)
    → Reach cs s
    → Reach (cs ++ cb ∷ []) (wakeup (push_functor cb s))
queue-Reach cb cs s r =
    subst (λ es. Reach es (wakeup (push_functor cb s))) (append-nil (cs ++ cb ∷ []))
      (goes (cs ++ cb ∷ []) [] _ _ (goes cs (cb ∷ []) s _ r (pushes cb s))
        (wakes _ s.waking (omega arith)))

queue-pending :
    (cb : ℕ) (s : EventLoop)
    → ((wakeup (push_functor cb s)).pending_functors ≡ s.pending_functors ++ cb ∷ [])
      × ((wakeup (push_functor cb s)).place ≡ s.place)
unfolding wakeup
queue-pending cb s = ground arith

-- A loop is left as it was but for what was dealt to it, in order.
pub record Queued (fds : List ℕ) (v w : Worker) : Type 0 where
  pub reach : (cs : List ℕ) → Reach cs v.loop → Reach (cs ++ fds) w.loop
  pub place_kept : w.loop.place ≡ v.loop.place
  pub pending_is : w.loop.pending_functors ≡ v.loop.pending_functors ++ fds
  pub poller_kept : w.poller ≡ v.poller
  pub connections_kept : w.connections ≡ v.connections

nothing_dealt : (w : Worker) → Queued [] w w
nothing_dealt w = record {
  reach = λ cs r. rw append-nil r;
  place_kept = refl;
  pending_is = sym (append-nil w.loop.pending_functors);
  poller_kept = refl;
  connections_kept = refl;
}

one_dealt :
    (fd : ℕ) (fds : List ℕ) (v w : Worker)
    → Queued fds (queue_from_outside fd v) w
    → Queued (fd ∷ fds) v w
one_dealt fd fds v w q = record {
  reach = λ cs r.
      subst (λ es. Reach es w.loop) (append_assoc cs (fd ∷ []) fds)
        (q.reach (cs ++ fd ∷ []) (queue-Reach fd cs v.loop r));
  place_kept = q.place_kept ∙ (queue-pending fd v.loop).1;
  pending_is =
      q.pending_is
      ∙ ap (λ x. x ++ fds) (queue-pending fd v.loop).0
      ∙ append_assoc v.loop.pending_functors (fd ∷ []) fds;
  poller_kept = q.poller_kept;
  connections_kept = q.connections_kept;
}

pub deal-Queued :
    (loop : ℕ) (qs : List (ℕ × ℕ)) (ws : ℕ → Worker)
    → Queued (dealt_to loop qs) (ws loop) (deal qs ws loop)
unfolding deal
deal-Queued loop [] ws = nothing_dealt (ws loop)
deal-Queued loop ((l, fd) ∷ qs) ws =
    go (loop == l) _ (deal-Queued loop qs (at_loop l (queue_from_outside fd) ws))
  where
    rest : List ℕ
    rest = dealt_to loop qs

    go :
        (b : Bool) (w : Worker)
        → Queued rest (if b then queue_from_outside fd (ws loop) else ws loop) w
        → Queued (if b then fd ∷ rest else rest) (ws loop) w
    go true w q = one_dealt fd rest (ws loop) w q
    go false w q = q
