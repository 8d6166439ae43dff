-- ===== src/Http/Connection/Handlers.antt =====
-- `handleConn` and `handleClose` of glacier/httpdata.cc, and `handleRead` on a bad request line.
use glacier.Common.{
  ℕ, ◌≡◌, refl, Bool, true, false, ◌&&◌, Option, none, some, [], ◌∷◌, ◌++◌, arith, Bool-cases, inl,
  inr, ◌⊎◌,
}
use glacier.Http.{
  HttpData, ConnectionState, connected, disconnecting, disconnected, Events, no_events,
}
use glacier.Http.Response.{World, update_poller, close_in_loop, reset_timer}
use glacier.Http.Connection.{
  call, seperate_timer, next_events, update, conn_stays, after_separation, handle_conn,
  is_no_events,
}

-- The timer of a connection detached.
abbrev detach : HttpData → HttpData
detach d = record d { timer = none }

abbrev pub detach_in : Option ℕ → World → World
detach_in none w = w
detach_in (some t) w = call (reset_timer t) w

seperate_timer-detach :
    (d : HttpData) (w : World) → seperate_timer d w ≡ (detach d, detach_in d.timer w)
unfolding seperate_timer
seperate_timer-detach d w = go d.timer
  where
    go : (t : Option ℕ) → seperate_timer (record d { timer = t }) w ≡ (detach d, detach_in t w)
    go none = refl
    go (some t) = refl

-- What is registered for a connection that stays: edge triggered, reading or writing and not both,
-- and writing whenever output was waiting.
pub record Registers (old : Events) (w w' : World) (e : Events) : Type 0 where
  pub timeout : ℕ
  pub last_call : w'.calls ≡ w.calls ++ (update_poller e timeout ∷ [])
  pub edge : e.epollet ≡ true
  pub one_way : (e.epollin && e.epollout) ≡ false
  pub output_kept : old.epollout ≡ true → e.epollout ≡ true

next_events-one_way :
    (e : Events)
    → (((next_events e).epollin && (next_events e).epollout) ≡ false)
      × (e.epollout ≡ true → (next_events e).epollout ≡ true)
      × ((next_events e).epollet ≡ true)
unfolding next_events
next_events-one_way e = elim (Bool-cases (e.epollin && e.epollout)) [
  | inl y ↦ (rw (next_events, y) refl, rw (next_events, y) (λ k. refl), refl)
  | inr n ↦ (rw (next_events, n) n, rw (next_events, n) (λ k. k), refl)
]

no_output : (e : Events) → is_no_events e ≡ true → e.epollout ≡ false
no_output e h = ground (arith, h)

conn_stays-Registers :
    (d : HttpData) (w : World) → Registers d.events w (conn_stays d w).1 (conn_stays d w).0.events
unfolding conn_stays update call
conn_stays-Registers d w = elim (Bool-cases (is_no_events d.events)) [
  | inl none_set ↦ elim (Bool-cases d.keep_alive) [
    | inl k ↦
        rw (conn_stays, none_set, k, update)
          (record {
            timeout = _;
            last_call = refl;
            edge = refl;
            one_way = no_output d.events none_set;
            output_kept = λ o. o;
          })
    | inr k ↦
        rw (conn_stays, none_set, k, update)
          (record {
            timeout = _;
            last_call = refl;
            edge = refl;
            one_way = no_output d.events none_set;
            output_kept = λ o. o;
          })
  ]
  | inr some_set ↦
      let (o, k, t) = next_events-one_way d.events in
      rw (conn_stays, some_set, update)
        (record { timeout = _; last_call = refl; edge = t; one_way = o; output_kept = k })
]

conn_stays-timer : (d : HttpData) (w : World) → d.timer ≡ none → (conn_stays d w).0.timer ≡ none
unfolding conn_stays update
conn_stays-timer d w e = elim (Bool-cases (is_no_events d.events)) [
  | inl none_set ↦ elim (Bool-cases d.keep_alive) [
    | inl k ↦ rw (conn_stays, none_set, k, update) e
    | inr k ↦ rw (conn_stays, none_set, k, update) e
  ]
  | inr some_set ↦ rw (conn_stays, some_set, update) e
]

-- What `handleConn` may have done.
pub data Continues (d : HttpData) (w : World) (d' : HttpData) (w' : World) : Type 0 where
  stays :
      d.error ≡ false
      → d.connstate ≡ connected
      → d'.timer ≡ none
      → Registers d.events (detach_in d.timer w) w' d'.events
      → Continues d w d' w'
  drains :
      d.error ≡ false
      → d.connstate ≡ disconnecting
      → d.events.epollout ≡ true
      → d'
        ≡ record d { timer = none; events = record no_events { epollout = true; epollet = true } }
      → w' ≡ detach_in d.timer w
      → Continues d w d' w'
  closes :
      (d.error ≡ true)
        ⊎ ((d.connstate ≡ disconnected)
            ⊎ ((d.connstate ≡ disconnecting) × (d.events.epollout ≡ false)))
      → d' ≡ record d { timer = none }
      → w' ≡ call close_in_loop (detach_in d.timer w)
      → Continues d w d' w'

after_separation-Continues :
    (d : HttpData) (w : World)
    → Continues d w
        (after_separation (record d { timer = none }) (detach_in d.timer w)).0
        (after_separation (record d { timer = none }) (detach_in d.timer w)).1
unfolding after_separation
after_separation-Continues d w = go d.error d.connstate
  where
    go :
        (err : Bool) (c : ConnectionState)
        → Continues
            (record d { error = err; connstate = c })
            w
            (after_separation
              (record d { timer = none; error = err; connstate = c })
              (detach_in d.timer w)).0
            (after_separation
              (record d { timer = none; error = err; connstate = c })
              (detach_in d.timer w)).1
    go true c = closes (inl refl) refl refl
    go false connected = stays refl refl (conn_stays-timer _ (detach_in d.timer w) refl) (
        conn_stays-Registers (record d { timer = none; error = false; connstate = connected })
          (detach_in d.timer w))
    go false disconnected = closes (inr (inl refl)) refl refl
    go false disconnecting = elim (Bool-cases d.events.epollout) [
      | inl o ↦ rw (after_separation, o) (drains refl refl refl refl refl)
      | inr o ↦ rw (after_separation, o) (closes (inr (inr (refl, refl))) refl refl)
    ]

-- `handleConn` detaches the timer and then does one of three things. A connection without an error
-- that is connected is registered once more with the events it then holds: edge triggered, not for
-- reading and writing at once, and for writing if it was before. One without an error that its peer is
-- closing while it is registered for writing asks nothing of the poller, and its events are left edge
-- triggered and for writing alone. Only one with an error, one
-- that is disconnected, or one that its peer is closing while it is not registered for writing, is
-- handed to `handleClose`.
pub handle_conn-Continues :
    (d : HttpData) (w : World) → Continues d w (handle_conn d w).0 (handle_conn d w).1
unfolding handle_conn
handle_conn-Continues d w =
    rw (handle_conn, seperate_timer-detach d w) (after_separation-Continues d w)
