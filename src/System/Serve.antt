-- ===== src/System/Serve.antt =====
-- Turns of a registered connection: the poller tells of it, its handlers run, and their calls register it
-- once more.
use glacier.Common.{
  ℕ, suc, ◌<◌, arith, ◌≡◌, refl, sym, ap, ◌∙◌, Bool, true, false, Option, none, some, List, [], ◌∷◌,
  ◌++◌, append_assoc, length, append-nil, ltb, All, if◌then◌else◌,
}
use glacier.Http.{HttpData, no_events}
use glacier.Http.Headers.Laws.{assign_all}
use glacier.Http.Response.{wants_keep_alive, Call, World, FileSystem, update_poller}
use glacier.Http.Connection.{call}
use glacier.Http.Connection.Stages.{awaiting}
use glacier.Http.Connection.Serves.{detached}
use glacier.Http.Turn.{turn}
use glacier.Http.Turn.Answers.{
  readable, reading, timeout_of, turn-get_request, Request, answer_of, answers_of, IsServed,
}
use glacier.Poller.{Channel, Epoll, put_at, get_active_channels, handle_events}
use glacier.Poller.Laws.{put_at-same}
use glacier.System.{Worker, Bound, linked, with_events, perform, performs, channel_turn, serve_turn}
use glacier.Poller.Registered.{epoll_mod-IsRegistered}
use glacier.System.Registered.{IsWaiting}

linked-awaiting :
    (timeout : ℕ) (e : Epoll) (d : HttpData)
    → awaiting d ≡ d
    → awaiting (linked timeout e d) ≡ linked timeout e d
linked-awaiting timeout e d h = go (ltb 0 timeout)
  where
    timed : HttpData
    timed = record d { timer = some (length e.timers) }

    go : (b : Bool) → awaiting (if b then timed else d) ≡ (if b then timed else d)
    go true = ap (λ (y : HttpData). record y { timer = some (length e.timers) }) h
    go false = h

-- The reset of the timer does not touch what the poller holds.
performs-detached :
    (t : Option ℕ) (x : World) (c : Call) (b : Bound)
    → x.calls ≡ []
    → performs true ((detached t x).calls ++ c ∷ []) b ≡ perform true c b
unfolding performs perform call
performs-detached none x c b e = rw e refl
performs-detached (some t) x c b e = rw e refl

-- The world of a connection with the scripts of one request.
abbrev pub with_scripts : Request → World → World
with_scripts r x = record x { reads = r.reads; writes = r.writes }

-- The turn of an active channel is that of Http/Turn, and then what its calls do.
channel_turn-turn :
    (fs : FileSystem) (fuel fd : ℕ) (c : Channel) (d d' : HttpData) (x x' : World) (e : Epoll)
    → turn fs fuel fd c.revents d (record x { calls = [] }) ≡ some (d', x')
    → channel_turn true fs fuel c d x e
      ≡ some (performs true x'.calls (record { channel = c; http = d'; epoll = e }), x')
unfolding channel_turn turn handle_events
channel_turn-turn fs fuel fd c d d' x x' e h = rw (channel_turn, h) refl

-- A turn of a connection that is registered and whose handlers end in a registration.
module _ (fd : ℕ) (d' : HttpData) (w : Worker) (i : IsWaiting fd w) where
  active : Channel
  active = record i.registered.channel { revents = readable; events = no_events }

  bound : Bound
  bound = record { channel = active; http = d'; epoll = w.poller }

  behind : Bound → Worker
  behind b = record w { poller = b.epoll; connections = put_at fd (some b.http) w.connections }

  serve_turn-turn :
      (fs : FileSystem) (fuel : ℕ) (x x' : World)
      → turn fs fuel fd readable i.http (record x { calls = [] }) ≡ some (d', x')
      → serve_turn true fs fuel fd readable x w ≡ some (behind (performs true x'.calls bound), x')
  unfolding serve_turn get_active_channels active bound behind
  serve_turn-turn fs fuel x x' h =
      rw
        (
          serve_turn,
          get_active_channels,
          i.registered.in_table,
          i.in_connections,
          channel_turn-turn fs fuel fd active i.http d' x x' w.poller h,
        )
        refl

  perform-IsWaiting :
      (timeout : ℕ)
      → awaiting d' ≡ d'
      → 0 < timeout
      → (j : IsWaiting fd (behind (perform true (update_poller reading timeout) bound)))
        × (j.http.timer ≡ some (length w.poller.timers))
  unfolding active bound behind perform
  perform-IsWaiting timeout up h = (
    record {
      http = linked timeout w.poller d';
      registered =
          epoll_mod-IsRegistered fd (with_events reading active) i.registered.channel timeout
            w.poller i.registered.fd_is i.registered.in_table i.registered.synced;
      in_connections = put_at-same fd _ w.connections;
      waits = linked-awaiting timeout w.poller d' up;
    },
    ground (arith, h),
  )

-- Whether a connection is kept alive behind a request.
abbrev pub stays : Request → Bool → Bool
stays r keep_alive =
    if wants_keep_alive (assign_all (r.field ∷ r.fields) []) then true else keep_alive

pub timeout_of-positive : (b : Bool) → 0 < timeout_of b
timeout_of-positive true = omega arith
timeout_of-positive false = omega arith

-- A connection that waits for a request, and whose peer sends one, answers it in its turn, and then
-- waits, registered, for the next.
pub serve_turn-IsWaiting :
    (fs : FileSystem) (fuel fd : ℕ) (r : Request) (x : World) (w : Worker)
    → IsServed fs r
    → (i : IsWaiting fd w)
    → (w' : Worker) × (x' : World) × (serve_turn true fs (suc fuel) fd readable (with_scripts r x) w
        ≡ some (w', x'))
      × (x'.sent ≡ x.sent ++ answer_of r)
      × (j : IsWaiting fd w') × (j.http.timer ≡ some (length w.poller.timers))
      × (x'.calls
          ≡ (detached i.http.timer (record (with_scripts r x) { calls = [] })).calls
            ++ update_poller reading (timeout_of (stays r i.http.keep_alive)) ∷ [])
serve_turn-IsWaiting fs fuel fd r x w k i =
    let d = i.http in
    let y : World = with_scripts r x in
    let z : World = record y { calls = [] } in
    let (d1, x1, e, sent, calls, alive, events, up) =
      turn-get_request fs fuel fd d z r.name r.version r.field r.fields r.body k.target
        k.good_fields k.burst k.arrives k.exists k.readable_file k.obeys k.takes in
    let told = timeout_of d1.keep_alive in
    let (again, linked_is) =
      perform-IsWaiting fd d1 w i told up (timeout_of-positive d1.keep_alive) in
    let ready = perform true (update_poller reading told) (bound fd d1 w i) in
    (
      behind fd d1 w i ready,
      x1,
      serve_turn-turn fd d1 w i fs (suc fuel) y x1
            (ap (λ v. turn fs (suc fuel) fd readable v z) (sym i.waits) ∙ e)
          ∙ ap (λ b. some (behind fd d1 w i b, x1))
              (ap (λ cs. performs true cs (bound fd d1 w i)) calls
                ∙ performs-detached d.timer z (update_poller reading told) (bound fd d1 w i) refl),
      sent,
      again,
      linked_is,
      calls
          ∙ ap (λ k. (detached d.timer z).calls ++ update_poller reading (timeout_of k) ∷ []) alive,
    )

-- The turns of a connection, one for each request of its peer.
unfoldable pub serve_turns :
    Bool → FileSystem → ℕ → ℕ → List Request → World → Worker → Option (Worker × World)
serve_turns ok fs fuel fd [] x w = some (w, x)
serve_turns ok fs fuel fd (r ∷ rs) x w =
    elim (serve_turn ok fs fuel fd readable (with_scripts r x) w) [
      | none ↦ none
      | some (w', x') ↦ serve_turns ok fs fuel fd rs x' w'
    ]

pub serve_turns-IsWaiting :
    (fs : FileSystem) (fuel fd : ℕ) (rs : List Request) (x : World) (w : Worker)
    → All (IsServed fs) rs
    → IsWaiting fd w
    → (w' : Worker) × (x' : World) × (serve_turns true fs (suc fuel) fd rs x w ≡ some (w', x'))
      × (x'.sent ≡ x.sent ++ answers_of rs)
      × IsWaiting fd w'
unfolding serve_turns
serve_turns-IsWaiting fs fuel fd [] x w h i = (w, x, refl, sym (append-nil x.sent), i)
serve_turns-IsWaiting fs fuel fd (r ∷ rs) x w h i =
    let (w1, x1, e, sent, i1, linked_is, calls) = serve_turn-IsWaiting fs fuel fd r x w h.0 i in
    let (w2, x2, more, sent2, i2) = serve_turns-IsWaiting fs fuel fd rs x1 w1 h.1 i1 in
    (
      w2,
      x2,
      rw (serve_turns, e) more,
      sent2 ∙ ap (λ s. s ++ answers_of rs) sent ∙ append_assoc x.sent (answer_of r) (answers_of rs),
      i2,
    )
