-- ===== src/Http/Turn/Answers.antt =====
-- What a connection of the server does in a turn in which a request comes.
use glacier.Common.{
  ℕ, suc, ◌≤◌, ◌≡◌, refl, sym, ap, ◌∙◌, Bool, true, false, Option, none, some, List, [], ◌∷◌, ◌++◌,
  append-nil, append_assoc, length, All, if◌then◌else◌, Bytes,
}
use mathlib.Core.Path.{subst}
use glacier.Sockets.{ReadEvent, WriteEvent, read_eagain}
use glacier.Sockets.Whole.{taking}
use glacier.Sockets.Laws.{delivered, stops_with, Obeys}
use glacier.Http.{HttpData, Headers, HttpVersion, Events, no_events, connected}
use glacier.Http.Uri.Lines.{IsTarget, named}
use glacier.Http.Headers.Laws.{IsField, assign_all}
use glacier.Http.Response.{
  World, FileSystem, wants_keep_alive, update_poller, default_keep_alive_time,
}
use glacier.Http.Connection.{
  call, seperate_timer, conn_stays, update, after_separation, handle_conn,
}
use glacier.Http.Connection.Stages.{response, awaiting, get_request}
use glacier.Http.Connection.Serves.{detached, handle_read-get_request}
use glacier.Poller.{handle_events}
use glacier.Http.Turn.{run_callback, run_callbacks, turn}

abbrev pub readable : Events
readable = record no_events { epollin = true }

abbrev pub reading : Events
reading = record no_events { epollin = true; epollet = true }

abbrev pub timeout_of : Bool → ℕ
timeout_of keep_alive = if keep_alive then default_keep_alive_time else 150000

-- `handleConn` on a connection that is up, holds no events and no timer.
handle_conn-idle :
    (d : HttpData) (w : World)
    → d.error ≡ false
    → d.connstate ≡ connected
    → d.events ≡ no_events
    → d.timer ≡ none
    → handle_conn d w
      ≡ (record d { events = reading }, call (update_poller reading (timeout_of d.keep_alive)) w)
unfolding handle_conn seperate_timer after_separation conn_stays update
handle_conn-idle d w e c v t =
    subst
      (λ x.
        handle_conn x w
        ≡ (record x { events = reading }, call (update_poller reading (timeout_of x.keep_alive)) w))
      (sym same) (go d.keep_alive)
  where
    quiet : HttpData
    quiet = record d { error = false; connstate = connected; events = no_events; timer = none }

    same : d ≡ quiet
    same = λ i. record d { error = e i; connstate = c i; events = v i; timer = t i }

    go :
        (k : Bool)
        → handle_conn (record quiet { keep_alive = k }) w ≡ (
          record quiet { keep_alive = k; events = reading },
          call (update_poller reading (timeout_of k)) w,
        )
    go true = refl
    go false = refl

-- A connection that waits for a request, its buffers empty, and whose channel is readable, serves a whole
-- turn, under the conditions of `handle_read-get_request` on what arrives, on the file and on the socket:
-- it sends exactly the header and the file, and its channel is registered once more, for reading and edge
-- triggered, under a timer that is longer if the connection is to be kept alive.
pub turn-get_request :
    (fs : FileSystem) (fuel fd : ℕ) (d : HttpData) (w : World) (name : Bytes) (v : HttpVersion)
    (h : Bytes × Bytes) (hs : Headers) (body : Bytes)
    → IsTarget name
    → All IsField (h ∷ hs)
    → stops_with w.reads ≡ some read_eagain
    → delivered w.reads ≡ get_request name v (h ∷ hs) []
    → fs.stat (named name) ≡ some (length body)
    → fs.mapped (named name) (length body) ≡ some body
    → Obeys w.writes (response (assign_all (h ∷ hs) []) (named name) body)
    → length (response (assign_all (h ∷ hs) []) (named name) body) ≤ taking w.writes
    → (d' : HttpData) × (w' : World) × (turn fs (suc fuel) fd readable (awaiting d) w
        ≡ some (d', w'))
      × (w'.sent ≡ w.sent ++ response (assign_all (h ∷ hs) []) (named name) body)
      × (w'.calls
          ≡ (detached d.timer w).calls ++ update_poller reading (timeout_of d'.keep_alive) ∷ [])
      × (d'.keep_alive ≡ (if wants_keep_alive (assign_all (h ∷ hs) []) then true else d.keep_alive))
      × (d'.events ≡ reading)
      × (awaiting d' ≡ d')
unfolding turn run_callbacks run_callback handle_events call
turn-get_request fs fuel fd d w name v h hs body t k e b s m o len =
    let quiet : HttpData = record d { events = no_events } in
    let (d1, w1, r, x) =
      handle_read-get_request fs fuel quiet w name v h hs body t k e b s m o len in
    let up = x.waits_again in
    let idle =
      handle_conn-idle d1 w1 (ap (λ y. y.error) (sym up)) (ap (λ y. y.connstate) (sym up))
        x.events_kept x.timer_gone in
    (
      record d1 { events = reading },
      call (update_poller reading (timeout_of d1.keep_alive)) w1,
      rw (turn, run_callbacks, run_callback, r, idle) refl,
      x.sent_is,
      ap (λ cs. cs ++ update_poller reading (timeout_of d1.keep_alive) ∷ []) x.calls_are,
      x.keeps_alive,
      refl,
      ap (λ (y : HttpData). record y { events = reading }) up,
    )

-- One request of a connection: what arrives and what the socket takes, and the file.
pub record Request : Type 0 where
  pub name : Bytes
  pub version : HttpVersion
  pub field : Bytes × Bytes
  pub fields : Headers
  pub body : Bytes
  pub reads : List ReadEvent
  pub writes : List WriteEvent

abbrev pub answer_of : Request → Bytes
answer_of r = response (assign_all (r.field ∷ r.fields) []) (named r.name) r.body

-- The conditions of `turn-get_request` on one request.
pub record IsServed (fs : FileSystem) (r : Request) : Type 0 where
  pub target : IsTarget r.name
  pub good_fields : All IsField (r.field ∷ r.fields)
  pub burst : stops_with r.reads ≡ some read_eagain
  pub arrives : delivered r.reads ≡ get_request r.name r.version (r.field ∷ r.fields) []
  pub exists : fs.stat (named r.name) ≡ some (length r.body)
  pub readable_file : fs.mapped (named r.name) (length r.body) ≡ some r.body
  pub obeys : Obeys r.writes (answer_of r)
  pub takes : length (answer_of r) ≤ taking r.writes

-- The turns of a connection, one for each request; the scripts of the kernel are those of the request.
unfoldable pub turns :
    FileSystem → ℕ → ℕ → List Request → HttpData → World → Option (HttpData × World)
turns fs fuel fd [] d w = some (d, w)
turns fs fuel fd (r ∷ rs) d w =
    elim (turn fs fuel fd readable d (record w { reads = r.reads; writes = r.writes })) [
      | none ↦ none
      | some (d', w') ↦ turns fs fuel fd rs d' w'
    ]

abbrev pub answers_of : List Request → Bytes
answers_of [] = []
answers_of (r ∷ rs) = answer_of r ++ answers_of rs

-- A connection serves any number of requests, one turn each: it sends their answers in order and nothing
-- else, and then waits for the next request as before.
pub turns-answers_of :
    (fs : FileSystem) (fuel fd : ℕ) (rs : List Request) (d : HttpData) (w : World)
    → All (IsServed fs) rs
    → (d' : HttpData) × (w' : World) × (turns fs (suc fuel) fd rs (awaiting d) w ≡ some (d', w'))
      × (w'.sent ≡ w.sent ++ answers_of rs)
      × (awaiting d' ≡ d')
unfolding turns
turns-answers_of fs fuel fd [] d w h = (awaiting d, w, refl, sym (append-nil w.sent), refl)
turns-answers_of fs fuel fd (r ∷ rs) d w h =
    let k = h.0 in
    let (d1, w1, e, sent, called, alive, events, up) =
      turn-get_request fs fuel fd d (record w { reads = r.reads; writes = r.writes }) r.name
        r.version r.field r.fields r.body k.target k.good_fields k.burst k.arrives k.exists
        k.readable_file k.obeys k.takes in
    let (d2, w2, more, sent2, up2) = turns-answers_of fs fuel fd rs d1 w1 h.1 in
    (
      d2,
      w2,
      rw (turns, e) (ap (λ x. turns fs (suc fuel) fd rs x w1) (sym up) ∙ more),
      sent2 ∙ ap (λ x. x ++ answers_of rs) sent ∙ append_assoc w.sent (answer_of r) (answers_of rs),
      up2,
    )
