-- ===== src/Http/Connection/Serves.antt =====
-- One whole exchange through `handleRead` of glacier/httpdata.cc.
use glacier.Common.{
  ℕ, suc, ◌≤◌, ◌≡◌, refl, ap, ◌∙◌, true, Option, none, some, [], ◌∷◌, ◌++◌, length, All,
  if◌then◌else◌, Bytes,
}
use glacier.Sockets.{read_eagain}
use glacier.Sockets.Whole.{taking, writen_all}
use glacier.Sockets.Laws.{delivered, stops_with, Obeys}
use glacier.Http.{HttpData, Headers, HttpVersion, start}
use glacier.Http.ProcessState.{parse_uri, finish}
use glacier.Http.Uri.Lines.{IsTarget, named}
use glacier.Http.Headers.Laws.{IsField, assign_all}
use glacier.Http.Response.{World, FileSystem, wants_keep_alive, reset_timer, ok_header}
use glacier.Http.Connection.{
  from_uri, call, after_readn, read_loop, after_writen, handle_write, flush, conclude, after_loop,
  after_outcome, Reading, returned, handle_read, wait_to_write, reset, seperate_timer,
}
use glacier.Http.Connection.Stages.{
  readn_eagain, response, awaiting, answered, parsed, get_request, from_uri-get_request,
}

-- The call that a timer costs when it is let go.
abbrev pub detached : Option ℕ → World → World
detached none w = w
detached (some t) w = call (reset_timer t) w

-- The connection after an exchange, and what has become of the socket.
pub record Exchanged (d : HttpData) (w : World) (hs : Headers) (answer : Bytes) (d' : HttpData)
    (w' : World) : Type 0 where
  pub sent_is : w'.sent ≡ w.sent ++ answer
  pub waits_again : awaiting d' ≡ d'
  pub timer_gone : d'.timer ≡ none
  pub keeps_alive : d'.keep_alive ≡ (if wants_keep_alive hs then true else d.keep_alive)
  pub events_kept : d'.events ≡ d.events
  pub calls_are : w'.calls ≡ (detached d.timer w).calls

-- `readn` delivers the buffer `buf`, at least one byte long, and the loop goes on with it.
read_loop-delivers :
    (fs : FileSystem) (d : HttpData) (w : World) (c : ℕ) (buf : Bytes)
    → stops_with w.reads ≡ some read_eagain
    → delivered w.reads ≡ c ∷ buf
    → (w' : World) × (read_loop fs (awaiting d) w
        ≡ from_uri fs (record (awaiting d) { in_buffer = c ∷ buf }) w')
      × (w'.sent ≡ w.sent)
      × (w'.writes ≡ w.writes)
      × (w'.calls ≡ w.calls)
unfolding read_loop after_readn
read_loop-delivers fs d w c buf e b =
    let (x, r, i, (n, z)) = readn_eagain w [] e in
    (
      record w { reads = x.unread },
      rw (read_loop, r, after_readn, n, b, z, i)
          (ap
            (λ s.
              from_uri fs (record (awaiting d) { in_buffer = s }) (record w { reads = x.unread }))
            b),
      refl,
      refl,
      refl,
    )

-- `reset`, once and for all.
abbrev cleared : HttpData → HttpData
cleared d = record d {
  filename = [];
  path = [];
  readpos = 0;
  state = parse_uri;
  parse_state = start;
  headers = [];
  timer = none;
}

reset-cleared : (d : HttpData) (w : World) → reset d w ≡ (cleared d, detached d.timer w)
unfolding reset seperate_timer
reset-cleared d w = go d.timer
  where
    go : (t : Option ℕ) → reset (record d { timer = t }) w ≡ (cleared d, detached t w)
    go none = refl
    go (some t) = refl

calls-detached :
    (t : Option ℕ) (v w : World) → v.calls ≡ w.calls → (detached t v).calls ≡ (detached t w).calls
unfolding call
calls-detached none v w e = e
calls-detached (some t) v w e = ap (λ cs. cs ++ reset_timer t ∷ []) e

sent-detached : (t : Option ℕ) (w : World) → (detached t w).sent ≡ w.sent
unfolding call
sent-detached none w = refl
sent-detached (some t) w = refl

-- A finished answer whose output is all sent.
abbrev finished_with : HttpData → HttpData
finished_with d = record (awaiting d) {
  state = finish;
  parse_state = d.parse_state;
  headers = d.headers;
}

conclude-finished :
    (again : HttpData → World → Reading) (d : HttpData) (w : World)
    → conclude again (finished_with d) w ≡ returned (cleared (finished_with d)) (detached d.timer w)
unfolding conclude
conclude-finished again d w = rw (conclude, reset-cleared (finished_with d) w) refl

flush-all :
    (d : HttpData) (w : World) (c : ℕ) (cs : Bytes)
    → Obeys w.writes (c ∷ cs)
    → length (c ∷ cs) ≤ taking w.writes
    → (w' : World) × (flush (record (finished_with d) { out_buffer = c ∷ cs }) w
        ≡ some (finished_with d, w'))
      × (w'.sent ≡ w.sent ++ c ∷ cs)
      × (w'.calls ≡ w.calls)
unfolding flush handle_write after_writen wait_to_write
flush-all d w c cs o t =
    let (r, e, taken, left, result) = writen_all w.writes (c ∷ cs) o t in
    (
      record w { writes = r.unused; sent = w.sent ++ r.taken },
      rw (flush, handle_write, e, after_writen, result, left) refl,
      ap (◌++◌ w.sent) taken,
      refl,
    )

-- A connection that waits for a request, its buffers empty, receives a GET in one burst, however the
-- kernel cuts it: a target without a blank or a carriage return, and one header line or more of the
-- form that the parser takes. The file exists and can be read, and the socket takes the answer, in
-- whatever pieces. Then `handleRead` sends exactly the header and the file, leaves the connection
-- waiting for its next request with its buffers empty, frees the timer, keeps the registered events,
-- and sets `keepAlive_` if a Connection header asks for it.
pub handle_read-get_request :
    (fs : FileSystem) (fuel : ℕ) (d : HttpData) (w : World) (name : Bytes) (v : HttpVersion)
    (h : Bytes × Bytes) (hs : Headers) (body : Bytes)
    → IsTarget name
    → All IsField (h ∷ hs)
    → stops_with w.reads ≡ some read_eagain
    → delivered w.reads ≡ get_request name v (h ∷ hs) []
    → fs.stat (named name) ≡ some (length body)
    → fs.mapped (named name) (length body) ≡ some body
    → Obeys w.writes (response (assign_all (h ∷ hs) []) (named name) body)
    → length (response (assign_all (h ∷ hs) []) (named name) body) ≤ taking w.writes
    → (d' : HttpData) × (w' : World) × (handle_read fs (suc fuel) (awaiting d) w ≡ returned d' w')
      × Exchanged d w
          (assign_all (h ∷ hs) [])
          (response (assign_all (h ∷ hs) []) (named name) body)
          d'
          w'
unfolding handle_read after_outcome after_loop ok_header
handle_read-get_request fs fuel d w name v h hs body t k e b s m o len =
    let again : HttpData → World → Reading = handle_read fs fuel in
    let (w1, r, sent1, writes1, calls1) = read_loop-delivers fs d w _ _ e b in
    let answer : HttpData = answered (parsed d name v (h ∷ hs) []) body in
    let (w2, f, sent2, calls2) = flush-all answer w1 _ _ (rw writes1 o) (rw writes1 len) in
    (
      cleared (finished_with answer),
      detached d.timer w2,
      ap (after_outcome again) (r ∙ from_uri-get_request fs d w1 name v h hs [] body t k s m)
          ∙ rw f (conclude-finished again answer w2),
      record {
        sent_is =
            sent-detached d.timer w2
            ∙ sent2
            ∙ ap (λ z. z ++ response (assign_all (h ∷ hs) []) (named name) body) sent1;
        waits_again = refl;
        timer_gone = refl;
        keeps_alive = refl;
        events_kept = refl;
        calls_are = calls-detached d.timer w2 w (calls2 ∙ calls1);
      },
    )
