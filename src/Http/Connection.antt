-- ===== src/Http/Connection.antt =====
-- The handlers of glacier/httpdata.cc on a connection and its `World`.
pub mod Answers
pub mod Within
pub mod Fuel
pub mod Handlers
pub mod Stages
pub mod Serves
use glacier.Common.{
  ℕ, zero, suc, Bool, true, false, not, ◌&&◌, ◌||◌, Option, none, some, List, [], ◌∷◌, ◌++◌,
  if◌then◌else◌, Bytes,
}
use glacier.Common.Text.{codes}
use glacier.Common.Int.{ℤ, pos, negsuc}
use glacier.Sockets.{ReadResult, readn, WriteResult, writen}
use glacier.Http.{
  HttpData, ConnectionState, connected, disconnecting, disconnected, HttpMethod, post, get, head,
  ProcessState, ParseState, start, Events, no_events, UriState, parse_uri_again, parse_uri_error,
  parse_uri_success, HeaderState, parse_header_success, parse_header_again, parse_header_error,
  AnalysisState, analysis_success, analysis_error,
}
use glacier.Http.ProcessState.{parse_uri, parse_headers, recv_body, analysis, finish}
use glacier.Http.Uri
use glacier.Http.Headers
use glacier.Http.Response.{
  Call, update_poller, add_to_poller, close_in_loop, remove_from_poller, reset_timer, World,
  FileSystem, Analysed, handle_error, analysis_request, default_keep_alive_time,
}

abbrev pub default_expired_time : ℕ
default_expired_time = 2000

abbrev pub default_event : Events
default_event = record no_events { epollin = true; epollet = true; epolloneshot = true }

-- How the body of the `do` loop goes on: it breaks, or goes on, or the script of the kernel ends.
pub data Outcome : Type 0 where
  breaks : HttpData → World → Outcome
  proceeds : HttpData → World → Outcome
  unknown : Outcome

unfoldable pub and_then : Outcome → (HttpData → World → Outcome) → Outcome
and_then (proceeds d w) f = f d w
and_then (breaks d w) f = breaks d w
and_then unknown f = unknown

unfoldable pub call : Call → World → World
call c w = record w { calls = w.calls ++ (c ∷ []) }

unfoldable pub seperate_timer : HttpData → World → HttpData × World
seperate_timer d w = elim d.timer [
  | none ↦ (d, w)
  | some t ↦ (record d { timer = none }, call (reset_timer t) w)
]

unfoldable pub reset : HttpData → World → HttpData × World
reset d w =
    seperate_timer
      (record d {
        filename = [];
        path = [];
        readpos = 0;
        state = parse_uri;
        parse_state = start;
        headers = [];
      })
      w

abbrev pub is_connected : ConnectionState → Bool
is_connected connected = true
is_connected _ = false

abbrev pub is_disconnecting : ConnectionState → Bool
is_disconnecting disconnecting = true
is_disconnecting _ = false

abbrev pub is_disconnected : ConnectionState → Bool
is_disconnected disconnected = true
is_disconnected _ = false

abbrev pub is_empty : Bytes → Bool
is_empty [] = true
is_empty (c ∷ cs) = false

-- `error_ = true; handleError(fd_, 400, "Bad Request"); break;`
unfoldable pub bad_request : HttpData → World → Outcome
bad_request d w = elim (handle_error 400 (codes "Bad Request") w) [
  | none ↦ unknown
  | some w' ↦ breaks (record d { error = true }) w'
]

unfoldable pub after_uri : World → HttpData × UriState → Outcome
after_uri w (d, parse_uri_again) = breaks d w
after_uri w (d, parse_uri_error) = bad_request (record d { in_buffer = [] }) w
after_uri w (d, parse_uri_success) = proceeds (record d { state = parse_headers }) w

unfoldable pub uri_stage : HttpData → World → Outcome
uri_stage d w = after_uri w (Uri.parse_uri d)

abbrev pub state_after : HttpMethod → ProcessState
state_after post = recv_body
state_after _ = analysis

unfoldable pub after_headers : World → HttpData × HeaderState → Outcome
after_headers w (d, parse_header_again) = breaks d w
after_headers w (d, parse_header_error) = bad_request d w
after_headers w (d, parse_header_success) = proceeds (record d { state = state_after d.method }) w

unfoldable pub headers_stage : HttpData → World → Outcome
headers_stage d w = after_headers w (Headers.parse_headers d)

unfoldable pub analysis_stage : FileSystem → HttpData → World → Outcome
analysis_stage fs d w = elim (analysis_request fs d w) [
  | none ↦ unknown
  | some a ↦ elim a.flag [
    | analysis_success ↦ breaks (record a.data_after { state = finish }) a.world_after
    | analysis_error ↦ breaks (record a.data_after { error = true }) a.world_after
  ]
]

-- The stages from a state on: each `if` is tested again behind the one before it.
unfoldable pub from_analysis : FileSystem → HttpData → World → Outcome
from_analysis fs d w = elim d.state [ analysis ↦ analysis_stage fs d w | _ ↦ proceeds d w ]

unfoldable pub from_headers : FileSystem → HttpData → World → Outcome
from_headers fs d w = elim d.state [
  | parse_headers ↦ and_then (headers_stage d w) (from_analysis fs)
  | _ ↦ from_analysis fs d w
]

unfoldable pub from_uri : FileSystem → HttpData → World → Outcome
from_uri fs d w = elim d.state [
  | parse_uri ↦ and_then (uri_stage d w) (from_headers fs)
  | _ ↦ from_headers fs d w
]

-- What follows the call of `readn`.
unfoldable pub after_readn : FileSystem → ReadResult → HttpData → World → Outcome
after_readn fs r d w =
    let d' = record d { connstate = if r.zero then disconnecting else d.connstate } in
    if is_disconnecting d.connstate then breaks (record d { in_buffer = [] }) w else elim r.cnt [
      | negsuc n ↦ bad_request d w
      | pos zero ↦ if r.zero then breaks d' w else from_uri fs d' w
      | pos (suc n) ↦ from_uri fs d' w
    ]

unfoldable pub read_loop : FileSystem → HttpData → World → Outcome
read_loop fs d w = elim (readn w.reads d.in_buffer) [
  | none ↦ unknown
  | some r ↦ after_readn fs r (record d { in_buffer = r.in_buffer }) (record w { reads = r.unread })
]

-- What is left of the output is waited for.
unfoldable pub wait_to_write : HttpData → HttpData
wait_to_write d =
    if is_empty d.out_buffer then d else record d { events = record d.events { epollout = true } }

unfoldable pub after_writen : WriteResult → HttpData → World → HttpData × World
after_writen r d w = elim r.result [
  | pos n ↦ (wait_to_write (record d { out_buffer = r.buf }), w)
  | negsuc n ↦
      (wait_to_write (record d { out_buffer = r.buf; events = no_events; error = true }), w)
]

unfoldable pub handle_write : HttpData → World → Option (HttpData × World)
handle_write d w =
    if not d.error && not (is_disconnected d.connstate)
    then elim (writen w.writes d.out_buffer) [
      | none ↦ none
      | some r ↦ some (after_writen r d (record w { writes = r.unused; sent = w.sent ++ r.taken }))
    ]
    else some (d, w)

unfoldable pub flush : HttpData → World → Option (HttpData × World)
flush d w = if is_empty d.out_buffer then some (d, w) else handle_write d w

abbrev pub is_finish : ProcessState → Bool
is_finish finish = true
is_finish _ = false

-- How `handleRead` ends: it returns, or the script of the kernel ends while it goes on, or it would call
-- itself more often than there is fuel.
pub data Reading : Type 0 where
  returned : HttpData → World → Reading
  waiting spent : Reading

-- The connection and its world, if it returns.
abbrev pub finished : Reading → Option (HttpData × World)
finished (returned d w) = some (d, w)
finished waiting = none
finished spent = none

-- What `handleRead` does last, with `again` for its call of itself.
unfoldable pub conclude : (HttpData → World → Reading) → HttpData → World → Reading
conclude again d w =
    let (d', w') = reset d w in
    if not d.error && is_finish d.state
    then (if not (is_empty d'.in_buffer) && not (is_disconnecting d'.connstate)
        then again d' w'
        else returned d' w')
    else if not d.error && is_disconnected d.connstate
    then returned (record d { events = record d.events { epollin = true } }) w
    else returned d w

-- What follows the `do` loop.
unfoldable pub after_loop : (HttpData → World → Reading) → HttpData → World → Reading
after_loop again d w =
    if d.error
    then returned d w
    else elim (flush d w) [ none ↦ waiting | some (d', w') ↦ conclude again d' w' ]

unfoldable pub after_outcome : (HttpData → World → Reading) → Outcome → Reading
after_outcome again unknown = waiting
after_outcome again (breaks d w) = after_loop again d w
after_outcome again (proceeds d w) = after_loop again d w

-- `handleRead`, which may call itself, with fuel for its calls.
unfoldable pub handle_read : FileSystem → ℕ → HttpData → World → Reading
handle_read fs zero d w = spent
handle_read fs (suc fuel) d w = after_outcome (handle_read fs fuel) (read_loop fs d w)

abbrev pub is_no_events : Events → Bool
is_no_events e = not (
    e.epollin || e.epollpri || e.epollout || e.epollerr || e.epollhup || e.epollrdhup
    || e.epolloneshot || e.epollet)

-- The events that `handleConn` registers for a connection that stays.
unfoldable pub next_events : Events → Events
next_events e =
    let e' = if e.epollin && e.epollout then record no_events { epollout = true } else e in
    record e' { epollet = true }

unfoldable pub update : HttpData → World → Events → ℕ → HttpData × World
update d w e t = (record d { events = e }, call (update_poller e t) w)

unfoldable pub conn_stays : HttpData → World → HttpData × World
conn_stays d w =
    let reading = record d.events { epollin = true; epollet = true } in
    if not (is_no_events d.events)
    then update d w (next_events d.events)
        (if d.keep_alive then default_keep_alive_time else default_expired_time)
    else if d.keep_alive
    then update d w reading default_keep_alive_time
    else update d w reading 150000

unfoldable pub after_separation : HttpData → World → HttpData × World
after_separation d w =
    if not d.error && is_connected d.connstate
    then conn_stays d w
    else if not d.error && is_disconnecting d.connstate && d.events.epollout
    then (record d { events = record no_events { epollout = true; epollet = true } }, w)
    else (d, call close_in_loop w)

unfoldable pub handle_conn : HttpData → World → HttpData × World
handle_conn d w = let (d', w') = seperate_timer d w in after_separation d' w'

unfoldable pub handle_close : HttpData → World → HttpData × World
handle_close d w = (record d { connstate = disconnected }, call remove_from_poller w)

unfoldable pub new_event : HttpData → World → HttpData × World
new_event d w =
    (record d { events = default_event }, call (add_to_poller default_event default_expired_time) w)
