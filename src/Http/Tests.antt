-- ===== src/Http/Tests.antt =====
-- Runs of glacier/httpdata.cc, and instances of its theorems.
use glacier.Common.{◌≤◌, ◌≡◌, ◌≢◌, refl, arith, true, some, [], ◌∷◌, All, length, Bytes, inl, inr}
use glacier.Common.Text.{codes, find_byte, find_text, starts_with, str_eq, digits_onto, to_string}
use glacier.Sockets.{chunk, read_eintr, read_eagain, wrote, write_eintr}
use glacier.Sockets.Whole.{taking}
use glacier.Sockets.Laws.{Obeys}
use glacier.Http.{HttpData, new_http_data, http_11, get, lookup, assign, parse_uri_success}
use glacier.Http.Uri
use glacier.Http.Uri.{strip_query, find_method}
use glacier.Http.Uri.Lines.{named, IsTarget}
use glacier.Http.Uri.Laws.{parse_uri-get_line}
use glacier.Http.Headers
use glacier.Http.Headers.Line.{IsHeader}
use glacier.Http.Headers.Blank.{IsBlank}
use glacier.Http.Headers.Laws.{render, assign_all}
use glacier.Http.Response.{World, FileSystem, ok_header, wants_keep_alive, file_type, get_mime}
use glacier.Http.Turn.Answers.{Request, IsServed}
use glacier.Http.Connection.{returned, spent, after_outcome, read_loop, handle_read, handle_conn}
use glacier.Http.Connection.Stages.{awaiting, get_request, response}
use glacier.Http.Connection.Serves.{Exchanged, handle_read-get_request}
use glacier.Http.Connection.Handlers.{Continues, handle_conn-Continues}
use glacier.Http.Connection.Fuel.{handle_read-fuel}

text : Unit {0}
unfolding find_byte find_text starts_with str_eq strip_query digits_onto to_string ok_header
    wants_keep_alive lookup assign file_type get_mime
text = tt

abbrev target : Bytes
target = codes "a.html?q=1"

abbrev host : Bytes × Bytes
host = (codes "Host", codes "x")

abbrev keep : Bytes × Bytes
keep = (codes "Connection", codes "keep-alive")

host-IsHeader : IsHeader b'H' (codes "ost") b'x' []
host-IsHeader = record {
  key_bytes = ground arith;
  value_bytes = ground arith;
  value_short = ground arith;
}

keep-IsHeader : IsHeader b'C' (codes "onnection") b'k' (codes "eep-alive")
keep-IsHeader = record {
  key_bytes = ground arith;
  value_bytes = ground arith;
  value_short = ground arith;
}

target-IsTarget : IsTarget target
target-IsTarget = ground arith

abbrev request : Bytes
request = get_request target http_11 (host ∷ keep ∷ []) []

abbrev started : HttpData
started = record new_http_data { in_buffer = request }

parse_uri-get_line_example : Uri.parse_uri started ≡ (
  record started {
    in_buffer = b'\n' ∷ render (host ∷ keep ∷ []) [];
    method = get;
    filename = named target;
    version = http_11;
  },
  parse_uri_success,
)
parse_uri-get_line_example =
    parse_uri-get_line started target (b'\n' ∷ render (host ∷ keep ∷ []) []) http_11 refl
      target-IsTarget refl

named_test : named target ≡ codes "a.html"
unfolding text
named_test = refl

abbrev half : HttpData
half = record new_http_data { in_buffer = codes "GET /a" }

abbrev with_headers : HttpData
with_headers = record new_http_data {
  in_buffer = b'\n' ∷ render (host ∷ keep ∷ []) (codes "GET /b");
}

abbrev blank : HttpData
blank = record new_http_data { in_buffer = codes "\n\r\n" }

IsBlank-All : All IsBlank blank.in_buffer
IsBlank-All = (inr refl, (inl refl, (inr refl, tt)))

abbrev body : Bytes
body = codes "<p>hi</p>"

abbrev pub disk : FileSystem
disk = record { stat = λ name. some 9; mapped = λ name size. some body }

abbrev answer : Bytes
answer = response (assign_all (host ∷ keep ∷ []) []) (named target) body

-- The request comes in two pieces and the answer goes out in two.
abbrev pub socket : World
socket = record {
  reads =
      chunk (codes "GET /a.html?q=1 HTTP")
      ∷ read_eintr
      ∷ chunk (codes "/1.1\r\nHost: x\r\nConnection: keep-alive\r\n\r\n")
      ∷ read_eagain
      ∷ [];
  writes = wrote 100 ∷ write_eintr ∷ wrote 71 ∷ [];
  sent = [];
  calls = [];
}

takes_all : Obeys socket.writes answer × (length answer ≤ taking socket.writes)
unfolding text
takes_all = (ground arith, ground arith)

handle_read-get_request_example :
    (d' : HttpData) × (w' : World) × (handle_read disk 1 (awaiting new_http_data) socket
      ≡ returned d' w')
    × Exchanged new_http_data socket (assign_all (host ∷ keep ∷ []) []) answer d' w'
handle_read-get_request_example =
    handle_read-get_request disk 0 new_http_data socket target http_11 host (keep ∷ []) body
      target-IsTarget (host-IsHeader, (keep-IsHeader, tt)) refl refl refl refl takes_all.0
      takes_all.1

-- The same request twice, on a connection kept alive.
abbrev pub asked : Request
asked = record {
  name = target;
  version = http_11;
  field = host;
  fields = keep ∷ [];
  body = body;
  reads = socket.reads;
  writes = socket.writes;
}

pub asked-IsServed : IsServed disk asked
asked-IsServed = record {
  target = target-IsTarget;
  good_fields = (host-IsHeader, (keep-IsHeader, tt));
  burst = refl;
  arrives = refl;
  exists = refl;
  readable_file = refl;
  obeys = takes_all.0;
  takes = takes_all.1;
}

abbrev waiting : HttpData
waiting = record new_http_data {
  events = record new_http_data.events { epollin = true; epollout = true };
  timer = some 7;
}

handle_conn-Continues_example :
    Continues waiting socket (handle_conn waiting socket).0 (handle_conn waiting socket).1
handle_conn-Continues_example = handle_conn-Continues waiting socket

handle_read-fuel_example :
    (handle_read disk 9 new_http_data socket ≢ spent)
    × (handle_read disk 9 new_http_data socket
        ≡ after_outcome (handle_read disk 9) (read_loop disk new_http_data socket))
    × (handle_read disk 9 new_http_data socket ≡ handle_read disk 5 new_http_data socket)
handle_read-fuel_example = handle_read-fuel disk 9 new_http_data socket (omega arith)
