-- ===== src/Http/Connection/Stages.antt =====
-- What the stages of `handleRead` of glacier/httpdata.cc come to on a complete request.
use glacier.Common.{
  ◌≡◌, refl, ap, ◌∙◌, true, false, some, [], ◌∷◌, ◌++◌, length, drop, All, if◌then◌else◌, Bytes,
}
use mathlib.Core.Path.{subst}
use glacier.Common.Int.{pos}
use glacier.Sockets.{ReadResult, readn, read_eagain}
use glacier.Sockets.Laws.{delivered, stops_with, readn-Tells, Tells}
use glacier.Http.{HttpData, Headers, connected, get, HttpVersion, start, end_lf}
use glacier.Http.ProcessState.{parse_uri, parse_headers, analysis, finish}
use glacier.Http.Uri.Lines.{get_line, IsTarget, named}
use glacier.Http.Uri.Laws.{parse_uri-get_line}
use glacier.Http.Headers.Laws.{IsField, render, assign_all, parse_headers-render}
use glacier.Http.Response.{
  World, FileSystem, file_type, ok_header, wants_keep_alive, analysis_request, analysis_of,
  answer_get,
}
use glacier.Http.Connection.{
  breaks, proceeds, and_then, after_uri, uri_stage, after_headers, headers_stage, state_after,
  analysis_stage, from_analysis, from_headers, from_uri,
}

pub readn_eagain :
    (w : World) (buf : Bytes)
    → stops_with w.reads ≡ some read_eagain
    → (x : ReadResult) × (readn w.reads buf ≡ some x)
      × (x.in_buffer ≡ buf ++ delivered w.reads)
      × ((x.cnt ≡ pos (length (delivered w.reads))) × (x.zero ≡ false))
readn_eagain w buf e =
    subst (λ s. Tells s (buf ++ delivered w.reads) (length (delivered w.reads)) (readn w.reads buf))
      e (readn-Tells w.reads buf)

uri_stage-get_line :
    (d : HttpData) (w : World) (name rest : Bytes) (v : HttpVersion)
    → d.readpos ≡ 0
    → IsTarget name
    → d.in_buffer ≡ get_line name v ++ b'\r' ∷ rest
    → uri_stage d w
      ≡ proceeds
          (record d {
            in_buffer = rest;
            method = get;
            filename = named name;
            version = v;
            state = parse_headers;
          })
          w
unfolding uri_stage after_uri
uri_stage-get_line d w name rest v r h e = ap (after_uri w) (parse_uri-get_line d name rest v r h e)

headers_stage-render :
    (d : HttpData) (w : World) (h : Bytes × Bytes) (hs : Headers) (rest : Bytes)
    → d.parse_state ≡ start
    → All IsField (h ∷ hs)
    → d.in_buffer ≡ b'\n' ∷ render (h ∷ hs) rest
    → headers_stage d w
      ≡ proceeds
          (record d {
            parse_state = end_lf;
            headers = assign_all (h ∷ hs) d.headers;
            in_buffer = drop 1 rest;
            state = state_after d.method;
          })
          w
unfolding headers_stage after_headers
headers_stage-render d w h hs rest s k e =
    ap (after_headers w) (parse_headers-render d h hs rest s k e)

-- The answer to a GET of a file, on a connection whose header map is `hs`.
abbrev pub response : Headers → Bytes → Bytes → Bytes
response hs filename body =
    ok_header (wants_keep_alive hs) (file_type filename) (length body) ++ body

abbrev pub asking : HttpData → HttpData
asking d = record d { method = get; out_buffer = []; state = analysis }

abbrev pub answered : HttpData → Bytes → HttpData
answered d body = record (asking d) {
  out_buffer = response d.headers d.filename body;
  keep_alive = if wants_keep_alive d.headers then true else d.keep_alive;
  state = finish;
}

analysis_stage-found :
    (fs : FileSystem) (d : HttpData) (w : World) (body : Bytes)
    → fs.stat d.filename ≡ some (length body)
    → fs.mapped d.filename (length body) ≡ some body
    → analysis_stage fs (asking d) w ≡ breaks (answered d body) w
unfolding analysis_stage analysis_request analysis_of answer_get
analysis_stage-found fs d w body s b =
    rw (analysis_stage, analysis_request, analysis_of, answer_get, s, b) refl

-- A connection that waits for its next request.
abbrev pub awaiting : HttpData → HttpData
awaiting d = record d {
  error = false;
  in_buffer = [];
  out_buffer = [];
  connstate = connected;
  readpos = 0;
  state = parse_uri;
  parse_state = start;
  headers = [];
}

-- A GET of `name` with its header lines, and `rest` behind the blank line.
abbrev pub get_request : Bytes → HttpVersion → Headers → Bytes → Bytes
get_request name v hs rest = get_line name v ++ b'\r' ∷ b'\n' ∷ render hs rest

-- The connection when the request is parsed.
abbrev pub parsed : HttpData → Bytes → HttpVersion → Headers → Bytes → HttpData
parsed d name v hs rest = record (awaiting d) {
  filename = named name;
  version = v;
  headers = assign_all hs [];
  parse_state = end_lf;
  in_buffer = drop 1 rest;
}

pub from_uri-get_request :
    (fs : FileSystem) (d : HttpData) (w : World) (name : Bytes) (v : HttpVersion)
    (h : Bytes × Bytes) (hs : Headers) (rest body : Bytes)
    → IsTarget name
    → All IsField (h ∷ hs)
    → fs.stat (named name) ≡ some (length body)
    → fs.mapped (named name) (length body) ≡ some body
    → from_uri fs (record (awaiting d) { in_buffer = get_request name v (h ∷ hs) rest }) w
      ≡ breaks (answered (parsed d name v (h ∷ hs) rest) body) w
unfolding from_uri from_headers from_analysis and_then
from_uri-get_request fs d w name v h hs rest body t k s b =
    ap (λ o. and_then o (from_headers fs))
      (uri_stage-get_line _ w name (b'\n' ∷ render (h ∷ hs) rest) v refl t refl)
    ∙ ap (λ o. and_then o (from_analysis fs)) (headers_stage-render _ w h hs rest refl k refl)
    ∙ analysis_stage-found fs (parsed d name v (h ∷ hs) rest) w body s b
