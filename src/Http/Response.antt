-- ===== src/Http/Response.antt =====
-- The answers of glacier/httpdata.cc: the types of files, `handleError` and `analysisRequest`. The
-- file system is an argument, and the connection's peer is a `World`.
use glacier.Common.{
  ℕ, Bool, true, false, ◌||◌, Option, none, some, List, [], ◌∷◌, ◌++◌, length, drop, if◌then◌else◌,
  Bytes,
}
use glacier.Common.Text.{codes, str_eq, find_from, to_string}
use glacier.Sockets.{ReadEvent, WriteEvent, writen_raw}
use glacier.Http.{
  HttpData, HttpMethod, get, Headers, lookup, Events, AnalysisState, analysis_success,
  analysis_error,
}

-- What a handler asks of the event loop, of the poller and of the timer.
pub data Call : Type 0 where
  update_poller add_to_poller : Events → ℕ → Call
  close_in_loop remove_from_poller : Call
  reset_timer : ℕ → Call

-- The socket: what `read` and `write` will answer, and what was sent; then the calls made so far.
pub record World : Type 0 where
  pub reads : List ReadEvent
  pub writes : List WriteEvent
  pub sent : Bytes
  pub calls : List Call

-- `stat` answers the size, and `mapped` the bytes that are read at the mapping; `none` is a `stat` or an
-- `open` that fails. An `mmap` of a file that was opened is taken to succeed: the source does not test it.
pub record FileSystem : Type 0 where
  pub stat : Bytes → Option ℕ
  pub mapped : Bytes → ℕ → Option Bytes

abbrev pub mime : Headers
mime =
    (codes ".html", codes "text/html; charset=UTF-8")
    ∷ (codes ".htm", codes "text/html; charset=UTF-8")
    ∷ (codes ".ico", codes "image/x-icon")
    ∷ (codes ".jpg", codes "image/jpeg")
    ∷ (codes ".jpeg", codes "image/jpeg")
    ∷ (codes ".png", codes "image/png")
    ∷ (codes ".css", codes "text/css")
    ∷ (codes ".js", codes "application/x-javascript")
    ∷ (codes ".woff2?v=4.7.0", codes "application/font-woff2")
    ∷ (codes "default", codes "text/html")
    ∷ []

unfoldable pub get_mime : Bytes → Bytes
get_mime suffix = elim (lookup suffix mime) [ none ↦ codes "text/html" | some t ↦ t ]

unfoldable pub file_type : Bytes → Bytes
file_type filename = elim (find_from b'.' filename 0) [
  | none ↦ get_mime (codes "default")
  | some pos ↦ get_mime (drop pos filename)
]

-- The two texts of `handleError`, whose status line takes `" " + short_msg`.
unfoldable pub error_body : ℕ → Bytes → Bytes
error_body err_num short_msg =
    codes "<html><title>error</title>"
    ++ (codes "<body bgcolor=\"ffffff\">"
        ++ (to_string err_num
            ++ (b' '
                ∷ (short_msg ++ codes "<hr><em> LiYansong's Web Server</em>\n</body></html>"))))

unfoldable pub error_header : ℕ → Bytes → Bytes
error_header err_num short_msg =
    codes "HTTP/1.1 "
    ++ (to_string err_num
        ++ (b' '
            ∷ (short_msg
                ++ (codes "\r\nContent-Type: text/html\r\nConnection: Close\r\nContent-Length: "
                    ++ (to_string (length (error_body err_num short_msg))
                        ++ codes "\r\nServer: LiYansong's Web Server\r\n\r\n")))))

unfoldable pub write_raw : Bytes → World → Option World
write_raw bs w = elim (writen_raw w.writes bs) [
  | none ↦ none
  | some r ↦ some (record w { writes = r.unused; sent = w.sent ++ r.taken })
]

unfoldable pub handle_error : ℕ → Bytes → World → Option World
handle_error err_num short_msg w = elim (write_raw (error_header err_num short_msg) w) [
  | none ↦ none
  | some w' ↦ write_raw (error_body err_num short_msg) w'
]

abbrev pub default_keep_alive_time : ℕ
default_keep_alive_time = 300000

unfoldable pub wants_keep_alive : Headers → Bool
wants_keep_alive hs = elim (lookup (codes "Connection") hs) [
  | none ↦ false
  | some v ↦ str_eq v (codes "Keep-Alive") || str_eq v (codes "keep-alive")
]

abbrev pub keep_alive_lines : Bytes
keep_alive_lines = codes "Connection: Keep-Alive\r\nKeep-Alive: timeout=300000\r\n"

-- The header of an answer with a file of the given type and size.
unfoldable pub ok_header : Bool → Bytes → ℕ → Bytes
ok_header keep filetype size =
    codes "HTTP/1.1 200 OK\r\n"
    ++ ((if keep then keep_alive_lines else [])
        ++ (codes "Content-Type: "
            ++ (filetype
                ++ (codes "\r\nContent-Length: "
                    ++ (to_string size ++ codes "\r\nServer: LiYansong's Web Server\r\n\r\n")))))

pub record Analysed : Type 0 where
  pub data_after : HttpData
  pub world_after : World
  pub flag : AnalysisState

-- The answer 404, with the connection that it leaves.
unfoldable pub not_found : HttpData → World → Option Analysed
not_found d w = elim (handle_error 404 (codes "Not Found!") w) [
  | none ↦ none
  | some w' ↦ some (record { data_after = d; world_after = w'; flag = analysis_error })
]

-- The answer to a GET, once `keepAlive_` is set.
unfoldable pub answer_get : FileSystem → Bool → HttpData → World → Option Analysed
answer_get fs keep d w = elim (fs.stat d.filename) [
  | none ↦ not_found d w
  | some size ↦ elim (fs.mapped d.filename size) [
    | none ↦ not_found (record d { out_buffer = [] }) w
    | some body ↦ some (record {
      data_after = record d {
        out_buffer = (d.out_buffer ++ ok_header keep (file_type d.filename) size) ++ body;
      };
      world_after = w;
      flag = analysis_success;
    })
  ]
]

unfoldable pub analysis_of : HttpMethod → FileSystem → HttpData → World → Option Analysed
analysis_of get fs d w =
    let keep = wants_keep_alive d.headers in
    answer_get fs keep (record d { keep_alive = if keep then true else d.keep_alive }) w
analysis_of _ fs d w = some (record { data_after = d; world_after = w; flag = analysis_error })

unfoldable pub analysis_request : FileSystem → HttpData → World → Option Analysed
analysis_request fs d w = analysis_of d.method fs d w
