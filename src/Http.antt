-- ===== src/Http.antt =====
-- The connection of glacier/httpdata.cc: its state here, its parsers, its answers and its handlers
-- in the children.
pub mod Uri
pub mod Headers
pub mod Response
pub mod Connection
pub mod Turn
pub mod Tests
use glacier.Common.{ℕ, Bool, true, false, Option, none, some, List, [], ◌∷◌, if◌then◌else◌, Bytes}
use glacier.Common.Text.{str_eq}

pub data ConnectionState : Type 0 where
  connected disconnecting disconnected : ConnectionState

pub data HttpMethod : Type 0 where
  post get head : HttpMethod

pub data HttpVersion : Type 0 where
  http_10 http_11 : HttpVersion

pub data ProcessState : Type 0 where
  parse_uri parse_headers recv_body analysis finish : ProcessState

pub data ParseState : Type 0 where
  start key colon spaces_after_colon value cr lf end_cr end_lf : ParseState

pub data UriState : Type 0 where
  parse_uri_again parse_uri_error parse_uri_success : UriState

pub data HeaderState : Type 0 where
  parse_header_success parse_header_again parse_header_error : HeaderState

pub data AnalysisState : Type 0 where
  analysis_success analysis_error : AnalysisState

-- `std::map<string, string>`.
abbrev pub Headers : Type 0
Headers = List (Bytes × Bytes)

unfoldable pub lookup : Bytes → Headers → Option Bytes
lookup k [] = none
lookup k ((j, v) ∷ hs) = if str_eq j k then some v else lookup k hs

-- `headers_[k] = v`.
unfoldable pub assign : Bytes → Bytes → Headers → Headers
assign k v [] = (k, v) ∷ []
assign k v ((j, w) ∷ hs) = if str_eq j k then (j, v) ∷ hs else (j, w) ∷ assign k v hs

-- The flags of an `epoll_event` that the program names.
pub record Events : Type 0 where
  pub epollin : Bool
  pub epollpri : Bool
  pub epollout : Bool
  pub epollerr : Bool
  pub epollhup : Bool
  pub epollrdhup : Bool
  pub epolloneshot : Bool
  pub epollet : Bool

abbrev pub no_events : Events
no_events = record {
  epollin = false;
  epollpri = false;
  epollout = false;
  epollerr = false;
  epollhup = false;
  epollrdhup = false;
  epolloneshot = false;
  epollet = false;
}

-- `HttpData`. The channel is here its registered events, the timer the number of the one that the
-- weak pointer still reaches.
pub record HttpData : Type 0 where
  pub events : Events
  pub error : Bool
  pub in_buffer : Bytes
  pub out_buffer : Bytes
  pub connstate : ConnectionState
  pub method : HttpMethod
  pub version : HttpVersion
  pub filename : Bytes
  pub path : Bytes
  pub readpos : ℕ
  pub keep_alive : Bool
  pub state : ProcessState
  pub parse_state : ParseState
  pub headers : Headers
  pub timer : Option ℕ

abbrev pub new_http_data : HttpData
new_http_data = record {
  events = no_events;
  error = false;
  in_buffer = [];
  out_buffer = [];
  connstate = connected;
  method = get;
  version = http_11;
  filename = [];
  path = [];
  readpos = 0;
  keep_alive = false;
  state = parse_uri;
  parse_state = start;
  headers = [];
  timer = none;
}
