-- ===== src/Http/Turn.antt =====
-- A turn of a connection's channel: the callbacks that glacier/channel.cc calls are the handlers of
-- glacier/httpdata.cc. `HttpData` sets no callback for errors, and calling none is only logged.
pub mod Answers
use glacier.Common.{ℕ, Option, none, some, List, [], ◌∷◌}
use glacier.Http.{HttpData, Events, no_events}
use glacier.Http.Response.{World, FileSystem}
use glacier.Http.Connection.{finished, handle_read, handle_write, handle_conn}
use glacier.Poller.{
  Channel, Callback, error_callback, read_callback, write_callback, conn_callback, handle_events,
}

-- One callback, with fuel for `handleRead`.
unfoldable pub run_callback :
    FileSystem → ℕ → Callback → HttpData → World → Option (HttpData × World)
run_callback fs fuel error_callback d w = some (d, w)
run_callback fs fuel read_callback d w = finished (handle_read fs fuel d w)
run_callback fs fuel write_callback d w = handle_write d w
run_callback fs fuel conn_callback d w = some (handle_conn d w)

unfoldable pub run_callbacks :
    FileSystem → ℕ → List Callback → HttpData → World → Option (HttpData × World)
run_callbacks fs fuel [] d w = some (d, w)
run_callbacks fs fuel (c ∷ cs) d w = elim (run_callback fs fuel c d w) [
  | none ↦ none
  | some (d', w') ↦ run_callbacks fs fuel cs d' w'
]

-- The channel of a connection with the events that the poller found.
abbrev pub channel_of : ℕ → Events → HttpData → Channel
channel_of fd revents d = record {
  fd = fd;
  events = d.events;
  revents = revents;
  lastevents = d.events;
  holder = none;
}

-- `handleEvents` resets the events of the channel and calls the handlers.
unfoldable pub turn : FileSystem → ℕ → ℕ → Events → HttpData → World → Option (HttpData × World)
turn fs fuel fd revents d w =
    run_callbacks fs fuel (handle_events (channel_of fd revents d))
      (record d { events = no_events }) w
