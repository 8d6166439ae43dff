-- ===== src/Echo/Tests.antt =====
-- Runs of the echo server of echoserv, and instances of its theorems.
use glacier.Common.{refl, true, false, ◌≡◌, arith, some, [], ◌∷◌, ◌++◌, All, Bytes}
use glacier.Common.Text.{codes}
use glacier.Sockets.{wrote}
use glacier.Common.Int.{pos}
use glacier.Echo.Client.{Printed, client_turn}
use glacier.Echo.Client.Laws.{client_turn-serve}
use glacier.Echo.Main.{open_port, choose_port, exits}
use glacier.Echo.{end_of_stream, read_eintr, terminate, readline, serve}
use glacier.Echo.Laws.{IsLineByte, bytes_of, serve_silent_client, readline_interrupted}

abbrev hello : Bytes
hello = codes "hello"

hello-IsLineByte : All IsLineByte hello
hello-IsLineByte = ground arith

port_test :
    open_port
      (record { socket = true; bind = false; listen = true })
      (choose_port (λ s. (pos 80, true)) (codes "echoserv" ∷ []))
    ≡ exits (codes "ECHOSERV: Error calling bind()\n")
unfolding open_port choose_port
port_test = refl

serve_silent_client_example :
    serve (hello ++ 0 ∷ []) (end_of_stream ∷ []) (wrote 5 ∷ []) ≡ some (hello, hello ++ 0 ∷ [])
serve_silent_client_example = serve_silent_client hello [] [] [] (ground arith)

readline_interrupted_example :
    readline 999 [] (read_eintr ∷ bytes_of (codes "hello\n") [])
    ≡ some (terminate 7 (codes "hello\n") [] [])
readline_interrupted_example = readline_interrupted hello [] [] hello-IsLineByte (omega arith)

client_turn-serve_example :
    (p : Printed) × (reply kept : Bytes) × (serve [] (bytes_of p.sent []) (wrote 6 ∷ [])
      ≡ some (reply, kept))
    × (client_turn []
          (record { typed = hello ++ b'\n' ∷ []; reads = bytes_of reply []; writes = wrote 6 ∷ [] })
        ≡ some p)
    × (p.printed ≡ hello ++ b'\n' ∷ [])
client_turn-serve_example = client_turn-serve hello [] [] [] [] [] [] hello-IsLineByte (omega arith)
