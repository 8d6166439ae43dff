-- ===== src/Echo/Client.antt =====
-- The client, echoserv/echoclient.c. What `inet_pton` and `strtol` make of the arguments are arguments
-- themselves: the result and the address, the number and whether the whole text was one.
pub mod Laws
use glacier.Common.{
  ℕ, ◌-◌, Bool, true, false, not, Option, none, some, List, [], ◌∷◌, ◌++◌, if◌then◌else◌, Bytes,
}
use glacier.Common.Int.{ℤ, pos, ltb_ℤ}
use glacier.Common.Text.{codes}
use glacier.Sockets.{WriteEvent}
use glacier.Echo.{ReadByte, overlay, readline, writeline, c_string, max_line}
use glacier.Echo.Main.{port_bits}

pub record Sockaddr : Type 0 where
  pub sin_addr : ℕ
  pub sin_port : ℕ

-- `memset` of the address with zeroes.
abbrev pub zeroed : Sockaddr → Sockaddr
zeroed servaddr = record { sin_addr = 0; sin_port = 0 }

-- The message of an exit, or the address that `connect` was given.
pub data ClientStart : Type 0 where
  fails : Bytes → ClientStart
  connects : Sockaddr → ClientStart

-- Behind the arguments, with which of `socket` and `connect` succeed.
unfoldable pub open_client : Bool → Bool → Sockaddr → ℕ → ClientStart
open_client has_socket has_peer servaddr port =
    if not has_socket
    then fails (codes "ECHOCLIENT: Error creating listening socket.\n")
    else if not has_peer
    then fails (codes "ECHOCLIENT: Error calling connect()\n")
    else connects (record (zeroed servaddr) { sin_port = port })

abbrev pub usage : Bytes → ClientStart
usage name = fails (codes "ECHOCLIENT: usage: " ++ (name ++ codes " <host> <port>\n"))

-- `main` up to the loop.
unfoldable pub start_client :
    (Bytes → ℤ × ℕ) → (Bytes → ℤ × Bool) → Bool → Bool → List Bytes → ClientStart
start_client inet_pton strtol has_socket has_peer (name ∷ host ∷ port ∷ []) =
    if ltb_ℤ (inet_pton host).0 (pos 0)
    then fails (codes "ECHOCLIENT: Invalid host address.\n")
    else if not (strtol port).1
    then fails (codes "ECHOCLIENT: Invalid port number.\n")
    else open_client has_socket has_peer (record { sin_addr = (inet_pton host).1; sin_port = 0 })
        (port_bits (strtol port).0)
start_client inet_pton strtol has_socket has_peer (name ∷ _) = usage name
start_client inet_pton strtol has_socket has_peer [] = usage (codes "(null)")

-- One round of the loop: the line that `fgets` reads, and what the socket answers.
pub record Turn : Type 0 where
  pub typed : Bytes
  pub reads : List ReadByte
  pub writes : List WriteEvent

-- What a round sends and prints, and the buffer that it leaves.
pub record Printed : Type 0 where
  pub sent : Bytes
  pub printed : Bytes
  pub buffer : Bytes

unfoldable pub client_turn : Bytes → Turn → Option Printed
client_turn buffer t =
    let filled = overlay (t.typed ++ 0 ∷ []) buffer in
    elim (writeline (c_string filled) t.writes) [
      | none ↦ none
      | some s ↦ elim (readline (max_line - 1) filled t.reads) [
        | none ↦ none
        | some l ↦ some (record { sent = s.sent; printed = c_string l.buffer; buffer = l.buffer })
      ]
    ]

-- The loop over the lines of the terminal, and the lines that it prints.
unfoldable pub client_loop : Bytes → List Turn → Option (List Bytes)
client_loop buffer [] = some []
client_loop buffer (t ∷ ts) = elim (client_turn buffer t) [
  | none ↦ none
  | some p ↦ elim (client_loop p.buffer ts) [ none ↦ none | some lines ↦ some (p.printed ∷ lines) ]
]
