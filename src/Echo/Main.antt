-- ===== src/Echo/Main.antt =====
-- `main` of echoserv/echoserv.c: the start with its checks, and the loop over connections. What
-- `strtol` makes of an argument is an argument itself: the number, and whether the whole text was
-- one. `port` is a `short int`, which `htons` reads as 16 bits.
use glacier.Common.{
  ℕ, ◌-◌, ◌%◌, Bool, true, false, not, Option, none, some, List, [], ◌∷◌, ◌++◌, if◌then◌else◌,
  Bytes,
}
use glacier.Common.Int.{ℤ, pos, negsuc}
use glacier.Common.Text.{codes}
use glacier.Sockets.{WriteEvent}
use glacier.Echo.{ReadByte, serve}

-- The message of an exit, or the port that is served.
pub data Startup : Type 0 where
  exits : Bytes → Startup
  listens : ℕ → Startup

abbrev pub echo_port : ℕ
echo_port = 2020

abbrev pub port_bits : ℤ → ℕ
port_bits (pos n) = n % 65536
port_bits (negsuc n) = 65535 - n % 65536

-- The port from the command line; `argv` holds the name of the program first.
unfoldable pub choose_port : (Bytes → ℤ × Bool) → List Bytes → Startup
choose_port strtol (name ∷ arg ∷ []) =
    if (strtol arg).1
    then listens (port_bits (strtol arg).0)
    else exits (codes "ECHOSERV: Invalid port number.\n")
choose_port strtol (name ∷ a ∷ b ∷ args) = exits (codes "ECHOSERV: Invalid arguments.\n")
choose_port strtol _ = listens echo_port

-- Which of `socket`, `bind` and `listen` succeed.
pub record Kernel : Type 0 where
  pub socket : Bool
  pub bind : Bool
  pub listen : Bool

unfoldable pub open_port : Kernel → Startup → Startup
open_port k (exits message) = exits message
open_port k (listens port) =
    if not k.socket
    then exits (codes "ECHOSERV: Error creating listening socket.\n")
    else if not k.bind
    then exits (codes "ECHOSERV: Error calling bind()\n")
    else if not k.listen
    then exits (codes "ECHOSERV: Error calling listen()\n")
    else listens port

-- What `accept` answers: a connection with its script, and whether it can be closed.
pub data Accepted : Type 0 where
  accept_failed : Accepted
  connection : List ReadByte → List WriteEvent → Bool → Accepted

-- The lines sent so far, and the message of the exit; without one the server waits.
pub record Served : Type 0 where
  pub sent : List Bytes
  pub message : Option Bytes

unfoldable pub main_loop : Bytes → List Bytes → List Accepted → Served
main_loop buffer sent [] = record { sent = sent; message = none }
main_loop buffer sent (accept_failed ∷ rest) = record {
  sent = sent;
  message = some (codes "ECHOSERV: Error calling accept()\n");
}
main_loop buffer sent (connection rs ws closes ∷ rest) = elim (serve buffer rs ws) [
  | none ↦ record { sent = sent; message = none }
  | some (line, buffer') ↦ elim closes [
    | true ↦ main_loop buffer' (sent ++ line ∷ []) rest
    | false ↦ record {
      sent = sent ++ line ∷ [];
      message = some (codes "ECHOSERV: Error calling close()\n");
    }
  ]
]
