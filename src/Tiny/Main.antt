-- ===== src/Tiny/Main.antt =====
-- `main` of csapp/tiny.c: the arguments, and the loop over connections. The wrappers of csapp.c end the
-- program on an error, so the loop sees only connections, each the lines that its client sends.
use glacier.Common.{Bool, true, false, none, some, List, [], ◌∷◌, ◌++◌, Bytes}
use glacier.Common.Text.{codes}
use glacier.Tiny.{Machine, doit}

-- The message of the exit, or the port that is listened on.
pub data Startup : Type 0 where
  exits : Bytes → Startup
  listens : Bytes → Startup

unfoldable pub start_tiny : List Bytes → Startup
start_tiny (name ∷ port ∷ []) = listens port
start_tiny (name ∷ args) = exits (codes "usage: " ++ (name ++ codes " <port>\n"))
start_tiny [] = exits (codes "usage: (null) <port>\n")

-- What was sent to each client in turn, and whether the server hangs in a transaction.
pub record Session : Type 0 where
  pub sent : List Bytes
  pub hangs : Bool

unfoldable pub tiny_loop : Machine → List (List Bytes) → Session
tiny_loop m [] = record { sent = []; hangs = false }
tiny_loop m (c ∷ cs) =
    let rest = tiny_loop m cs in
    elim (doit m c) [
      | none ↦ record { sent = []; hangs = true }
      | some answer ↦ record { sent = answer ∷ rest.sent; hangs = rest.hangs }
    ]
