-- ===== src/Sockets/Open.antt =====
-- The sockets that glacier/utils.cc opens. Each address that `getaddrinfo` lists comes with what the
-- kernel answers for it. A fatal log line aborts the program, so what stands behind one is not reached.
pub mod Laws
use glacier.Common.{
  ℕ, Bool, true, false, not, Option, none, some, List, [], ◌∷◌, ◌++◌, bit_or, if◌then◌else◌,
}
use glacier.Common.Int.{ℤ, pos, negsuc}

-- An address: no socket, a socket that `connect` or `bind` refuses, with whether it can be closed, or a
-- socket that works.
pub data Address : Type 0 where
  no_socket : Address
  refused : ℕ → Bool → Address
  works : ℕ → Address

-- How the walk over the addresses ends.
pub data Walked : Type 0 where
  chose : ℕ → Walked
  gave_up close_failed : Walked

pub record Walk : Type 0 where
  pub ending : Walked
  pub opened : List ℕ
  pub closed : List ℕ

-- The loop of `open_clientfd`.
unfoldable pub connect_loop : List Address → List ℕ → List ℕ → Walk
connect_loop [] opened closed = record { ending = gave_up; opened = opened; closed = closed }
connect_loop (no_socket ∷ listp) opened closed = connect_loop listp opened closed
connect_loop (works fd ∷ listp) opened closed = record {
  ending = chose fd;
  opened = opened ++ fd ∷ [];
  closed = closed;
}
connect_loop (refused fd false ∷ listp) opened closed = record {
  ending = close_failed;
  opened = opened ++ fd ∷ [];
  closed = closed;
}
connect_loop (refused fd true ∷ listp) opened closed =
    connect_loop listp (opened ++ fd ∷ []) (closed ++ fd ∷ [])

-- The loop of `open_listenfd`; what `setsockopt` answers is not looked at.
unfoldable pub bind_loop : List Address → List ℕ → List ℕ → Walk
bind_loop [] opened closed = record { ending = gave_up; opened = opened; closed = closed }
bind_loop (no_socket ∷ listp) opened closed = bind_loop listp opened closed
bind_loop (works fd ∷ listp) opened closed = record {
  ending = chose fd;
  opened = opened ++ fd ∷ [];
  closed = closed;
}
bind_loop (refused fd false ∷ listp) opened closed = record {
  ending = close_failed;
  opened = opened ++ fd ∷ [];
  closed = closed;
}
bind_loop (refused fd true ∷ listp) opened closed =
    bind_loop listp (opened ++ fd ∷ []) (closed ++ fd ∷ [])

-- How a call ends, with the descriptors that it opened and closed.
pub data Ending : Type 0 where
  aborts : Ending
  returns : ℤ → List ℕ → List ℕ → Ending

abbrev pub finish_client : Walk → Ending
finish_client w = elim w.ending [
  | chose fd ↦ returns (pos fd) w.opened w.closed
  | gave_up ↦ returns (negsuc 0) w.opened w.closed
  | close_failed ↦ aborts
]

-- `open_clientfd`; without a list `getaddrinfo` failed.
unfoldable pub open_clientfd : Option (List Address) → Ending
open_clientfd none = aborts
open_clientfd (some listp) = finish_client (connect_loop listp [] [])

abbrev pub finish_listen : Bool → Walk → Ending
finish_listen listens w = elim w.ending [
  | chose fd ↦
      if listens
      then returns (pos fd) w.opened w.closed
      else returns (negsuc 0) w.opened (w.closed ++ fd ∷ [])
  | gave_up ↦ returns (negsuc 0) w.opened w.closed
  | close_failed ↦ aborts
]

-- `open_listenfd`, with whether `listen` succeeds.
unfoldable pub open_listenfd : Option (List Address) → Bool → Ending
open_listenfd none listens = aborts
open_listenfd (some listp) listens = finish_listen listens (bind_loop listp [] [])

abbrev pub o_nonblock : ℕ
o_nonblock = 2048

-- `setSocketNonBlocking`: the flags that `fcntl` answers, and whether it sets them; the result comes
-- with the flags behind the call.
unfoldable pub set_socket_non_blocking : Option ℕ → Bool → ℤ × Option ℕ
set_socket_non_blocking none sets = (negsuc 0, none)
set_socket_non_blocking (some flag) true = (pos 0, some (bit_or flag o_nonblock))
set_socket_non_blocking (some flag) false = (negsuc 0, some flag)
