-- ===== src/Echo/Client/Laws.antt =====
-- What the client of echoserv shows of the server's answers.
use glacier.Common.{
  ℕ, ◌<◌, ◌≡◌, refl, ap, ◌∙◌, Bool, true, false, some, List, [], ◌∷◌, ◌++◌, append_assoc, length,
  All, Bytes, Bool-cases, inl, inr,
}
use mathlib.Core.Path.{subst}
use glacier.Common.Int.{ℤ, pos, ltb_ℤ}
use glacier.Sockets.{WriteEvent, wrote}
use glacier.Echo.{
  ReadByte, end_of_stream, overlay, terminate, readline, readline_loop, c_string, serve,
}
use glacier.Echo.Laws.{
  IsLineByte, bytes_of, readline_loop-line, c_string-append, line-All, whole, serve-line,
}
use glacier.Echo.Client.{
  Sockaddr, ClientStart, fails, connects, open_client, start_client, Printed, client_turn,
}

-- A line without its line feed, as the client handles it.
abbrev pub line : Bytes → Bytes
line cs = cs ++ b'\n' ∷ []

-- The buffer with a line stored.
abbrev stored : Bytes → Bytes → Bytes
stored cs buffer = overlay (line cs ++ 0 ∷ []) buffer

c_string-stored : (cs buffer : Bytes) → All IsLineByte cs → c_string (stored cs buffer) ≡ line cs
c_string-stored cs buffer h =
    ap c_string (append_assoc (line cs) (0 ∷ []) _) ∙ c_string-append (line cs) _ (line-All cs h)

-- A round in which the socket takes the line at once and answers with another one.
client_turn-answer :
    (cs ds buffer : Bytes) (rs : List ReadByte) (ws : List WriteEvent)
    → All IsLineByte cs
    → All IsLineByte ds
    → length ds < 998
    → client_turn buffer (record {
      typed = line cs;
      reads = bytes_of (line ds) rs;
      writes = wrote (length (line cs)) ∷ ws;
    })
      ≡ some (record { sent = line cs; printed = line ds; buffer = stored ds (stored cs buffer) })
unfolding client_turn readline terminate
client_turn-answer cs ds buffer rs ws h k l =
    rw
      (
        client_turn,
        c_string-stored cs buffer h,
        whole (line cs) ws,
        readline,
        readline_loop-line ds 998 1 [] (stored cs buffer) rs k l,
        terminate,
        c_string-stored ds (stored cs buffer) k,
      )
      refl

-- The server and the client together: a line without a zero byte, of at most 997 bytes and its line feed,
-- on sockets that take it at once, comes to the server, comes back, and is printed as it was typed,
-- whatever both buffers held before.
pub client_turn-serve :
    (cs mine yours : Bytes) (rs es : List ReadByte) (ws us : List WriteEvent)
    → All IsLineByte cs
    → length cs < 998
    → (p : Printed) × (reply kept : Bytes) × (serve yours
          (bytes_of p.sent rs)
          (wrote (length (line cs)) ∷ ws)
        ≡ some (reply, kept))
      × (client_turn mine (record {
        typed = line cs;
        reads = bytes_of reply es;
        writes = wrote (length (line cs)) ∷ us;
      })
          ≡ some p)
      × (p.printed ≡ line cs)
client_turn-serve cs mine yours rs es ws us h l =
    let (kept, e) = serve-line cs yours rs ws h l in
    (_, line cs, kept, e, client_turn-answer cs cs mine es us h h l, refl)

-- Once the server has closed the connection, a line that the socket still takes is printed all the same,
-- though nothing came back.
pub client_turn_closed :
    (cs buffer : Bytes) (rs : List ReadByte) (ws : List WriteEvent)
    → All IsLineByte cs
    → client_turn buffer (record {
      typed = line cs;
      reads = end_of_stream ∷ rs;
      writes = wrote (length (line cs)) ∷ ws;
    })
      ≡ some (record { sent = line cs; printed = line cs; buffer = stored cs buffer })
unfolding client_turn readline readline_loop
client_turn_closed cs buffer rs ws h =
    rw
      (
        client_turn,
        c_string-stored cs buffer h,
        whole (line cs) ws,
        readline,
        readline_loop,
        c_string-stored cs buffer h,
      )
      refl

-- The address that a start connects to is zero.
abbrev Blind : ClientStart → Type 0
Blind (fails message) = Unit
Blind (connects a) = a.sin_addr ≡ 0

open_client-Blind :
    (has_socket has_peer : Bool) (servaddr : Sockaddr) (port : ℕ)
    → Blind (open_client has_socket has_peer servaddr port)
unfolding open_client
open_client-Blind false has_peer servaddr port = tt
open_client-Blind true false servaddr port = tt
open_client-Blind true true servaddr port = refl

start_client-Blind :
    (inet_pton : Bytes → ℤ × ℕ) (strtol : Bytes → ℤ × Bool) (has_socket has_peer : Bool)
    (argv : List Bytes)
    → Blind (start_client inet_pton strtol has_socket has_peer argv)
unfolding start_client
start_client-Blind inet_pton strtol has_socket has_peer [] = tt
start_client-Blind inet_pton strtol has_socket has_peer (name ∷ []) = tt
start_client-Blind inet_pton strtol has_socket has_peer (name ∷ host ∷ []) = tt
start_client-Blind inet_pton strtol has_socket has_peer (name ∷ host ∷ port ∷ []) =
    elim (Bool-cases (ltb_ℤ (inet_pton host).0 (pos 0))) [
      | inl e ↦ rw (start_client, e) tt
      | inr e ↦ elim (Bool-cases (strtol port).1) [
        | inl d ↦ rw (start_client, e, d) (open_client-Blind has_socket has_peer _ _)
        | inr d ↦ rw (start_client, e, d) tt
      ]
    ]
start_client-Blind inet_pton strtol has_socket has_peer (name ∷ a ∷ b ∷ c ∷ rest) = tt

-- Whatever host the client is told, and whatever `inet_pton` makes of it, the address that it connects to
-- is 0.0.0.0.
pub start_client_host :
    (inet_pton : Bytes → ℤ × ℕ) (strtol : Bytes → ℤ × Bool) (has_socket has_peer : Bool)
    (argv : List Bytes) (a : Sockaddr)
    → start_client inet_pton strtol has_socket has_peer argv ≡ connects a
    → a.sin_addr ≡ 0
start_client_host inet_pton strtol has_socket has_peer argv a e =
    subst Blind e (start_client-Blind inet_pton strtol has_socket has_peer argv)
