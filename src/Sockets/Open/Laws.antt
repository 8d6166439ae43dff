-- ===== src/Sockets/Open/Laws.antt =====
-- glacier/utils.cc opens the first socket that works and leaves no other open.
use glacier.Common.{
  ℕ, ◌≡◌, refl, sym, ap, ◌∙◌, Bool, true, false, Option, none, some, List, [], ◌∷◌, ◌++◌,
  append-nil, append_assoc, All,
}
use glacier.Common.Int.{pos, negsuc}
use glacier.Sockets.Open.{
  Address, no_socket, refused, works, Walk, chose, gave_up, connect_loop, bind_loop, returns,
  Ending, finish_client, finish_listen, open_clientfd, open_listenfd,
}

-- The first address that works, and the sockets refused in front of it.
abbrev pub first : List Address → Option ℕ
first [] = none
first (works fd ∷ listp) = some fd
first (no_socket ∷ listp) = first listp
first (refused fd closes ∷ listp) = first listp

abbrev pub refused_first : List Address → List ℕ
refused_first [] = []
refused_first (works fd ∷ listp) = []
refused_first (no_socket ∷ listp) = refused_first listp
refused_first (refused fd closes ∷ listp) = fd ∷ refused_first listp

abbrev pub Closes : Address → Type 0
Closes (refused fd closes) = closes ≡ true
Closes _ = Unit

abbrev walk_end : Option ℕ → List ℕ → List ℕ → Walk
walk_end none opened closed = record { ending = gave_up; opened = opened; closed = closed }
walk_end (some fd) opened closed = record {
  ending = chose fd;
  opened = opened ++ fd ∷ [];
  closed = closed;
}

-- The walk over addresses whose sockets can all be closed.
abbrev walk : List Address → List ℕ → List ℕ → Walk
walk listp opened closed =
    walk_end (first listp) (opened ++ refused_first listp) (closed ++ refused_first listp)

walk_none :
    (o : Option ℕ) (opened closed : List ℕ)
    → walk_end o opened closed ≡ walk_end o (opened ++ []) (closed ++ [])
walk_none o opened closed = λ i. walk_end o (sym (append-nil opened) i) (sym (append-nil closed) i)

-- A socket that is refused adds itself to both lists.
walk-refused :
    (fd : ℕ) (closes : Bool) (listp : List Address) (opened closed : List ℕ)
    → walk listp (opened ++ fd ∷ []) (closed ++ fd ∷ [])
      ≡ walk (refused fd closes ∷ listp) opened closed
walk-refused fd closes listp opened closed = λ i.
    walk_end (first listp) (append_assoc opened (fd ∷ []) (refused_first listp) i)
      (append_assoc closed (fd ∷ []) (refused_first listp) i)

connect_loop-walk :
    (listp : List Address) (opened closed : List ℕ)
    → All Closes listp
    → connect_loop listp opened closed ≡ walk listp opened closed
unfolding connect_loop
connect_loop-walk [] opened closed h = walk_none none opened closed
connect_loop-walk (no_socket ∷ listp) opened closed h = connect_loop-walk listp opened closed h.1
connect_loop-walk (works fd ∷ listp) opened closed h = walk_none (some fd) opened closed
connect_loop-walk (refused fd false ∷ listp) opened closed h = cc
connect_loop-walk (refused fd true ∷ listp) opened closed h =
    connect_loop-walk listp (opened ++ fd ∷ []) (closed ++ fd ∷ []) h.1
    ∙ walk-refused fd true listp opened closed

bind_loop-walk :
    (listp : List Address) (opened closed : List ℕ)
    → All Closes listp
    → bind_loop listp opened closed ≡ walk listp opened closed
unfolding bind_loop
bind_loop-walk [] opened closed h = walk_none none opened closed
bind_loop-walk (no_socket ∷ listp) opened closed h = bind_loop-walk listp opened closed h.1
bind_loop-walk (works fd ∷ listp) opened closed h = walk_none (some fd) opened closed
bind_loop-walk (refused fd false ∷ listp) opened closed h = cc
bind_loop-walk (refused fd true ∷ listp) opened closed h =
    bind_loop-walk listp (opened ++ fd ∷ []) (closed ++ fd ∷ []) h.1
    ∙ walk-refused fd true listp opened closed

-- What is asked of `open_clientfd`: the first socket that works, and no other one open.
abbrev pub client : Option ℕ → List ℕ → Ending
client none rs = returns (negsuc 0) rs rs
client (some fd) rs = returns (pos fd) (rs ++ fd ∷ []) rs

-- And of `open_listenfd`: a socket that does not listen is closed as well.
abbrev pub server : Option ℕ → List ℕ → Bool → Ending
server none rs listens = returns (negsuc 0) rs rs
server (some fd) rs true = returns (pos fd) (rs ++ fd ∷ []) rs
server (some fd) rs false = returns (negsuc 0) (rs ++ fd ∷ []) (rs ++ fd ∷ [])

-- As long as the sockets that are refused can be closed, `open_clientfd` and `open_listenfd` return the
-- first socket that works, and -1 where there is none or where it does not listen; every other socket
-- that they opened is closed.
pub open_first :
    (listp : List Address) (listens : Bool)
    → All Closes listp
    → (open_clientfd (some listp) ≡ client (first listp) (refused_first listp))
      × (open_listenfd (some listp) listens ≡ server (first listp) (refused_first listp) listens)
unfolding open_clientfd open_listenfd
open_first listp listens h = (
  ap finish_client (connect_loop-walk listp [] [] h) ∙ on_client (first listp),
  ap (finish_listen listens) (bind_loop-walk listp [] [] h) ∙ on_server (first listp) listens,
)
  where
    rs : List ℕ
    rs = refused_first listp

    on_client : (o : Option ℕ) → finish_client (walk_end o rs rs) ≡ client o rs
    on_client none = refl
    on_client (some fd) = refl

    on_server : (o : Option ℕ) (b : Bool) → finish_listen b (walk_end o rs rs) ≡ server o rs b
    on_server none b = refl
    on_server (some fd) true = refl
    on_server (some fd) false = refl
