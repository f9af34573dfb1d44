-- ===== src/Rpc/Tcp.antt =====
-- rpc/mod.rs: `tcp_baseline`, the echo server over TCP and its client. What a stream still gives is
-- a list of bytes, after which it is closed. The times that `call` takes are not modelled.
use agent_transport.Base.{
  ℕ, zero, suc, Bool, true, false, Option, none, some, List, [], ◌∷◌, ◌++◌, length, map, take, drop,
  leb, if◌then◌else◌,
}
use agent_transport.Base.Bytes.{as_u32, le_bytes, from_le_bytes}
use agent_transport.Config.{SocketAddr}
use agent_transport.Base.Loops.{Step, goes_on, breaks, Standing, Turn, while_up}

-- `read_exact`: n bytes and what is left, or an error.
unfoldable pub read_exact : ℕ → List ℕ → Option (List ℕ × List ℕ)
read_exact n stream = if leb n (length stream) then some (take n stream, drop n stream) else none

-- A frame: the length as 4 bytes, which `as u32` cuts, and the payload.
unfoldable pub tcp_frame : List ℕ → List ℕ
tcp_frame body = le_bytes 4 (as_u32 (length body)) ++ body

-- A header and a body from a stream, as both sides read them.
unfoldable pub read_frame : List ℕ → Option (List ℕ × List ℕ)
read_frame stream = elim (read_exact 4 stream) [
  | none ↦ none
  | some (hdr, rest) ↦ read_exact (from_le_bytes hdr) rest
]

-- A connection's thread: all that it has written, and if it has returned.
pub record Conn : Type 0 where
  pub written : List ℕ
  pub returned : Bool

-- The loop of `handle_conn`, with fuel for its rounds. `writable k` tells if its write number k
-- succeeds.
unfoldable pub conn_loop : ℕ → (ℕ → Bool) → ℕ → List ℕ → List ℕ → Conn
conn_loop zero writable k written stream = record { written = written; returned = false }
conn_loop (suc fuel) writable k written stream = elim (read_frame stream) [
  | none ↦ record { written = written; returned = true }
  | some (body, rest) ↦
      let out = written ++ tcp_frame body in
      let later = conn_loop fuel writable (suc k) out rest in
      if writable k then later else record { written = written; returned = true }
]

-- Each round takes a header at least, so that this fuel is enough.
unfoldable pub handle_conn : (ℕ → Bool) → List ℕ → Conn
handle_conn writable stream = conn_loop (suc (length stream)) writable 0 [] stream

-- `call`: the reply of a server that gets `request` is `reply request`; the connection and the
-- write of the request may fail.
unfoldable pub call : Bool → Bool → (List ℕ → List ℕ) → List ℕ → Option (List ℕ)
call connects writes reply payload =
    let got = read_frame (reply (tcp_frame payload)) in
    if connects
    then (if writes then elim got [ none ↦ none | some (body, rest) ↦ some body ] else none)
    else none

-- What `accept` gives the loop of `TcpEchoServer::spawn`: a stream, which is then made blocking if
-- that succeeds; nothing yet; or an error.
pub data Accepted : Type 0 where
  stream : Bool → List ℕ → Accepted
  none_yet accept_fails : Accepted

-- The streams that have got a thread.
unfoldable pub accept_body : List (List ℕ) → Accepted → Step (List (List ℕ))
accept_body served (stream blocking bytes) =
    goes_on (if blocking then served ++ (bytes ∷ []) else served)
accept_body served none_yet = goes_on served
accept_body served accept_fails = breaks served

unfoldable pub accept_loop : List (List ℕ) → List (Turn Accepted) → Standing (List (List ℕ))
accept_loop served turns = while_up accept_body served turns

pub record TcpEchoServer : Type 0 where
  pub addr : SocketAddr
  pub stopping : Bool
  pub thread : Option (List (List ℕ))

-- `TcpEchoServer::spawn`: the address of the listener, if it is set up.
unfoldable pub spawn_tcp : Option SocketAddr → Option TcpEchoServer
spawn_tcp none = none
spawn_tcp (some addr) = some (record { addr = addr; stopping = false; thread = some [] })

-- `drop` sets the flag and joins the thread: `left` is what it accepts before it reads the flag.
unfoldable pub drop_tcp :
    TcpEchoServer → List Accepted → TcpEchoServer × Option (Standing (List (List ℕ)))
drop_tcp s left = (
  record s { stopping = true; thread = none },
  elim s.thread [
    | none ↦ none
    | some served ↦ some (
        accept_loop served (
          map (λ a. record { stop = false; input = a }) left
          ++ (record { stop = true; input = none_yet } ∷ [])))
  ],
)
