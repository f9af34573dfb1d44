-- ===== src/Tests/Ending.antt =====
-- Tests of loops that end: of the I/O thread, of callers that wait, and of the TCP echo server.
use agent_transport.Base.{
  ℕ, ◌≡◌, refl, inl, inr, Bool, true, false, none, some, List, [], ◌∷◌, take, arith,
}
use agent_transport.Base.Bytes.{as_u32, from_le_bytes}
use agent_transport.Base.Loops.{Turn}
use agent_transport.Config.{SocketAddr, TransportConfig, default}
use agent_transport.Transport.{bind, datagram, nothing}
use agent_transport.Transport.Lifecycle.{Input, hears, fails, IoThread, Wakeup}
use agent_transport.Transport.Waiting.{SendEnds, send_wait-Ends, RecvEnds, recv_wait-Ends}
use agent_transport.Rpc.Tcp.{handle_conn, call, read_frame, read_exact}
use agent_transport.Rpc.Echo.{frames, handle_conn_echoes, call_echoes}

abbrev small : TransportConfig
small = record default { packet_size = 4; unscheduled_bytes = 6; grant_increment = 4 }

abbrev peer : SocketAddr
peer = record { ip = 0x7f00_0001; port = 9000 }

abbrev thread : IoThread
thread = record {
  loop = record { state = (bind small).state; last_tick = 0 };
  datagrams = [];
  wake_ups = 0;
  dead = false;
}

abbrev turn : Bool → Input → Turn Input
turn stop input = record { stop = stop; input = input }

abbrev stray : Turn Input
stray = turn false (hears (datagram peer (1 ∷ 2 ∷ [])) 1 2)

abbrev idle : Turn Input
idle = turn false (hears nothing 7 8)

abbrev stopped : Turn Input
stopped = turn true (fails true 9)

abbrev wakes : List Wakeup
wakes = record { inner = bind small; now = 3 } ∷ record { inner = bind small; now = 12 } ∷ []

send_wait-Ends_example : SendEnds peer 1 10 wakes
send_wait-Ends_example = send_wait-Ends peer 1 10 wakes (inr (inl (omega arith)))

recv_wait-Ends_example : RecvEnds 10 wakes
recv_wait-Ends_example = recv_wait-Ends 10 wakes (inr (inl (omega arith)))

abbrev always : ℕ → Bool
always k = true

short_tail : read_frame (2 ∷ 0 ∷ 0 ∷ 0 ∷ 7 ∷ []) ≡ none
unfolding read_frame read_exact from_le_bytes
short_tail = refl

abbrev bodies : List (List ℕ)
bodies = (7 ∷ 8 ∷ []) ∷ [] ∷ []

handle_conn_echoes_example :
    handle_conn always (frames bodies (2 ∷ 0 ∷ 0 ∷ 0 ∷ 7 ∷ []))
    ≡ record { written = frames bodies []; returned = true }
handle_conn_echoes_example =
    handle_conn_echoes always bodies (2 ∷ 0 ∷ 0 ∷ 0 ∷ 7 ∷ []) (λ i. refl)
      (omega arith, (omega arith, tt)) short_tail

call_echoes_example :
    call true true (λ request. (handle_conn always request).written) (7 ∷ 8 ∷ 9 ∷ [])
    ≡ some (take (as_u32 3) (7 ∷ 8 ∷ 9 ∷ []))
call_echoes_example = call_echoes always (7 ∷ 8 ∷ 9 ∷ []) refl
