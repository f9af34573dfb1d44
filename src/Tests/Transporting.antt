-- ===== src/Tests/Transporting.antt =====
-- Tests of transport/mod.rs, and of a message from one end to the other.
use agent_transport.Base.{ℕ, ◌≡◌, refl, List, [], ◌∷◌, arith}
use agent_transport.Base.Dict.{get}
use agent_transport.Config.{
  SocketAddr, msg_key, msg_key_eq, TransportConfig, default, Action, send, deliver,
}
use agent_transport.TxQueue.Filed.{IsFiled-new}
use agent_transport.TxQueue.{new as new_queues}
use agent_transport.Sender.{SenderCore, start}
use agent_transport.Sender.{new as new_sender}
use agent_transport.Receiver.State.{ReceiverCore, contains}
use agent_transport.Receiver.State.{new as new_receiver}
use agent_transport.Receiver.Handlers.{returns}
use agent_transport.Receiver.Chunks.{Pending, deliveries}
use agent_transport.Receiver.Arrivals.{feed}
use agent_transport.Transport.{
  State, Event, drain, bind, iterates, takes, begins, polls_send, polls_recv, run, datagram,
  nothing,
}
use agent_transport.Transport.Drain.{Drains, drain-Drains}
use agent_transport.Transport.Rounds.{IfAlive, run-bind-IfAlive}
use agent_transport.Transport.Fresh.{IfFresh, run-bind-IfFresh}
use agent_transport.EndToEnd.{arrivals, single_trip}

abbrev small : TransportConfig
small = record default { packet_size = 4; unscheduled_bytes = 6; grant_increment = 4 }

abbrev peer : SocketAddr
peer = record { ip = 0x7f00_0001; port = 9000 }

abbrev fresh : State
fresh = record {
  sender = new_sender small;
  receiver = new_receiver small;
  completed = [];
  tx = new_queues;
}

-- A DATA packet's first bytes, a GRANT's, and a message.
abbrev actions : List Action
actions = send peer (0 ∷ 3 ∷ []) ∷ send peer (1 ∷ 0 ∷ []) ∷ deliver peer 7 (1 ∷ 2 ∷ []) ∷ []

drain-Drains_example : Drains fresh actions (drain fresh actions)
drain-Drains_example = drain-Drains fresh actions IsFiled-new

abbrev history : List Event
history =
    takes
    ∷ takes
    ∷ begins 1 peer (1 ∷ 2 ∷ 3 ∷ []) 0
    ∷ iterates (datagram peer (0 ∷ 1 ∷ [])) 1 2
    ∷ iterates nothing 7 8
    ∷ polls_send peer 1 30_000 9
    ∷ polls_recv 100 10
    ∷ []

run-bind-IfAlive_example :
    IfAlive (run (record { inner = bind small; last_tick = 0; taken = [] }) history)
run-bind-IfAlive_example = run-bind-IfAlive small 0 history (omega arith)

abbrev six : List ℕ
six = 1 ∷ 2 ∷ 3 ∷ 4 ∷ 5 ∷ 6 ∷ []

abbrev sender : SenderCore
sender = record { cfg = small; out = [] }

abbrev receiver : ReceiverCore
receiver = record { cfg = small; incoming = []; granting = []; completed = [] }

receiver-Pending : Pending 4 six (msg_key peer 1) receiver
unfolding contains get
receiver-Pending = record {
  pos = omega arith;
  size = refl;
  undelivered = refl;
  holds = tt;
  unfinished = tt;
  room = λ e. omega arith;
}

single_trip_example :
    (out : ReceiverCore × List Action) × (feed receiver peer
        (arrivals 5 (start sender peer 1 six 0).1)
      ≡ returns out)
    × (deliveries out.1 ≡ deliver peer 1 six ∷ [])
single_trip_example =
    single_trip sender receiver peer peer 1 six 0 5 (omega arith) (omega arith) (omega arith)
      (omega arith) (omega arith) receiver-Pending

run-bind-IfFresh_example :
    IfFresh peer (run (record { inner = bind small; last_tick = 0; taken = [] }) history)
run-bind-IfFresh_example = run-bind-IfFresh small 0 history peer (omega arith) (omega arith)
