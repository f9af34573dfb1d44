-- ===== src/Transport.antt =====
-- transport/mod.rs: the transport over the two state machines. The datagrams that the code hands to
-- the socket are a list that a step returns, and a wake-up of the waiters is a Boolean.
pub mod Drain
pub mod Rounds
pub mod Numbers
pub mod Counting
pub mod Given
pub mod Fresh
pub mod Lifecycle
pub mod Waiting
pub mod Working
use agent_transport.Base.{
  ℕ, ◌+◌, ◌-◌, ◌%◌, ◌^◌, Bool, true, false, ◌||◌, Option, none, some, List, [], ◌∷◌, ◌++◌, leb,
  ◌==◌, if◌then◌else◌,
}
use agent_transport.Base.Picks.{pull}
use agent_transport.Packet.{Packet, PacketType, «data», grant, resend, busy, decode, ok, err}
use agent_transport.Config.{SocketAddr, Action, send, deliver, TransportConfig}
use agent_transport.TxQueue.{
  TxQueues, Outgoing, classify, pop_batch, flush_budget, new as new_queues,
}
use agent_transport.Sender.{
  SenderCore, start, handle_grant, handle_resend, handle_busy, is_done, finish, new as new_sender,
  tick as sender_tick,
}
use agent_transport.Receiver.State.{ReceiverCore, new as new_receiver}
use agent_transport.Receiver.Handlers.{handle_data, returns, panics, tick as receiver_tick}

pub record State : Type 0 where
  pub sender : SenderCore
  pub receiver : ReceiverCore
  pub completed : List (SocketAddr × List ℕ)
  pub tx : TxQueues

-- The fields of `Inner` that the code computes with.
pub record Inner : Type 0 where
  pub state : State
  pub msg_counter : ℕ
  pub send_timeout : ℕ

-- `bind`, after the socket is set up.
unfoldable pub bind : TransportConfig → Inner
bind cfg = record {
  state = record {
    sender = new_sender cfg;
    receiver = new_receiver cfg;
    completed = [];
    tx = new_queues;
  };
  msg_counter = 1;
  send_timeout = cfg.send_timeout;
}

-- What a step leaves, what it hands to the socket, and if it wakes the waiters.
pub record Drained : Type 0 where
  pub state : State
  pub datagrams : List Outgoing
  pub notified : Bool

-- The loop of `drain` over the actions.
unfoldable pub drain_actions : State → List Action → Drained
drain_actions st [] = record { state = st; datagrams = []; notified = false }
drain_actions st (deliver src msg_id bytes ∷ actions) =
    record (drain_actions (record st { completed = st.completed ++ ((src, bytes) ∷ []) }) actions) {
      notified = true;
    }
drain_actions st (send dest bytes ∷ actions) =
    let (tx, direct) = classify st.tx dest bytes in
    let r = drain_actions (record st { tx = tx }) actions in
    elim direct [ none ↦ r | some item ↦ record r { datagrams = item ∷ r.datagrams } ]

unfoldable pub drain : State → List Action → Drained
drain st actions =
    let r = drain_actions st actions in
    let (batch, tx) = pop_batch r.state.tx flush_budget in
    record r { state = record r.state { tx = tx }; datagrams = r.datagrams ++ batch }

-- `send_to` takes the number of its message before it holds the lock.
unfoldable pub take_number : Inner → Inner × ℕ
take_number inner =
    (record inner { msg_counter = (inner.msg_counter + 1) % 2 ^ 64 }, inner.msg_counter)

-- Then, under the lock, it starts the message: the actions are what `dispatch` drains.
unfoldable pub begin_send : Inner → SocketAddr → ℕ → List ℕ → ℕ → Inner × List Action
begin_send inner dest msg_id bytes now =
    let (sender, actions) = start inner.state.sender dest msg_id bytes now in
    (record inner { state = record inner.state { sender = sender } }, actions)

unfoldable pub dispatch : Inner → List Action → Inner × Drained
dispatch inner actions = let d = drain inner.state actions in (record inner { state = d.state }, d)

-- One round of the loop of `send_to`.
pub data SendPoll : Type 0 where
  sent : ℕ → SendPoll
  timed_out waits : SendPoll

unfoldable pub poll_send : Inner → SocketAddr → ℕ → ℕ → ℕ → Inner × SendPoll
poll_send inner dest msg_id deadline now =
    if is_done inner.state.sender dest msg_id
    then (inner, sent msg_id)
    else if deadline - now == 0
    then (
      record inner {
        state = record inner.state { sender = finish inner.state.sender dest msg_id };
      },
      timed_out,
    )
    else (inner, waits)

-- One round of the loop of `recv`.
pub data RecvPoll : Type 0 where
  received : SocketAddr → List ℕ → RecvPoll
  would_block idles : RecvPoll

unfoldable pub recv_next : State → ℕ → ℕ → List (SocketAddr × List ℕ) → State × RecvPoll
recv_next st deadline now ((src, bytes) ∷ rest) =
    (record st { completed = rest }, received src bytes)
recv_next st deadline now [] = (st, if deadline - now == 0 then would_block else idles)

unfoldable pub poll_recv : State → ℕ → ℕ → State × RecvPoll
unfolding recv_next
poll_recv st deadline now = recv_next st deadline now st.completed

-- What a part of the I/O loop does; a panic ends the thread.
pub data Round : Type 0 where
  goes_on : Drained → Round
  dies : Round

-- The `match` on the packet's type, and the drain after it.
unfoldable pub on_packet : PacketType → State → SocketAddr → Packet → List ℕ → ℕ → Round
on_packet «data» st src pkt payload now = elim (handle_data st.receiver src pkt payload now) [
  | returns (receiver, actions) ↦ goes_on (drain (record st { receiver = receiver }) actions)
  | panics ↦ dies
]
on_packet grant st src pkt payload now =
    let (sender, actions) = handle_grant st.sender src pkt now in
    let d = drain (record st { sender = sender }) actions in
    goes_on (record d { notified = is_done sender src pkt.msg_id || d.notified })
on_packet resend st src pkt payload now =
    let (sender, actions) = handle_resend st.sender src pkt now in
    goes_on (drain (record st { sender = sender }) actions)
on_packet busy st src pkt payload now =
    goes_on (drain (record st { sender = handle_busy st.sender src pkt now }) [])

abbrev pub tick_interval : ℕ
tick_interval = 5

-- The ticks of both state machines, and the drain after them.
unfoldable pub tick : State → ℕ → Drained
tick st now =
    let (sender, probes) = sender_tick st.sender now in
    let (receiver, requests) = receiver_tick now st.receiver in
    drain (record st { sender = sender; receiver = receiver }) (probes ++ requests)

-- The state of `io_loop`.
pub record IoLoop : Type 0 where
  pub state : State
  pub last_tick : ℕ

-- What `recv_from` gives: a datagram, or an error, a timeout of the socket among them.
pub data Received : Type 0 where
  datagram : SocketAddr → List ℕ → Received
  nothing : Received

pub data Iteration : Type 0 where
  continues : IoLoop → List Outgoing → Bool → Iteration
  thread_dies : Iteration

-- The end of an iteration: the ticks, if their time has come.
unfoldable pub tick_if_due : IoLoop → List Outgoing → Bool → ℕ → Iteration
tick_if_due l datagrams notified now =
    let d = tick l.state now in
    if leb tick_interval (now - l.last_tick)
    then continues (record { state = d.state; last_tick = now }) (datagrams ++ d.datagrams)
        (notified || d.notified)
    else continues l datagrams notified

-- One iteration of `io_loop`. A datagram that is no packet goes back to the loop's head.
unfoldable pub io_iteration : IoLoop → Received → ℕ → ℕ → Iteration
io_iteration l nothing now later = tick_if_due l [] false later
io_iteration l (datagram src bytes) now later = elim (decode bytes) [
  | err e ↦ continues l [] false
  | ok pkt payload ↦ elim (on_packet pkt.typ l.state src pkt payload now) [
    | dies ↦ thread_dies
    | goes_on d ↦ tick_if_due (record l { state = d.state }) d.datagrams d.notified later
  ]
]

-- A transport with its I/O thread, and the numbers that callers of `send_to` have taken for messages
-- that they have not started yet.
pub record Node : Type 0 where
  pub inner : Inner
  pub last_tick : ℕ
  pub taken : List ℕ

-- What may happen next, between two holds of the lock. The caller that starts its message has taken
-- the number at position k of those that wait.
pub data Event : Type 0 where
  iterates : Received → ℕ → ℕ → Event
  takes : Event
  begins : ℕ → SocketAddr → List ℕ → ℕ → Event
  dispatches : List Action → Event
  polls_send : SocketAddr → ℕ → ℕ → ℕ → Event
  polls_recv : ℕ → ℕ → Event

-- A panic of the I/O thread poisons the lock, and ends every later call too.
unfoldable pub advance : Node → Event → Option Node
advance n (iterates input now later) =
    elim (io_iteration (record { state = n.inner.state; last_tick = n.last_tick }) input now
      later) [
        | continues l datagrams notified ↦
            some (record n { inner = record n.inner { state = l.state }; last_tick = l.last_tick })
        | thread_dies ↦ none
      ]
advance n takes =
    let (inner, msg_id) = take_number n.inner in
    some (record n { inner = inner; taken = n.taken ++ (msg_id ∷ []) })
advance n (begins k dest bytes now) = elim (pull k n.taken) [
  | none ↦ some n
  | some (msg_id, rest) ↦
      some (record n { inner = (begin_send n.inner dest msg_id bytes now).0; taken = rest })
]
advance n (dispatches actions) = some (record n { inner = (dispatch n.inner actions).0 })
advance n (polls_send dest msg_id deadline now) =
    some (record n { inner = (poll_send n.inner dest msg_id deadline now).0 })
advance n (polls_recv deadline now) =
    some (record n { inner = record n.inner { state = (poll_recv n.inner.state deadline now).0 } })

unfoldable pub run : Node → List Event → Option Node
run n [] = some n
run n (e ∷ events) = elim (advance n e) [ none ↦ none | some n' ↦ run n' events ]
