-- ===== src/Transport/Rounds.antt =====
-- The I/O loop and the calls of the transport keep the invariants of its parts.
use agent_transport.Base.{
  ℕ, ◌-◌, ◌<◌, Bool, false, Option, none, some, List, [], ◌∷◌, leb, ◌==◌, Bool-cases, inl, inr,
}
use agent_transport.Base.Picks.{pull-cases}
use agent_transport.Packet.{
  Packet, PacketType, «data», grant, resend, busy, decode, Decoded, ok, err,
}
use agent_transport.Config.{SocketAddr, Action, TransportConfig}
use agent_transport.TxQueue.Filed.{IsFiled, IsFiled-new}
use agent_transport.Sender.{SenderCore, handle_grant, handle_resend, handle_busy, finish, is_done}
use agent_transport.Sender.Valid.{IsValid}
use agent_transport.Sender.Invariant.{
  step, step-IsValid, starts, grants, resends, busies, ticks, finishes, new-IsValid,
}
use agent_transport.Receiver.Handlers.{handle_data, returns, panics}
use agent_transport.Receiver.Valid.{IsReceiver}
use agent_transport.Receiver.Keeping.{Keeps, handle_data-Keeps}
use agent_transport.Receiver.Invariant.{tick-IsReceiver, new-IsReceiver}
use agent_transport.Transport.{
  State, Inner, Round, goes_on, dies, IoLoop, Received, datagram, nothing, Iteration, continues,
  thread_dies, drain, on_packet, tick, tick_if_due, io_iteration, take_number, begin_send, dispatch,
  poll_send, poll_recv, recv_next, bind, Node, Event, iterates, takes, begins, dispatches,
  polls_send, polls_recv, advance, run,
}
use agent_transport.Transport.Drain.{drain-Drains}

-- The invariants of the transport's parts.
pub record IsSound (st : State) : Type 0 where
  pub sender : IsValid st.sender
  pub receiver : IsReceiver st.receiver
  pub filed : IsFiled st.tx

pub drain-IsSound :
    (st : State) (actions : List Action) → IsSound st → IsSound (drain st actions).state
drain-IsSound st actions h =
    let d = drain-Drains st actions h.filed in
    record { sender = rw d.sender h.sender; receiver = rw d.receiver h.receiver; filed = d.filed }

-- A new state of the sender.
with_sender :
    (st : State) (s : SenderCore) → IsSound st → IsValid s → IsSound (record st { sender = s })
with_sender st s h v = record { sender = v; receiver = h.receiver; filed = h.filed }

abbrev pub IfGoesOn : Round → Type 0
IfGoesOn (goes_on d) = IsSound d.state
IfGoesOn dies = Unit

pub on_packet-IfGoesOn :
    (typ : PacketType) (st : State) (src : SocketAddr) (pkt : Packet) (payload : List ℕ) (now : ℕ)
    → IsSound st
    → IfGoesOn (on_packet typ st src pkt payload now)
unfolding on_packet step
on_packet-IfGoesOn «data» st src pkt payload now h =
    elim (handle_data st.receiver src pkt payload now)
        as (λ o.
          Keeps o
          → IfGoesOn (elim o [
            | returns r ↦ goes_on (drain (record st { receiver = r.0 }) r.1)
            | panics ↦ dies
          ])) [
            | returns r ↦ λ v.
                drain-IsSound _ r.1 (record { sender = h.sender; receiver = v; filed = h.filed })
            | panics ↦ λ v. tt
          ]
      (handle_data-Keeps st.receiver src pkt payload now h.receiver)
on_packet-IfGoesOn grant st src pkt payload now h = drain-IsSound _ _ (
    with_sender st (handle_grant st.sender src pkt now).0 h
      (step-IsValid st.sender (grants src pkt now) h.sender))
on_packet-IfGoesOn resend st src pkt payload now h = drain-IsSound _ _ (
    with_sender st (handle_resend st.sender src pkt now).0 h
      (step-IsValid st.sender (resends src pkt now) h.sender))
on_packet-IfGoesOn busy st src pkt payload now h = drain-IsSound _ _ (
    with_sender st (handle_busy st.sender src pkt now) h
      (step-IsValid st.sender (busies src pkt now) h.sender))

tick-IsSound : (st : State) (now : ℕ) → IsSound st → IsSound (tick st now).state
unfolding tick step
tick-IsSound st now h = drain-IsSound _ _ (record {
  sender = step-IsValid st.sender (ticks now) h.sender;
  receiver = tick-IsReceiver now st.receiver h.receiver;
  filed = h.filed;
})

abbrev pub IfContinues : Iteration → Type 0
IfContinues (continues l datagrams notified) = IsSound l.state
IfContinues thread_dies = Unit

tick_if_due-IfContinues :
    (l : IoLoop) (datagrams : List (SocketAddr × List ℕ)) (notified : Bool) (now : ℕ)
    → IsSound l.state
    → IfContinues (tick_if_due l datagrams notified now)
unfolding tick_if_due
tick_if_due-IfContinues l datagrams notified now h = elim (Bool-cases (leb 5 (now - l.last_tick))) [
  | inl due ↦ rw due (tick-IsSound l.state now h)
  | inr early ↦ rw early h
]

after_packet :
    (l : IoLoop) (later : ℕ) (r : Round)
    → IfGoesOn r
    → IfContinues (elim r [
      | dies ↦ thread_dies
      | goes_on d ↦ tick_if_due (record l { state = d.state }) d.datagrams d.notified later
    ])
after_packet l later dies h = tt
after_packet l later (goes_on d) h =
    tick_if_due-IfContinues (record l { state = d.state }) d.datagrams d.notified later h

-- One iteration of the I/O loop, on any datagram or on none, keeps the invariants of the sender, of
-- the receiver and of the send queues, unless the thread dies of a panic.
pub io_iteration-IfContinues :
    (l : IoLoop) (input : Received) (now later : ℕ)
    → IsSound l.state
    → IfContinues (io_iteration l input now later)
unfolding io_iteration
io_iteration-IfContinues l nothing now later h = tick_if_due-IfContinues l [] false later h
io_iteration-IfContinues l (datagram src bytes) now later h =
    elim (decode bytes)
      as (λ (r : Decoded). IfContinues (elim r [
        | err e ↦ continues l [] false
        | ok pkt payload ↦ elim (on_packet pkt.typ l.state src pkt payload now) [
          | dies ↦ thread_dies
          | goes_on d ↦ tick_if_due (record l { state = d.state }) d.datagrams d.notified later
        ]
      ])) [
        | err e ↦ h
        | ok pkt payload ↦
            after_packet l later (on_packet pkt.typ l.state src pkt payload now)
              (on_packet-IfGoesOn pkt.typ l.state src pkt payload now h)
      ]

begin_send-IsSound :
    (inner : Inner) (dest : SocketAddr) (msg_id : ℕ) (bytes : List ℕ) (now : ℕ)
    → IsSound inner.state
    → IsSound (begin_send inner dest msg_id bytes now).0.state
unfolding begin_send step
begin_send-IsSound inner dest msg_id bytes now h =
    with_sender inner.state _ h
      (step-IsValid inner.state.sender (starts dest msg_id bytes now) h.sender)

poll_send-IsSound :
    (inner : Inner) (dest : SocketAddr) (msg_id deadline now : ℕ)
    → IsSound inner.state
    → IsSound (poll_send inner dest msg_id deadline now).0.state
unfolding poll_send step
poll_send-IsSound inner dest msg_id deadline now h =
    elim (Bool-cases (is_done inner.state.sender dest msg_id)) [
      | inl all ↦ rw all h
      | inr more ↦ elim (Bool-cases (deadline - now == 0)) [
        | inl over ↦
            rw (more, over)
              (with_sender inner.state (finish inner.state.sender dest msg_id) h
                (step-IsValid inner.state.sender (finishes dest msg_id) h.sender))
        | inr waits ↦ rw (more, waits) h
      ]
    ]

recv_next-IsSound :
    (st : State) (deadline now : ℕ) (waiting : List (SocketAddr × List ℕ))
    → IsSound st
    → IsSound (recv_next st deadline now waiting).0
unfolding recv_next
recv_next-IsSound st deadline now [] h = h
recv_next-IsSound st deadline now (m ∷ rest) h = record {
  sender = h.sender;
  receiver = h.receiver;
  filed = h.filed;
}

abbrev pub IfAlive : Option Node → Type 0
IfAlive none = Unit
IfAlive (some n) = IsSound n.inner.state

pub advance-IfAlive : (n : Node) (e : Event) → IsSound n.inner.state → IfAlive (advance n e)
unfolding advance
advance-IfAlive n (iterates input now later) h =
    elim (io_iteration (record { state = n.inner.state; last_tick = n.last_tick }) input now later)
        as (λ i.
          IfContinues i
          → IfAlive (elim i [
            | continues l datagrams notified ↦
                some
                  (record n { inner = record n.inner { state = l.state }; last_tick = l.last_tick })
            | thread_dies ↦ none
          ])) [ continues l datagrams notified ↦ λ s. s | thread_dies ↦ λ s. tt ]
      (io_iteration-IfContinues (record { state = n.inner.state; last_tick = n.last_tick }) input
        now later h)
advance-IfAlive n takes h = unfold take_number in h
advance-IfAlive n (begins k dest bytes now) h = elim (pull-cases k n.taken) [
  | inl (empty, e) ↦ rw (e, advance) h
  | inr (msg_id, rest, e, p) ↦ rw (e, advance) (begin_send-IsSound n.inner dest msg_id bytes now h)
]
advance-IfAlive n (dispatches actions) h =
    unfold dispatch in (drain-IsSound n.inner.state actions h)
advance-IfAlive n (polls_send dest msg_id deadline now) h =
    poll_send-IsSound n.inner dest msg_id deadline now h
advance-IfAlive n (polls_recv deadline now) h =
    unfold poll_recv in (recv_next-IsSound n.inner.state deadline now n.inner.state.completed h)

run-IfAlive : (n : Node) (events : List Event) → IsSound n.inner.state → IfAlive (run n events)
unfolding run
run-IfAlive n [] h = h
run-IfAlive n (e ∷ events) h =
    elim (advance n e)
        as (λ o. IfAlive o → IfAlive (elim o [ none ↦ none | some n' ↦ run n' events ])) [
          | none ↦ λ dead. tt
          | some n' ↦ λ h'. run-IfAlive n' events h'
        ]
      (advance-IfAlive n e h)

pub bind-IsSound : (cfg : TransportConfig) → 0 < cfg.packet_size → IsSound (bind cfg).state
unfolding bind
bind-IsSound cfg pos = record {
  sender = new-IsValid cfg pos;
  receiver = new-IsReceiver cfg;
  filed = IsFiled-new;
}

-- From `bind` on, whatever the I/O thread receives and whatever the callers of `send_to` and `recv`
-- do, in any order: as long as the thread does not die of a panic, the sender's and the receiver's
-- invariants hold, and every packet in the send queues stands in the queue of its priority. The
-- packet size is not zero.
pub run-bind-IfAlive :
    (cfg : TransportConfig) (started : ℕ) (events : List Event)
    → 0 < cfg.packet_size
    → IfAlive (run (record { inner = bind cfg; last_tick = started; taken = [] }) events)
run-bind-IfAlive cfg started events pos =
    run-IfAlive (record { inner = bind cfg; last_tick = started; taken = [] }) events
      (bind-IsSound cfg pos)
