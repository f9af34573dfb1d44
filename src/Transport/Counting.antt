-- ===== src/Transport/Counting.antt =====
-- The I/O loop gives no message a number.
use agent_transport.Base.{ℕ, ◌-◌, Bool, false, List, [], leb, Bool-cases, inl, inr}
use agent_transport.Packet.{
  Packet, PacketType, «data», grant, resend, busy, decode, Decoded, ok, err,
}
use agent_transport.Config.{SocketAddr, msg_key_eq, Action}
use agent_transport.TxQueue.Filed.{IsFiled}
use agent_transport.Sender.{handle_grant, handle_resend, handle_busy}
use agent_transport.Receiver.Handlers.{handle_data, returns, panics, Outcome}
use agent_transport.Transport.{
  State, Round, goes_on, dies, IoLoop, Received, datagram, nothing, Iteration, continues,
  thread_dies, drain, on_packet, tick, tick_if_due, io_iteration,
}
use agent_transport.Transport.Drain.{drain-Drains}
use agent_transport.Transport.Rounds.{IsSound, IfGoesOn, on_packet-IfGoesOn}
use agent_transport.Transport.Numbers.{
  Numbered, handle_grant-Numbered, handle_resend-Numbered, handle_busy-Numbered, tick-Numbered,
}

pub drain-Numbered :
    (P : ℕ → Type 0) (st : State) (actions : List Action)
    → IsFiled st.tx
    → Numbered P st.sender
    → Numbered P (drain st actions).state.sender
drain-Numbered P st actions f h = rw (drain-Drains st actions f).sender h

abbrev AfterRound : (ℕ → Type 0) → Round → Type 0
AfterRound P (goes_on d) = Numbered P d.state.sender
AfterRound P dies = Unit

on_packet-Numbered :
    (P : ℕ → Type 0) (typ : PacketType) (st : State) (src : SocketAddr) (pkt : Packet)
    (payload : List ℕ) (now : ℕ)
    → IsFiled st.tx
    → Numbered P st.sender
    → AfterRound P (on_packet typ st src pkt payload now)
unfolding on_packet
on_packet-Numbered P «data» st src pkt payload now f h =
    elim (handle_data st.receiver src pkt payload now)
      as (λ (o : Outcome). AfterRound P (elim o [
        | returns r ↦ goes_on (drain (record st { receiver = r.0 }) r.1)
        | panics ↦ dies
      ])) [ returns r ↦ drain-Numbered P (record st { receiver = r.0 }) r.1 f h | panics ↦ tt ]
on_packet-Numbered P grant st src pkt payload now f h =
    drain-Numbered P (record st { sender = (handle_grant st.sender src pkt now).0 }) _ f
      (handle_grant-Numbered P st.sender src pkt now h)
on_packet-Numbered P resend st src pkt payload now f h =
    drain-Numbered P (record st { sender = (handle_resend st.sender src pkt now).0 }) _ f
      (handle_resend-Numbered P st.sender src pkt now h)
on_packet-Numbered P busy st src pkt payload now f h =
    drain-Numbered P (record st { sender = handle_busy st.sender src pkt now }) _ f
      (handle_busy-Numbered P st.sender src pkt now h)

abbrev pub AfterIteration : (ℕ → Type 0) → Iteration → Type 0
AfterIteration P (continues l datagrams notified) = Numbered P l.state.sender
AfterIteration P thread_dies = Unit

tick_if_due-Numbered :
    (P : ℕ → Type 0) (l : IoLoop) (datagrams : List (SocketAddr × List ℕ)) (notified : Bool)
    (now : ℕ)
    → IsFiled l.state.tx
    → Numbered P l.state.sender
    → AfterIteration P (tick_if_due l datagrams notified now)
unfolding tick_if_due tick
tick_if_due-Numbered P l datagrams notified now f h =
    elim (Bool-cases (leb 5 (now - l.last_tick))) [
      | inl due ↦ rw due (drain-Numbered P _ _ f (tick-Numbered P now l.state.sender h))
      | inr early ↦ rw early h
    ]

after_packet :
    (P : ℕ → Type 0) (l : IoLoop) (later : ℕ) (r : Round)
    → IfGoesOn r
    → AfterRound P r
    → AfterIteration P (elim r [
      | dies ↦ thread_dies
      | goes_on d ↦ tick_if_due (record l { state = d.state }) d.datagrams d.notified later
    ])
after_packet P l later dies sound h = tt
after_packet P l later (goes_on d) sound h =
    tick_if_due-Numbered P (record l { state = d.state }) d.datagrams d.notified later sound.filed h

pub io_iteration-Numbered :
    (P : ℕ → Type 0) (l : IoLoop) (input : Received) (now later : ℕ)
    → IsSound l.state
    → Numbered P l.state.sender
    → AfterIteration P (io_iteration l input now later)
unfolding io_iteration
io_iteration-Numbered P l nothing now later sound h =
    tick_if_due-Numbered P l [] false later sound.filed h
io_iteration-Numbered P l (datagram src bytes) now later sound h =
    elim (decode bytes)
      as (λ (r : Decoded). AfterIteration P (elim r [
        | err e ↦ continues l [] false
        | ok pkt payload ↦ elim (on_packet pkt.typ l.state src pkt payload now) [
          | dies ↦ thread_dies
          | goes_on d ↦ tick_if_due (record l { state = d.state }) d.datagrams d.notified later
        ]
      ])) [
        | err e ↦ h
        | ok pkt payload ↦
            after_packet P l later (on_packet pkt.typ l.state src pkt payload now)
              (on_packet-IfGoesOn pkt.typ l.state src pkt payload now sound)
              (on_packet-Numbered P pkt.typ l.state src pkt payload now sound.filed h)
      ]
