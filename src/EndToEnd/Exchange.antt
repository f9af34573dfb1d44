-- ===== src/EndToEnd/Exchange.antt =====
-- Two ends and the datagrams between them: `handle_grant`, `handle_resend` and `handle_busy` of
-- src/transport/sender.rs at one end, `handle_data` of src/transport/receiver.rs at the other. The
-- datagrams arrive in any order; none is lost, and none comes twice.
pub mod Flights
pub mod Single
pub mod Feeding
pub mod Steps
pub mod Downward
pub mod Late
pub mod Upward
pub mod Nearing
pub mod Delivers
use agent_transport.Base.{ℕ, min, Bool, true, false, none, some, List, [], ◌∷◌, ◌++◌, map, length}
use agent_transport.Base.Picks.{pull}
use agent_transport.Packet.{Packet, PacketType, «data», grant, resend, busy, decode, ok, err}
use agent_transport.Config.{SocketAddr, Action, send, deliver, TransportConfig}
use agent_transport.Sender.{
  SenderCore, new as new_sender, start, handle_grant, handle_resend, handle_busy,
}
use agent_transport.Receiver.State.{ReceiverCore, new as new_receiver}
use agent_transport.Receiver.Handlers.{handle_data, returns, panics}
use agent_transport.Receiver.Chunks.{deliveries}

-- A datagram on its way to the receiver, or to the sender.
pub data Flight : Type 0 where
  down up : List ℕ → Flight

pub record Exchange : Type 0 where
  pub sender : SenderCore
  pub receiver : ReceiverCore
  pub net : List Flight
  pub delivered : List Action
  pub panicked : Bool

-- The datagrams that a list of actions sends.
unfoldable pub datagrams : List Action → List (List ℕ)
datagrams [] = []
datagrams (send dest bytes ∷ actions) = bytes ∷ datagrams actions
datagrams (deliver src msg_id bytes ∷ actions) = datagrams actions

-- The sender's address, and the receiver's.
module _ (from to : SocketAddr) where
  -- The sender's part of the `match` of `io_loop`.
  abbrev pub sender_on : PacketType → SenderCore → Packet → ℕ → SenderCore × List Action
  sender_on «data» s pkt now = (s, [])
  sender_on grant s pkt now = handle_grant s to pkt now
  sender_on resend s pkt now = handle_resend s to pkt now
  sender_on busy s pkt now = (handle_busy s to pkt now, [])

  abbrev pub at_sender : Exchange → SenderCore × List Action → Exchange
  at_sender x (s, actions) = record x {
    sender = s;
    net = x.net ++ map (λ d. down d) (datagrams actions);
  }

  abbrev pub at_receiver : Exchange → ReceiverCore × List Action → Exchange
  at_receiver x (r, actions) = record x {
    receiver = r;
    net = x.net ++ map (λ d. up d) (datagrams actions);
    delivered = x.delivered ++ deliveries actions;
  }

  -- The receiver's part.
  abbrev pub receiver_on : PacketType → Exchange → Packet → List ℕ → ℕ → Exchange
  receiver_on «data» x pkt payload now = elim (handle_data x.receiver from pkt payload now) [
    | returns r ↦ at_receiver x r
    | panics ↦ record x { panicked = true }
  ]
  receiver_on grant x pkt payload now = x
  receiver_on resend x pkt payload now = x
  receiver_on busy x pkt payload now = x

  -- A datagram arrives.
  unfoldable pub arrive : Exchange → Flight → ℕ → Exchange
  arrive x (down datagram) now = elim (decode datagram) [
    | err e ↦ x
    | ok pkt payload ↦ receiver_on pkt.typ x pkt payload now
  ]
  arrive x (up datagram) now = elim (decode datagram) [
    | err e ↦ x
    | ok pkt payload ↦ at_sender x (sender_on pkt.typ x.sender pkt now)
  ]

  -- The next to arrive is the datagram at position k.
  unfoldable pub arrive_next : Exchange → ℕ → ℕ → Exchange
  arrive_next x k now = elim (pull k x.net) [
    | none ↦ x
    | some (flight, rest) ↦ arrive (record x { net = rest }) flight now
  ]

  -- Arrivals, each with its position and its time.
  unfoldable pub exchange : Exchange → List (ℕ × ℕ) → Exchange
  exchange x [] = x
  exchange x ((k, now) ∷ picks) = exchange (arrive_next x k now) picks

  -- A message that a new sender starts, for a new receiver.
  unfoldable pub begin : TransportConfig → ℕ → List ℕ → ℕ → Exchange
  begin cfg msg_id bytes now =
      let (s, actions) = start (new_sender cfg) to msg_id bytes now in
      record {
        sender = s;
        receiver = new_receiver cfg;
        net = map (λ d. down d) (datagrams actions);
        delivered = [];
        panicked = false;
      }
