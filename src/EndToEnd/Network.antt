-- ===== src/EndToEnd/Network.antt =====
-- Many senders and a receiver, with a network between them that loses, repeats and reorders
-- datagrams: whatever a peer has pushed for the receiver may come at any time, any number of times.
use agent_transport.Base.{
  ℕ, ◌*◌, ◌<◌, ◌≡◌, sym, ap, ◌∙◌, subst, List, [], ◌∷◌, All, All-Memᴰ, length,
}
use mathlib.Core.List.{Memᴰ}
use agent_transport.Packet.{Packet, decode, ok, err}
use agent_transport.Config.{SocketAddr, MsgKey, msg_key, Action, send, TransportConfig}
use agent_transport.Sender.{new as new_sender}
use agent_transport.Sender.Invariant.{Call}
use agent_transport.Sender.Genuine.{IsGenuine, Genuine}
use agent_transport.Sender.Acts.{AllFair, pushed_by}
use agent_transport.Sender.Faithful.{sender_faithful}
use agent_transport.Receiver.State.{ReceiverCore, new as new_receiver}
use agent_transport.Receiver.Handlers.{returns}
use agent_transport.Receiver.Invariant.{Event, arrives, ticks}
use agent_transport.Receiver.Reassembly.{chunk}
use agent_transport.Receiver.Chunks.{IsChunk}
use agent_transport.Receiver.Steps.{play}
use agent_transport.Receiver.Truthful.{IsTrue, IsHonest}
use agent_transport.Receiver.HonestRuns.{play_honest}
use agent_transport.EndToEnd.{data_packet-Decodes}

-- What comes to `me`: the time, or a datagram that its sender has pushed for `me`, decoded.
abbrev pub Carried : SocketAddr → (SocketAddr → List Action) → Event → Type 0
Carried me pushed (ticks now) = Unit
Carried me pushed (arrives src pkt payload now) =
    (datagram : List ℕ) × Memᴰ (send me datagram) (pushed src) × (decode datagram ≡ ok pkt payload)

-- A packet of a chunk, decoded, carries the chunk.
pub genuine-IsChunk :
    (sent : MsgKey → List ℕ) (packet_size : ℕ) (me : SocketAddr) (datagram : List ℕ) (pkt : Packet)
    (payload : List ℕ)
    → IsGenuine sent packet_size me datagram
    → decode datagram ≡ ok pkt payload
    → (q : ℕ) × IsChunk packet_size (sent (msg_key me pkt.msg_id)) q pkt payload
genuine-IsChunk sent packet_size me datagram pkt payload g e =
    let d =
      data_packet-Decodes packet_size (sent (msg_key me g.id)) g.id g.q g.length_u32 g.id_u64
        g.inside in
    let same : ok pkt payload ≡ ok d.packet d.payload = sym e ∙ (ap decode g.bytes ∙ d.decodes) in
    let packets : pkt ≡ d.packet = ap (λ r. elim r [ ok p b ↦ p | err x ↦ pkt ]) same in
    let payloads : payload ≡ d.payload = ap (λ r. elim r [ ok p b ↦ b | err x ↦ payload ]) same in
    let named : pkt.msg_id ≡ g.id = ap (λ (p : Packet). p.msg_id) packets ∙ d.named in
    let body : sent (msg_key me pkt.msg_id) ≡ sent (msg_key me g.id) =
      ap (λ (id : ℕ). sent (msg_key me id)) named in
    (
      g.q,
      record {
        states_length =
            ap (λ (p : Packet). p.msg_len) packets
            ∙ (d.carried.states_length ∙ ap length (sym body));
        starts = ap (λ (p : Packet). p.offset) packets ∙ d.carried.starts;
        carries = payloads ∙ (d.carried.carries ∙ ap (λ b. chunk packet_size b g.q) (sym body));
        inside = subst (λ b. g.q * packet_size < length b) (sym body) g.inside;
      },
    )

-- The messages as the receiver at `me` names them: by the address of the sender.
abbrev pub sent_to : (SocketAddr → MsgKey → List ℕ) → SocketAddr → MsgKey → List ℕ
sent_to sent me key = sent key.addr (msg_key me key.id)

Carried-IsHonest :
    (sent : SocketAddr → MsgKey → List ℕ) (me : SocketAddr) (packet_size : ℕ)
    (pushed : SocketAddr → List Action)
    → ((src : SocketAddr) → All (Genuine (sent src) packet_size) (pushed src))
    → (events : List Event) → All (Carried me pushed) events
    → All (IsHonest (sent_to sent me) packet_size) events
Carried-IsHonest sent me packet_size pushed genuine [] h = tt
Carried-IsHonest sent me packet_size pushed genuine (ticks now ∷ events) h =
    (tt, Carried-IsHonest sent me packet_size pushed genuine events h.1)
Carried-IsHonest sent me packet_size pushed genuine (arrives src pkt payload now ∷ events)
      ((datagram, pushed_it, decoded), h) =
    (
      genuine-IsChunk (sent src) packet_size me datagram pkt payload
          (All-Memᴰ (Genuine (sent src) packet_size) (genuine src) pushed_it) decoded,
      Carried-IsHonest sent me packet_size pushed genuine events h,
    )

-- What is delivered is what was sent, over any network: whatever calls each peer's sender gets, and
-- whatever part of the datagrams that it pushes comes to the receiver, in whatever order and however
-- often, with ticks between them, the receiver does not panic, and each message that it delivers
-- from a peer has the bytes that this peer has sent to it under that id. All use the same packet
-- size, which is positive. A peer sends less than 2^32 bytes in a message, it sends no other message
-- under the same id, and a RESEND that moves its `next_send` moves it to a multiple of the packet
-- size or to the message's end.
pub network_faithful :
    (sent : SocketAddr → MsgKey → List ℕ) (me : SocketAddr) (cfg : TransportConfig)
    (cfgs : SocketAddr → TransportConfig) (calls : SocketAddr → List Call) (events : List Event)
    → 0 < cfg.packet_size
    → ((src : SocketAddr) → (cfgs src).packet_size ≡ cfg.packet_size)
    → ((src : SocketAddr) → AllFair (sent src) (new_sender (cfgs src)) (calls src))
    → All (Carried me (λ src. pushed_by (new_sender (cfgs src)) (calls src))) events
    → (r : ReceiverCore × List Action) × (play (new_receiver cfg) events ≡ returns r)
      × All (IsTrue (sent_to sent me)) r.1
network_faithful sent me cfg cfgs calls events pos same fair carried =
    play_honest (sent_to sent me) cfg events pos (
      Carried-IsHonest sent me cfg.packet_size
        (λ src. pushed_by (new_sender (cfgs src)) (calls src))
        (λ src.
          subst
            (λ (size : ℕ).
              All (Genuine (sent src) size) (pushed_by (new_sender (cfgs src)) (calls src)))
            (same src)
            (sender_faithful (sent src) (cfgs src) (calls src)
              (subst (λ (size : ℕ). 0 < size) (sym (same src)) pos) (fair src)))
        events carried)
