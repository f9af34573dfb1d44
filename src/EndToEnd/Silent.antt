-- ===== src/EndToEnd/Silent.antt =====
-- A message of no bytes: src/transport/sender.rs sends nothing for it.
use agent_transport.Base.{ℕ, ◌*◌, ◌<◌, ◌≡◌, subst, true, List, [], length, All, All-mono, arith}
use agent_transport.Packet.{Packet, decode, ok}
use agent_transport.Config.{SocketAddr, MsgKey, msg_key, Action, send, deliver, TransportConfig}
use agent_transport.Sender.{SenderCore, new, start, is_done}
use agent_transport.Sender.Pump.{start_empty}
use agent_transport.Sender.Invariant.{Call}
use agent_transport.Sender.Genuine.{Genuine}
use agent_transport.Sender.Acts.{AllFair, pushed_by}
use agent_transport.Sender.Faithful.{sender_faithful}
use agent_transport.EndToEnd.Network.{genuine-IsChunk}

module _ (dest : SocketAddr) (msg_id : ℕ) where
  -- The datagram goes to the peer and decodes to a packet under the message's number.
  pub record Names (to : SocketAddr) (datagram : List ℕ) : Type 0 where
    pub there : to ≡ dest
    pub packet : Packet
    pub payload : List ℕ
    pub decodes : decode datagram ≡ ok packet payload
    pub named : packet.msg_id ≡ msg_id

  abbrev pub IsSilent : Action → Type 0
  IsSilent (send to datagram) = ¬ Names to datagram
  IsSilent (deliver src id bytes) = Unit

  Genuine-IsSilent :
      (sent : MsgKey → List ℕ) (packet_size : ℕ) (a : Action)
      → sent (msg_key dest msg_id) ≡ []
      → Genuine sent packet_size a
      → IsSilent a
  Genuine-IsSilent sent packet_size (deliver src id bytes) empty g = tt
  Genuine-IsSilent sent packet_size (send to datagram) empty g = λ n.
      let (q, c) = genuine-IsChunk sent packet_size to datagram n.packet n.payload g n.decodes in
      let here : q * packet_size < length (sent (msg_key dest n.packet.msg_id)) =
        subst (λ (a : SocketAddr). q * packet_size < length (sent (msg_key a n.packet.msg_id)))
          n.there c.inside in
      let none_left : q * packet_size < length (sent (msg_key dest msg_id)) =
        subst (λ (id : ℕ). q * packet_size < length (sent (msg_key dest id))) n.named here in
      let nothing : q * packet_size < 0 =
        subst (λ bytes. q * packet_size < length bytes) empty none_left in
      omega (arith, nothing)

-- A message of no bytes is reported as done as soon as any sender starts it, and that start sends
-- nothing. Nor is anything sent for it later: whatever calls come to a new sender, the start of the
-- message and any GRANTs, RESENDs and ticks after it among them, no datagram that it pushes is for
-- the message's peer and decodes to a packet under its number. The packet size is positive; `sent`
-- gives the message that is sent under each key, which is less than 2^32 bytes long; and each RESEND
-- that moves `next_send` moves it to a multiple of the packet size or to the end of the message.
pub start-IsSilent :
    (sent : MsgKey → List ℕ) (cfg : TransportConfig) (calls : List Call) (dest : SocketAddr)
    (msg_id : ℕ) (s : SenderCore) (now : ℕ)
    → 0 < cfg.packet_size
    → sent (msg_key dest msg_id) ≡ []
    → AllFair sent (new cfg) calls
    → ((start s dest msg_id [] now).1 ≡ [])
      × (is_done (start s dest msg_id [] now).0 dest msg_id ≡ true)
      × All (IsSilent dest msg_id) (pushed_by (new cfg) calls)
start-IsSilent sent cfg calls dest msg_id s now pos empty fair =
    let (nothing, over) = start_empty s dest msg_id now in
    (
      nothing,
      over,
      All-mono (Genuine sent cfg.packet_size) (IsSilent dest msg_id) (pushed_by (new cfg) calls)
          (λ a g. Genuine-IsSilent dest msg_id sent cfg.packet_size a empty g)
          (sender_faithful sent cfg calls pos fair),
    )
