-- ===== src/Receiver/Bounds.antt =====
-- The arithmetic of the receiver stays within its types, when all of its peers are honest.
use agent_transport.Base.{
  ℕ, ◌-◌, ◌≤◌, ◌<◌, ◌≡◌, sym, ap, ◌∙◌, subst, some, List, All, length, arith,
}
use agent_transport.Base.Bytes.{IsU32}
use agent_transport.Base.Dict.{get}
use agent_transport.Config.{MsgKey, msg_key_eq, Action, TransportConfig}
use agent_transport.Receiver.State.{InMsg, ReceiverCore, new as new_receiver, remaining}
use agent_transport.Receiver.Handlers.{returns, panics}
use agent_transport.Receiver.Reassembly.{Holds, marked_bytes-le}
use agent_transport.Receiver.Invariant.{Event}
use agent_transport.Receiver.Chunks.{HoldsIf}
use agent_transport.Receiver.Steps.{play}
use agent_transport.Receiver.Truthful.{IsHonest}
use agent_transport.Receiver.HonestRuns.{play-Tells}

-- What a message may hold: no more bytes than it has, so that what is left does not wrap.
pub record IsBounded (bytes : List ℕ) (m : InMsg) : Type 0 where
  pub whole : m.total_len ≡ length bytes
  pub room : length m.buf ≡ length bytes
  pub counted : m.received_bytes ≤ length bytes
  pub left : remaining m ≡ length bytes - m.received_bytes

Holds-IsBounded :
    (pkt_size : ℕ) (bytes : List ℕ) (m : InMsg)
    → IsU32 (length bytes)
    → Holds pkt_size bytes m
    → IsBounded bytes m
unfolding remaining
Holds-IsBounded pkt_size bytes m short h =
    let counted : m.received_bytes ≤ length bytes =
      omega (arith, h.counted, marked_bytes-le pkt_size bytes m.received) in
    record { whole = h.total; room = h.sized; counted = counted; left = rw (h.total) (omega arith) }

-- While every packet that comes is a chunk of the message that its sender has sent under its id, no
-- message that the receiver holds counts more bytes than it has, and the subtraction of `remaining`
-- does not wrap. The packet size is positive, and the message is shorter than 2^32 bytes.
pub play-IsBounded :
    (sent : MsgKey → List ℕ) (cfg : TransportConfig) (events : List Event)
    (r : ReceiverCore × List Action) (key : MsgKey) (m : InMsg)
    → 0 < cfg.packet_size
    → All (IsHonest sent cfg.packet_size) events
    → play (new_receiver cfg) events ≡ returns r
    → get r.0.incoming key ≡ some m
    → IsU32 (length (sent key))
    → IsBounded (sent key) m
unfolding new_receiver get
play-IsBounded sent cfg events r key m pos honest e found short =
    let (r', e', p) =
      play-Tells sent (new_receiver cfg) events (record { pos = pos; holds = λ k. tt }) honest in
    let same : r' ≡ r = ap (λ o. elim o [ returns c ↦ c | panics ↦ r ]) (sym e' ∙ e) in
    let held : HoldsIf r'.0.cfg.packet_size (sent key) (get r'.0.incoming key) =
      p.truthful.holds key in
    let found' : get r'.0.incoming key ≡ some m =
      ap (λ (c : ReceiverCore × List Action). get c.0.incoming key) same ∙ found in
    Holds-IsBounded r'.0.cfg.packet_size (sent key) m short
      (subst (HoldsIf r'.0.cfg.packet_size (sent key)) found' held)
