-- ===== src/Sender/Valid.antt =====
-- The invariant of a message of the sender, and that what the operations do to it keeps it.
use agent_transport.Base.{
  ℕ, ◌+◌, ◌≤◌, ◌<◌, ◌≡◌, max, true, none, some, [], length, arith, leb, inl, inr, Option-cases,
}
use agent_transport.Base.Dict.{Dict, Every, IsDistinct}
use agent_transport.Packet.{Packet}
use agent_transport.Config.{MsgKey, msg_key_eq, TransportConfig}
use agent_transport.Sender.{
  OutMsg, SenderCore, pump_msg, resend_msg, resend_account, tick_msg, is_some,
}
use agent_transport.Sender.Pump.{pump_msg-Pumped}

-- What holds of each message: offsets within it, never a whole packet sent past the credit, and
-- done exactly when all is sent.
pub record IsOut (packet_size : ℕ) (m : OutMsg) : Type 0 where
  pub within : m.next_send ≤ length m.contents
  pub credit : m.granted_to ≤ length m.contents
  pub ahead : m.next_send < max 1 (m.granted_to + packet_size)
  pub finished : is_some m.done_at ≡ leb (length m.contents) m.next_send

abbrev pub Valid : ℕ → Dict MsgKey OutMsg → Type 0
Valid packet_size = Every (λ key m. IsOut packet_size m)

pub record IsValid (s : SenderCore) : Type 0 where
  pub pos : 0 < s.cfg.packet_size
  pub messages : Valid s.cfg.packet_size s.out
  pub distinct : IsDistinct s.out

pub pump_msg_done :
    (packet_size : ℕ) (key : MsgKey) (limit now : ℕ) (m : OutMsg) (t : ℕ)
    → m.done_at ≡ some t
    → pump_msg packet_size key limit now m ≡ (m, [])
unfolding pump_msg
pump_msg_done packet_size key limit now m t e = rw e

pub pump_msg-IsOut :
    (packet_size : ℕ) (key : MsgKey) (limit now : ℕ) (m : OutMsg)
    → 0 < packet_size
    → m.granted_to ≤ length m.contents
    → m.next_send ≤ length m.contents
    → m.next_send < max 1 (m.granted_to + packet_size)
    → (is_some m.done_at ≡ true → leb (length m.contents) m.next_send ≡ true)
    → IsOut packet_size (pump_msg packet_size key limit now m).0
pump_msg-IsOut packet_size key limit now m pos credit within ahead sent =
    elim (Option-cases m.done_at) [
      | inl unsent ↦ pumped unsent
      | inr (t, e) ↦ rw (pump_msg_done packet_size key limit now m t e) (record {
        within = within;
        credit = credit;
        ahead = ahead;
        finished = ground (arith, sent, e);
      })
    ]
  where
    pumped : m.done_at ≡ none → IsOut packet_size (pump_msg packet_size key limit now m).0
    pumped unsent =
        let p = pump_msg-Pumped packet_size key limit now m pos unsent in
        record {
          within = rw p.grows.same_bytes (omega (arith, p.reaches));
          credit = rw p.grows.same_bytes (omega (arith, p.credit));
          ahead = omega (arith, p.reaches, p.credit);
          finished = rw (p.grows.same_bytes, p.finished) (ground arith);
        }

pub resend_account-IsOut :
    (packet_size end now : ℕ) (m : OutMsg)
    → 0 < packet_size
    → end ≤ length m.contents
    → IsOut packet_size m
    → IsOut packet_size (resend_account end now m)
unfolding resend_account
resend_account-IsOut packet_size end now m pos fits h = record {
  within = ground arith;
  credit = ground arith;
  ahead = ground arith;
  finished = ground arith;
}

pub resend_msg-IsOut :
    (packet_size : ℕ) (key : MsgKey) (pkt : Packet) (now : ℕ) (m : OutMsg)
    → 0 < packet_size
    → IsOut packet_size m
    → IsOut packet_size (resend_msg packet_size key pkt now m).0
unfolding resend_msg
resend_msg-IsOut packet_size key pkt now m pos h =
    resend_account-IsOut packet_size _ now m pos (omega arith) h

pub tick_msg-IsOut :
    (cfg : TransportConfig) (key : MsgKey) (now : ℕ) (m : OutMsg)
    → IsOut cfg.packet_size m
    → IsOut cfg.packet_size (tick_msg cfg key now m).0
unfolding tick_msg
tick_msg-IsOut cfg key now m h = record {
  within = ground arith;
  credit = ground arith;
  ahead = ground arith;
  finished = ground arith;
}
