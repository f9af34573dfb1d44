-- ===== src/EndToEnd/Exchange/Delivers.antt =====
-- An exchange of one message comes to its end, and delivers it.
use agent_transport.Base.{
  le→leb, true, ◌∙◌, ℕ, ◌*◌, ◌≤◌, ◌<◌, ◌≡◌, refl, false, none, List, [], ◌∷◌, length, eq_of_empty,
  arith, inl, inr,
}
use agent_transport.Base.Bytes.{IsU32, IsU64}
use agent_transport.Config.{SocketAddr, MsgKey, deliver, TransportConfig}
use agent_transport.Sender.{OutMsg}
use agent_transport.EndToEnd.Exchange.{Exchange}
use agent_transport.EndToEnd.Exchange.Steps.{Over, key_of, Within, lives, over}
use agent_transport.EndToEnd.Exchange.{exchange, begin}
use agent_transport.EndToEnd.Exchange.Feeding.{start-Fed}
use agent_transport.Receiver.State.{new as new_receiver}
use agent_transport.Sender.{is_done}
use agent_transport.Sender.Pump.{is_done-present}
use agent_transport.EndToEnd.Exchange.Nearing.{never_stuck, exchange-Within}

module _ (packet_size : ℕ) (from to : SocketAddr) (msg_id : ℕ) (bytes : List ℕ)
    (pos : 0 < packet_size) (short : IsU32 (length bytes)) (id_u64 : IsU64 msg_id) where
  abbrev key' : MsgKey
  key' = key_of packet_size from to msg_id bytes

  begin-Within :
      (cfg : TransportConfig) (now n : ℕ)
      → cfg.packet_size ≡ packet_size
      → 0 < length bytes
      → 0 < cfg.unscheduled_bytes
      → 2 ≤ cfg.grant_increment
      → 0 < cfg.max_incoming
      → 2 * length bytes ≤ n
      → Within packet_size from to msg_id bytes (begin from to cfg msg_id bytes now) n
  unfolding begin new_receiver
  begin-Within cfg now n size some_bytes unscheduled increment room enough =
      let f = start-Fed packet_size to key' bytes cfg now size pos some_bytes in
      lives f.msg none
        (record {
          feeds = f.feeds;
          receiving = record {
            shape = refl;
            nothing_done = refl;
            pos = rw size pos;
            increment = increment;
            room = room;
            holds = tt;
            part = tt;
            ahead = omega arith;
            within = omega arith;
          };
          size = size;
          nothing_yet = refl;
          calm = refl;
          flights = f.descends.flights;
          sent = λ i there. absurd there;
          covers = λ i below. inr (f.descends.covers i (omega arith) below);
          credited = inl f.reaches;
        })
        (omega (arith, f.descends.few, f.feeds.within))

  -- The state at the end of an exchange of the message.
  abbrev Delivered : Exchange → Type 0
  Delivered x =
      (x.net ≡ [])
      × (x.delivered ≡ deliver from msg_id bytes ∷ [])
      × (x.panicked ≡ false)
      × (is_done x.sender to msg_id ≡ true)

  -- The sender is done with a message that has been delivered.
  known :
      (x : Exchange) (m : OutMsg)
      → Over packet_size from to msg_id bytes x m
      → is_done x.sender to msg_id ≡ true
  known x m v =
      is_done-present x.sender to msg_id m v.feeds.found
      ∙ (v.feeds.finished ∙ le→leb _ _ (omega (arith, v.all_sent)))

  ended : (x : Exchange) → Within packet_size from to msg_id bytes x 0 → Delivered x
  ended x (lives m o l bound) = absurd (
      never_stuck packet_size from to msg_id bytes pos short id_u64 x m o l
        (eq_of_empty x.net [] (omega arith) refl))
  ended x (over m v (inl empty)) = (empty, v.once, v.calm, known x m v)
  ended x (over m v (inr bound)) =
      (eq_of_empty x.net [] (omega arith) refl, v.once, v.calm, known x m v)

-- A new sender starts a message of any length from 1 byte to the limit of the format, for a new
-- receiver of the same configuration: packets hold some bytes, some bytes are sent without a
-- GRANT, the credit is raised by at least 2 bytes, and there is room for a message. DATA packets
-- and GRANTs then arrive in any order, each of them once, at any times, and each is answered as
-- the code answers it. After 2 arrivals for each byte, or before, no datagram is left, the
-- receiver has delivered the message, once and as it was sent, it has not panicked, and the sender
-- is done with the message.
pub exchange_delivers :
    (cfg : TransportConfig) (from to : SocketAddr) (msg_id : ℕ) (bytes : List ℕ) (now : ℕ)
    (picks : List (ℕ × ℕ))
    → 0 < cfg.packet_size
    → 0 < cfg.unscheduled_bytes
    → 2 ≤ cfg.grant_increment
    → 0 < cfg.max_incoming
    → IsU64 msg_id
    → 0 < length bytes
    → IsU32 (length bytes)
    → 2 * length bytes ≤ length picks
    → let x = exchange from to (begin from to cfg msg_id bytes now) picks in
      (x.net ≡ [])
      × (x.delivered ≡ deliver from msg_id bytes ∷ [])
      × (x.panicked ≡ false)
      × (is_done x.sender to msg_id ≡ true)
exchange_delivers cfg from to msg_id bytes now picks pos unscheduled increment room id_u64
      some_bytes short enough =
    let ps = cfg.packet_size in
    ended ps from to msg_id bytes pos short id_u64 _ (
      exchange-Within ps from to msg_id bytes pos short id_u64 (begin from to cfg msg_id bytes now)
        picks
        (begin-Within ps from to msg_id bytes pos short id_u64 cfg now (length picks) refl
          some_bytes unscheduled increment room enough))
