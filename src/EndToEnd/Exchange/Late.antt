-- ===== src/EndToEnd/Exchange/Late.antt =====
-- A packet that comes down after the message has been delivered.
use agent_transport.Base.{
  ℕ, suc, ◌+◌, ◌-◌, ◌*◌, ◌≤◌, ◌<◌, ◌≡◌, sym, ◌∙◌, subst, true, List, [], append-nil, length, arith,
  inr,
}
use agent_transport.Base.Picks.{Pulled, Pulled-length, Pulled-All}
use agent_transport.Base.Bytes.{IsU32, IsU64}
use agent_transport.Config.{SocketAddr, MsgKey, msg_key}
use agent_transport.Sender.{OutMsg}
use agent_transport.Receiver.State.{contains}
use agent_transport.Receiver.Chunks.{deliveries}
use agent_transport.Receiver.Arrivals.{handle_data_done}
use agent_transport.EndToEnd.Exchange.{Flight, down, Exchange, datagrams, arrive}
use agent_transport.EndToEnd.Exchange.Flights.{packet_of, IsFlight, decode-packet_of}
use agent_transport.EndToEnd.Exchange.Steps.{key_of, Over, Within, over, arrive-down}

module _ (packet_size : ℕ) (from to : SocketAddr) (msg_id : ℕ) (bytes : List ℕ)
    (pos : 0 < packet_size) (short : IsU32 (length bytes)) (id_u64 : IsU64 msg_id) where
  abbrev key' : MsgKey
  key' = key_of packet_size from to msg_id bytes

  -- A packet comes to a receiver that has delivered the message.
  pub down-Over :
      (x : Exchange) (m : OutMsg) (n now q : ℕ) (rest : List Flight)
      → Over packet_size from to msg_id bytes x m
      → q * packet_size < m.next_send
      → Pulled (down (packet_of packet_size bytes key' q)) x.net rest
      → length x.net + (length bytes - m.next_send) ≤ suc n
      → Within packet_size from to msg_id bytes
          (arrive from to (record x { net = rest }) (down (packet_of packet_size bytes key' q)) now)
          n
  unfolding datagrams deliveries
  down-Over x m n now q rest v inside pulled bound =
      let within : q * packet_size < length bytes = omega (arith, v.feeds.within) in
      let d = decode-packet_of packet_size bytes key' pos short id_u64 q within in
      let (this, others) =
        Pulled-All (IsFlight packet_size bytes key' m.next_send) pulled v.flights in
      rw
        (
          arrive-down packet_size from to msg_id bytes (record x { net = rest })
              (packet_of packet_size bytes key' q) now d.packet d.payload (x.receiver, []) d.decodes
              d.typ
              (handle_data_done x.receiver from d.packet d.payload now (
                subst (λ (id : ℕ). contains x.receiver.completed (msg_key from id) ≡ true)
                  (sym d.named) v.finished)),
          append-nil rest,
        )
        (over m
          (record {
            feeds = v.feeds;
            all_sent = v.all_sent;
            finished = v.finished;
            once = append-nil x.delivered ∙ v.once;
            calm = v.calm;
            flights = others;
          })
          (inr (omega (arith, Pulled-length pulled))))
