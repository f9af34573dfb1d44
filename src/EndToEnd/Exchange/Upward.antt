-- ===== src/EndToEnd/Exchange/Upward.antt =====
-- A GRANT that comes up brings an exchange nearer to its end.
use agent_transport.Base.{
  ℕ, suc, ◌+◌, ◌-◌, ◌*◌, ◌≤◌, ◌<◌, ◌≡◌, sym, ap, ◌∙◌, ◌⊎◌, Option, List, [], ◌++◌, map, length,
  length-append, All, All-append, All-mono, arith, leb, leb→le, leb→lt, Bool-cases, inl, inr,
}
use agent_transport.Base.Picks.{
  Any, Pulled, Pulled-length, Pulled-All, Pulled-Any, Any-append_left, Any-append_right,
}
use agent_transport.Base.Bytes.{IsU32, IsU64}
use agent_transport.Packet.{decode, ok, err}
use agent_transport.Config.{SocketAddr, MsgKey, Action}
use agent_transport.Sender.{OutMsg, SenderCore, handle_grant}
use agent_transport.Receiver.State.{InMsg}
use agent_transport.Receiver.Chunks.{HasIf}
use agent_transport.Receiver.Single.{credit_datagram}
use agent_transport.EndToEnd.Exchange.{Flight, down, up, Exchange, datagrams, at_sender, arrive}
use agent_transport.EndToEnd.Exchange.Flights.{
  Carries, Credits, IsFlight, IsFlight-more, decode-credit_datagram,
}
use agent_transport.EndToEnd.Exchange.Single.{credit_of}
use agent_transport.EndToEnd.Exchange.Feeding.{Feeds, Fed, feed_grant}
use agent_transport.EndToEnd.Exchange.Steps.{key_of, Lives, Over, Within, lives, over, arrive-up}

module _ (packet_size : ℕ) (from to : SocketAddr) (msg_id : ℕ) (bytes : List ℕ)
    (pos : 0 < packet_size) (short : IsU32 (length bytes)) (id_u64 : IsU64 msg_id) where
  abbrev key' : MsgKey
  key' = key_of packet_size from to msg_id bytes

  -- Two GRANTs of which the datagrams are equal go up to the same byte.
  same_target :
      (a b added more : ℕ)
      → a ≤ length bytes
      → b ≤ length bytes
      → credit_datagram key' (length bytes) a added ≡ credit_datagram key' (length bytes) b more
      → a ≡ b
  same_target a b added more within_a within_b e =
      let d = decode-credit_datagram packet_size bytes key' pos short id_u64 a added within_a in
      let f = decode-credit_datagram packet_size bytes key' pos short id_u64 b more within_b in
      let equal : ok d.packet [] ≡ ok f.packet [] = sym d.decodes ∙ (ap decode e ∙ f.decodes) in
      let offsets : d.packet.offset ≡ f.packet.offset =
        ap (λ r. elim r [ ok p b ↦ p.offset | err x ↦ d.packet.offset ]) equal in
      sym d.limit ∙ (offsets ∙ f.limit)

  record Answered (x : Exchange) (m : OutMsg) (target now : ℕ) (datagram : List ℕ)
      (rest : List Flight) : Type 0 where
    out : SenderCore × List Action
    fed : Fed packet_size to key' bytes m target out
    computes :
        arrive from to (record x { net = rest }) (up datagram) now
        ≡ at_sender from to (record x { net = rest }) out

  answer :
      (x : Exchange) (m : OutMsg) (target added now : ℕ) (rest : List Flight)
      → Feeds packet_size to key' bytes x.sender m
      → target ≤ length bytes
      → Answered x m target now (credit_datagram key' (length bytes) target added) rest
  answer x m target added now rest f within =
      let d = decode-credit_datagram packet_size bytes key' pos short id_u64 target added within in
      record {
        out = handle_grant x.sender to d.packet now;
        fed =
            feed_grant packet_size to key' bytes x.sender m d.packet target now pos f d.named
              d.limit;
        computes =
            arrive-up packet_size from to msg_id bytes (record x { net = rest })
              (credit_datagram key' (length bytes) target added) now d.packet d.decodes d.typ;
      }

  -- The net after it.
  abbrev downs : SenderCore × List Action → List Flight
  downs out = map (λ d. down d) (datagrams out.1)

  covered :
      (x : Exchange) (m : OutMsg) (o : Option InMsg) (target : ℕ) (datagram : List ℕ)
      (rest : List Flight) (out : SenderCore × List Action)
      → Lives packet_size from to msg_id bytes x m o
      → Pulled (up datagram) x.net rest
      → (g : Fed packet_size to key' bytes m target out) → (i : ℕ)
      → i * packet_size < g.msg.next_send
      → HasIf o i ⊎ Any (Carries packet_size bytes key' i) (rest ++ downs out)
  covered x m o target datagram rest out l pulled g i below =
      elim (Bool-cases (leb m.next_send (i * packet_size))) [
        | inl fresh ↦ inr (
            Any-append_right (Carries packet_size bytes key' i) rest _
              (g.descends.covers i (leb→le _ _ fresh) below))
        | inr sent ↦ elim (l.covers i (leb→lt _ _ sent)) [
          | inl there ↦ inl there
          | inr coming ↦ elim (Pulled-Any (Carries packet_size bytes key' i) pulled coming) [
            | inl this ↦ absurd this
            | inr later ↦ inr (Any-append_left (Carries packet_size bytes key' i) rest _ later)
          ]
        ]
      ]

  credited_on :
      (x : Exchange) (m : OutMsg) (o : Option InMsg) (target added : ℕ) (rest : List Flight)
      (out : SenderCore × List Action)
      → Lives packet_size from to msg_id bytes x m o
      → target ≤ length bytes
      → Pulled (up (credit_datagram key' (length bytes) target added)) x.net rest
      → (g : Fed packet_size to key' bytes m target out)
      → let credit = credit_of from msg_id bytes x.receiver o in
        (credit ≤ g.msg.next_send) ⊎ Any (Credits packet_size bytes key' credit) (rest ++ downs out)
  credited_on x m o target added rest out l within pulled g = elim l.credited [
    | inl enough ↦ inl (omega (arith, g.forward))
    | inr coming ↦ elim (Pulled-Any (Credits packet_size bytes key' _) pulled coming) [
      | inl (other, this) ↦
          let same = same_target target _ added other within l.receiving.within this in
          inl (omega (arith, g.reaches, l.receiving.within))
      | inr later ↦ inr (Any-append_left (Credits packet_size bytes key' _) rest _ later)
    ]
  ]

  still :
      (m : OutMsg) (target : ℕ) (rest : List Flight) (out : SenderCore × List Action)
      → (g : Fed packet_size to key' bytes m target out)
      → All (IsFlight packet_size bytes key' m.next_send) rest
      → All (IsFlight packet_size bytes key' g.msg.next_send) rest
  still m target rest out g others =
      All-mono (IsFlight packet_size bytes key' m.next_send)
        (IsFlight packet_size bytes key' g.msg.next_send) rest
        (λ f h. IsFlight-more packet_size bytes key' m.next_send g.msg.next_send f g.forward h)
        others

  -- A GRANT comes while the message is under way.
  pub up-Within :
      (x : Exchange) (m : OutMsg) (o : Option InMsg) (n now target added : ℕ) (rest : List Flight)
      → Lives packet_size from to msg_id bytes x m o
      → target ≤ length bytes
      → Pulled (up (credit_datagram key' (length bytes) target added)) x.net rest
      → length x.net
          + ((length bytes - m.next_send)
              + (length bytes - credit_of from msg_id bytes x.receiver o))
        ≤ suc n
      → Within packet_size from to msg_id bytes
          (arrive from to
            (record x { net = rest })
            (up (credit_datagram key' (length bytes) target added))
            now)
          n
  up-Within x m o n now target added rest l within pulled bound =
      let a = answer x m target added now rest l.feeds within in
      let g = a.fed in
      let (this, others) =
        Pulled-All (IsFlight packet_size bytes key' m.next_send) pulled l.flights in
      rw a.computes (
        lives g.msg o
          (record {
            feeds = g.feeds;
            receiving = l.receiving;
            size = l.size;
            nothing_yet = l.nothing_yet;
            calm = l.calm;
            flights =
                All-append (IsFlight packet_size bytes key' g.msg.next_send) rest (downs a.out)
                  (still m target rest a.out g others) g.descends.flights;
            sent = λ i there. omega (arith, l.sent i there, g.forward);
            covers = covered x m o target _ rest a.out l pulled g;
            credited = credited_on x m o target added rest a.out l within pulled g;
          })
          (omega (
            arith,
            Pulled-length pulled,
            length-append rest (downs a.out),
            g.descends.few,
            g.forward,
            g.feeds.within,
          )))

  -- A GRANT comes when the message has been delivered.
  pub up-Over :
      (x : Exchange) (m : OutMsg) (n now target added : ℕ) (rest : List Flight)
      → Over packet_size from to msg_id bytes x m
      → target ≤ length bytes
      → Pulled (up (credit_datagram key' (length bytes) target added)) x.net rest
      → length x.net + (length bytes - m.next_send) ≤ suc n
      → Within packet_size from to msg_id bytes
          (arrive from to
            (record x { net = rest })
            (up (credit_datagram key' (length bytes) target added))
            now)
          n
  up-Over x m n now target added rest v within pulled bound =
      let a = answer x m target added now rest v.feeds within in
      let g = a.fed in
      let (this, others) =
        Pulled-All (IsFlight packet_size bytes key' m.next_send) pulled v.flights in
      rw a.computes (
        over g.msg
          (record {
            feeds = g.feeds;
            all_sent = omega (arith, v.all_sent, g.forward, g.feeds.within);
            finished = v.finished;
            once = v.once;
            calm = v.calm;
            flights =
                All-append (IsFlight packet_size bytes key' g.msg.next_send) rest (downs a.out)
                  (still m target rest a.out g others) g.descends.flights;
          })
          (inr (
            omega (
              arith,
              Pulled-length pulled,
              length-append rest (downs a.out),
              g.descends.few,
              g.forward,
              g.feeds.within,
            ))))
