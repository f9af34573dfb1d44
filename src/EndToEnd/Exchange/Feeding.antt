-- ===== src/EndToEnd/Exchange/Feeding.antt =====
-- The sender of an exchange: what it has of the message, and what a GRANT changes.
use agent_transport.Base.{
  ℕ, ◌≤◌, ◌<◌, ◌≡◌, refl, sym, ap, ◌∙◌, subst, min, max, some, List, [], map, length, arith, leb,
  leb→le, Bool-cases, Option-cases, inl, inr,
}
use agent_transport.Base.Dict.{get, get-insert_self}
use agent_transport.Packet.{Packet}
use agent_transport.Config.{SocketAddr, MsgKey, msg_key, msg_key_eq, Action, TransportConfig}
use agent_transport.Sender.{
  OutMsg, SenderCore, new as new_sender, start, pump_msg, handle_grant, write, is_some, first_msg,
}
use agent_transport.Sender.Pump.{Sends, done, started, start-write, pump_msg-Pumped, pump_present}
use agent_transport.Sender.Grant.{handle_grant_present, limit_of}
use agent_transport.Sender.Valid.{pump_msg_done}
use agent_transport.Sender.Genuine.{OnGrid}
use agent_transport.EndToEnd.Exchange.{down, datagrams}
use agent_transport.EndToEnd.Exchange.Flights.{Descends, descend, Sends-OnGrid}

module _ (packet_size : ℕ) (to : SocketAddr) (key : MsgKey) (bytes : List ℕ) where
  -- The sender has the message, has sent it up to a cut, and has used its credit.
  pub record Feeds (s : SenderCore) (m : OutMsg) : Type 0 where
    pub size : s.cfg.packet_size ≡ packet_size
    pub found : get s.out (msg_key to key.id) ≡ some m
    pub same : m.contents ≡ bytes
    pub grid : OnGrid packet_size (length bytes) m.next_send
    pub used : m.granted_to ≤ m.next_send
    pub within : m.next_send ≤ length bytes
    pub finished : is_some m.done_at ≡ leb (length bytes) m.next_send

  -- What a GRANT up to `target` makes the sender do.
  pub record Fed (m : OutMsg) (target : ℕ) (out : SenderCore × List Action) : Type 0 where
    pub msg : OutMsg
    pub feeds : Feeds out.0 msg
    pub forward : m.next_send ≤ msg.next_send
    pub reaches : min target (length bytes) ≤ msg.next_send
    pub descends :
        Descends packet_size bytes key m.next_send msg.next_send
          (map (λ d. down d) (datagrams out.1))

  Descends-nothing : (a : ℕ) → Descends packet_size bytes key a a []
  Descends-nothing a = record {
    flights = tt;
    covers = λ i lo hi. absurd (omega arith);
    few = omega arith;
  }

  nothing-Fed :
      (s : SenderCore) (m : OutMsg) (target : ℕ)
      → Feeds s m
      → min target (length bytes) ≤ m.next_send
      → Fed m target (s, [])
  unfolding datagrams
  nothing-Fed s m target f enough = record {
    msg = m;
    feeds = f;
    forward = omega arith;
    reaches = enough;
    descends = Descends-nothing m.next_send;
  }

  -- A message whose credit is used up to the limit to come.
  record Ready (m : OutMsg) (limit : ℕ) : Type 0 where
    same : m.contents ≡ bytes
    used : m.granted_to ≤ max m.next_send limit
    within : m.next_send ≤ length bytes
    finished : is_some m.done_at ≡ leb (length bytes) m.next_send

  -- A message that is sent up to a cut at or past the target, and what was sent for it.
  record Reached (m : OutMsg) (target : ℕ) (r : OutMsg × List Action) : Type 0 where
    same : r.0.contents ≡ bytes
    used : r.0.granted_to ≤ r.0.next_send
    within : r.0.next_send ≤ length bytes
    finished : is_some r.0.done_at ≡ leb (length bytes) r.0.next_send
    forward : m.next_send ≤ r.0.next_send
    reaches : min target (length bytes) ≤ r.0.next_send
    sends : Sends packet_size (msg_key to key.id) bytes r.0.next_send m.next_send r.1

  write-Fed :
      (s : SenderCore) (m : OutMsg) (target : ℕ) (r : OutMsg × List Action)
      → 0 < packet_size
      → s.cfg.packet_size ≡ packet_size
      → OnGrid packet_size (length bytes) m.next_send
      → Reached m target r
      → Fed m target (write s (msg_key to key.id) r)
  unfolding write
  write-Fed s m target r pos size grid n = record {
    msg = r.0;
    feeds = record {
      size = size;
      found = get-insert_self s.out (msg_key to key.id) r.0;
      same = n.same;
      grid = Sends-OnGrid packet_size bytes key grid n.sends;
      used = n.used;
      within = n.within;
      finished = n.finished;
    };
    forward = n.forward;
    reaches = n.reaches;
    descends = descend packet_size bytes key pos grid n.sends;
  }

  pump_msg-Reached :
      (ps : ℕ) (m : OutMsg) (target limit now : ℕ)
      → ps ≡ packet_size
      → 0 < packet_size
      → Ready m limit
      → limit ≡ min target (length bytes)
      → Reached m target (pump_msg ps (msg_key to key.id) limit now m)
  pump_msg-Reached ps m target limit now size pos f e = elim (Option-cases m.done_at) [
    | inr (t, at_t) ↦
        let all : length bytes ≤ m.next_send = leb→le _ _ (sym f.finished ∙ (rw at_t refl)) in
        rw (pump_msg_done ps (msg_key to key.id) limit now m t at_t) (record {
          same = f.same;
          used = omega (arith, f.used);
          within = f.within;
          finished = f.finished;
          forward = omega arith;
          reaches = omega arith;
          sends = done;
        })
    | inl unsent ↦
        let p = pump_msg-Pumped packet_size (msg_key to key.id) limit now m pos unsent in
        let r = pump_msg packet_size (msg_key to key.id) limit now m in
        let long : length m.contents ≡ length bytes = ap length f.same in
        rw size (record {
          same = p.grows.same_bytes ∙ f.same;
          used = omega (arith, p.reaches, p.credit, f.used);
          within = omega (arith, p.reaches, f.within);
          finished = rw (p.finished, long) (ground arith);
          forward = p.grows.progress;
          reaches = omega (arith, p.reaches);
          sends =
              subst (λ b. Sends packet_size (msg_key to key.id) b r.0.next_send m.next_send r.1)
                f.same p.sends;
        })
  ]

  -- A GRANT for the message.
  pub feed_grant :
      (s : SenderCore) (m : OutMsg) (pkt : Packet) (target now : ℕ)
      → 0 < packet_size
      → Feeds s m
      → pkt.msg_id ≡ key.id
      → pkt.offset ≡ target
      → Fed m target (handle_grant s to pkt now)
  feed_grant s m pkt target now pos f named offset =
      let found : get s.out (msg_key to pkt.msg_id) ≡ some m =
        subst (λ (id : ℕ). get s.out (msg_key to id) ≡ some m) (sym named) f.found in
      let limit = limit_of s to pkt now m in
      let e : limit ≡ min target (length bytes) = omega (arith, offset, ap length f.same) in
      rw (handle_grant_present s to pkt now m found) (elim (Bool-cases (leb limit m.granted_to)) [
        | inl old ↦ rw old (nothing-Fed s m target f (omega (arith, leb→le _ _ old, f.used)))
        | inr fresh ↦
            rw (fresh, named, pump_present s (msg_key to key.id) limit now m f.found)
              (write-Fed s m target _ pos f.size f.grid (
                pump_msg-Reached s.cfg.packet_size m target limit now f.size pos
                  (record {
                    same = f.same;
                    used = omega (arith, f.used);
                    within = f.within;
                    finished = f.finished;
                  })
                  e))
      ])

  -- What `start` of the message leaves and sends.
  pub start-Fed :
      (cfg : TransportConfig) (now : ℕ)
      → cfg.packet_size ≡ packet_size
      → 0 < packet_size
      → 0 < length bytes
      → Fed
          (first_msg (min cfg.unscheduled_bytes (length bytes)) now bytes)
          cfg.unscheduled_bytes
          (start (new_sender cfg) to key.id bytes now)
  unfolding new_sender
  start-Fed cfg now size pos some_bytes =
      let s = new_sender cfg in
      let target = s.cfg.unscheduled_bytes in
      let limit = min target (length bytes) in
      let first = first_msg limit now bytes in
      rw (start-write s to key.id bytes now) (
        write-Fed s first target (started s to key.id bytes now) pos size (inr (0, omega arith)) (
          pump_msg-Reached s.cfg.packet_size first target limit now size pos
            (record {
              same = refl;
              used = omega arith;
              within = omega arith;
              finished = ground arith;
            })
            refl))
