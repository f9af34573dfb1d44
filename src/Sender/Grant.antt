-- ===== src/Sender/Grant.antt =====
-- What a GRANT does to the message that it names, and to the others.
use agent_transport.Base.{
  ℕ, ◌+◌, ◌≤◌, ◌<◌, ◌≡◌, ◌∙◌, min, max, none, some, refl, List, [], length, arith, leb,
  if◌then◌else◌, lt→leb, le→leb,
}
use agent_transport.Base.Dict.{get, insert}
use agent_transport.Packet.{Packet}
use agent_transport.Config.{SocketAddr, msg_key, msg_key_eq, Action}
use agent_transport.Sender.{OutMsg, SenderCore, pump_msg, pump, handle_grant, write}
use agent_transport.Sender.Pump.{Sends, pump_msg-Pumped, pump_present}

module _ (s : SenderCore) (src : SocketAddr) (pkt : Packet) (now : ℕ) where
  -- A GRANT for a message that the sender does not hold is ignored.
  pub handle_grant_unknown :
      get s.out (msg_key src pkt.msg_id) ≡ none → handle_grant s src pkt now ≡ (s, [])
  unfolding handle_grant
  handle_grant_unknown e = rw (e, handle_grant)

  -- The grant as it counts for the message: cut to its length.
  abbrev pub limit_of : OutMsg → ℕ
  limit_of m = min pkt.offset (length m.contents)

  pub handle_grant_present :
      (m : OutMsg)
      → get s.out (msg_key src pkt.msg_id) ≡ some m
      → handle_grant s src pkt now ≡ (
          if leb (limit_of m) m.granted_to
          then (s, [])
          else pump s (msg_key src pkt.msg_id) (limit_of m) now)
  unfolding handle_grant
  handle_grant_present m e = rw (e, handle_grant)

  -- A repeated or outdated GRANT, which gives no more credit than the message has, changes
  -- nothing and sends nothing.
  pub handle_grant_stale :
      (m : OutMsg)
      → get s.out (msg_key src pkt.msg_id) ≡ some m
      → limit_of m ≤ m.granted_to
      → handle_grant s src pkt now ≡ (s, [])
  handle_grant_stale m e old = handle_grant_present m e ∙ (rw (le→leb _ _ old))

  -- What a GRANT with new credit does to the message `m`: the new message, which is in its place.
  pub record Granted (m : OutMsg) (r : SenderCore × List Action) : Type 0 where
    pub msg : OutMsg
    pub state : r.0 ≡ record s { out = insert s.out (msg_key src pkt.msg_id) msg }
    pub same_bytes : msg.contents ≡ m.contents
    pub sends :
        Sends s.cfg.packet_size (msg_key src pkt.msg_id) m.contents msg.next_send m.next_send r.1
    pub far : limit_of m ≤ msg.next_send
    pub near : msg.next_send < max (m.next_send + 1) (limit_of m + s.cfg.packet_size)
    pub credit : msg.granted_to ≡ limit_of m
    pub stamped : msg.last_progress ≡ now
    pub finished : msg.done_at ≡ (if leb (length m.contents) msg.next_send then some now else none)

  -- A GRANT with new credit for a message that is not done sends the bytes from `next_send` to the
  -- granted offset, in consecutive chunks and less than a packet past it, and the credit is then
  -- that offset. The message is done, as of now, exactly if all its bytes are sent then; its progress
  -- is of now, and its bytes stay. No other message changes.
  pub handle_grant_fresh :
      (m : OutMsg)
      → 0 < s.cfg.packet_size
      → get s.out (msg_key src pkt.msg_id) ≡ some m
      → m.done_at ≡ none
      → m.granted_to < limit_of m
      → Granted m (handle_grant s src pkt now)
  unfolding write
  handle_grant_fresh m pos e unsent more =
      let key = msg_key src pkt.msg_id in
      let r = pump_msg s.cfg.packet_size key (limit_of m) now m in
      let p = pump_msg-Pumped s.cfg.packet_size key (limit_of m) now m pos unsent in
      let same : handle_grant s src pkt now ≡ write s key r =
        handle_grant_present m e
        ∙ (rw (lt→leb _ _ more) (pump_present s key (limit_of m) now m e)) in
      rw same (record {
        msg = r.0;
        state = refl;
        same_bytes = p.grows.same_bytes;
        sends = p.sends;
        far = omega (arith, p.reaches);
        near = omega (arith, p.reaches);
        credit = omega (arith, p.credit);
        stamped = p.stamped;
        finished = p.finished;
      })
