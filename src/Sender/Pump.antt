-- ===== src/Sender/Pump.antt =====
-- What `pump` and `start` send: consecutive chunks of the message, each at most a packet long.
use agent_transport.Base.{
  ℕ, zero, suc, ◌+◌, ◌-◌, ◌≤◌, ◌<◌, ◌≡◌, refl, ◌∙◌, min, max, true, none, some, List, [], ◌∷◌,
  length, arith, ltb, leb, if◌then◌else◌, Bool-cases, inl, inr, ltb→lt, ltb→le,
}
use agent_transport.Base.Dict.{get, insert, get-insert_self, insert-insert_self}
use agent_transport.Config.{SocketAddr, MsgKey, msg_key, msg_key_eq, Action, send}
use agent_transport.Sender.{
  OutMsg, SenderCore, data_packet, pump_loop, pump_msg, pump, start, is_done, write, first_msg,
  is_some,
}

-- The actions send the bytes from `a` to `b` of the message in consecutive chunks: each has a
-- packet's size, or goes to the end of the message.
pub data Sends (packet_size : ℕ) (key : MsgKey) (bytes : List ℕ) (b : ℕ)
    : ℕ → List Action → Type 0 where
  done : Sends packet_size key bytes b b []
  chunk :
      {a e : ℕ} {later : List Action}
      → a < e
      → e ≡ min (a + packet_size) (length bytes)
      → Sends packet_size key bytes b e later
      → Sends packet_size key bytes b a (send key.addr (data_packet bytes key.id a e) ∷ later)

pub Sends-le :
    {packet_size : ℕ} {key : MsgKey} {bytes : List ℕ} {b a : ℕ} {pushed : List Action}
    → Sends packet_size key bytes b a pushed
    → (a ≤ b) × (b ≤ max a (length bytes))
Sends-le done = omega arith
Sends-le (chunk more size sent) = omega (arith, Sends-le sent)

-- Where the loop may end: at or past the limit, by less than a packet.
abbrev pub Reaches : ℕ → ℕ → ℕ → ℕ → ℕ → Type 0
Reaches packet_size size limit next next' =
    (limit ≤ next')
    × (next ≤ next')
    × (next' ≤ max next size)
    × (next' < max (next + 1) (limit + packet_size))

pub pump_loop_lem :
    (fuel packet_size : ℕ) (key : MsgKey) (bytes : List ℕ) (limit next : ℕ)
    → 0 < packet_size
    → limit ≤ length bytes
    → limit - next ≤ fuel
    → let r = pump_loop fuel packet_size key bytes limit next in
      Sends packet_size key bytes r.0 next r.1 × Reaches packet_size (length bytes) limit next r.0
unfolding pump_loop
pump_loop_lem zero packet_size key bytes limit next pos fits enough = (done, omega arith)
pump_loop_lem (suc fuel) packet_size key bytes limit next pos fits enough =
    elim (Bool-cases (ltb next limit)) [
      | inl more ↦ rw more (
          let below = ltb→lt next limit more in
          let (sent, reach) =
            pump_loop_lem fuel packet_size key bytes limit (min (next + packet_size) (length bytes))
              pos fits (omega arith) in
          (chunk (omega arith) refl sent, omega arith))
      | inr stop ↦ rw stop (done, omega (arith, ltb→le next limit stop))
    ]

-- Between two messages of the sender: the same bytes, and no credit or progress lost.
pub record Grows (m m' : OutMsg) : Type 0 where
  pub same_bytes : m'.contents ≡ m.contents
  pub credit : m.granted_to ≤ m'.granted_to
  pub progress : m.next_send ≤ m'.next_send

-- What `pump` does to a message that is not done: it sends from `next_send` on, to the limit (cut
-- to the message's length) and less than a packet past it, and is done if that is all.
pub record Pumped (packet_size : ℕ) (key : MsgKey) (limit now : ℕ) (m : OutMsg)
    (r : OutMsg × List Action) : Type 0 where
  pub grows : Grows m r.0
  pub sends : Sends packet_size key m.contents r.0.next_send m.next_send r.1
  pub reaches :
      Reaches packet_size
        (length m.contents)
        (min limit (length m.contents))
        m.next_send
        r.0.next_send
  pub credit : r.0.granted_to ≡ max m.granted_to (min limit (length m.contents))
  pub stamped : r.0.last_progress ≡ now
  pub finished : r.0.done_at ≡ (if leb (length m.contents) r.0.next_send then some now else none)

pub pump_msg-Pumped :
    (packet_size : ℕ) (key : MsgKey) (limit now : ℕ) (m : OutMsg)
    → 0 < packet_size
    → m.done_at ≡ none
    → Pumped packet_size key limit now m (pump_msg packet_size key limit now m)
unfolding pump_msg
pump_msg-Pumped packet_size key limit now m pos unsent =
    let limit' = min limit (length m.contents) in
    let (sent, reach) =
      pump_loop_lem limit' packet_size key m.contents limit' m.next_send pos (omega arith)
        (omega arith) in
    rw (unsent) (record {
      grows = record { same_bytes = refl; credit = omega arith; progress = omega arith };
      sends = sent;
      reaches = reach;
      credit = refl;
      stamped = refl;
      finished = refl;
    })

pub pump_present :
    (s : SenderCore) (key : MsgKey) (limit now : ℕ) (m : OutMsg)
    → get s.out key ≡ some m
    → pump s key limit now ≡ write s key (pump_msg s.cfg.packet_size key limit now m)
unfolding pump
pump_present s key limit now m e = rw (e, pump)

pub is_done-present :
    (s : SenderCore) (dest : SocketAddr) (msg_id : ℕ) (m : OutMsg)
    → get s.out (msg_key dest msg_id) ≡ some m
    → is_done s dest msg_id ≡ is_some m.done_at
unfolding is_done
is_done-present s dest msg_id m e = rw (e, is_done)

-- What `start` leaves and pushes for a message.
pub record Started (s : SenderCore) (dest : SocketAddr) (msg_id : ℕ) (bytes : List ℕ)
    (r : SenderCore × List Action) : Type 0 where
  pub msg : OutMsg
  pub found : get r.0.out (msg_key dest msg_id) ≡ some msg
  pub same_bytes : msg.contents ≡ bytes
  pub sends : Sends s.cfg.packet_size (msg_key dest msg_id) bytes msg.next_send 0 r.1
  pub far : min s.cfg.unscheduled_bytes (length bytes) ≤ msg.next_send
  pub near : msg.next_send < max 1 (min s.cfg.unscheduled_bytes (length bytes) + s.cfg.packet_size)
  pub credit : msg.granted_to ≡ min s.cfg.unscheduled_bytes (length bytes)
  pub finished : is_done r.0 dest msg_id ≡ leb (length bytes) msg.next_send

module _ (s : SenderCore) (dest : SocketAddr) (msg_id : ℕ) (bytes : List ℕ) (now : ℕ) where
  abbrev pub started : OutMsg × List Action
  started =
      let unscheduled = min s.cfg.unscheduled_bytes (length bytes) in
      pump_msg s.cfg.packet_size (msg_key dest msg_id) unscheduled now
        (first_msg unscheduled now bytes)

  pub start-write : start s dest msg_id bytes now ≡ write s (msg_key dest msg_id) started
  unfolding start write
  start-write =
      let unscheduled = min s.cfg.unscheduled_bytes (length bytes) in
      let key = msg_key dest msg_id in
      let first = first_msg unscheduled now bytes in
      rw (
        pump_present (record s { out = insert s.out key first }) key unscheduled now first
            (get-insert_self s.out key first),
        insert-insert_self s.out key first started.0,
      )

  start_lem :
      (get (start s dest msg_id bytes now).0.out (msg_key dest msg_id) ≡ some started.0)
      × ((start s dest msg_id bytes now).1 ≡ started.1)
  unfolding write
  start_lem = rw start-write (get-insert_self s.out (msg_key dest msg_id) started.0, refl)

  -- A new message is sent at once, without a grant, up to the unscheduled window or its end: in
  -- consecutive chunks from byte 0, to a point at or past the window and less than a packet past
  -- it. Its credit is the window, and it is done exactly if all of it is sent.
  pub start_sends :
      0 < s.cfg.packet_size → Started s dest msg_id bytes (start s dest msg_id bytes now)
  start_sends pos =
      let unscheduled = min s.cfg.unscheduled_bytes (length bytes) in
      let (found, pushed) = start_lem in
      let p =
        pump_msg-Pumped s.cfg.packet_size (msg_key dest msg_id) unscheduled now
          (first_msg unscheduled now bytes) pos refl in
      record {
        msg = started.0;
        found = found;
        same_bytes = p.grows.same_bytes;
        sends = rw pushed p.sends;
        far = omega (arith, p.reaches);
        near = omega (arith, p.reaches);
        credit = p.credit ∙ (omega arith);
        finished = is_done-present _ dest msg_id started.0 found ∙ (rw p.finished (ground arith));
      }

  -- A message that fits the unscheduled window is sent whole by `start`.
  pub start_whole :
      0 < s.cfg.packet_size
      → length bytes ≤ s.cfg.unscheduled_bytes
      → let r = start s dest msg_id bytes now in
        Sends s.cfg.packet_size (msg_key dest msg_id) bytes (length bytes) 0 r.1
        × (is_done r.0 dest msg_id ≡ true)
  start_whole pos short =
      let p = start_sends pos in
      let near = Sends-le p.sends in
      let whole : p.msg.next_send ≡ length bytes = omega (arith, p.far, near) in
      let sent = p.sends in (rw whole at sent, p.finished ∙ (ground (arith, whole)))

-- An empty message is reported as done, although `start` sends no packet for it: the peer never
-- hears of it, whatever the configuration.
pub start_empty :
    (s : SenderCore) (dest : SocketAddr) (msg_id now : ℕ)
    → ((start s dest msg_id [] now).1 ≡ [])
      × (is_done (start s dest msg_id [] now).0 dest msg_id ≡ true)
unfolding pump_msg pump_loop
start_empty s dest msg_id now =
    let (found, pushed) = start_lem s dest msg_id [] now in
    (pushed ∙ (ground arith), is_done-present _ dest msg_id _ found ∙ (ground arith))
