-- ===== src/Sender/Resend.antt =====
-- What a RESEND request makes the sender send, and what it records.
use agent_transport.Base.{
  ℕ, zero, suc, ◌+◌, ◌-◌, ◌*◌, ◌/◌, ◌≤◌, ◌<◌, ◌≡◌, refl, min, max, some, List, [], ◌∷◌, length,
  arith, lt→ltb, le→ltb, ltb, leb, ◌&&◌, Option, none, Option-cases, if◌then◌else◌, ◌⊎◌, inl, inr,
}
use agent_transport.Base.Division.{div-eq, div_bounds, div_mono}
use native.Mathlib.Nat.{div-le_self}
use agent_transport.Base.Dict.{get, insert}
use agent_transport.Packet.{Packet}
use agent_transport.Config.{SocketAddr, MsgKey, msg_key, msg_key_eq, Action, send}
use agent_transport.Sender.{
  OutMsg, SenderCore, data_packet, chunk_range, resend_loop, resend_account, resend_msg,
  handle_resend, write,
}

-- The packets of n chunks from chunk q on: chunk q has the bytes from q * packet_size on, up to a
-- packet's size or the end of the message.
unfoldable pub chunks : ℕ → MsgKey → List ℕ → ℕ → ℕ → List Action
chunks packet_size key bytes q zero = []
chunks packet_size key bytes q (suc n) =
    send key.addr (
      data_packet bytes key.id (q * packet_size)
        (min (q * packet_size + packet_size) (length bytes)))
    ∷ chunks packet_size key bytes (suc q) n

pub resend_loop_end :
    (fuel packet_size : ℕ) (key : MsgKey) (m : OutMsg) (end off : ℕ)
    → end ≤ off
    → resend_loop fuel packet_size key m end off ≡ []
unfolding resend_loop
resend_loop_end zero packet_size key m end off h = refl
resend_loop_end (suc fuel) packet_size key m end off h = rw (le→ltb off end h)

resend_loop-chunks :
    (n fuel packet_size : ℕ) (key : MsgKey) (m : OutMsg) (end off q : ℕ)
    → 0 < packet_size
    → end ≤ length m.contents
    → n < fuel
    → off < end
    → q * packet_size ≤ off
    → off < q * packet_size + packet_size
    → (q + n) * packet_size < end
    → end ≤ (q + n) * packet_size + packet_size
    → resend_loop fuel packet_size key m end off ≡ chunks packet_size key m.contents q (suc n)
unfolding resend_loop chunk_range chunks
resend_loop-chunks n zero packet_size key m end off q pos fits enough more lo hi last_lo last_hi =
    absurd (omega arith)
resend_loop-chunks zero (suc fuel) packet_size key m end off q pos fits enough more lo hi last_lo
      last_hi =
    rw (lt→ltb off end more, div-eq off packet_size q pos lo hi)
      (rw
        (resend_loop_end fuel packet_size key m end
          (max (min (q * packet_size + packet_size) (length m.contents)) (q * packet_size + 1))
          (omega arith))
        refl)
resend_loop-chunks (suc n) (suc fuel) packet_size key m end off q pos fits enough more lo hi last_lo
      last_hi =
    let next : max (min (q * packet_size + packet_size) (length m.contents)) (q * packet_size + 1)
        ≡ suc q * packet_size =
      omega (arith, room) in
    rw (
      lt→ltb off end more,
      div-eq off packet_size q pos lo hi,
      next,
      resend_loop-chunks n fuel packet_size key m end (suc q * packet_size) (suc q) pos fits
          (omega arith) (omega (arith, room)) (omega arith) (omega arith) (omega arith)
          (omega arith),
    )
  where
    room : q * packet_size + packet_size ≤ (q + suc n) * packet_size
    room = grind arith

handle_resend_present :
    (s : SenderCore) (src : SocketAddr) (pkt : Packet) (now : ℕ) (m : OutMsg)
    → get s.out (msg_key src pkt.msg_id) ≡ some m
    → handle_resend s src pkt now
      ≡ write s
          (msg_key src pkt.msg_id)
          (resend_msg s.cfg.packet_size (msg_key src pkt.msg_id) pkt now m)
unfolding handle_resend
handle_resend_present s src pkt now m e = rw (e, handle_resend)

-- A request as it counts for the message: the range, cut to the message's length.
abbrev pub from_of : Packet → OutMsg → ℕ
from_of pkt m = min pkt.offset (length m.contents)

abbrev pub end_of : Packet → OutMsg → ℕ
end_of pkt m = min (from_of pkt m + pkt.length) (length m.contents)

pub resend_msg-chunks :
    (packet_size : ℕ) (key : MsgKey) (pkt : Packet) (now : ℕ) (m : OutMsg)
    → 0 < packet_size
    → from_of pkt m < end_of pkt m
    → let q = from_of pkt m / packet_size in
      (resend_msg packet_size key pkt now m).1
      ≡ chunks packet_size key m.contents q (suc ((end_of pkt m - 1) / packet_size - q))
unfolding resend_msg
resend_msg-chunks packet_size key pkt now m pos some_bytes =
    let q = from_of pkt m / packet_size in
    let last = (end_of pkt m - 1) / packet_size in
    let (lo, hi) = div_bounds (from_of pkt m) packet_size pos in
    let (last_lo, last_hi) = div_bounds (end_of pkt m - 1) packet_size pos in
    let order = div_mono (from_of pkt m) (end_of pkt m - 1) packet_size pos (omega arith) in
    let there : q + (last - q) ≡ last = omega arith in
    resend_loop-chunks (last - q) (end_of pkt m) packet_size key m (end_of pkt m) (from_of pkt m) q
      pos (omega arith) (omega (arith, div-le_self (end_of pkt m - 1) packet_size)) some_bytes lo hi
      (rw there (omega arith)) (rw there (omega arith))

-- A message that was done stays done as of then; any other is done, as of now, exactly if the
-- request moves its next offset to the message's end.
abbrev pub done_after : ℕ → ℕ → OutMsg → Option ℕ → Option ℕ
done_after end now m (some t) = some t
done_after end now m none =
    if ltb m.next_send end && leb (length m.contents) end then some now else none

pub resend_account_lem :
    (end now : ℕ) (m : OutMsg)
    → let m' = resend_account end now m in
      (m'.contents ≡ m.contents)
      × (m'.granted_to ≡ max m.granted_to end)
      × (m'.next_send ≡ max m.next_send end)
      × (m'.last_progress ≡ now)
      × (m'.done_at ≡ done_after end now m m.done_at)
unfolding resend_account
resend_account_lem end now m = (refl, refl, ground arith, refl, done_cases (Option-cases m.done_at))
  where
    done_cases :
        (m.done_at ≡ none) ⊎ ((t : ℕ) × (m.done_at ≡ some t))
        → (resend_account end now m).done_at ≡ done_after end now m m.done_at
    done_cases (inl e) = rw (e, resend_account) (ground arith)
    done_cases (inr (t, e)) = rw (e, resend_account) (ground arith)

-- What a RESEND with bytes of the message `m` does: the new message, which is in its place.
pub record Resent (s : SenderCore) (src : SocketAddr) (pkt : Packet) (m : OutMsg) (now : ℕ)
    (r : SenderCore × List Action) : Type 0 where
  pub msg : OutMsg
  pub state : r.0 ≡ record s { out = insert s.out (msg_key src pkt.msg_id) msg }
  pub pushed :
      let first = from_of pkt m / s.cfg.packet_size in
      let last = (end_of pkt m - 1) / s.cfg.packet_size in
      r.1 ≡ chunks s.cfg.packet_size (msg_key src pkt.msg_id) m.contents first (suc (last - first))
  pub same_bytes : msg.contents ≡ m.contents
  pub credit : msg.granted_to ≡ max m.granted_to (end_of pkt m)
  pub next : msg.next_send ≡ max m.next_send (end_of pkt m)
  pub stamped : msg.last_progress ≡ now
  pub finished : msg.done_at ≡ done_after (end_of pkt m) now m m.done_at

-- A RESEND for a message that the sender holds, whose range has bytes of the message, sends again
-- exactly the chunks that the range touches, once each and in order. The message's bytes stay, and
-- its credit and its next offset move up to the end of the range, if they were before it. Its
-- progress is of now; it is done, as of now, if its next offset moves to the message's end and it
-- was not done before, and stays as it was done or not otherwise. No other message changes.
pub handle_resend_lem :
    (s : SenderCore) (src : SocketAddr) (pkt : Packet) (now : ℕ) (m : OutMsg)
    → 0 < s.cfg.packet_size
    → get s.out (msg_key src pkt.msg_id) ≡ some m
    → from_of pkt m < end_of pkt m
    → Resent s src pkt m now (handle_resend s src pkt now)
unfolding write resend_msg
handle_resend_lem s src pkt now m pos e some_bytes =
    let key = msg_key src pkt.msg_id in
    let r = resend_msg s.cfg.packet_size key pkt now m in
    let (same, credit, next, stamped, finished) = resend_account_lem (end_of pkt m) now m in
    rw (handle_resend_present s src pkt now m e) (record {
      msg = r.0;
      state = refl;
      pushed = resend_msg-chunks s.cfg.packet_size key pkt now m pos some_bytes;
      same_bytes = same;
      credit = credit;
      next = next;
      stamped = stamped;
      finished = finished;
    })
