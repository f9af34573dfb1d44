-- ===== src/Receiver/Keeping.antt =====
-- `handle_data` keeps the receiver's invariant, whatever packet comes.
use agent_transport.Base.{
  ℕ, ◌+◌, ◌≤◌, ◌<◌, ◌≡◌, ◌⊎◌, ◌∙◌, max, false, some, List, [], length, length-replicate, arith, leb,
  ◌==◌, Bool-cases, inl, inr, Option-cases, leb→le, leb→lt,
}
use agent_transport.Base.Dict.{get, insert, Every-insert, IsDistinct-insert, length-insert_absent}
use agent_transport.Packet.{Packet}
use agent_transport.Config.{SocketAddr, MsgKey, msg_key, msg_key_eq, Action, TransportConfig}
use agent_transport.Receiver.State.{
  InMsg, ReceiverCore, new, contains, complete, max_unanswered_resends, fresh_msg, accepts, store,
}
use agent_transport.Receiver.Handlers.{
  Outcome, returns, panics, then_schedule, settle, receive, handle_data,
}
use agent_transport.Receiver.Absorb.{length-copy_into}
use agent_transport.Receiver.Valid.{
  IsIn, Entry, IsReceiver, rewrite-IsReceiver, found-IsIn, schedule-IsReceiver,
  deliver_msg-IsReceiver, deliver_msg-insert,
}

-- The invariant of what a call returns.
abbrev pub Keeps : Outcome → Type 0
Keeps (returns r) = IsReceiver r.0
Keeps panics = Unit

pub then_schedule-IsReceiver :
    (now : ℕ) (r : ReceiverCore × List Action) → IsReceiver r.0 → IsReceiver (then_schedule now r).0
unfolding then_schedule
then_schedule-IsReceiver now r v = schedule-IsReceiver now r.0 v

-- A message whose only fault is that it may be complete.
record IsSettling (cfg : TransportConfig) (m : InMsg) : Type 0 where
  sized : length m.buf ≡ m.total_len
  credit : m.granted_to ≤ m.total_len
  window : m.granted_to ≤ max cfg.unscheduled_bytes (m.received_bytes + cfg.grant_increment)
  alive : m.unanswered_resends ≤ max_unanswered_resends

-- A message that is in the map, or may be added to it.
record Welcome (s : ReceiverCore) (key : MsgKey) : Type 0 where
  valid : IsReceiver s
  room : length s.incoming < s.cfg.max_incoming ⊎ ((m : InMsg) × (get s.incoming key ≡ some m))
  new : contains s.completed key ≡ false

enter-IsReceiver :
    (s : ReceiverCore) (key : MsgKey) (m : InMsg)
    → Welcome s key
    → IsIn s.cfg m
    → IsReceiver (record s { incoming = insert s.incoming key m })
enter-IsReceiver s key m w h = elim (Option-cases (get s.incoming key)) [
  | inr (old, e) ↦ rewrite-IsReceiver s key old m w.valid e h
  | inl e ↦ record {
    entries = Every-insert (Entry s.cfg s.completed) s.incoming key m w.valid.entries (h, w.new);
    distinct = IsDistinct-insert s.incoming key m w.valid.distinct;
    bounded =
        rw (length-insert_absent s.incoming key m e)
          (elim w.room [ inl short ↦ omega arith | inr (old, e') ↦ cc (e, e') ]);
    memory = w.valid.memory;
  }
]

settle-IsReceiver :
    (s : ReceiverCore) (key : MsgKey) (m : InMsg)
    → Welcome s key
    → IsSettling s.cfg m
    → IsReceiver (settle s key m).0
unfolding settle
settle-IsReceiver s key m w h = elim (Bool-cases (complete m)) [
  | inl all ↦
      rw (all, deliver_msg-insert s key m m.buf) (deliver_msg-IsReceiver s key m.buf w.valid)
  | inr more ↦ rw more (
      enter-IsReceiver s key m w (record {
        sized = h.sized;
        credit = h.credit;
        window = h.window;
        unfinished = more;
        alive = h.alive;
      }))
]

store-IsSettling :
    (cfg : TransportConfig) (pkt_size : ℕ) (m : InMsg) (offset : ℕ) (payload : List ℕ) (now : ℕ)
    → offset + length payload ≤ length m.buf
    → IsSettling cfg m
    → IsSettling cfg (store pkt_size m offset payload now)
unfolding store
store-IsSettling cfg pkt_size m offset payload now fits h = record {
  sized = length-copy_into m.buf offset payload fits ∙ h.sized;
  credit = h.credit;
  window = omega (arith, h.window);
  alive = omega arith;
}

receive-Keeps :
    (s : ReceiverCore) (key : MsgKey) (m : InMsg) (pkt : Packet) (payload : List ℕ) (now : ℕ)
    → Welcome s key
    → IsSettling s.cfg m
    → Keeps (receive s key m pkt payload now)
unfolding receive
receive-Keeps s key m pkt payload now w h = elim (Bool-cases (pkt.msg_len == 0)) [
  | inl empty ↦
      rw (empty, deliver_msg-insert s key m [])
        (then_schedule-IsReceiver now _ (deliver_msg-IsReceiver s key [] w.valid))
  | inr some_bytes ↦ elim (Bool-cases (s.cfg.packet_size == 0)) [
    | inl null ↦ rw (some_bytes, null) tt
    | inr sized ↦ elim (Bool-cases (accepts s.cfg.packet_size m pkt.msg_len pkt.offset payload)) [
      | inr ignored ↦
          rw (some_bytes, sized, ignored)
            (then_schedule-IsReceiver now _ (settle-IsReceiver s key m w h))
      | inl taken ↦ elim (Bool-cases (leb (pkt.offset + length payload) (length m.buf))) [
        | inr out ↦ rw (some_bytes, sized, taken, out) tt
        | inl fits ↦
            rw (some_bytes, sized, taken, fits)
              (then_schedule-IsReceiver now _ (
                settle-IsReceiver s key (store s.cfg.packet_size m pkt.offset payload now) w (
                  store-IsSettling s.cfg s.cfg.packet_size m pkt.offset payload now
                    (leb→le _ _ fits) h)))
      ]
    ]
  ]
]

fresh_msg-IsSettling :
    (cfg : TransportConfig) (total_len now : ℕ) → IsSettling cfg (fresh_msg cfg total_len now)
unfolding fresh_msg
fresh_msg-IsSettling cfg total_len now = record {
  sized = length-replicate total_len 0;
  credit = omega arith;
  window = omega arith;
  alive = omega arith;
}

-- The invariant holds after `handle_data`, whatever packet comes, unless it panics.
pub handle_data-Keeps :
    (s : ReceiverCore) (src : SocketAddr) (pkt : Packet) (payload : List ℕ) (now : ℕ)
    → IsReceiver s
    → Keeps (handle_data s src pkt payload now)
unfolding handle_data
handle_data-Keeps s src pkt payload now v =
    let key = msg_key src pkt.msg_id in
    elim (Bool-cases (contains s.completed key)) [
      | inl old ↦ rw old v
      | inr new ↦ elim (Option-cases (get s.incoming key)) [
        | inr (m, e) ↦
            let h = found-IsIn s key m v e in
            rw (new, e, handle_data)
              (receive-Keeps s key m pkt payload now
                (record { valid = v; room = inr (m, e); new = new })
                (record { sized = h.sized; credit = h.credit; window = h.window; alive = h.alive }))
        | inl e ↦ elim (Bool-cases (leb s.cfg.max_incoming (length s.incoming))) [
          | inl full ↦ rw (new, e, full, handle_data) v
          | inr more ↦ elim (Bool-cases (s.cfg.packet_size == 0)) [
            | inl null ↦ rw (new, e, more, null, handle_data) tt
            | inr sized ↦
                rw (new, e, more, sized, handle_data)
                  (receive-Keeps s key (fresh_msg s.cfg pkt.msg_len now) pkt payload now
                    (record { valid = v; room = inl (leb→lt _ _ more); new = new })
                    (fresh_msg-IsSettling s.cfg pkt.msg_len now))
          ]
        ]
      ]
    ]
