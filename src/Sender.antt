-- ===== src/Sender.antt =====
-- transport/sender.rs: the sending state machine. Each operation returns the new state and the
-- actions that it pushes.
pub mod Pump
pub mod Grant
pub mod Resend
pub mod Valid
pub mod Invariant
pub mod Passing
pub mod Tick
pub mod Genuine
pub mod Acts
pub mod Faithful
use agent_transport.Base.{
  ℕ, zero, suc, ◌+◌, ◌-◌, ◌*◌, ◌/◌, min, max, Bool, true, false, not, ◌&&◌, ◌||◌, Option, none,
  some, List, [], ◌∷◌, length, take, drop, ltb, leb, ◌==◌, if◌then◌else◌,
}
use agent_transport.Base.Dict.{Dict, keys, get, insert, remove}
use agent_transport.Base.Bytes.{as_u32}
use agent_transport.Packet.{Packet, «data»}
use agent_transport.Packet
use agent_transport.Priority.{priority_for_len}
use agent_transport.Config.{
  SocketAddr, MsgKey, msg_key, msg_key_eq, Action, send, TransportConfig, for_each,
}

-- `contents` is the field `data`; `done_at` is set once all is sent.
pub record OutMsg : Type 0 where
  pub contents : List ℕ
  pub granted_to : ℕ
  pub next_send : ℕ
  pub done_at : Option ℕ
  pub last_progress : ℕ

unfoldable pub chunk_range : OutMsg → ℕ → ℕ → ℕ × ℕ
chunk_range m offset packet_size =
    let start = offset / packet_size * packet_size in
    (start, min (start + packet_size) (length m.contents))

pub record SenderCore : Type 0 where
  pub cfg : TransportConfig
  pub out : Dict MsgKey OutMsg

-- data[start..end], for start ≤ end ≤ data.len()
abbrev pub slice : List ℕ → ℕ → ℕ → List ℕ
slice bytes start end = take (end - start) (drop start bytes)

-- The header of the DATA packet for a slice of the message.
unfoldable pub data_header : List ℕ → ℕ → ℕ → ℕ → Packet
data_header bytes msg_id start end =
    Packet.new «data» (priority_for_len (length bytes)) msg_id (as_u32 (length bytes))
      (as_u32 start) (as_u32 (length (slice bytes start end)))

unfoldable pub data_packet : List ℕ → ℕ → ℕ → ℕ → List ℕ
data_packet bytes msg_id start end =
    Packet.encode (data_header bytes msg_id start end) (slice bytes start end)

unfoldable pub new : TransportConfig → SenderCore
new cfg = record { cfg = cfg; out = [] }

-- The loop of `pump` from `next` on, with fuel for its rounds: where it ends, and what it pushes.
unfoldable pub pump_loop : ℕ → ℕ → MsgKey → List ℕ → ℕ → ℕ → ℕ × List Action
pump_loop zero packet_size key bytes limit next = (next, [])
pump_loop (suc fuel) packet_size key bytes limit next =
    let end = min (next + packet_size) (length bytes) in
    let later = pump_loop fuel packet_size key bytes limit end in
    if ltb next limit
    then (later.0, send key.addr (data_packet bytes key.id next end) ∷ later.1)
    else (next, [])

abbrev pub is_some : Option ℕ → Bool
is_some none = false
is_some (some t) = true

-- `pump` on the message that it finds. `limit` rounds are enough, since each moves `next_send` on.
unfoldable pub pump_msg : ℕ → MsgKey → ℕ → ℕ → OutMsg → OutMsg × List Action
pump_msg packet_size key limit now msg =
    let limit' = min limit (length msg.contents) in
    let (next, pushed) = pump_loop limit' packet_size key msg.contents limit' msg.next_send in
    if is_some msg.done_at then (msg, []) else (
      record msg {
        next_send = next;
        granted_to = max msg.granted_to limit';
        last_progress = now;
        done_at = if leb (length msg.contents) next then some now else msg.done_at;
      },
      pushed,
    )

-- A write through `self.out.get_mut(&key)`, with what it pushes.
unfoldable pub write : SenderCore → MsgKey → OutMsg × List Action → SenderCore × List Action
write s key (msg, pushed) = (record s { out = insert s.out key msg }, pushed)

unfoldable pub pump : SenderCore → MsgKey → ℕ → ℕ → SenderCore × List Action
unfolding write
pump s key limit now = elim (get s.out key) [
  | none ↦ (s, [])
  | some msg ↦ write s key (pump_msg s.cfg.packet_size key limit now msg)
]

abbrev pub first_msg : ℕ → ℕ → List ℕ → OutMsg
first_msg unscheduled now bytes = record {
  contents = bytes;
  granted_to = unscheduled;
  next_send = 0;
  done_at = none;
  last_progress = now;
}

unfoldable pub start : SenderCore → SocketAddr → ℕ → List ℕ → ℕ → SenderCore × List Action
start s dest msg_id bytes now =
    let unscheduled = min s.cfg.unscheduled_bytes (length bytes) in
    let key = msg_key dest msg_id in
    pump (record s { out = insert s.out key (first_msg unscheduled now bytes) }) key unscheduled now

unfoldable pub handle_grant : SenderCore → SocketAddr → Packet → ℕ → SenderCore × List Action
handle_grant s src pkt now =
    let key = msg_key src pkt.msg_id in
    elim (get s.out key) [
      | none ↦ (s, [])
      | some msg ↦
          let new_limit = min pkt.offset (length msg.contents) in
          if leb new_limit msg.granted_to then (s, []) else pump s key new_limit now
    ]

-- The loop of `handle_resend`; each round moves `off` on, so `end` rounds are enough.
unfoldable pub resend_loop : ℕ → ℕ → MsgKey → OutMsg → ℕ → ℕ → List Action
resend_loop zero packet_size key msg end off = []
resend_loop (suc fuel) packet_size key msg end off =
    let (s, e) = chunk_range msg off packet_size in
    let later = resend_loop fuel packet_size key msg end (max e (s + 1)) in
    if ltb off end then send key.addr (data_packet msg.contents key.id s e) ∷ later else []

-- The bookkeeping of `handle_resend` for a request up to `end`.
unfoldable pub resend_account : ℕ → ℕ → OutMsg → OutMsg
resend_account end now msg =
    let moved = ltb msg.next_send end in
    record msg {
      granted_to = max msg.granted_to end;
      next_send = if moved then end else msg.next_send;
      done_at =
          if moved && (leb (length msg.contents) end && not (is_some msg.done_at))
          then some now
          else msg.done_at;
      last_progress = now;
    }

unfoldable pub resend_msg : ℕ → MsgKey → Packet → ℕ → OutMsg → OutMsg × List Action
unfolding resend_account resend_loop
resend_msg packet_size key pkt now msg =
    let from = min pkt.offset (length msg.contents) in
    let end = min (from + pkt.length) (length msg.contents) in
    (resend_account end now msg, resend_loop end packet_size key msg end from)

unfoldable pub handle_resend : SenderCore → SocketAddr → Packet → ℕ → SenderCore × List Action
unfolding write
handle_resend s src pkt now =
    let key = msg_key src pkt.msg_id in
    elim (get s.out key) [
      | none ↦ (s, [])
      | some msg ↦ write s key (resend_msg s.cfg.packet_size key pkt now msg)
    ]

unfoldable pub handle_busy : SenderCore → SocketAddr → Packet → ℕ → SenderCore
handle_busy s src pkt now =
    let key = msg_key src pkt.msg_id in
    elim (get s.out key) [
      | none ↦ s
      | some msg ↦ record s { out = insert s.out key (record msg { last_progress = now }) }
    ]

-- The test of `retain`: the message is not done, or it is within its linger time.
unfoldable pub lingers : ℕ → ℕ → OutMsg → Bool
lingers now linger msg = elim msg.done_at [ none ↦ true | some t ↦ ltb (now - t) linger ]

unfoldable pub retain : (OutMsg → Bool) → Dict MsgKey OutMsg → Dict MsgKey OutMsg
retain keep [] = []
retain keep ((key, msg) ∷ out) =
    let rest = retain keep out in if keep msg then (key, msg) ∷ rest else rest

-- The probe for a stalled message: the chunk with the last byte that was sent.
unfoldable pub last_off : ℕ → OutMsg → ℕ
last_off packet_size msg =
    if msg.next_send == 0 then 0 else (msg.next_send - 1) / packet_size * packet_size

unfoldable pub tick_msg : TransportConfig → MsgKey → ℕ → OutMsg → OutMsg × List Action
unfolding last_off
tick_msg cfg key now msg =
    let (s, e) = chunk_range msg (last_off cfg.packet_size msg) cfg.packet_size in
    if is_some msg.done_at || ltb (now - msg.last_progress) cfg.poke_timeout then (msg, []) else (
      record msg { last_progress = now },
      send key.addr (data_packet msg.contents key.id s e) ∷ [],
    )

unfoldable pub tick_key : ℕ → SenderCore → MsgKey → SenderCore × List Action
unfolding write
tick_key now s key = elim (get s.out key) [
  | none ↦ (s, [])
  | some msg ↦ write s key (tick_msg s.cfg key now msg)
]

unfoldable pub tick : SenderCore → ℕ → SenderCore × List Action
unfolding tick_key
tick s now =
    let kept = record s { out = retain (lingers now s.cfg.linger) s.out } in
    for_each (tick_key now) kept (keys kept.out)

unfoldable pub is_done : SenderCore → SocketAddr → ℕ → Bool
is_done s dest msg_id = elim (get s.out (msg_key dest msg_id)) [
  | none ↦ true
  | some msg ↦ is_some msg.done_at
]

unfoldable pub finish : SenderCore → SocketAddr → ℕ → SenderCore
finish s dest msg_id = record s { out = remove s.out (msg_key dest msg_id) }
