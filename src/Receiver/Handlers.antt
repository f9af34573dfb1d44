-- ===== src/Receiver/Handlers.antt =====
-- transport/receiver.rs: `handle_data`, `deliver` and `tick`.
use agent_transport.Base.{
  ℕ, ◌+◌, ◌-◌, min, true, Option, none, some, List, [], ◌∷◌, ◌++◌, length, drop, ltb, leb, ◌==◌,
  if◌then◌else◌,
}
use agent_transport.Base.Bytes.{as_u32}
use agent_transport.Base.Dict.{keys, get, insert, remove}
use agent_transport.Packet.{Packet, busy, resend}
use agent_transport.Packet
use agent_transport.Priority.{priority_for_len}
use agent_transport.Config.{
  SocketAddr, MsgKey, msg_key, msg_key_eq, Action, send, deliver, for_each,
}
use agent_transport.Receiver.State.{
  InMsg, ReceiverCore, complete, contains, without, completed_cache, max_unanswered_resends,
  fresh_msg, accepts, store, first_missing_offset,
}
use agent_transport.Receiver.Scheduler.{issue_grant, schedule}

-- self.completed after one more key
unfoldable pub remember : List MsgKey → MsgKey → List MsgKey
remember completed key =
    (if leb completed_cache (length completed) then drop 1 completed else completed) ++ (key ∷ [])

-- `deliver` of the source; its action is pushed by the constructor of the same name.
unfoldable pub deliver_msg : ReceiverCore → MsgKey → List ℕ → ReceiverCore × List Action
unfolding remember
deliver_msg s key bytes = (
  record s {
    incoming = remove s.incoming key;
    granting = without s.granting key;
    completed = remember s.completed key;
  },
  deliver key.addr key.id bytes ∷ [],
)

-- The end of `handle_data`: a round of scheduling.
unfoldable pub then_schedule : ℕ → ReceiverCore × List Action → ReceiverCore × List Action
then_schedule now (s, pushed) = let (s', later) = schedule now s in (s', pushed ++ later)

-- What a call returns; a slice out of range panics, and so does a division by a packet size of zero.
pub data Outcome : Type 0 where
  returns : ReceiverCore × List Action → Outcome
  panics : Outcome

-- After the payload: the message is delivered if it is complete.
unfoldable pub settle : ReceiverCore → MsgKey → InMsg → ReceiverCore × List Action
settle s key m =
    if complete m
    then deliver_msg (record s { incoming = insert s.incoming key m }) key m.buf
    else (record s { incoming = insert s.incoming key m }, [])

-- `handle_data` from the entry of the message on.
unfoldable pub receive : ReceiverCore → MsgKey → InMsg → Packet → List ℕ → ℕ → Outcome
receive s key m pkt payload now =
    let pkt_size = s.cfg.packet_size in
    if pkt.msg_len == 0
    then returns
        (then_schedule now (deliver_msg (record s { incoming = insert s.incoming key m }) key []))
    else if pkt_size == 0
    then panics
    else if accepts pkt_size m pkt.msg_len pkt.offset payload
    then if leb (pkt.offset + length payload) (length m.buf)
      then returns (then_schedule now (settle s key (store pkt_size m pkt.offset payload now)))
      else panics
    else returns (then_schedule now (settle s key m))

abbrev pub busy_packet : ℕ → List ℕ
busy_packet msg_id = Packet.encode (Packet.new busy 0 msg_id 0 0 0) []

unfoldable pub handle_data : ReceiverCore → SocketAddr → Packet → List ℕ → ℕ → Outcome
handle_data s src pkt payload now =
    let key = msg_key src pkt.msg_id in
    if contains s.completed key then returns (s, []) else elim (get s.incoming key) [
      | some m ↦ receive s key m pkt payload now
      | none ↦
          if leb s.cfg.max_incoming (length s.incoming)
          then returns (s, send src (busy_packet pkt.msg_id) ∷ [])
          else if s.cfg.packet_size == 0
          then panics
          else receive s key (fresh_msg s.cfg pkt.msg_len now) pkt payload now
    ]

-- `tick` on a message that misses the chunk at `off` inside its window.
unfoldable pub request_resend : ℕ → ReceiverCore → MsgKey → InMsg → ℕ → ReceiverCore × List Action
request_resend now s key m off =
    let span = min (m.granted_to - off) s.cfg.grant_increment in
    let m' = record m { last_progress = now; unanswered_resends = m.unanswered_resends + 1 } in
    (
      (if ltb max_unanswered_resends m'.unanswered_resends
          then record s { incoming = remove s.incoming key; granting = without s.granting key }
          else record s { incoming = insert s.incoming key m' }),
      send key.addr (
            Packet.encode
              (Packet.new resend (priority_for_len m.total_len) key.id 0 (as_u32 off) (as_u32 span))
              [])
          ∷ [],
    )

-- `tick` on a message that misses nothing inside its window: the GRANT may be lost.
unfoldable pub renew_grant : ℕ → ReceiverCore → MsgKey → InMsg → ReceiverCore × List Action
renew_grant now s key m =
    let s' = record s { incoming = insert s.incoming key (record m { last_progress = now }) } in
    if leb s.cfg.grant_timeout (now - m.last_progress)
    then (if contains s.granting key then issue_grant key now true s' else (s', []))
    else (s, [])

unfoldable pub tick_stalled :
    ℕ → ReceiverCore → MsgKey → InMsg → Option ℕ → ReceiverCore × List Action
unfolding request_resend renew_grant
tick_stalled now s key m none = renew_grant now s key m
tick_stalled now s key m (some off) =
    if ltb off m.granted_to then request_resend now s key m off else renew_grant now s key m

unfoldable pub tick_key : ℕ → ReceiverCore → MsgKey → ReceiverCore × List Action
tick_key now s key = elim (get s.incoming key) [
  | none ↦ (s, [])
  | some m ↦
      if ltb (now - m.last_progress) s.cfg.resend_timeout
      then (s, [])
      else tick_stalled now s key m (first_missing_offset m s.cfg.packet_size)
]

unfoldable pub tick : ℕ → ReceiverCore → ReceiverCore × List Action
unfolding then_schedule
tick now s = then_schedule now (for_each (tick_key now) s (keys s.incoming))

unfoldable pub in_flight : ReceiverCore → ℕ
in_flight s = length s.incoming
