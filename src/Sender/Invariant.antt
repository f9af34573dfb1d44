-- ===== src/Sender/Invariant.antt =====
-- Every operation of the sender keeps the invariant.
use agent_transport.Base.{
  ℕ, ◌<◌, ◌≡◌, min, Bool, some, List, [], ◌∷◌, length, arith, Bool-cases, inl, inr, Option-cases,
}
use agent_transport.Base.Dict.{
  Dict, get, Every-insert, Every-get, Every-remove, IsDistinct-insert, IsDistinct-remove,
}
use agent_transport.Packet.{Packet}
use agent_transport.Config.{
  SocketAddr, MsgKey, msg_key, msg_key_eq, Action, TransportConfig, for_each_inv,
}
use agent_transport.Sender.{
  OutMsg, SenderCore, pump_msg, pump, start, handle_grant, handle_resend, handle_busy, resend_msg,
  tick_msg, tick_key, tick, retain, lingers, finish, new, first_msg, write,
}
use agent_transport.Sender.Passing.{IsDistinct-retain}
use agent_transport.Sender.Pump.{pump_present, start-write, started}
use agent_transport.Sender.Grant.{handle_grant_unknown, handle_grant_present}
use agent_transport.Sender.Valid.{
  IsOut, Valid, IsValid, pump_msg-IsOut, resend_msg-IsOut, tick_msg-IsOut,
}

-- A property of messages at a fixed packet size, as one of the entries of the map.
abbrev Out : ℕ → MsgKey → OutMsg → Type 0
Out packet_size key m = IsOut packet_size m

write-IsValid :
    (s : SenderCore) (key : MsgKey) (r : OutMsg × List Action)
    → IsValid s
    → IsOut s.cfg.packet_size r.0
    → IsValid (write s key r).0
unfolding write
write-IsValid s key r v h = record {
  pos = v.pos;
  messages = Every-insert (Out s.cfg.packet_size) s.out key r.0 v.messages h;
  distinct = IsDistinct-insert s.out key r.0 v.distinct;
}

pub found-IsOut :
    (s : SenderCore) (key : MsgKey) (m : OutMsg)
    → IsValid s
    → get s.out key ≡ some m
    → IsOut s.cfg.packet_size m
found-IsOut s key m v e = Every-get (Out s.cfg.packet_size) s.out key m v.messages e

pump-IsValid :
    (s : SenderCore) (key : MsgKey) (limit now : ℕ) → IsValid s → IsValid (pump s key limit now).0
unfolding pump
pump-IsValid s key limit now v = elim (Option-cases (get s.out key)) [
  | inl e ↦ rw (e, pump) v
  | inr (m, e) ↦
      let h = found-IsOut s key m v e in
      rw (pump_present s key limit now m e) (
        write-IsValid s key (pump_msg s.cfg.packet_size key limit now m) v (
          pump_msg-IsOut s.cfg.packet_size key limit now m v.pos h.credit h.within h.ahead
            (λ d. ground (arith, h.finished))))
]

start-IsValid :
    (s : SenderCore) (dest : SocketAddr) (msg_id : ℕ) (bytes : List ℕ) (now : ℕ)
    → IsValid s
    → IsValid (start s dest msg_id bytes now).0
start-IsValid s dest msg_id bytes now v =
    let unscheduled = min s.cfg.unscheduled_bytes (length bytes) in
    rw (start-write s dest msg_id bytes now) (
      write-IsValid s (msg_key dest msg_id) (started s dest msg_id bytes now) v (
        pump_msg-IsOut s.cfg.packet_size (msg_key dest msg_id) unscheduled now
          (first_msg unscheduled now bytes) v.pos (omega arith) (omega arith) (omega arith)
          (λ d. cc)))

handle_grant-IsValid :
    (s : SenderCore) (src : SocketAddr) (pkt : Packet) (now : ℕ)
    → IsValid s
    → IsValid (handle_grant s src pkt now).0
handle_grant-IsValid s src pkt now v = elim (Option-cases (get s.out (msg_key src pkt.msg_id))) [
  | inl e ↦ rw (handle_grant_unknown s src pkt now e) v
  | inr (m, e) ↦ rw (handle_grant_present s src pkt now m e) (
      ground (
        arith,
        v,
        pump-IsValid s (msg_key src pkt.msg_id) (min pkt.offset (length m.contents)) now v,
      ))
]

handle_resend-IsValid :
    (s : SenderCore) (src : SocketAddr) (pkt : Packet) (now : ℕ)
    → IsValid s
    → IsValid (handle_resend s src pkt now).0
unfolding handle_resend
handle_resend-IsValid s src pkt now v = elim (Option-cases (get s.out (msg_key src pkt.msg_id))) [
  | inl e ↦ rw (e, handle_resend) v
  | inr (m, e) ↦
      rw (e, handle_resend)
        (write-IsValid s (msg_key src pkt.msg_id)
          (resend_msg s.cfg.packet_size (msg_key src pkt.msg_id) pkt now m) v
          (resend_msg-IsOut s.cfg.packet_size (msg_key src pkt.msg_id) pkt now m v.pos
            (found-IsOut s _ m v e)))
]

handle_busy-IsValid :
    (s : SenderCore) (src : SocketAddr) (pkt : Packet) (now : ℕ)
    → IsValid s
    → IsValid (handle_busy s src pkt now)
unfolding handle_busy
handle_busy-IsValid s src pkt now v = elim (Option-cases (get s.out (msg_key src pkt.msg_id))) [
  | inl e ↦ rw (e, handle_busy) v
  | inr (m, e) ↦
      let h = found-IsOut s _ m v e in
      rw (e, handle_busy)
        (record {
          pos = v.pos;
          messages =
              Every-insert (Out s.cfg.packet_size) s.out (msg_key src pkt.msg_id)
                (record m { last_progress = now }) v.messages
                (record {
                  within = h.within;
                  credit = h.credit;
                  ahead = h.ahead;
                  finished = h.finished;
                });
          distinct =
              IsDistinct-insert s.out (msg_key src pkt.msg_id) (record m { last_progress = now })
                v.distinct;
        })
]

retain-Valid :
    (packet_size : ℕ) (keep : OutMsg → Bool) (out : Dict MsgKey OutMsg)
    → Valid packet_size out
    → Valid packet_size (retain keep out)
unfolding retain
retain-Valid packet_size keep [] h = tt
retain-Valid packet_size keep ((key, m) ∷ out) h = elim (Bool-cases (keep m)) [
  | inl kept ↦ rw kept (h.0, retain-Valid packet_size keep out h.1)
  | inr dropped ↦ rw dropped (retain-Valid packet_size keep out h.1)
]

pub tick_key-IsValid :
    (now : ℕ) (s : SenderCore) (key : MsgKey) → IsValid s → IsValid (tick_key now s key).0
unfolding tick_key
tick_key-IsValid now s key v = elim (Option-cases (get s.out key)) [
  | inl e ↦ rw (e, tick_key) v
  | inr (m, e) ↦
      rw (e, tick_key)
        (write-IsValid s key (tick_msg s.cfg key now m) v
          (tick_msg-IsOut s.cfg key now m (found-IsOut s key m v e)))
]

pub live-IsValid :
    (s : SenderCore) (now : ℕ)
    → IsValid s
    → IsValid (record s { out = retain (lingers now s.cfg.linger) s.out })
live-IsValid s now v = record {
  pos = v.pos;
  messages = retain-Valid s.cfg.packet_size (lingers now s.cfg.linger) s.out v.messages;
  distinct = IsDistinct-retain (lingers now s.cfg.linger) s.out v.distinct;
}

tick-IsValid : (s : SenderCore) (now : ℕ) → IsValid s → IsValid (tick s now).0
unfolding tick
tick-IsValid s now v =
    for_each_inv IsValid (tick_key now) (tick_key-IsValid now) _ _ (live-IsValid s now v)

finish-IsValid :
    (s : SenderCore) (dest : SocketAddr) (msg_id : ℕ) → IsValid s → IsValid (finish s dest msg_id)
unfolding finish
finish-IsValid s dest msg_id v = record {
  pos = v.pos;
  messages = Every-remove (Out s.cfg.packet_size) s.out (msg_key dest msg_id) v.messages;
  distinct = IsDistinct-remove s.out (msg_key dest msg_id) v.distinct;
}

-- The calls that reach the sender: those of `Transport`, and of its I/O thread.
pub data Call : Type 0 where
  starts : SocketAddr → ℕ → List ℕ → ℕ → Call
  grants resends busies : SocketAddr → Packet → ℕ → Call
  ticks : ℕ → Call
  finishes : SocketAddr → ℕ → Call

unfoldable pub step : SenderCore → Call → SenderCore
step s (starts dest msg_id bytes now) = (start s dest msg_id bytes now).0
step s (grants src pkt now) = (handle_grant s src pkt now).0
step s (resends src pkt now) = (handle_resend s src pkt now).0
step s (busies src pkt now) = handle_busy s src pkt now
step s (ticks now) = (tick s now).0
step s (finishes dest msg_id) = finish s dest msg_id

pub run : SenderCore → List Call → SenderCore
run s [] = s
run s (c ∷ calls) = run (step s c) calls

pub step-IsValid : (s : SenderCore) (c : Call) → IsValid s → IsValid (step s c)
unfolding step
step-IsValid s (starts dest msg_id bytes now) v = start-IsValid s dest msg_id bytes now v
step-IsValid s (grants src pkt now) v = handle_grant-IsValid s src pkt now v
step-IsValid s (resends src pkt now) v = handle_resend-IsValid s src pkt now v
step-IsValid s (busies src pkt now) v = handle_busy-IsValid s src pkt now v
step-IsValid s (ticks now) v = tick-IsValid s now v
step-IsValid s (finishes dest msg_id) v = finish-IsValid s dest msg_id v

run-IsValid : (s : SenderCore) (calls : List Call) → IsValid s → IsValid (run s calls)
unfolding run
run-IsValid s [] v = v
run-IsValid s (c ∷ calls) v = run-IsValid (step s c) calls (step-IsValid s c v)

pub new-IsValid : (cfg : TransportConfig) → 0 < cfg.packet_size → IsValid (new cfg)
unfolding new
new-IsValid cfg pos = record { pos = pos; messages = tt; distinct = tt }

-- After any calls on a new sender with a positive packet size, every message that it holds has
-- its offsets within its length, is sent less than one packet past its credit, and is marked done
-- exactly when all of it is sent.
pub run-new-IsValid :
    (cfg : TransportConfig) (calls : List Call)
    → 0 < cfg.packet_size
    → IsValid (run (new cfg) calls)
run-new-IsValid cfg calls pos = run-IsValid (new cfg) calls (new-IsValid cfg pos)
