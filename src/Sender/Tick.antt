-- ===== src/Sender/Tick.antt =====
-- What the sender's `tick` drops, keeps and probes.
use agent_transport.Base.{
  ℕ, ◌+◌, ◌-◌, ◌*◌, ◌/◌, ◌<◌, ◌≡◌, refl, ◌∙◌, min, Bool, true, false, not, ◌&&◌, Option, none, some,
  List, [], ◌∷◌, length, arith, leb, ◌==◌, ==_iff, if◌then◌else◌, Bool-cases, Option-cases, inl,
  inr,
}
use agent_transport.Base.Division.{div-eq}
use native.Mathlib.Nat.{zero-div}
use agent_transport.Base.Dict.{Dict, get, IsDistinct}
use agent_transport.Config.{MsgKey, msg_key_eq, Action, send, TransportConfig}
use agent_transport.Sender.{
  OutMsg, SenderCore, data_packet, chunk_range, last_off, tick_msg, tick, retain, lingers, is_some,
}
use agent_transport.Sender.Passing.{probes, ticked, kept, tick_live}

last_chunk :
    (packet_size : ℕ) (m : OutMsg)
    → 0 < packet_size
    → let start = (m.next_send - 1) / packet_size * packet_size in
      chunk_range m (last_off packet_size m) packet_size
      ≡ (start, min (start + packet_size) (length m.contents))
unfolding chunk_range last_off
last_chunk packet_size m pos =
    let q = (m.next_send - 1) / packet_size in
    let aligned : q * packet_size / packet_size ≡ q =
      div-eq (q * packet_size) packet_size q pos (omega arith) (omega arith) in
    elim (Bool-cases (m.next_send == 0)) [
      | inl unsent ↦
          let none_sent : m.next_send ≡ 0 = (==_iff _ 0).0 unsent in
          let first : q ≡ 0 = rw none_sent (zero-div packet_size) in
          rw (unsent, first, zero-div packet_size)
      | inr sent ↦ rw (sent, aligned)
    ]

-- A message that is not done and has made no progress for the probe interval is probed: the chunk
-- of the last byte that was sent (the first chunk, if none was) goes out once more, and the
-- interval starts again. Any other message is left as it is, and nothing is sent for it.
pub tick_msg_lem :
    (cfg : TransportConfig) (key : MsgKey) (now : ℕ) (m : OutMsg)
    → 0 < cfg.packet_size
    → let stalled = not (is_some m.done_at) && leb cfg.poke_timeout (now - m.last_progress) in
      let q = (m.next_send - 1) / cfg.packet_size in
      let start = q * cfg.packet_size in
      tick_msg cfg key now m ≡ (
        if stalled
        then (
          record m { last_progress = now },
          send key.addr (
                data_packet m.contents key.id start
                  (min (start + cfg.packet_size) (length m.contents)))
              ∷ [],
        )
        else (m, []))
unfolding tick_msg
tick_msg_lem cfg key now m pos = rw (last_chunk cfg.packet_size m pos) (ground arith)

-- The linger time of a message that is done is over.
abbrev pub expired : ℕ → ℕ → Option ℕ → Bool
expired now linger none = false
expired now linger (some t) = leb linger (now - t)

-- A message that is not done has made no progress for the probe interval.
abbrev pub stalled : ℕ → ℕ → OutMsg → Bool
stalled now interval m = not (is_some m.done_at) && leb interval (now - m.last_progress)

-- The chunk of the last byte that was sent, or the first one.
abbrev pub probe : ℕ → MsgKey → OutMsg → Action
probe packet_size key m =
    let start = (m.next_send - 1) / packet_size * packet_size in
    send key.addr
      (data_packet m.contents key.id start (min (start + packet_size) (length m.contents)))

-- What is left of a message, and what is sent for a map of them.
abbrev pub aged : TransportConfig → ℕ → Option OutMsg → Option OutMsg
aged cfg now none = none
aged cfg now (some m) =
    if expired now cfg.linger m.done_at
    then none
    else some (if stalled now cfg.poke_timeout m then record m { last_progress = now } else m)

abbrev pub probes_of : TransportConfig → ℕ → Dict MsgKey OutMsg → List Action
probes_of cfg now [] = []
probes_of cfg now ((key, m) ∷ out) =
    if stalled now cfg.poke_timeout m
    then probe cfg.packet_size key m ∷ probes_of cfg now out
    else probes_of cfg now out

lingers-expired :
    (now linger : ℕ) (m : OutMsg) → lingers now linger m ≡ not (expired now linger m.done_at)
unfolding lingers
lingers-expired now linger m = elim (Option-cases m.done_at) [
  | inl e ↦ rw (e, lingers) refl
  | inr (t, e) ↦ rw (e, lingers) (ground arith)
]

kept_aged :
    (cfg : TransportConfig) (key : MsgKey) (now : ℕ) (o : Option OutMsg)
    → 0 < cfg.packet_size
    → ticked cfg key now (kept (lingers now cfg.linger) o) none ≡ aged cfg now o
kept_aged cfg key now none pos = refl
kept_aged cfg key now (some m) pos = elim (Bool-cases (expired now cfg.linger m.done_at)) [
  | inl over ↦ rw (lingers-expired now cfg.linger m, over) refl
  | inr within ↦
      rw (lingers-expired now cfg.linger m, within, tick_msg_lem cfg key now m pos) (ground arith)
]

-- What is over is done, and is not probed.
expired_quiet :
    (now linger interval : ℕ) (m : OutMsg)
    → expired now linger m.done_at ≡ true
    → stalled now interval m ≡ false
expired_quiet now linger interval m over = elim (Option-cases m.done_at) [
  | inl e ↦ cc (rw e at over)
  | inr (t, e) ↦ rw e refl
]

probes_live :
    (cfg : TransportConfig) (now : ℕ) (out : Dict MsgKey OutMsg)
    → 0 < cfg.packet_size
    → probes cfg now (retain (lingers now cfg.linger) out) ≡ probes_of cfg now out
unfolding probes retain
probes_live cfg now [] pos = refl
probes_live cfg now ((key, m) ∷ out) pos =
    let rest = probes_live cfg now out pos in
    elim (Bool-cases (expired now cfg.linger m.done_at)) [
      | inl over ↦
          rw
            (
              lingers-expired now cfg.linger m,
              over,
              expired_quiet now cfg.linger cfg.poke_timeout m over,
            )
            rest
      | inr within ↦
          rw (lingers-expired now cfg.linger m, within, tick_msg_lem cfg key now m pos, rest)
            (elim (Bool-cases (stalled now cfg.poke_timeout m)) [
              | inl still ↦ rw still refl
              | inr moves ↦ rw moves refl
            ])
    ]

-- `tick` drops exactly the messages that are done and have lingered for the linger time. Of the
-- others, those that are not done and have made no progress for the probe interval are probed, in
-- the order of the map: the chunk of the last byte that was sent (the first chunk, if none was) goes
-- out once more, and the interval starts again. It sends nothing else, and leaves all other messages
-- as they are. The packet size is positive, and no message has two entries.
pub tick_lem :
    (s : SenderCore) (now : ℕ) (key : MsgKey)
    → 0 < s.cfg.packet_size
    → IsDistinct s.out
    → (get (tick s now).0.out key ≡ aged s.cfg now (get s.out key))
      × ((tick s now).1 ≡ probes_of s.cfg now s.out)
tick_lem s now key pos distinct =
    let (found, sent) = tick_live s now key distinct in
    (found ∙ kept_aged s.cfg key now (get s.out key) pos, sent ∙ probes_live s.cfg now s.out pos)
