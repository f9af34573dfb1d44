-- ===== src/Receiver/Stuck.antt =====
-- A message whose bitmap is full although bytes of it are missing.
use agent_transport.Base.{
  ℕ, zero, suc, ◌+◌, ◌/◌, ◌<◌, ◌≡◌, ◌≢◌, refl, Bool, true, false, none, some, List, [], ◌∷◌, length,
  get_or, arith, leb, ltb, ◌==◌, Bool-cases, inl, inr, ltb→lt,
}
use agent_transport.Base.Dict.{get, insert, get-insert_self, get-insert_ne, get-remove_ne}
use agent_transport.Packet.{Packet}
use agent_transport.Config.{MsgKey, msg_key_eq, Action}
use agent_transport.Receiver.State.{InMsg, ReceiverCore, complete, accepts, first_missing}
use agent_transport.Receiver.Handlers.{
  Outcome, returns, panics, deliver_msg, then_schedule, settle, receive,
}
use agent_transport.Receiver.Frame.{SameBytes, SameEntry, SameEntry-trans, schedule-Frame}

-- Every chunk is marked, and the bytes that came are not as many as the message has.
pub record IsStuck (m : InMsg) : Type 0 where
  pub full : first_missing 0 m.received ≡ none
  pub short : complete m ≡ false

-- The receiver still holds the message, with the same bytes.
abbrev pub Still : MsgKey → InMsg → ReceiverCore → Type 0
Still key m s = SameEntry (some m) (get s.incoming key)

full_marks :
    (received : List Bool) (i idx : ℕ)
    → first_missing i received ≡ none
    → idx < length received
    → get_or received idx false ≡ true
unfolding first_missing
full_marks [] i idx h inside = absurd (omega arith)
full_marks (false ∷ received) i idx h inside = cc h
full_marks (true ∷ received) i zero h inside = refl
full_marks (true ∷ received) i (suc idx) h inside = full_marks received (i + 1) idx h (omega arith)

accepts_full :
    (pkt_size : ℕ) (m : InMsg) (total_len offset : ℕ) (payload : List ℕ)
    → first_missing 0 m.received ≡ none
    → accepts pkt_size m total_len offset payload ≡ false
unfolding accepts
accepts_full pkt_size m total_len offset payload full =
    elim (Bool-cases (ltb (offset / pkt_size) (length m.received))) [
      | inr out ↦ rw out refl
      | inl inside ↦
          rw (inside, full_marks m.received 0 (offset / pkt_size) full (ltb→lt _ _ inside)) refl
    ]

pub Still-schedule :
    (now : ℕ) (key : MsgKey) (m : InMsg) (r : ReceiverCore × List Action)
    → Still key m r.0
    → Still key m (then_schedule now r).0
unfolding then_schedule
Still-schedule now key m r h =
    SameEntry-trans (some m) _ _ h ((schedule-Frame now r.0).0.entries key)

-- Writing another message, or removing one.
Still-insert :
    (s : ReceiverCore) (k key : MsgKey) (m n : InMsg)
    → k ≢ key
    → Still key m s
    → Still key m (record s { incoming = insert s.incoming k n })
Still-insert s k key m n ne h = rw (get-insert_ne s.incoming k key n ne) h

Still-deliver :
    (s : ReceiverCore) (k key : MsgKey) (m : InMsg) (bytes : List ℕ)
    → k ≢ key
    → Still key m s
    → Still key m (deliver_msg s k bytes).0
unfolding deliver_msg
Still-deliver s k key m bytes ne h = rw (get-remove_ne s.incoming k key ne) h

Still-settle :
    (s : ReceiverCore) (k key : MsgKey) (m n : InMsg)
    → k ≢ key
    → Still key m s
    → Still key m (settle s k n).0
unfolding settle
Still-settle s k key m n ne h =
    let h' = Still-insert s k key m n ne h in
    elim (Bool-cases (complete n)) [
      | inl all ↦ rw all (Still-deliver _ k key m n.buf ne h')
      | inr more ↦ rw more h'
    ]

abbrev pub StillIf : MsgKey → InMsg → Outcome → Type 0
StillIf key m (returns r) = Still key m r.0
StillIf key m panics = Unit

pub receive_other :
    (s : ReceiverCore) (k key : MsgKey) (m n : InMsg) (pkt : Packet) (payload : List ℕ) (now : ℕ)
    → k ≢ key
    → Still key m s
    → StillIf key m (receive s k n pkt payload now)
unfolding receive
receive_other s k key m n pkt payload now ne h = elim (Bool-cases (pkt.msg_len == 0)) [
  | inl empty ↦
      rw empty
        (Still-schedule now key m _ (Still-deliver _ k key m [] ne (Still-insert s k key m n ne h)))
  | inr some_bytes ↦ elim (Bool-cases (s.cfg.packet_size == 0)) [
    | inl null ↦ rw (some_bytes, null) tt
    | inr sized ↦ elim (Bool-cases (accepts s.cfg.packet_size n pkt.msg_len pkt.offset payload)) [
      | inr ignored ↦
          rw (some_bytes, sized, ignored)
            (Still-schedule now key m _ (Still-settle s k key m n ne h))
      | inl taken ↦ elim (Bool-cases (leb (pkt.offset + length payload) (length n.buf))) [
        | inr out ↦ rw (some_bytes, sized, taken, out) tt
        | inl fits ↦
            rw (some_bytes, sized, taken, fits)
              (Still-schedule now key m _ (Still-settle s k key m _ ne h))
      ]
    ]
  ]
]

pub receive_stuck :
    (s : ReceiverCore) (key : MsgKey) (m n : InMsg) (pkt : Packet) (payload : List ℕ) (now : ℕ)
    → (pkt.msg_len == 0) ≡ false
    → IsStuck n
    → SameBytes m n
    → StillIf key m (receive s key n pkt payload now)
unfolding receive settle
receive_stuck s key m n pkt payload now some_bytes stuck same =
    let ignored = accepts_full s.cfg.packet_size n pkt.msg_len pkt.offset payload stuck.full in
    elim (Bool-cases (s.cfg.packet_size == 0)) [
      | inl null ↦ rw (some_bytes, null) tt
      | inr sized ↦
          rw (some_bytes, sized, ignored, stuck.short)
            (Still-schedule now key m _ (rw (get-insert_self s.incoming key n) same))
    ]
