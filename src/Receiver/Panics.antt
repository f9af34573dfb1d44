-- ===== src/Receiver/Panics.antt =====
-- When `handle_data` panics.
use agent_transport.Base.{
  ℕ, ◌+◌, ◌<◌, ◌≡◌, ◌↔◌, ◌⊎◌, refl, Bool, true, false, Option, none, some, List, length,
  length-replicate, leb, ◌==◌, ==_iff, arith, Bool-cases, inl, inr, Option-cases, leb→lt, lt→leb,
  if◌then◌else◌,
}
use mathlib.Core.Option.{some-injective}
use agent_transport.Base.Dict.{get, Every-get}
use agent_transport.Packet.{Packet}
use agent_transport.Config.{Action, SocketAddr, MsgKey, msg_key, msg_key_eq}
use agent_transport.Receiver.State.{InMsg, ReceiverCore, contains, accepts, fresh_msg}
use agent_transport.Receiver.Handlers.{Outcome, returns, panics, receive, handle_data}
use agent_transport.Receiver.Valid.{IsReceiver, Entry}

abbrev IsPanic : Outcome → Type 0
IsPanic (returns r) = ⊥
IsPanic panics = Unit

returns≢panics : (o : Outcome) → o ≡ panics → IsPanic o
returns≢panics o e = rw e tt

-- The shape of `receive` with a packet size: one of its four ends is a panic.
one_panics :
    (empty taken fits : Bool) (x y z : ReceiverCore × List Action)
    → ((if empty
          then returns x
          else if taken
          then if fits then returns y else panics
          else returns z)
        ≡ panics)
      ↔ ((empty ≡ false) × (taken ≡ true) × (fits ≡ false))
one_panics true taken fits x y z = (λ h. absurd (returns≢panics _ h), λ (a, b, c). cc a)
one_panics false false fits x y z = (λ h. absurd (returns≢panics _ h), λ (a, b, c). cc b)
one_panics false true true x y z = (λ h. absurd (returns≢panics _ h), λ (a, b, c). cc c)
one_panics false true false x y z = (λ h. (refl, refl, refl), λ h. refl)

-- The packet is taken for the message, and does not fit its buffer.
abbrev pub Overruns : ReceiverCore → InMsg → Packet → List ℕ → Type 0
Overruns s m pkt payload =
    (0 < pkt.msg_len)
    × (accepts s.cfg.packet_size m pkt.msg_len pkt.offset payload ≡ true)
    × (length m.buf < pkt.offset + length payload)

receive_panics :
    (s : ReceiverCore) (key : MsgKey) (m : InMsg) (pkt : Packet) (payload : List ℕ) (now : ℕ)
    → 0 < s.cfg.packet_size
    → (receive s key m pkt payload now ≡ panics) ↔ Overruns s m pkt payload
unfolding receive
receive_panics s key m pkt payload now pos =
    let sized : (s.cfg.packet_size == 0) ≡ false = ground (arith, pos) in
    let (to, from) =
      one_panics (pkt.msg_len == 0) (accepts s.cfg.packet_size m pkt.msg_len pkt.offset payload)
        (leb (pkt.offset + length payload) (length m.buf)) _ _ _ in
    rw sized (
      λ h. let (some_bytes, taken, over) = to h in (ground arith, taken, leb→lt _ _ over),
      λ (some_bytes, taken, over). from (ground arith, taken, lt→leb _ _ over),
    )

-- A new message's first packet fits its buffer, if it is taken at all.
fresh_fits :
    (s : ReceiverCore) (pkt : Packet) (payload : List ℕ) (now : ℕ)
    → ¬ Overruns s (fresh_msg s.cfg pkt.msg_len now) pkt payload
unfolding fresh_msg accepts
fresh_fits s pkt payload now (some_bytes, taken, over) =
    let sized = length-replicate {A = ℕ} pkt.msg_len 0 in ground (arith, sized)

-- With a packet size, a packet that starts a message, or comes for a delivered one, never makes
-- `handle_data` panic.
starts_fit :
    (s : ReceiverCore) (src : SocketAddr) (pkt : Packet) (payload : List ℕ) (now : ℕ)
    → 0 < s.cfg.packet_size
    → get s.incoming (msg_key src pkt.msg_id) ≡ none
    → ¬ (handle_data s src pkt payload now ≡ panics)
unfolding handle_data
starts_fit s src pkt payload now pos e =
    let sized : (s.cfg.packet_size == 0) ≡ false = ground (arith, pos) in
    elim (Bool-cases (contains s.completed (msg_key src pkt.msg_id))) [
      | inl old ↦ rw old (λ h. returns≢panics _ h)
      | inr new ↦ elim (Bool-cases (leb s.cfg.max_incoming (length s.incoming))) [
        | inl full ↦ rw (new, e, full, handle_data) (λ h. returns≢panics _ h)
        | inr more ↦
            rw (new, e, more, sized, handle_data)
              (λ h.
                fresh_fits s pkt payload now
                  ((receive_panics s _ (fresh_msg s.cfg pkt.msg_len now) pkt payload now pos).0 h))
      ]
    ]

sized_panics :
    (s : ReceiverCore) (src : SocketAddr) (pkt : Packet) (payload : List ℕ) (now : ℕ)
    → 0 < s.cfg.packet_size
    → IsReceiver s
    → (handle_data s src pkt payload now ≡ panics) ↔ (
        (m : InMsg) × (get s.incoming (msg_key src pkt.msg_id) ≡ some m) × Overruns s m pkt payload)
unfolding handle_data
sized_panics s src pkt payload now pos v =
    let key = msg_key src pkt.msg_id in
    elim (Option-cases (get s.incoming key)) [
      | inr (m, e) ↦
          let new = (Every-get (Entry s.cfg s.completed) s.incoming key m v.entries e).1 in
          let (to, from) = receive_panics s key m pkt payload now pos in
          rw (new, e, handle_data)
            (λ h. (m, refl, to h), λ (m', e', over). from (rw (some-injective m m' e') over))
      | inl e ↦
          (λ h. absurd (starts_fit s src pkt payload now pos e h), λ (m, e', over). cc (e, e'))
    ]

-- The packet's message, as it is held, makes `handle_data` divide by the packet size: a new one for
-- the number of its chunks, a held one for the number of the packet's chunk.
abbrev pub Divides : ReceiverCore → Packet → Option InMsg → Type 0
Divides s pkt none = length s.incoming < s.cfg.max_incoming
Divides s pkt (some m) = 0 < pkt.msg_len

receive_divides :
    (s : ReceiverCore) (key : MsgKey) (m : InMsg) (pkt : Packet) (payload : List ℕ) (now : ℕ)
    → (s.cfg.packet_size == 0) ≡ true
    → (receive s key m pkt payload now ≡ panics) ↔ (0 < pkt.msg_len)
unfolding receive
receive_divides s key m pkt payload now null = elim (Bool-cases (pkt.msg_len == 0)) [
  | inl empty ↦
      rw empty (λ h. absurd (returns≢panics _ h), λ some_bytes. absurd (ground (arith, some_bytes)))
  | inr some_bytes ↦ rw (some_bytes, null) (λ h. ground arith, λ h. refl)
]

-- The packet is for a message that has not been delivered, and the packet size is zero.
abbrev pub DividesByZero : ReceiverCore → MsgKey → Packet → Type 0
DividesByZero s key pkt =
    (s.cfg.packet_size ≡ 0)
    × (contains s.completed key ≡ false)
    × Divides s pkt (get s.incoming key)

unsized_panics :
    (s : ReceiverCore) (src : SocketAddr) (pkt : Packet) (payload : List ℕ) (now : ℕ)
    → (s.cfg.packet_size == 0) ≡ true
    → let key = msg_key src pkt.msg_id in
      (handle_data s src pkt payload now ≡ panics)
      ↔ ((contains s.completed key ≡ false) × Divides s pkt (get s.incoming key))
unfolding handle_data
unsized_panics s src pkt payload now null =
    let key = msg_key src pkt.msg_id in
    elim (Bool-cases (contains s.completed key)) [
      | inl old ↦ rw old (λ h. absurd (returns≢panics _ h), λ (new, d). cc new)
      | inr new ↦ elim (Option-cases (get s.incoming key)) [
        | inr (m, e) ↦
            let (to, from) = receive_divides s key m pkt payload now null in
            rw (new, e, handle_data) (λ h. (refl, to h), λ (same, d). from d)
        | inl e ↦ elim (Bool-cases (leb s.cfg.max_incoming (length s.incoming))) [
          | inl full ↦
              rw (new, e, full, handle_data)
                (λ h. absurd (returns≢panics _ h), λ (same, d). absurd (ground (arith, full, d)))
          | inr more ↦
              rw (new, e, more, null, handle_data) (λ h. (refl, leb→lt _ _ more), λ h. refl)
        ]
      ]
    ]

-- In a state that keeps the invariant, `handle_data` panics exactly in two cases. One is a packet for
-- a message that is held already, with a positive packet size, which states a length other than
-- zero, is taken by the bitmap and by the length that the packet itself states, and yet reaches past
-- the end of the message. The other is a packet size of zero, when the packet is not for a delivered
-- message, and either starts one for which there is room, or is for a held one and states a length
-- other than zero. So with a positive packet size a packet that starts a message, or that comes for
-- a delivered one, never makes it panic.
pub handle_data_panics :
    (s : ReceiverCore) (src : SocketAddr) (pkt : Packet) (payload : List ℕ) (now : ℕ)
    → IsReceiver s
    → let key = msg_key src pkt.msg_id in
      (handle_data s src pkt payload now ≡ panics) ↔ (
        ((0 < s.cfg.packet_size)
          × ((m : InMsg) × (get s.incoming key ≡ some m) × Overruns s m pkt payload))
        ⊎ DividesByZero s key pkt)
handle_data_panics s src pkt payload now v = elim (Bool-cases (s.cfg.packet_size == 0)) [
  | inl null ↦
      let none_at : s.cfg.packet_size ≡ 0 = (==_iff _ 0).0 null in
      let (to, from) = unsized_panics s src pkt payload now null in
      (
        λ h. let (new, divides) = to h in inr (none_at, new, divides),
        λ cases. elim cases [
          | inl (pos, over) ↦ absurd (omega (arith, pos, none_at))
          | inr (same, new, divides) ↦ from (new, divides)
        ],
      )
  | inr sized ↦
      let pos : 0 < s.cfg.packet_size = ground (arith, sized) in
      let (to, from) = sized_panics s src pkt payload now pos v in
      (
        λ h. inl (pos, to h),
        λ cases. elim cases [
          | inl (same, over) ↦ from over
          | inr (none_at, new, divides) ↦ absurd (omega (arith, pos, none_at))
        ],
      )
]
