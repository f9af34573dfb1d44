-- ===== src/Transport/Numbers.antt =====
-- The numbers of messages: `send_to` never takes one that is in use.
use agent_transport.Base.{
  ℕ, ◌≡◌, Bool, none, some, List, [], ◌∷◌, All-mono, leb, Bool-cases, Option-cases, inl, inr,
}
use agent_transport.Base.Dict.{Dict, get, insert, Every, Every-insert, Every-remove, Every-get}
use agent_transport.Packet.{Packet}
use agent_transport.Config.{SocketAddr, MsgKey, msg_key, msg_key_eq, for_each_inv}
use agent_transport.Sender.{
  OutMsg, SenderCore, write, pump, pump_msg, start, handle_grant, handle_resend, handle_busy, tick,
  tick_key, tick_msg, retain, lingers, finish, resend_msg,
}
use agent_transport.Sender.Pump.{start-write, started}
use agent_transport.Sender.Grant.{handle_grant_unknown, handle_grant_present, limit_of}

-- Every message of the sender has a number of the set.
abbrev pub Numbered : (ℕ → Type 0) → SenderCore → Type 0
Numbered P s = Every (λ key m. P key.id) s.out

module _ (P : ℕ → Type 0) (s : SenderCore) where
  insert-Numbered :
      (key : MsgKey) (m m' : OutMsg)
      → get s.out key ≡ some m
      → Numbered P s
      → Numbered P (record s { out = insert s.out key m' })
  insert-Numbered key m m' e h =
      Every-insert (λ (k : MsgKey) (x : OutMsg). P k.id) s.out key m' h
        (Every-get (λ (k : MsgKey) (x : OutMsg). P k.id) s.out key m h e)

  pump-Numbered :
      (key : MsgKey) (limit now : ℕ) → Numbered P s → Numbered P (pump s key limit now).0
  unfolding pump write
  pump-Numbered key limit now h = elim (Option-cases (get s.out key)) [
    | inl e ↦ rw (e, pump) h
    | inr (m, e) ↦
        rw (e, pump) (insert-Numbered key m (pump_msg s.cfg.packet_size key limit now m).0 e h)
  ]

  pub handle_grant-Numbered :
      (src : SocketAddr) (pkt : Packet) (now : ℕ)
      → Numbered P s
      → Numbered P (handle_grant s src pkt now).0
  handle_grant-Numbered src pkt now h =
      let key = msg_key src pkt.msg_id in
      elim (Option-cases (get s.out key)) [
        | inl e ↦ rw (handle_grant_unknown s src pkt now e) h
        | inr (m, e) ↦
            rw (handle_grant_present s src pkt now m e)
              (elim (Bool-cases (leb (limit_of s src pkt now m) m.granted_to)) [
                | inl old ↦ rw old h
                | inr more ↦ rw more (pump-Numbered key (limit_of s src pkt now m) now h)
              ])
      ]

  pub handle_resend-Numbered :
      (src : SocketAddr) (pkt : Packet) (now : ℕ)
      → Numbered P s
      → Numbered P (handle_resend s src pkt now).0
  unfolding handle_resend write
  handle_resend-Numbered src pkt now h =
      let key = msg_key src pkt.msg_id in
      elim (Option-cases (get s.out key)) [
        | inl e ↦ rw (e, handle_resend) h
        | inr (m, e) ↦
            rw (e, handle_resend)
              (insert-Numbered key m (resend_msg s.cfg.packet_size key pkt now m).0 e h)
      ]

  pub handle_busy-Numbered :
      (src : SocketAddr) (pkt : Packet) (now : ℕ)
      → Numbered P s
      → Numbered P (handle_busy s src pkt now)
  unfolding handle_busy
  handle_busy-Numbered src pkt now h =
      let key = msg_key src pkt.msg_id in
      elim (Option-cases (get s.out key)) [
        | inl e ↦ rw (e, handle_busy) h
        | inr (m, e) ↦
            rw (e, handle_busy) (insert-Numbered key m (record m { last_progress = now }) e h)
      ]

  tick_key-Numbered : (now : ℕ) (key : MsgKey) → Numbered P s → Numbered P (tick_key now s key).0
  unfolding tick_key write
  tick_key-Numbered now key h = elim (Option-cases (get s.out key)) [
    | inl e ↦ rw (e, tick_key) h
    | inr (m, e) ↦ rw (e, tick_key) (insert-Numbered key m (tick_msg s.cfg key now m).0 e h)
  ]

  pub finish-Numbered :
      (dest : SocketAddr) (msg_id : ℕ) → Numbered P s → Numbered P (finish s dest msg_id)
  unfolding finish
  finish-Numbered dest msg_id h =
      Every-remove (λ (k : MsgKey) (x : OutMsg). P k.id) s.out (msg_key dest msg_id) h

  pub start-Numbered :
      (dest : SocketAddr) (msg_id : ℕ) (bytes : List ℕ) (now : ℕ)
      → P msg_id
      → Numbered P s
      → Numbered P (start s dest msg_id bytes now).0
  unfolding write
  start-Numbered dest msg_id bytes now known h = rw (start-write s dest msg_id bytes now) (
      Every-insert (λ (k : MsgKey) (x : OutMsg). P k.id) s.out (msg_key dest msg_id)
        (started s dest msg_id bytes now).0 h known)

retain-Numbered :
    (P : ℕ → Type 0) (keep : OutMsg → Bool) (d : Dict MsgKey OutMsg)
    → Every (λ key m. P key.id) d
    → Every (λ key m. P key.id) (retain keep d)
unfolding retain
retain-Numbered P keep [] h = tt
retain-Numbered P keep ((k, m) ∷ d) (low, h) =
    let rest = retain-Numbered P keep d h in
    elim (Bool-cases (keep m)) [ inl stays ↦ rw stays (low, rest) | inr goes ↦ rw goes rest ]

pub tick-Numbered :
    (P : ℕ → Type 0) (now : ℕ) (s : SenderCore) → Numbered P s → Numbered P (tick s now).0
unfolding tick
tick-Numbered P now s h =
    for_each_inv (Numbered P) (tick_key now) (λ s' key. tick_key-Numbered P s' now key) _ _
      (retain-Numbered P (lingers now s.cfg.linger) s.out h)

-- A larger set of numbers.
pub Numbered-more :
    (P Q : ℕ → Type 0) (s : SenderCore) → ((id : ℕ) → P id → Q id) → Numbered P s → Numbered Q s
Numbered-more P Q s more h =
    All-mono (λ entry. P entry.0.id) (λ entry. Q entry.0.id) s.out (λ entry. more entry.0.id) h

-- A number that no message has.
pub fresh_number :
    (P : ℕ → Type 0) (s : SenderCore) (dest : SocketAddr) (id : ℕ)
    → Numbered P s
    → ¬ P id
    → get s.out (msg_key dest id) ≡ none
fresh_number P s dest id h unused = elim (Option-cases (get s.out (msg_key dest id))) [
  | inl e ↦ e
  | inr (m, e) ↦
      absurd
        (unused (Every-get (λ (k : MsgKey) (x : OutMsg). P k.id) s.out (msg_key dest id) m h e))
]
