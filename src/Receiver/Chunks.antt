-- ===== src/Receiver/Chunks.antt =====
-- `handle_data` on one chunk of a message that an honest sender cuts up.
use agent_transport.Base.{
  ℕ, ◌+◌, ◌*◌, ◌<◌, ◌≡◌, refl, ap, true, false, Option, none, some, List, [], ◌∷◌, ◌++◌, length,
  leb, ◌==◌, arith, All, Bool-cases, Option-cases, inl, inr, le→leb, lt→leb,
}
use agent_transport.Base.Dict.{get}
use agent_transport.Packet.{Packet}
use agent_transport.Config.{SocketAddr, MsgKey, msg_key, msg_key_eq, Action, send, deliver}
use agent_transport.Receiver.Keys.{contains-append_self}
use agent_transport.Receiver.State.{InMsg, ReceiverCore, contains, complete, fresh_msg, accepts}
use agent_transport.Receiver.Handlers.{
  returns, handle_data, receive, settle, then_schedule, remember,
}
use agent_transport.Receiver.Reassembly.{Holds, chunk, absorb}
use agent_transport.Receiver.Absorb.{length-chunk}
use agent_transport.Receiver.Complete.{Has}
use agent_transport.Receiver.Frame.{IsSend}

-- The packet carries chunk q of the message.
pub record IsChunk (pkt_size : ℕ) (bytes : List ℕ) (q : ℕ) (pkt : Packet) (payload : List ℕ)
    : Type 0 where
  pub states_length : pkt.msg_len ≡ length bytes
  pub starts : pkt.offset ≡ q * pkt_size
  pub carries : payload ≡ chunk pkt_size bytes q
  pub inside : q * pkt_size < length bytes

abbrev pub HoldsIf : ℕ → List ℕ → Option InMsg → Type 0
HoldsIf pkt_size bytes none = Unit
HoldsIf pkt_size bytes (some m) = Holds pkt_size bytes m

abbrev pub UnfinishedIf : Option InMsg → Type 0
UnfinishedIf none = Unit
UnfinishedIf (some m) = complete m ≡ false

abbrev pub HasIf : Option InMsg → ℕ → Type 0
HasIf none q = ⊥
HasIf (some m) q = Has m q

-- The receiver has not delivered the message, what it has of it is right, and it has room for it.
pub record Pending (pkt_size : ℕ) (bytes : List ℕ) (key : MsgKey) (s : ReceiverCore) : Type 0 where
  pub pos : 0 < pkt_size
  pub size : s.cfg.packet_size ≡ pkt_size
  pub undelivered : contains s.completed key ≡ false
  pub holds : HoldsIf pkt_size bytes (get s.incoming key)
  pub unfinished : UnfinishedIf (get s.incoming key)
  pub room : get s.incoming key ≡ none → length s.incoming < s.cfg.max_incoming

-- The messages that a list of actions delivers.
unfoldable pub deliveries : List Action → List Action
deliveries [] = []
deliveries (send dest bytes ∷ actions) = deliveries actions
deliveries (deliver src msg_id bytes ∷ actions) = deliver src msg_id bytes ∷ deliveries actions

pub deliveries-append :
    (xs ys : List Action) → deliveries (xs ++ ys) ≡ deliveries xs ++ deliveries ys
unfolding deliveries
deliveries-append [] ys = refl
deliveries-append (send dest bytes ∷ xs) ys = deliveries-append xs ys
deliveries-append (deliver src msg_id bytes ∷ xs) ys =
    ap (◌∷◌ (deliver src msg_id bytes)) (deliveries-append xs ys)

pub deliveries_none : (xs : List Action) → All IsSend xs → deliveries xs ≡ []
unfolding deliveries
deliveries_none [] h = refl
deliveries_none (send dest bytes ∷ xs) h = deliveries_none xs h.1
deliveries_none (deliver src msg_id bytes ∷ xs) h = absurd h.0

-- The entry that `handle_data` works on.
abbrev pub entry_of : ReceiverCore → ℕ → ℕ → Option InMsg → InMsg
entry_of s total_len now none = fresh_msg s.cfg total_len now
entry_of s total_len now (some m) = m

pub contains-remember :
    (completed : List MsgKey) (key : MsgKey) → contains (remember completed key) key ≡ true
unfolding remember
contains-remember completed key = contains-append_self _ key

pub receive-chunk :
    (s : ReceiverCore) (key : MsgKey) (m : InMsg) (bytes : List ℕ) (q : ℕ) (pkt : Packet)
    (payload : List ℕ) (now : ℕ)
    → 0 < s.cfg.packet_size
    → IsChunk s.cfg.packet_size bytes q pkt payload
    → Holds s.cfg.packet_size bytes m
    → receive s key m pkt payload now
      ≡ returns (then_schedule now (settle s key (absorb s.cfg.packet_size bytes now m q)))
unfolding receive absorb
receive-chunk s key m bytes q pkt payload now pos c h =
    let some_bytes : (length bytes == 0) ≡ false = ground (arith, c.inside) in
    let sized : (s.cfg.packet_size == 0) ≡ false = ground (arith, pos) in
    let fits : leb (q * s.cfg.packet_size + length (chunk s.cfg.packet_size bytes q)) (length m.buf)
        ≡ true =
      le→leb _ _ (omega (arith, c.inside, h.sized, length-chunk s.cfg.packet_size bytes q)) in
    rw (c.states_length, c.starts, c.carries, some_bytes, sized)
      (elim (Bool-cases (
        accepts s.cfg.packet_size m (length bytes) (q * s.cfg.packet_size)
          (chunk s.cfg.packet_size bytes q))) [ inl new ↦ rw (new, fits) | inr old ↦ rw old ])

pub handle_data-receive :
    (pkt_size : ℕ) (bytes : List ℕ) (s : ReceiverCore) (src : SocketAddr) (pkt : Packet)
    (payload : List ℕ) (now : ℕ)
    → Pending pkt_size bytes (msg_key src pkt.msg_id) s
    → let key = msg_key src pkt.msg_id in
      handle_data s src pkt payload now
      ≡ receive s key (entry_of s pkt.msg_len now (get s.incoming key)) pkt payload now
unfolding handle_data
handle_data-receive pkt_size bytes s src pkt payload now p =
    let sized : (s.cfg.packet_size == 0) ≡ false = ground (arith, p.pos, p.size) in
    elim (Option-cases (get s.incoming (msg_key src pkt.msg_id))) [
      | inl e ↦ rw (p.undelivered, e, lt→leb _ _ (p.room e), sized, handle_data)
      | inr (m, e) ↦ rw (p.undelivered, e, handle_data)
    ]
