-- ===== src/Receiver/Delivery.antt =====
-- A message from an honest sender, whose chunks come in any order and any number of times.
use agent_transport.Base.{
  ℕ, ◌<◌, ◌≡◌, refl, ap, ◌∙◌, ◌⊎◌, true, false, Option, none, some, List, [], ◌∷◌, append-nil,
  length, Bool-cases, inl, inr, subst,
}
use agent_transport.Base.Dict.{get, insert, get-insert_self}
use agent_transport.Packet.{Packet}
use agent_transport.Config.{
  SocketAddr, MsgKey, msg_key, msg_key_eq, Action, deliver, TransportConfig,
}
use agent_transport.Receiver.State.{InMsg, ReceiverCore, contains, complete}
use agent_transport.Receiver.Scheduler.{schedule}
use agent_transport.Receiver.Handlers.{
  returns, handle_data, receive, settle, then_schedule, deliver_msg,
}
use agent_transport.Receiver.Reassembly.{Holds, absorb, complete-Holds}
use agent_transport.Receiver.Absorb.{absorb-Holds}
use agent_transport.Receiver.Complete.{Has, fresh-Holds, absorb-Has}
use agent_transport.Receiver.Frame.{SameBytes, SameEntry, Frame, schedule-Frame}
use agent_transport.Receiver.Chunks.{
  IsChunk, HoldsIf, HasIf, Pending, deliveries, deliveries-append, deliveries_none, entry_of,
  contains-remember, receive-chunk, handle_data-receive,
}

pub entry_of-Holds :
    (s : ReceiverCore) (bytes : List ℕ) (now : ℕ) (o : Option InMsg)
    → 0 < s.cfg.packet_size
    → HoldsIf s.cfg.packet_size bytes o
    → Holds s.cfg.packet_size bytes (entry_of s (length bytes) now o)
entry_of-Holds s bytes now none pos h = fresh-Holds s.cfg bytes now pos
entry_of-Holds s bytes now (some m) pos h = h

pub entry_of-Has :
    (s : ReceiverCore) (total_len now i : ℕ) (o : Option InMsg)
    → HasIf o i
    → Has (entry_of s total_len now o) i
entry_of-Has s total_len now i none h = absurd h
entry_of-Has s total_len now i (some m) h = h

pub SameBytes-Holds :
    (pkt_size : ℕ) (bytes : List ℕ) (m m' : InMsg)
    → SameBytes m m'
    → Holds pkt_size bytes m
    → Holds pkt_size bytes m'
SameBytes-Holds pkt_size bytes m m' same h = record {
  total = same.total ∙ h.total;
  sized = ap length same.buffer ∙ h.sized;
  covers = rw same.bitmap h.covers;
  counted = same.count ∙ (rw same.bitmap h.counted);
  agrees = rw (same.buffer, same.bitmap) h.agrees;
}

SameEntry-some :
    (m : InMsg) (o : Option InMsg)
    → SameEntry (some m) o
    → (m' : InMsg) × (o ≡ some m') × SameBytes m m'
SameEntry-some m none same = absurd same
SameEntry-some m (some m') same = (m', refl, same)

-- After a chunk: the message has just been delivered, once and as it was sent; or it is still
-- pending, nothing was delivered, and the chunk and all earlier ones are there.
abbrev pub After : ℕ → List ℕ → MsgKey → ℕ → ReceiverCore → ReceiverCore × List Action → Type 0
After pkt_size bytes key q s r =
    ((contains r.0.completed key ≡ true) × (deliveries r.1 ≡ deliver key.addr key.id bytes ∷ []))
    ⊎ (Pending pkt_size bytes key r.0
        × (deliveries r.1 ≡ [])
        × ((i : ℕ) → (i ≡ q) ⊎ HasIf (get s.incoming key) i → HasIf (get r.0.incoming key) i))

pub then_schedule-Frame :
    (now : ℕ) (r : ReceiverCore × List Action)
    → Frame r.0 (then_schedule now r).0 × (deliveries (then_schedule now r).1 ≡ deliveries r.1)
unfolding then_schedule
then_schedule-Frame now r =
    let (frame, sent) = schedule-Frame now r.0 in
    (
      frame,
      deliveries-append r.1 (schedule now r.0).1
          ∙ (rw (deliveries_none (schedule now r.0).1 sent, append-nil)),
    )

pub settle-complete :
    (s : ReceiverCore) (key : MsgKey) (m : InMsg)
    → complete m ≡ true
    → settle s key m ≡ deliver_msg (record s { incoming = insert s.incoming key m }) key m.buf
unfolding settle
settle-complete s key m all = rw all

pub settle_incomplete :
    (s : ReceiverCore) (key : MsgKey) (m : InMsg)
    → complete m ≡ false
    → settle s key m ≡ (record s { incoming = insert s.incoming key m }, [])
unfolding settle
settle_incomplete s key m part = rw part

delivered :
    (s : ReceiverCore) (key : MsgKey) (body bytes : List ℕ) (now : ℕ)
    → body ≡ bytes
    → let r = then_schedule now (deliver_msg s key body) in
      (contains r.0.completed key ≡ true) × (deliveries r.1 ≡ deliver key.addr key.id bytes ∷ [])
unfolding deliver_msg deliveries
delivered s key body bytes now whole =
    let (frame, same) = then_schedule-Frame now (deliver_msg s key body) in
    (
      rw frame.done (contains-remember s.completed key),
      same ∙ ap (λ b. deliver key.addr key.id b ∷ []) whole,
    )

pending :
    (s : ReceiverCore) (key : MsgKey) (m : InMsg) (bytes : List ℕ) (now : ℕ)
    → 0 < s.cfg.packet_size
    → contains s.completed key ≡ false
    → complete m ≡ false
    → Holds s.cfg.packet_size bytes m
    → let r = then_schedule now (record s { incoming = insert s.incoming key m }, []) in
      Pending s.cfg.packet_size bytes key r.0
      × (deliveries r.1 ≡ [])
      × ((i : ℕ) → Has m i → HasIf (get r.0.incoming key) i)
unfolding deliveries
pending s key m bytes now pos fresh part h =
    let s' = record s { incoming = insert s.incoming key m } in
    let (frame, same) = then_schedule-Frame now (s', []) in
    let (m', found, equal) = SameEntry-some m _ (
      subst (λ o. SameEntry o (get (then_schedule now (s', [])).0.incoming key))
        (get-insert_self s.incoming key m) (frame.entries key)) in
    (
      record {
        pos = pos;
        size = ap (λ (c : TransportConfig). c.packet_size) frame.config;
        undelivered = rw frame.done fresh;
        holds = rw found (SameBytes-Holds s.cfg.packet_size bytes m m' equal h);
        unfinished = rw (found, equal.count, equal.total) part;
        room = λ gone. cc;
      },
      same,
      λ i has. rw (found, equal.bitmap) has,
    )

settled-After :
    (s : ReceiverCore) (key : MsgKey) (m : InMsg) (bytes : List ℕ) (q now : ℕ)
    → 0 < s.cfg.packet_size
    → contains s.completed key ≡ false
    → Holds s.cfg.packet_size bytes m
    → ((i : ℕ) → (i ≡ q) ⊎ HasIf (get s.incoming key) i → Has m i)
    → After s.cfg.packet_size bytes key q s (then_schedule now (settle s key m))
settled-After s key m bytes q now pos fresh h has = elim (Bool-cases (complete m)) [
  | inl all ↦ rw (settle-complete s key m all) (
      inl (
        delivered (record s { incoming = insert s.incoming key m }) key m.buf bytes now
          (complete-Holds s.cfg.packet_size bytes m pos h all)))
  | inr part ↦
      let (still, none_yet, kept) = pending s key m bytes now pos fresh part h in
      rw (settle_incomplete s key m part) (inr (still, none_yet, λ i which. kept i (has i which)))
]

-- What `handle_data` computes for a chunk of a pending message.
pub handle_data-chunk :
    (s : ReceiverCore) (src : SocketAddr) (bytes : List ℕ) (q : ℕ) (pkt : Packet) (payload : List ℕ)
    (now : ℕ)
    → Pending s.cfg.packet_size bytes (msg_key src pkt.msg_id) s
    → IsChunk s.cfg.packet_size bytes q pkt payload
    → let key = msg_key src pkt.msg_id in
      let m = entry_of s (length bytes) now (get s.incoming key) in
      handle_data s src pkt payload now
      ≡ returns (then_schedule now (settle s key (absorb s.cfg.packet_size bytes now m q)))
handle_data-chunk s src bytes q pkt payload now p c =
    let key = msg_key src pkt.msg_id in
    let m = entry_of s (length bytes) now (get s.incoming key) in
    let h = entry_of-Holds s bytes now (get s.incoming key) p.pos p.holds in
    handle_data-receive s.cfg.packet_size bytes s src pkt payload now p
    ∙ ap (λ (n : ℕ). receive s key (entry_of s n now (get s.incoming key)) pkt payload now)
        c.states_length
    ∙ receive-chunk s key m bytes q pkt payload now p.pos c h

-- One chunk of a pending message: the call returns, and `After` says what it has done.
pub chunk-After :
    (s : ReceiverCore) (src : SocketAddr) (bytes : List ℕ) (q : ℕ) (pkt : Packet) (payload : List ℕ)
    (now : ℕ)
    → Pending s.cfg.packet_size bytes (msg_key src pkt.msg_id) s
    → IsChunk s.cfg.packet_size bytes q pkt payload
    → (r : ReceiverCore × List Action) × (handle_data s src pkt payload now ≡ returns r)
      × After s.cfg.packet_size bytes (msg_key src pkt.msg_id) q s r
chunk-After s src bytes q pkt payload now p c =
    let key = msg_key src pkt.msg_id in
    let m = entry_of s (length bytes) now (get s.incoming key) in
    let h = entry_of-Holds s bytes now (get s.incoming key) p.pos p.holds in
    (
      then_schedule now (settle s key (absorb s.cfg.packet_size bytes now m q)),
      handle_data-chunk s src bytes q pkt payload now p c,
      settled-After s key (absorb s.cfg.packet_size bytes now m q) bytes q now p.pos p.undelivered
          (absorb-Holds s.cfg.packet_size bytes now m q p.pos c.inside h)
          (λ i which. absorb-Has s.cfg.packet_size bytes now m q p.pos c.inside h i (elim which [
            | inl e ↦ inl e
            | inr has ↦ inr (entry_of-Has s (length bytes) now i (get s.incoming key) has)
          ])),
    )
