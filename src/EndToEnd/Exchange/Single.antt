-- ===== src/EndToEnd/Exchange/Single.antt =====
-- The receiver of an exchange: what it has of the message, and what a chunk changes.
use agent_transport.Base.{
  ℕ, ◌*◌, ◌≤◌, ◌<◌, ◌≡◌, refl, sym, ap, ◌∙◌, subst, ◌⊎◌, min, true, false, Option, none, some, List,
  [], ◌∷◌, length, arith, Bool-cases, inl, inr,
}
use agent_transport.Base.Dict.{Dict, get, insert, remove, remove-insert_self}
use agent_transport.Packet.{Packet}
use agent_transport.Config.{SocketAddr, MsgKey, msg_key, msg_key_eq, key_eq_iff, Action, deliver}
use agent_transport.Receiver.State.{InMsg, ReceiverCore, contains, complete, fresh_msg, store}
use agent_transport.Receiver.Handlers.{
  Outcome, returns, handle_data, settle, then_schedule, deliver_msg,
}
use agent_transport.Receiver.Reassembly.{Holds, absorb, complete-Holds, marked_bytes-le}
use agent_transport.Receiver.Absorb.{absorb-Holds}
use agent_transport.Receiver.Marks.{absorb-Has_only, entry_of-Has_only, complete-Has}
use agent_transport.Receiver.Complete.{Has, absorb-Has}
use agent_transport.Receiver.Chunks.{
  IsChunk, HoldsIf, HasIf, UnfinishedIf, Pending, deliveries, entry_of, contains-remember,
}
use agent_transport.Receiver.Delivery.{
  SameBytes-Holds, entry_of-Holds, entry_of-Has, settle-complete, settle_incomplete,
  handle_data-chunk,
}
use agent_transport.Receiver.Single.{
  get_one, insert_one, schedule_empty, credit_datagram, OneCredit, schedule_one-OneCredit,
}
use agent_transport.EndToEnd.Exchange.{datagrams}

absorb_credit :
    (packet_size : ℕ) (bytes : List ℕ) (now : ℕ) (m : InMsg) (q : ℕ)
    → (absorb packet_size bytes now m q).granted_to ≡ m.granted_to
unfolding absorb store
absorb_credit packet_size bytes now m q = ground arith

module _ (from : SocketAddr) (msg_id : ℕ) (bytes : List ℕ) where
  abbrev pub key : MsgKey
  key = msg_key from msg_id

  -- The map of messages.
  abbrev pub entries : Option InMsg → Dict MsgKey InMsg
  entries none = []
  entries (some m) = (key, m) ∷ []

  -- The credit of the message, and the bytes that have come of it.
  abbrev pub credit_of : ReceiverCore → Option InMsg → ℕ
  credit_of r none = min r.cfg.unscheduled_bytes (length bytes)
  credit_of r (some m) = m.granted_to

  abbrev pub bytes_of : Option InMsg → ℕ
  bytes_of none = 0
  bytes_of (some m) = m.received_bytes

  -- The receiver waits for more of the message, and has given more credit than has been used.
  pub record Waits (r : ReceiverCore) (o : Option InMsg) : Type 0 where
    pub shape : r.incoming ≡ entries o
    pub nothing_done : r.completed ≡ []
    pub pos : 0 < r.cfg.packet_size
    pub increment : 2 ≤ r.cfg.grant_increment
    pub room : 0 < r.cfg.max_incoming
    pub holds : HoldsIf r.cfg.packet_size bytes o
    pub part : UnfinishedIf o
    pub ahead : bytes_of o < credit_of r o
    pub within : credit_of r o ≤ length bytes

  -- A call that raises the credit says so in a GRANT.
  abbrev pub Raises : ℕ → ℕ → List (List ℕ) → Type 0
  Raises old new pushed =
      ((pushed ≡ []) × (new ≡ old))
      ⊎ ((added : ℕ) × (old < new) × (pushed ≡ credit_datagram key (length bytes) new added ∷ []))

  -- After chunk q: the message has been delivered, or the receiver waits for more.
  pub data Takes (r : ReceiverCore) (o : Option InMsg) (q : ℕ) (out : ReceiverCore × List Action)
      : Type 0 where
    finishes :
        contains out.0.completed key ≡ true
        → out.1 ≡ deliver from msg_id bytes ∷ []
        → ((i : ℕ) → i * r.cfg.packet_size < length bytes → (i ≡ q) ⊎ HasIf o i)
        → Takes r o q out
    waits :
        (o' : Option InMsg)
        → out.0.cfg ≡ r.cfg
        → Waits out.0 o'
        → ((i : ℕ) → (i ≡ q) ⊎ HasIf o i → HasIf o' i)
        → ((i : ℕ) → HasIf o' i → (i ≡ q) ⊎ HasIf o i)
        → deliveries out.1 ≡ []
        → Raises (credit_of r o) (credit_of out.0 o') (datagrams out.1)
        → Takes r o q out

  get-entries : (o : Option InMsg) → get (entries o) key ≡ o
  unfolding get
  get-entries none = refl
  get-entries (some m) = get_one key m

  insert-entries : (o : Option InMsg) (m : InMsg) → insert (entries o) key m ≡ (key, m) ∷ []
  unfolding insert
  insert-entries none m = refl
  insert-entries (some old) m = insert_one key old m

  remove-entries : (o : Option InMsg) → remove (entries o) key ≡ []
  unfolding remove
  remove-entries none = refl
  remove-entries (some m) = rw ((key_eq_iff key key).1 refl) refl

  Waits-Pending :
      (r : ReceiverCore) (o : Option InMsg) → Waits r o → Pending r.cfg.packet_size bytes key r
  unfolding contains
  Waits-Pending r o w =
      let found : get r.incoming key ≡ o = rw w.shape (get-entries o) in
      record {
        pos = w.pos;
        size = refl;
        undelivered = rw w.nothing_done refl;
        holds = rw found w.holds;
        unfinished = rw found w.part;
        room = λ none_yet. rw (w.shape, (sym found ∙ none_yet)) w.room;
      }

  finish :
      (now : ℕ) (r : ReceiverCore) (o : Option InMsg) (m : InMsg) (q : ℕ)
      → Waits r o
      → Holds r.cfg.packet_size bytes m
      → ((i : ℕ) → Has m i → (i ≡ q) ⊎ HasIf o i)
      → complete m ≡ true
      → Takes r o q (then_schedule now (settle r key m))
  unfolding then_schedule deliver_msg
  finish now r o m q w h only all =
      let gone : remove (insert r.incoming key m) key ≡ [] =
        remove-insert_self r.incoming key m ∙ (rw w.shape (remove-entries o)) in
      rw (settle-complete r key m all) (
        rw
          (schedule_empty now
            (deliver_msg (record r { incoming = insert r.incoming key m }) key m.buf).0 gone)
          (finishes (contains-remember r.completed key)
            (ap (λ b. deliver from msg_id b ∷ [])
              (complete-Holds r.cfg.packet_size bytes m w.pos h all))
            (λ i inside. only i (complete-Has r.cfg.packet_size bytes m i w.pos h all inside))))

  OneCredit-quiet :
      (m m' : InMsg) (pushed : List Action) → OneCredit key m m' pushed → deliveries pushed ≡ []
  unfolding deliveries
  OneCredit-quiet m m' pushed c = elim c.how [
    | inl (none_sent, same) ↦ rw none_sent refl
    | inr (added, raised, one) ↦ rw one refl
  ]

  OneCredit-Raises :
      (old : ℕ) (m m' : InMsg) (pushed : List Action)
      → OneCredit key m m' pushed
      → m.granted_to ≡ old
      → m.total_len ≡ length bytes
      → Raises old m'.granted_to (datagrams pushed)
  unfolding datagrams
  OneCredit-Raises old m m' pushed c credit total = elim c.how [
    | inl (none_sent, same) ↦ inl (rw none_sent refl, same ∙ credit)
    | inr (added, raised, one) ↦ inr (added, omega (arith, credit), rw (one, total) refl)
  ]

  more :
      (now : ℕ) (r : ReceiverCore) (o : Option InMsg) (m : InMsg) (q : ℕ)
      → Waits r o
      → Holds r.cfg.packet_size bytes m
      → m.granted_to ≡ credit_of r o
      → ((i : ℕ) → (i ≡ q) ⊎ HasIf o i → Has m i)
      → ((i : ℕ) → Has m i → (i ≡ q) ⊎ HasIf o i)
      → complete m ≡ false
      → Takes r o q (then_schedule now (settle r key m))
  unfolding then_schedule deliveries datagrams
  more now r o m q w h credit has only part =
      let counted : m.received_bytes < m.total_len =
        ground
          (arith, h.counted, h.total, marked_bytes-le r.cfg.packet_size bytes m.received, part) in
      let (m', granting, pushed, e, c) =
        schedule_one-OneCredit now r key m r.granting w.increment counted
          (omega (arith, credit, w.within, h.total)) in
      let entry : insert r.incoming key m ≡ (key, m) ∷ [] = rw w.shape (insert-entries o m) in
      rw (settle_incomplete r key m part, entry, e)
        (waits (some m') refl
          (record {
            shape = refl;
            nothing_done = w.nothing_done;
            pos = w.pos;
            increment = w.increment;
            room = w.room;
            holds = SameBytes-Holds r.cfg.packet_size bytes m m' c.same h;
            part = rw (c.same.count, c.same.total) part;
            ahead = omega (arith, c.same.count, c.ahead);
            within = omega (arith, c.within, h.total);
          })
          (λ i which. rw c.same.bitmap (has i which))
          (λ i there. only i (rw c.same.bitmap at there)) (OneCredit-quiet m m' pushed c)
          (OneCredit-Raises (credit_of r o) m m' pushed c credit h.total))

  entry_credit :
      (r : ReceiverCore) (now : ℕ) (o : Option InMsg)
      → (entry_of r (length bytes) now o).granted_to ≡ credit_of r o
  unfolding fresh_msg
  entry_credit r now none = refl
  entry_credit r now (some m) = refl

  -- A chunk of the message comes to a receiver that waits for it.
  pub take :
      (now : ℕ) (r : ReceiverCore) (o : Option InMsg) (q : ℕ) (pkt : Packet) (payload : List ℕ)
      → Waits r o
      → pkt.msg_id ≡ msg_id
      → IsChunk r.cfg.packet_size bytes q pkt payload
      → (out : ReceiverCore × List Action) × (handle_data r from pkt payload now ≡ returns out)
        × Takes r o q out
  take now r o q pkt payload w named c =
      let m0 = entry_of r (length bytes) now o in
      let m = absorb r.cfg.packet_size bytes now m0 q in
      let found : get r.incoming key ≡ o = rw w.shape (get-entries o) in
      let h =
        absorb-Holds r.cfg.packet_size bytes now m0 q w.pos c.inside
          (entry_of-Holds r bytes now o w.pos w.holds) in
      let only : (i : ℕ) → Has m i → (i ≡ q) ⊎ HasIf o i = λ i there.
        elim (absorb-Has_only r.cfg.packet_size bytes now m0 q i w.pos there) [
          | inl same ↦ inl same
          | inr before ↦ inr (entry_of-Has_only r (length bytes) now i o before)
        ] in
      let computes : handle_data r from pkt payload now
          ≡ returns (then_schedule now (settle r key m)) =
        handle_data-chunk r from bytes q pkt payload now (pending_of named) c
        ∙ (ap (λ (id : ℕ). outcome (msg_key from id) (get r.incoming (msg_key from id))) named
            ∙ ap (outcome key) found) in
      (
        then_schedule now (settle r key m),
        computes,
        elim (Bool-cases (complete m)) [
          | inl all ↦ finish now r o m q w h only all
          | inr part ↦
              more now r o m q w h
                (absorb_credit r.cfg.packet_size bytes now m0 q ∙ entry_credit r now o)
                (λ i which.
                  absorb-Has r.cfg.packet_size bytes now m0 q w.pos c.inside
                    (entry_of-Holds r bytes now o w.pos w.holds) i
                    (elim which [
                      | inl same ↦ inl same
                      | inr has ↦ inr (entry_of-Has r (length bytes) now i o has)
                    ]))
                only part
        ],
      )
    where
      outcome : MsgKey → Option InMsg → Outcome
      outcome k x = returns (
          then_schedule now
            (settle r k (absorb r.cfg.packet_size bytes now (entry_of r (length bytes) now x) q)))

      pending_of : pkt.msg_id ≡ msg_id → Pending r.cfg.packet_size bytes (msg_key from pkt.msg_id) r
      pending_of e =
          subst (λ (id : ℕ). Pending r.cfg.packet_size bytes (msg_key from id) r) (sym e)
            (Waits-Pending r o w)
