-- ===== src/EndToEnd/Exchange/Downward.antt =====
-- A packet that comes down brings an exchange nearer to its end.
use agent_transport.Base.{
  Bool-cases, leb, leb→le, leb→lt, ℕ, suc, ◌+◌, ◌-◌, ◌*◌, ◌≤◌, ◌<◌, ◌≡◌, refl, sym, ap, ◌∙◌, subst,
  ◌⊎◌, true, Option, List, [], ◌∷◌, ◌++◌, append-nil, map, length, length-append, All, All-append,
  arith, inl, inr,
}
use agent_transport.Base.Picks.{
  Any, Pulled, Pulled-length, Pulled-All, Pulled-Any, Any-append_left, Any-append_right,
}
use agent_transport.Base.Bytes.{IsU32, IsU64}
use agent_transport.Config.{SocketAddr, MsgKey, Action, deliver, TransportConfig}
use agent_transport.Sender.{OutMsg}
use agent_transport.Receiver.State.{InMsg, ReceiverCore, contains}
use agent_transport.Receiver.Chunks.{IsChunk, HasIf, deliveries}
use agent_transport.EndToEnd.Exchange.{Flight, down, up, Exchange, datagrams, at_receiver, arrive}
use agent_transport.EndToEnd.Exchange.Flights.{
  packet_of, Carries, Credits, IsFlight, decode-packet_of, packet_of-injective,
}
use agent_transport.EndToEnd.Exchange.Single.{credit_of, Waits, Raises, finishes, waits, take}
use agent_transport.EndToEnd.Exchange.Steps.{key_of, Lives, Within, lives, over, arrive-down}

module _ (packet_size : ℕ) (from to : SocketAddr) (msg_id : ℕ) (bytes : List ℕ)
    (pos : 0 < packet_size) (short : IsU32 (length bytes)) (id_u64 : IsU64 msg_id) where
  abbrev key' : MsgKey
  key' = key_of packet_size from to msg_id bytes

  -- The only GRANT that a call sends is of all the credit that it gives.
  data Answers (old new : ℕ) (pushed : List (List ℕ)) : Type 0 where
    same : new ≡ old → pushed ≡ [] → Answers old new pushed
    raised :
        old < new
        → length (map (λ d. up d) pushed) ≡ 1
        → Any (Credits packet_size bytes key' new) (map (λ d. up d) pushed)
        → Answers old new pushed

  Raises-Answers :
      (old new : ℕ) (pushed : List (List ℕ))
      → new ≤ length bytes
      → Raises from msg_id bytes old new pushed
      → ((sent : ℕ) → All (IsFlight packet_size bytes key' sent) (map (λ d. up d) pushed))
        × Answers old new pushed
  Raises-Answers old new pushed within (inl (none_sent, e)) =
      (λ sent. rw none_sent tt, same e none_sent)
  Raises-Answers old new pushed within (inr (added, more, one)) = (
    λ sent. rw one ((new, within, (added, refl)), tt),
    raised more (rw one refl) (rw one (inl (added, refl))),
  )

  -- What an arriving packet leaves of the net.
  record Coming (x : Exchange) (m : OutMsg) (o : Option InMsg) (q : ℕ) (rest : List Flight)
      : Type 0 where
    living : Lives packet_size from to msg_id bytes x m o
    inside : q * packet_size < m.next_send
    pulled : Pulled (down (packet_of packet_size bytes key' q)) x.net rest

  covered :
      (x : Exchange) (m : OutMsg) (o o' : Option InMsg) (q : ℕ) (rest ups : List Flight)
      → Coming x m o q rest
      → ((i : ℕ) → (i ≡ q) ⊎ HasIf o i → HasIf o' i)
      → (i : ℕ) → i * packet_size < m.next_send
      → HasIf o' i ⊎ Any (Carries packet_size bytes key' i) (rest ++ ups)
  covered x m o o' q rest ups c has i below =
      let inside_i : i * packet_size < length bytes = omega (arith, c.living.feeds.within) in
      elim (c.living.covers i below) [
        | inl there ↦ inl (has i (inr there))
        | inr coming ↦ elim (Pulled-Any (Carries packet_size bytes key' i) c.pulled coming) [
          | inl this ↦ inl (
              has i (
                inl (
                  packet_of-injective packet_size bytes key' pos short id_u64 i q inside_i
                    (omega (arith, c.inside, c.living.feeds.within)) (sym this))))
          | inr later ↦ inr (Any-append_left (Carries packet_size bytes key' i) rest ups later)
        ]
      ]

  credited_on :
      (x : Exchange) (m : OutMsg) (o : Option InMsg) (q : ℕ) (rest : List Flight) (new : ℕ)
      (pushed : List (List ℕ))
      → Coming x m o q rest
      → Answers (credit_of from msg_id bytes x.receiver o) new pushed
      → (new ≤ m.next_send)
        ⊎ Any (Credits packet_size bytes key' new) (rest ++ map (λ d. up d) pushed)
  credited_on x m o q rest new pushed c (raised more one there) =
      inr (Any-append_right (Credits packet_size bytes key' new) rest _ there)
  credited_on x m o q rest new pushed c (same e none_sent) = elim c.living.credited [
    | inl enough ↦ inl (omega arith)
    | inr coming ↦ elim (Pulled-Any (Credits packet_size bytes key' _) c.pulled coming) [
      | inl this ↦ absurd this
      | inr later ↦ inr (
          Any-append_left (Credits packet_size bytes key' new) rest _
            (subst (λ (t : ℕ). Any (Credits packet_size bytes key' t) rest) (sym e) later))
    ]
  ]

  nearer :
      (x : Exchange) (m : OutMsg) (o : Option InMsg) (q n new : ℕ) (rest : List Flight)
      (pushed : List (List ℕ))
      → Coming x m o q rest
      → new ≤ length bytes
      → Answers (credit_of from msg_id bytes x.receiver o) new pushed
      → length x.net
          + ((length bytes - m.next_send)
              + (length bytes - credit_of from msg_id bytes x.receiver o))
        ≤ suc n
      → length (rest ++ map (λ d. up d) pushed)
          + ((length bytes - m.next_send) + (length bytes - new))
        ≤ n
  nearer x m o q n new rest pushed c within (same e none_sent) bound =
      let empty : length (map (λ d. up d) pushed) ≡ 0 = rw none_sent refl in
      omega (arith, Pulled-length c.pulled, length-append rest (map (λ d. up d) pushed), empty, e)
  nearer x m o q n new rest pushed c within (raised more one there) bound =
      omega (arith, Pulled-length c.pulled, length-append rest (map (λ d. up d) pushed))

  waits-Within :
      (x : Exchange) (m : OutMsg) (o o' : Option InMsg) (q n : ℕ) (rest : List Flight)
      (out : ReceiverCore × List Action)
      → Coming x m o q rest
      → out.0.cfg ≡ x.receiver.cfg
      → Waits from msg_id bytes out.0 o'
      → ((i : ℕ) → (i ≡ q) ⊎ HasIf o i → HasIf o' i)
      → ((i : ℕ) → HasIf o' i → (i ≡ q) ⊎ HasIf o i)
      → deliveries out.1 ≡ []
      → Raises from msg_id bytes
          (credit_of from msg_id bytes x.receiver o)
          (credit_of from msg_id bytes out.0 o')
          (datagrams out.1)
      → length x.net
          + ((length bytes - m.next_send)
              + (length bytes - credit_of from msg_id bytes x.receiver o))
        ≤ suc n
      → Within packet_size from to msg_id bytes
          (at_receiver from to (record x { net = rest }) out)
          n
  waits-Within x m o o' q n rest out c config w has only quiet raises bound =
      let new = credit_of from msg_id bytes out.0 o' in
      let ups = map (λ d. up d) (datagrams out.1) in
      let (this, others) =
        Pulled-All (IsFlight packet_size bytes key' m.next_send) c.pulled c.living.flights in
      let (flights, answers) = Raises-Answers _ new (datagrams out.1) w.within raises in
      lives m o'
        (record {
          feeds = c.living.feeds;
          receiving = w;
          size = ap (λ (cfg : TransportConfig). cfg.packet_size) config ∙ c.living.size;
          nothing_yet = rw (c.living.nothing_yet, quiet) refl;
          calm = c.living.calm;
          flights =
              All-append (IsFlight packet_size bytes key' m.next_send) rest ups others
                (flights m.next_send);
          sent = λ i there. elim (only i there) [
            | inl this ↦ rw this c.inside
            | inr before ↦ c.living.sent i before
          ];
          covers = covered x m o o' q rest ups c has;
          credited = credited_on x m o q rest new (datagrams out.1) c answers;
        })
        (nearer x m o q n new rest (datagrams out.1) c w.within answers bound)

  -- When all chunks have come, all have been sent.
  sent_all :
      (x : Exchange) (m : OutMsg) (o : Option InMsg) (q : ℕ) (rest : List Flight)
      → Coming x m o q rest
      → ((i : ℕ) → i * packet_size < length bytes → (i ≡ q) ⊎ HasIf o i)
      → m.next_send ≡ length bytes
  sent_all x m o q rest c all = elim c.living.feeds.grid [
    | inl e ↦ e
    | inr (k, e) ↦ elim (Bool-cases (leb (length bytes) m.next_send)) [
      | inl enough ↦ omega (arith, leb→le _ _ enough, c.living.feeds.within)
      | inr less ↦ elim (all k (omega (arith, leb→lt _ _ less, e))) [
        | inl this ↦ absurd (omega (arith, ap (λ (j : ℕ). j * packet_size) this, c.inside, e))
        | inr before ↦ absurd (omega (arith, c.living.sent k before, e))
      ]
    ]
  ]

  finishes-Within :
      (x : Exchange) (m : OutMsg) (o : Option InMsg) (q n : ℕ) (rest : List Flight)
      (out : ReceiverCore × List Action)
      → Coming x m o q rest
      → contains out.0.completed key' ≡ true
      → out.1 ≡ deliver from msg_id bytes ∷ []
      → ((i : ℕ) → i * packet_size < length bytes → (i ≡ q) ⊎ HasIf o i)
      → length x.net + (length bytes - m.next_send) ≤ suc n
      → Within packet_size from to msg_id bytes
          (at_receiver from to (record x { net = rest }) out)
          n
  unfolding datagrams deliveries
  finishes-Within x m o q n rest out c done_now one all bound =
      let (this, others) =
        Pulled-All (IsFlight packet_size bytes key' m.next_send) c.pulled c.living.flights in
      over m
        (record {
          feeds = c.living.feeds;
          all_sent = sent_all x m o q rest c all;
          finished = done_now;
          once = rw (c.living.nothing_yet, one) refl;
          calm = c.living.calm;
          flights = rw (one, append-nil rest) others;
        })
        (inr (rw (one, append-nil rest) (omega (arith, Pulled-length c.pulled))))

  -- A packet comes to a receiver that waits for it.
  pub down-Within :
      (x : Exchange) (m : OutMsg) (o : Option InMsg) (n now q : ℕ) (rest : List Flight)
      → Lives packet_size from to msg_id bytes x m o
      → q * packet_size < m.next_send
      → Pulled (down (packet_of packet_size bytes key' q)) x.net rest
      → length x.net
          + ((length bytes - m.next_send)
              + (length bytes - credit_of from msg_id bytes x.receiver o))
        ≤ suc n
      → Within packet_size from to msg_id bytes
          (arrive from to (record x { net = rest }) (down (packet_of packet_size bytes key' q)) now)
          n
  down-Within x m o n now q rest l inside pulled bound =
      let within : q * packet_size < length bytes = omega (arith, l.feeds.within) in
      let d = decode-packet_of packet_size bytes key' pos short id_u64 q within in
      let c : Coming x m o q rest = record { living = l; inside = inside; pulled = pulled } in
      let chunk =
        subst (λ (ps : ℕ). IsChunk ps bytes q d.packet d.payload) (sym l.size) d.carried in
      let (out, returned, taken) =
        take from msg_id bytes now x.receiver o q d.packet d.payload l.receiving d.named chunk in
      rw
        (arrive-down packet_size from to msg_id bytes (record x { net = rest })
          (packet_of packet_size bytes key' q) now d.packet d.payload out d.decodes d.typ returned)
        (elim taken [
          | finishes done_now one all ↦
              finishes-Within x m o q n rest out c done_now one
                (λ i below. all i (subst (λ (ps : ℕ). i * ps < length bytes) (sym l.size) below))
                (omega arith)
          | waits o' config w has only quiet raises ↦
              waits-Within x m o o' q n rest out c config w has only quiet raises bound
        ])
