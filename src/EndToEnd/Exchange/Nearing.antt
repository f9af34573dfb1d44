-- ===== src/EndToEnd/Exchange/Nearing.antt =====
-- Each arrival brings an exchange nearer to its end.
use agent_transport.Base.{
  ℕ, suc, ◌*◌, ◌≤◌, ◌<◌, ◌≡◌, sym, ap, subst, Option, none, some, List, [], ◌∷◌, length, arith, leb,
  leb→le, leb→lt, Bool-cases, inl, inr,
}
use agent_transport.Base.Picks.{Any, Pulled, Pulled-length, Pulled-All}
use agent_transport.Base.Bytes.{IsU32, IsU64}
use agent_transport.Config.{SocketAddr, MsgKey}
use agent_transport.Sender.{OutMsg}
use agent_transport.Receiver.State.{InMsg, ReceiverCore}
use agent_transport.Receiver.Chunks.{HasIf}
use agent_transport.EndToEnd.Exchange.{Flight, down, up, Exchange, arrive}
use agent_transport.EndToEnd.Exchange.Flights.{Carries, Credits, IsFlight}
use agent_transport.EndToEnd.Exchange.Single.{credit_of, Waits}
use agent_transport.EndToEnd.Exchange.Steps.{key_of, Lives, Within, lives, over}
use agent_transport.EndToEnd.Exchange.Downward.{down-Within}
use agent_transport.EndToEnd.Exchange.Late.{down-Over}
use agent_transport.EndToEnd.Exchange.Upward.{up-Within, up-Over}
use agent_transport.EndToEnd.Exchange.{arrive_next, exchange}
use agent_transport.Receiver.Complete.{prefix_marked}
use agent_transport.Base.Picks.{pull-cases}

module _ (packet_size : ℕ) (from to : SocketAddr) (msg_id : ℕ) (bytes : List ℕ)
    (pos : 0 < packet_size) (short : IsU32 (length bytes)) (id_u64 : IsU64 msg_id) where
  abbrev key' : MsgKey
  key' = key_of packet_size from to msg_id bytes

  -- Whatever has been sent has come, when the net is empty.
  come :
      (r : ReceiverCore) (o : Option InMsg) (n : ℕ)
      → r.cfg.packet_size ≡ packet_size
      → Waits from msg_id bytes r o
      → n ≤ length bytes
      → ((i : ℕ) → i * packet_size < n → HasIf o i)
      → n < credit_of from msg_id bytes r o
  come r none n size w within all = elim (Bool-cases (leb n 0)) [
    | inl none_sent ↦ omega (arith, leb→le _ _ none_sent, w.ahead)
    | inr some_sent ↦ absurd (all 0 (omega (arith, leb→lt _ _ some_sent)))
  ]
  come r (some m) n size w within all =
      let counted =
        prefix_marked r.cfg.packet_size n bytes m.received w.pos within w.holds.covers
          (λ q inside. all q (subst (λ ps. q * ps < n) size inside)) in
      omega (arith, counted, w.holds.counted, w.ahead)

  -- So the net is not empty before the message has been delivered.
  pub never_stuck :
      (x : Exchange) (m : OutMsg) (o : Option InMsg)
      → Lives packet_size from to msg_id bytes x m o
      → ¬ (x.net ≡ [])
  never_stuck x m o l empty =
      let early = come x.receiver o m.next_send l.size l.receiving l.feeds.within (λ i below.
        elim (l.covers i below) [
          | inl there ↦ there
          | inr coming ↦
              absurd (subst (λ net. Any (Carries packet_size bytes key' i) net) empty coming)
        ]) in
      elim l.credited [
        | inl enough ↦ omega (arith, early)
        | inr coming ↦ absurd (
            subst
              (λ net.
                Any (Credits packet_size bytes key' (credit_of from msg_id bytes x.receiver o)) net)
              empty coming)
      ]

  -- If the datagram is in the net, its arrival comes within n arrivals of the end.
  abbrev Leads : Exchange → Flight → List Flight → ℕ → ℕ → Type 0
  Leads x flight rest n now =
      Pulled flight x.net rest
      → Within packet_size from to msg_id bytes
          (arrive from to (record x { net = rest }) flight now) n

  flight-Within :
      (x : Exchange) (flight : Flight) (rest : List Flight) (n now : ℕ)
      → Pulled flight x.net rest
      → Within packet_size from to msg_id bytes x (suc n)
      → Within packet_size from to msg_id bytes
          (arrive from to (record x { net = rest }) flight now)
          n
  flight-Within x (down datagram) rest n now pulled (lives m o l bound) =
      let ((q, inside, e), others) =
        Pulled-All (IsFlight packet_size bytes key' m.next_send) pulled l.flights in
      subst (λ d. Leads x (down d) rest n now) (sym e)
        (λ p.
          down-Within packet_size from to msg_id bytes pos short id_u64 x m o n now q rest l inside
            p bound)
        pulled
  flight-Within x (up datagram) rest n now pulled (lives m o l bound) =
      let ((target, within, (added, e)), others) =
        Pulled-All (IsFlight packet_size bytes key' m.next_send) pulled l.flights in
      subst (λ d. Leads x (up d) rest n now) (sym e)
        (λ p.
          up-Within packet_size from to msg_id bytes pos short id_u64 x m o n now target added rest
            l within p bound)
        pulled
  flight-Within x (down datagram) rest n now pulled (over m v (inr bound)) =
      let ((q, inside, e), others) =
        Pulled-All (IsFlight packet_size bytes key' m.next_send) pulled v.flights in
      subst (λ d. Leads x (down d) rest n now) (sym e)
        (λ p.
          down-Over packet_size from to msg_id bytes pos short id_u64 x m n now q rest v inside p
            bound)
        pulled
  flight-Within x (up datagram) rest n now pulled (over m v (inr bound)) =
      let ((target, within, (added, e)), others) =
        Pulled-All (IsFlight packet_size bytes key' m.next_send) pulled v.flights in
      subst (λ d. Leads x (up d) rest n now) (sym e)
        (λ p.
          up-Over packet_size from to msg_id bytes pos short id_u64 x m n now target added rest v
            within p bound)
        pulled
  flight-Within x flight rest n now pulled (over m v (inl empty)) =
      absurd (omega (arith, Pulled-length pulled, ap length empty))

  empty-Within :
      (x : Exchange) (n : ℕ)
      → x.net ≡ []
      → Within packet_size from to msg_id bytes x (suc n)
      → Within packet_size from to msg_id bytes x n
  empty-Within x n empty (lives m o l bound) = absurd (never_stuck x m o l empty)
  empty-Within x n empty (over m v bound) = over m v (inl empty)

  arrive_next-Within :
      (x : Exchange) (n k now : ℕ)
      → Within packet_size from to msg_id bytes x (suc n)
      → Within packet_size from to msg_id bytes (arrive_next from to x k now) n
  unfolding arrive_next
  arrive_next-Within x n k now w = elim (pull-cases k x.net) [
    | inl (empty, e) ↦ rw (e, arrive_next) (empty-Within x n empty w)
    | inr (flight, rest, e, p) ↦ rw (e, arrive_next) (flight-Within x flight rest n now p w)
  ]

  pub exchange-Within :
      (x : Exchange) (picks : List (ℕ × ℕ))
      → Within packet_size from to msg_id bytes x (length picks)
      → Within packet_size from to msg_id bytes (exchange from to x picks) 0
  unfolding exchange
  exchange-Within x [] w = w
  exchange-Within x ((k, now) ∷ picks) w =
      exchange-Within (arrive_next from to x k now) picks
        (arrive_next-Within x (length picks) k now w)
