-- ===== src/Receiver/HonestRuns.antt =====
-- What the receiver delivers over a run, when all of its peers are honest.
use agent_transport.Base.{
  ℕ, ◌<◌, ◌≡◌, refl, subst, List, [], ◌∷◌, ◌++◌, All, length, leb, ◌==◌, arith, false, Bool-cases,
  inl, inr, Option-cases,
}
use agent_transport.Base.Dict.{get}
use agent_transport.Packet.{Packet}
use agent_transport.Config.{SocketAddr, MsgKey, msg_key, msg_key_eq, Action, TransportConfig}
use agent_transport.Receiver.State.{ReceiverCore, new as new_receiver, contains, fresh_msg}
use agent_transport.Receiver.Handlers.{Outcome, returns, handle_data, tick}
use agent_transport.Receiver.Complete.{fresh-Holds}
use agent_transport.Receiver.Loses.{tick-Quiet}
use agent_transport.Receiver.Invariant.{Event, arrives, ticks}
use agent_transport.Receiver.Chunks.{IsChunk, HoldsIf}
use agent_transport.Receiver.Arrivals.{and_then}
use agent_transport.Receiver.Steps.{play}
use agent_transport.Receiver.Truthful.{
  IsTruthful, IsTrue, IsHonest, Tells, Tells-trans, Quiet-Tells, receive-Tells,
}

module _ (sent : MsgKey → List ℕ) where
  -- A call returns, and what it leaves and pushes is right.
  abbrev pub ReturnsTelling : ReceiverCore → Outcome → Type 0
  ReturnsTelling s o = (r : ReceiverCore × List Action) × (o ≡ returns r) × Tells sent s r

  nothing-Tells :
      (s : ReceiverCore) (pushed : List Action)
      → IsTruthful sent s
      → All (IsTrue sent) pushed
      → Tells sent s (s, pushed)
  nothing-Tells s pushed h right = record { config = refl; truthful = h; delivers = right }

  handle_data-Tells :
      (s : ReceiverCore) (src : SocketAddr) (pkt : Packet) (payload : List ℕ) (now q : ℕ)
      → IsTruthful sent s
      → IsChunk s.cfg.packet_size (sent (msg_key src pkt.msg_id)) q pkt payload
      → ReturnsTelling s (handle_data s src pkt payload now)
  unfolding handle_data
  handle_data-Tells s src pkt payload now q h c =
      let key = msg_key src pkt.msg_id in
      let sized : (s.cfg.packet_size == 0) ≡ false = ground (arith, h.pos) in
      elim (Bool-cases (contains s.completed key)) [
        | inl old ↦ rw old ((s, []), refl, nothing-Tells s [] h tt)
        | inr unseen ↦ elim (Option-cases (get s.incoming key)) [
          | inr (m, e) ↦
              rw (unseen, e, handle_data)
                (receive-Tells sent s key m q pkt payload now h
                  (subst (HoldsIf s.cfg.packet_size (sent key)) e (h.holds key)) c)
          | inl e ↦ elim (Bool-cases (leb s.cfg.max_incoming (length s.incoming))) [
            | inl full ↦
                rw (unseen, e, full, handle_data) ((s, _), refl, nothing-Tells s _ h (tt, tt))
            | inr more ↦
                rw (unseen, e, more, sized, handle_data)
                  (receive-Tells sent s key (fresh_msg s.cfg pkt.msg_len now) q pkt payload now h
                    (rw c.states_length (fresh-Holds s.cfg (sent key) now h.pos)) c)
          ]
        ]
      ]

  and_then-Tells :
      (s : ReceiverCore) (o : Outcome) (f : ReceiverCore → Outcome)
      → ReturnsTelling s o
      → ((a : ReceiverCore) → a.cfg ≡ s.cfg → IsTruthful sent a → ReturnsTelling a (f a))
      → ReturnsTelling s (and_then o f)
  and_then-Tells s o f (a, first, p) more =
      let (b, rest, q) = more a.0 p.config p.truthful in
      rw (first, and_then, rest) ((b.0, a.1 ++ b.1), refl, Tells-trans sent s a b p q)

  pub play-Tells :
      (s : ReceiverCore) (events : List Event)
      → IsTruthful sent s
      → All (IsHonest sent s.cfg.packet_size) events
      → ReturnsTelling s (play s events)
  unfolding play
  play-Tells s [] h honest = ((s, []), refl, nothing-Tells s [] h tt)
  play-Tells s (ticks now ∷ events) h honest =
      and_then-Tells s (returns (tick now s)) (λ s'. play s' events)
        (tick now s, refl, Quiet-Tells sent s (tick now s) (tick-Quiet now s) h)
        (λ a same h'. play-Tells a events h' (rw same honest.1))
  play-Tells s (arrives src pkt payload now ∷ events) h honest =
      and_then-Tells s (handle_data s src pkt payload now) (λ s'. play s' events)
        (handle_data-Tells s src pkt payload now honest.0.0 h honest.0.1)
        (λ a same h'. play-Tells a events h' (rw same honest.1))

-- While every packet that comes to a new receiver is a chunk of the message that its sender has sent
-- under its id, the receiver never panics, and all that it delivers is as it was sent: whatever the
-- number of peers and messages, in whatever order packets come, however many are lost or come
-- again, and whenever the receiver ticks. The packet size is positive.
pub play_honest :
    (sent : MsgKey → List ℕ) (cfg : TransportConfig) (events : List Event)
    → 0 < cfg.packet_size
    → All (IsHonest sent cfg.packet_size) events
    → (r : ReceiverCore × List Action) × (play (new_receiver cfg) events ≡ returns r)
      × All (IsTrue sent) r.1
unfolding new_receiver get
play_honest sent cfg events pos honest =
    let (r, e, p) =
      play-Tells sent (new_receiver cfg) events (record { pos = pos; holds = λ key. tt }) honest in
    (r, e, p.delivers)
