-- ===== src/EndToEnd/Exchange/Steps.antt =====
-- The states of an exchange, and what an arrival computes.
use agent_transport.Base.{
  ℕ, ◌+◌, ◌-◌, ◌*◌, ◌≤◌, ◌<◌, ◌≡◌, ap, ◌∙◌, ◌⊎◌, true, false, Option, List, [], ◌∷◌, length, All,
}
use agent_transport.Base.Picks.{Any}
use agent_transport.Packet.{Packet, «data», grant, decode, ok}
use agent_transport.Config.{SocketAddr, MsgKey, msg_key, Action, deliver}
use agent_transport.Sender.{OutMsg, handle_grant}
use agent_transport.Receiver.State.{InMsg, ReceiverCore, contains}
use agent_transport.Receiver.Handlers.{returns, panics, handle_data}
use agent_transport.Receiver.Chunks.{HasIf}
use agent_transport.EndToEnd.Exchange.{
  Flight, down, up, Exchange, at_sender, at_receiver, sender_on, receiver_on, arrive,
}
use agent_transport.EndToEnd.Exchange.Flights.{Carries, Credits, IsFlight}
use agent_transport.EndToEnd.Exchange.Single.{credit_of, Waits}
use agent_transport.EndToEnd.Exchange.Feeding.{Feeds}

module _ (packet_size : ℕ) (from to : SocketAddr) (msg_id : ℕ) (bytes : List ℕ) where
  abbrev pub key_of : MsgKey
  key_of = msg_key from msg_id

  abbrev pub Flights : ℕ → List Flight → Type 0
  Flights sent = All (IsFlight packet_size bytes key_of sent)

  -- The message is under way: what has been sent of it has come or is in the net, and so is the
  -- GRANT of all the credit that the receiver has given.
  pub record Lives (x : Exchange) (m : OutMsg) (o : Option InMsg) : Type 0 where
    pub feeds : Feeds packet_size to key_of bytes x.sender m
    pub receiving : Waits from msg_id bytes x.receiver o
    pub size : x.receiver.cfg.packet_size ≡ packet_size
    pub nothing_yet : x.delivered ≡ []
    pub calm : x.panicked ≡ false
    pub flights : Flights m.next_send x.net
    pub sent : (i : ℕ) → HasIf o i → i * packet_size < m.next_send
    pub covers :
        (i : ℕ)
        → i * packet_size < m.next_send
        → HasIf o i ⊎ Any (Carries packet_size bytes key_of i) x.net
    pub credited :
        (credit_of from msg_id bytes x.receiver o ≤ m.next_send)
        ⊎ Any (Credits packet_size bytes key_of (credit_of from msg_id bytes x.receiver o)) x.net

  -- The message has been delivered.
  pub record Over (x : Exchange) (m : OutMsg) : Type 0 where
    pub feeds : Feeds packet_size to key_of bytes x.sender m
    pub all_sent : m.next_send ≡ length bytes
    pub finished : contains x.receiver.completed key_of ≡ true
    pub once : x.delivered ≡ deliver from msg_id bytes ∷ []
    pub calm : x.panicked ≡ false
    pub flights : Flights m.next_send x.net

  -- How far an exchange is from its end at most: what is in the net, what is still to be sent, and
  -- the credit that is still to be given.
  pub data Within (x : Exchange) (n : ℕ) : Type 0 where
    lives :
        (m : OutMsg) (o : Option InMsg)
        → Lives x m o
        → length x.net
            + ((length bytes - m.next_send)
                + (length bytes - credit_of from msg_id bytes x.receiver o))
          ≤ n
        → Within x n
    over :
        (m : OutMsg)
        → Over x m
        → (x.net ≡ []) ⊎ (length x.net + (length bytes - m.next_send) ≤ n)
        → Within x n

  -- A datagram that arrives is decoded by the receiver.
  pub arrive-down :
      (x : Exchange) (datagram : List ℕ) (now : ℕ) (pkt : Packet) (payload : List ℕ)
      (out : ReceiverCore × List Action)
      → decode datagram ≡ ok pkt payload
      → pkt.typ ≡ «data»
      → handle_data x.receiver from pkt payload now ≡ returns out
      → arrive from to x (down datagram) now ≡ at_receiver from to x out
  unfolding arrive
  arrive-down x datagram now pkt payload out decoded typ returned =
      rw (decoded, arrive)
        (ap (λ t. receiver_on from to t x pkt payload now) typ
          ∙ ap
              (λ o. elim o [
                | returns r ↦ at_receiver from to x r
                | panics ↦ record x { panicked = true }
              ])
              returned)

  pub arrive-up :
      (x : Exchange) (datagram : List ℕ) (now : ℕ) (pkt : Packet)
      → decode datagram ≡ ok pkt []
      → pkt.typ ≡ grant
      → arrive from to x (up datagram) now ≡ at_sender from to x (handle_grant x.sender to pkt now)
  unfolding arrive
  arrive-up x datagram now pkt decoded typ =
      rw (decoded, arrive)
        (ap (λ t. at_sender from to x (sender_on from to t x.sender pkt now)) typ)
