-- ===== src/Transport/Fresh.antt =====
-- Over a run of the transport, each new message has a number that no message of the sender has.
use agent_transport.Base.{
  ℕ, ◌-◌, ◌^◌, ◌<◌, ◌≡◌, refl, All, All-mono, Option, none, some, List, [], ◌∷◌, length, arith,
}
use agent_transport.Base.Dict.{get}
use agent_transport.Config.{SocketAddr, msg_key, msg_key_eq, TransportConfig}
use agent_transport.Sender.{new}
use agent_transport.Transport.{bind, Node, Event, run}
use agent_transport.Transport.Rounds.{bind-IsSound}
use agent_transport.Transport.Numbers.{Numbered, fresh_number, Numbered-more}
use agent_transport.Transport.Given.{Used, AllDifferent, IfCounts, run-IfCounts}

-- A number that no message of the sender to the peer has.
abbrev pub IsFree : Node → SocketAddr → ℕ → Type 0
IsFree n dest id = get n.inner.state.sender.out (msg_key dest id) ≡ none

-- The number of the next message is free, those that wait are free too, and all these differ.
abbrev pub IfFresh : SocketAddr → Option Node → Type 0
IfFresh dest none = Unit
IfFresh dest (some n) =
    All (IsFree n dest) (n.inner.msg_counter ∷ n.taken)
    × AllDifferent (n.inner.msg_counter ∷ n.taken)

taken-IsFree :
    (n : Node) (dest : SocketAddr) (xs : List ℕ)
    → Numbered (Used n.inner.msg_counter xs) n.inner.state.sender
    → All (IsFree n dest) xs
taken-IsFree n dest [] h = tt
taken-IsFree n dest (t ∷ xs) h =
    let counter = n.inner.msg_counter in
    (
      fresh_number (Used counter (t ∷ xs)) n.inner.state.sender dest t h (λ u. u.1.0 refl),
      taken-IsFree n dest xs (
          Numbered-more (Used counter (t ∷ xs)) (Used counter xs) n.inner.state.sender
            (λ id u. (u.0, u.1.1)) h),
    )

IfCounts-IfFresh : (dest : SocketAddr) (o : Option Node) → IfCounts 0 o → IfFresh dest o
IfCounts-IfFresh dest none c = tt
IfCounts-IfFresh dest (some n) c =
    let counter = n.inner.msg_counter in
    (
      (
        fresh_number (Used counter n.taken) n.inner.state.sender dest counter c.numbered
            (λ u. omega (arith, u.0)),
        taken-IsFree n dest n.taken c.numbered,
      ),
      (
        All-mono (λ t. t < counter) (λ u. ¬ (u ≡ counter)) n.taken (λ t lo e. omega (arith, lo, e))
            c.below,
        c.different,
      ),
    )

-- After any fewer than 2^64 - 2 events of a transport, the number that the next call of `send_to`
-- takes is free, and so are those that callers have taken for messages that they have not started
-- yet: the sender holds no message to the same peer under it, one that lingers included. All these
-- numbers are different, so that no message is overwritten by a later one. The packet size is not
-- zero.
pub run-bind-IfFresh :
    (cfg : TransportConfig) (started : ℕ) (events : List Event) (dest : SocketAddr)
    → 0 < cfg.packet_size
    → length events < 2 ^ 64 - 2
    → IfFresh dest (run (record { inner = bind cfg; last_tick = started; taken = [] }) events)
unfolding bind new
run-bind-IfFresh cfg started events dest pos few = IfCounts-IfFresh dest _ (
    run-IfCounts (record { inner = bind cfg; last_tick = started; taken = [] }) events
      (bind-IsSound cfg pos)
      (record { numbered = tt; below = tt; different = tt; room = omega arith }))
