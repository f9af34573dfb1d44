-- ===== src/Receiver/Arrivals.antt =====
-- A message from an honest sender, over all the packets that come for it.
use agent_transport.Base.{
  ℕ, ◌*◌, ◌<◌, ◌≡◌, refl, sym, ◌∙◌, ◌⊎◌, true, Option, none, some, List, [], ◌∷◌, ◌++◌, append-nil,
  length, arith, All, inl, inr, subst,
}
use agent_transport.Base.Dict.{get}
use agent_transport.Packet.{Packet}
use native.Mathlib.Nat.{mul-div_cancel}
use agent_transport.Config.{SocketAddr, MsgKey, msg_key, msg_key_eq, Action, deliver}
use agent_transport.Receiver.State.{InMsg, ReceiverCore, contains}
use agent_transport.Receiver.Handlers.{Outcome, returns, panics, handle_data}
use agent_transport.Receiver.Complete.{complete-all}
use agent_transport.Receiver.Chunks.{
  IsChunk, HoldsIf, HasIf, UnfinishedIf, Pending, deliveries, deliveries-append,
}
use agent_transport.Receiver.Delivery.{After, chunk-After}

-- A DATA packet and when it comes.
pub record Arrival : Type 0 where
  pub packet : Packet
  pub payload : List ℕ
  pub now : ℕ

abbrev pub and_then : Outcome → (ReceiverCore → Outcome) → Outcome
and_then panics f = panics
and_then (returns (s, pushed)) f = elim (f s) [
  | panics ↦ panics
  | returns r ↦ returns (r.0, pushed ++ r.1)
]

-- The packets of one peer, each handed to `handle_data`, with all the actions that are pushed.
unfoldable pub feed : ReceiverCore → SocketAddr → List Arrival → Outcome
feed s src [] = returns (s, [])
feed s src (a ∷ more) =
    and_then (handle_data s src a.packet a.payload a.now) (λ s'. feed s' src more)

-- Every packet carries some chunk of the message.
abbrev pub Honest : ℕ → List ℕ → ℕ → List Arrival → Type 0
Honest pkt_size bytes msg_id =
    All (λ a. (a.packet.msg_id ≡ msg_id) × ((q : ℕ) × IsChunk pkt_size bytes q a.packet a.payload))

-- Some packet carries chunk i.
abbrev pub Comes : ℕ → ℕ → List Arrival → Type 0
Comes pkt_size i [] = ⊥
Comes pkt_size i (a ∷ more) = (a.packet.offset ≡ i * pkt_size) ⊎ Comes pkt_size i more

-- The packets deliver the message at most once, as it was sent, and exactly once if every chunk is
-- there or comes.
abbrev pub Delivers : ℕ → List ℕ → MsgKey → Option InMsg → List Arrival → List Action → Type 0
Delivers pkt_size bytes key entry arrivals pushed =
    let once = deliver key.addr key.id bytes ∷ [] in
    ((deliveries pushed ≡ []) ⊎ (deliveries pushed ≡ once))
    × (((i : ℕ) → i * pkt_size < length bytes → HasIf entry i ⊎ Comes pkt_size i arrivals)
        → deliveries pushed ≡ once)

pub handle_data_done :
    (s : ReceiverCore) (src : SocketAddr) (pkt : Packet) (payload : List ℕ) (now : ℕ)
    → contains s.completed (msg_key src pkt.msg_id) ≡ true
    → handle_data s src pkt payload now ≡ returns (s, [])
unfolding handle_data
handle_data_done s src pkt payload now done = rw done

-- Packets of a delivered message change nothing.
pub feed_done :
    (pkt_size : ℕ) (bytes : List ℕ) (s : ReceiverCore) (src : SocketAddr) (msg_id : ℕ)
    (arrivals : List Arrival)
    → contains s.completed (msg_key src msg_id) ≡ true
    → Honest pkt_size bytes msg_id arrivals
    → feed s src arrivals ≡ returns (s, [])
unfolding feed
feed_done pkt_size bytes s src msg_id [] done honest = refl
feed_done pkt_size bytes s src msg_id (a ∷ more) done honest = rw (
  handle_data_done s src a.packet a.payload a.now (rw honest.0.0 done),
  feed_done pkt_size bytes s src msg_id more done honest.1,
)

-- A message that is not complete misses some chunk.
none_left :
    (pkt_size : ℕ) (bytes : List ℕ) (o : Option InMsg)
    → 0 < pkt_size
    → 0 < length bytes
    → HoldsIf pkt_size bytes o
    → UnfinishedIf o
    → ¬ ((i : ℕ) → i * pkt_size < length bytes → HasIf o i)
none_left pkt_size bytes none pos some_bytes h part all = all 0 (omega arith)
none_left pkt_size bytes (some m) pos some_bytes h part all =
    cc (part, complete-all pkt_size bytes m pos h all)

arrive :
    (pkt_size : ℕ) (bytes : List ℕ) (s : ReceiverCore) (src : SocketAddr) (msg_id q : ℕ)
    (a : Arrival)
    → Pending pkt_size bytes (msg_key src msg_id) s
    → a.packet.msg_id ≡ msg_id
    → IsChunk pkt_size bytes q a.packet a.payload
    → (r : ReceiverCore × List Action) × (handle_data s src a.packet a.payload a.now ≡ returns r)
      × After pkt_size bytes (msg_key src msg_id) q s r
arrive pkt_size bytes s src msg_id q a p same c =
    subst
      (λ (id : ℕ).
        Pending pkt_size bytes (msg_key src id) s
        → (r : ReceiverCore × List Action) × (handle_data s src a.packet a.payload a.now
            ≡ returns r)
          × After pkt_size bytes (msg_key src id) q s r)
      same
      (λ p'.
        subst
          (λ (size : ℕ).
            Pending size bytes (msg_key src a.packet.msg_id) s
            → IsChunk size bytes q a.packet a.payload
            → (r : ReceiverCore × List Action) × (handle_data s src a.packet a.payload a.now
                ≡ returns r)
              × After size bytes (msg_key src a.packet.msg_id) q s r)
          p.size (chunk-After s src bytes q a.packet a.payload a.now) p' c)
      p

pub same_chunk : (pkt_size i q : ℕ) → 0 < pkt_size → q * pkt_size ≡ i * pkt_size → i ≡ q
same_chunk pkt_size i q pos e = sym (mul-div_cancel i pos) ∙ ((rw (← e)) ∙ mul-div_cancel q pos)

feed-cons :
    (s : ReceiverCore) (src : SocketAddr) (a : Arrival) (more : List Arrival)
    (r r' : ReceiverCore × List Action)
    → handle_data s src a.packet a.payload a.now ≡ returns r
    → feed r.0 src more ≡ returns r'
    → feed s src (a ∷ more) ≡ returns (r'.0, r.1 ++ r'.1)
unfolding feed
feed-cons s src a more r r' first rest = rw (first, rest)

-- What is delivered by a packet that delivers nothing and by those after it.
quiet_then :
    (xs ys : List Action) (out : List Action)
    → deliveries xs ≡ []
    → deliveries ys ≡ out
    → deliveries (xs ++ ys) ≡ out
quiet_then xs ys out quiet rest = deliveries-append xs ys ∙ (rw quiet rest)

feed-Delivers :
    (pkt_size : ℕ) (bytes : List ℕ) (s : ReceiverCore) (src : SocketAddr) (msg_id : ℕ)
    (arrivals : List Arrival)
    → 0 < length bytes
    → Pending pkt_size bytes (msg_key src msg_id) s
    → Honest pkt_size bytes msg_id arrivals
    → let key = msg_key src msg_id in
      (r : ReceiverCore × List Action) × (feed s src arrivals ≡ returns r)
      × Delivers pkt_size bytes key (get s.incoming key) arrivals r.1
feed-Delivers pkt_size bytes s src msg_id [] some_bytes p honest =
    unfold feed deliveries in
    (
      (s, []),
      refl,
      (
        inl refl,
        λ all. absurd (
            none_left pkt_size bytes (get s.incoming (msg_key src msg_id)) p.pos some_bytes p.holds
              p.unfinished
              (λ i inside. elim (all i inside) [ inl has ↦ has | inr never ↦ absurd never ])),
      ),
    )
feed-Delivers pkt_size bytes s src msg_id (a ∷ more) some_bytes p ((same, (q, c)), honest) =
    let (r, returned, after) = arrive pkt_size bytes s src msg_id q a p same c in
    elim after [
      | inl (done, once) ↦
          let total : deliveries (r.1 ++ []) ≡ deliver src msg_id bytes ∷ [] = rw append-nil once in
          (
            (r.0, r.1 ++ []),
            feed-cons s src a more r (r.0, []) returned
                (feed_done pkt_size bytes r.0 src msg_id more done honest),
            (inr total, λ all. total),
          )
      | inr (p', quiet, grows) ↦
          let (r', rest, (either, all)) =
            feed-Delivers pkt_size bytes r.0 src msg_id more some_bytes p' honest in
          (
            (r'.0, r.1 ++ r'.1),
            feed-cons s src a more r r' returned rest,
            (
              elim either [
                | inl nothing ↦ inl (quiet_then r.1 r'.1 [] quiet nothing)
                | inr one ↦ inr (quiet_then r.1 r'.1 _ quiet one)
              ],
              λ covered. quiet_then r.1 r'.1 _ quiet (
                  all λ i inside. elim (covered i inside) [
                    | inl has ↦ inl (grows i (inr has))
                    | inr (inl here) ↦
                        inl (grows i (inl (same_chunk pkt_size i q p.pos (sym c.starts ∙ here))))
                    | inr (inr later) ↦ inr later
                  ]),
            ),
          )
    ]

-- Packets from an honest sender for a message that is not delivered yet never make the receiver
-- panic, and deliver nothing or the message once, with the sender's bytes, whatever their order
-- and repetitions.
pub feed_once :
    (pkt_size : ℕ) (bytes : List ℕ) (s : ReceiverCore) (src : SocketAddr) (msg_id : ℕ)
    (arrivals : List Arrival)
    → 0 < length bytes
    → Pending pkt_size bytes (msg_key src msg_id) s
    → Honest pkt_size bytes msg_id arrivals
    → (r : ReceiverCore × List Action) × (feed s src arrivals ≡ returns r)
      × ((deliveries r.1 ≡ []) ⊎ (deliveries r.1 ≡ deliver src msg_id bytes ∷ []))
feed_once pkt_size bytes s src msg_id arrivals some_bytes p honest =
    let (r, returned, (either, all)) =
      feed-Delivers pkt_size bytes s src msg_id arrivals some_bytes p honest in
    (r, returned, either)

-- A message of at least one byte is not among the delivered ones that the receiver remembers; what
-- the receiver holds of it is right and not all of it; and a receiver that holds nothing of it has
-- room for it. Then packets of its chunks, among which each one comes that is not there yet, make the
-- receiver deliver it exactly once, with the sender's bytes, whatever their order and repetitions,
-- and never make it panic. The message is cut by the receiver's packet size, which is positive.
pub feed_all :
    (pkt_size : ℕ) (bytes : List ℕ) (s : ReceiverCore) (src : SocketAddr) (msg_id : ℕ)
    (arrivals : List Arrival)
    → 0 < length bytes
    → Pending pkt_size bytes (msg_key src msg_id) s
    → Honest pkt_size bytes msg_id arrivals
    → ((i : ℕ)
        → i * pkt_size < length bytes
        → HasIf (get s.incoming (msg_key src msg_id)) i ⊎ Comes pkt_size i arrivals)
    → (r : ReceiverCore × List Action) × (feed s src arrivals ≡ returns r)
      × (deliveries r.1 ≡ deliver src msg_id bytes ∷ [])
feed_all pkt_size bytes s src msg_id arrivals some_bytes p honest covered =
    let (r, returned, (either, all)) =
      feed-Delivers pkt_size bytes s src msg_id arrivals some_bytes p honest in
    (r, returned, all covered)
