-- ===== src/Receiver/Steps.antt =====
-- One call of the receiver in the abstract: it delivers at most one message, which it has not
-- delivered before as far as it remembers, and remembers it.
use agent_transport.Base.{
  ℕ, ◌+◌, ◌≡◌, refl, sym, ap, ◌∙◌, false, List, [], ◌∷◌, ◌++◌, length, leb, ◌==◌, Bool-cases, inl,
  inr, Option-cases,
}
use agent_transport.Base.Dict.{get, insert}
use agent_transport.Packet.{Packet}
use agent_transport.Config.{SocketAddr, MsgKey, msg_key, msg_key_eq, Action, send, deliver}
use agent_transport.Receiver.State.{
  InMsg, ReceiverCore, new, contains, complete, fresh_msg, accepts,
}
use agent_transport.Receiver.Handlers.{
  Outcome, returns, panics, handle_data, receive, settle, then_schedule, deliver_msg, remember,
  tick,
}
use agent_transport.Receiver.Loses.{tick-Quiet}
use agent_transport.Receiver.Invariant.{Event, arrives, ticks}
use agent_transport.Receiver.Chunks.{deliveries, deliveries_none}
use agent_transport.Receiver.Delivery.{settle-complete, settle_incomplete, then_schedule-Frame}
use agent_transport.Receiver.Arrivals.{and_then}

-- The keys of the messages that a list of actions delivers.
unfoldable pub delivered_keys : List Action → List MsgKey
delivered_keys [] = []
delivered_keys (send dest bytes ∷ actions) = delivered_keys actions
delivered_keys (deliver src msg_id bytes ∷ actions) = msg_key src msg_id ∷ delivered_keys actions

-- The receiver over some events, with all the actions that are pushed; a panic ends it.
unfoldable pub play : ReceiverCore → List Event → Outcome
play s [] = returns (s, [])
play s (ticks now ∷ events) = and_then (returns (tick now s)) (λ s'. play s' events)
play s (arrives src pkt payload now ∷ events) =
    and_then (handle_data s src pkt payload now) (λ s'. play s' events)

pub delivered_keys-append :
    (xs ys : List Action) → delivered_keys (xs ++ ys) ≡ delivered_keys xs ++ delivered_keys ys
unfolding delivered_keys
delivered_keys-append [] ys = refl
delivered_keys-append (send dest bytes ∷ xs) ys = delivered_keys-append xs ys
delivered_keys-append (deliver src msg_id bytes ∷ xs) ys =
    ap (◌∷◌ (msg_key src msg_id)) (delivered_keys-append xs ys)

-- The keys are those of the deliveries.
pub delivered_keys-deliveries :
    (xs : List Action) → delivered_keys (deliveries xs) ≡ delivered_keys xs
unfolding delivered_keys deliveries
delivered_keys-deliveries [] = refl
delivered_keys-deliveries (send dest bytes ∷ xs) = delivered_keys-deliveries xs
delivered_keys-deliveries (deliver src msg_id bytes ∷ xs) =
    ap (◌∷◌ (msg_key src msg_id)) (delivered_keys-deliveries xs)

-- What the two halves of a run did, if it did not panic.
pub record Halves (o : Outcome) (f : ReceiverCore → Outcome) (r : ReceiverCore × List Action)
    : Type 0 where
  pub first : ReceiverCore × List Action
  pub rest : ReceiverCore × List Action
  pub first_returns : o ≡ returns first
  pub rest_returns : f first.0 ≡ returns rest
  pub whole : r ≡ (rest.0, first.1 ++ rest.1)

returned : (a b : ReceiverCore × List Action) → returns a ≡ returns b → b ≡ a
returned a b e = sym (ap (λ o. elim o [ returns c ↦ c | panics ↦ a ]) e)

pub and_then-Halves :
    (o : Outcome) (f : ReceiverCore → Outcome) (r : ReceiverCore × List Action)
    → and_then o f ≡ returns r
    → Halves o f r
and_then-Halves panics f r e = absurd cc
and_then-Halves (returns (s, pushed)) f r e =
    elim (f s)
        as (λ o.
          f s ≡ o
          → (elim o [ panics ↦ panics | returns b ↦ returns (b.0, pushed ++ b.1) ]) ≡ returns r
          → Halves (returns (s, pushed)) f r) [
            | panics ↦ λ dead e'. absurd cc
            | returns b ↦ λ alive e'. record {
              first = (s, pushed);
              rest = b;
              first_returns = refl;
              rest_returns = alive;
              whole = returned (b.0, pushed ++ b.1) r e';
            }
          ]
      refl e

-- A call delivers nothing, or one message that is new.
pub data Steps (s : ReceiverCore) (r : ReceiverCore × List Action) : Type 0 where
  silent : r.0.completed ≡ s.completed → delivered_keys r.1 ≡ [] → Steps s r
  fresh :
      (key : MsgKey)
      → contains s.completed key ≡ false
      → r.0.completed ≡ remember s.completed key
      → delivered_keys r.1 ≡ key ∷ []
      → Steps s r

abbrev pub StepsIf : ReceiverCore → Outcome → Type 0
StepsIf s panics = Unit
StepsIf s (returns r) = Steps s r

keys_of_deliveries :
    (xs ys : List Action) → deliveries xs ≡ deliveries ys → delivered_keys xs ≡ delivered_keys ys
keys_of_deliveries xs ys e =
    sym (delivered_keys-deliveries xs) ∙ (ap delivered_keys e ∙ delivered_keys-deliveries ys)

then_schedule-Steps :
    (now : ℕ) (s : ReceiverCore) (r : ReceiverCore × List Action)
    → Steps s r
    → Steps s (then_schedule now r)
then_schedule-Steps now s r (silent same none_yet) =
    let (frame, out) = then_schedule-Frame now r in
    silent (frame.done ∙ same) (keys_of_deliveries _ r.1 out ∙ none_yet)
then_schedule-Steps now s r (fresh key new grows one) =
    let (frame, out) = then_schedule-Frame now r in
    fresh key new (frame.done ∙ grows) (keys_of_deliveries _ r.1 out ∙ one)

-- What `deliver` does to the state with the message's entry in it.
deliver_msg-Steps :
    (s : ReceiverCore) (key : MsgKey) (m : InMsg) (bytes : List ℕ)
    → contains s.completed key ≡ false
    → Steps s (deliver_msg (record s { incoming = insert s.incoming key m }) key bytes)
unfolding deliver_msg delivered_keys
deliver_msg-Steps s key m bytes new = fresh key new refl refl

settle-Steps :
    (s : ReceiverCore) (key : MsgKey) (m : InMsg)
    → contains s.completed key ≡ false
    → Steps s (settle s key m)
settle-Steps s key m new = elim (Bool-cases (complete m)) [
  | inl all ↦ rw (settle-complete s key m all) (deliver_msg-Steps s key m m.buf new)
  | inr part ↦ rw (settle_incomplete s key m part) (unfold delivered_keys in silent refl refl)
]

receive-StepsIf :
    (s : ReceiverCore) (key : MsgKey) (m : InMsg) (pkt : Packet) (payload : List ℕ) (now : ℕ)
    → contains s.completed key ≡ false
    → StepsIf s (receive s key m pkt payload now)
unfolding receive
receive-StepsIf s key m pkt payload now new = elim (Bool-cases (pkt.msg_len == 0)) [
  | inl empty ↦ rw empty (then_schedule-Steps now s _ (deliver_msg-Steps s key m [] new))
  | inr some_bytes ↦ elim (Bool-cases (s.cfg.packet_size == 0)) [
    | inl null ↦ rw (some_bytes, null) tt
    | inr sized ↦ elim (Bool-cases (accepts s.cfg.packet_size m pkt.msg_len pkt.offset payload)) [
      | inr ignored ↦
          rw (some_bytes, sized, ignored) (then_schedule-Steps now s _ (settle-Steps s key m new))
      | inl taken ↦ elim (Bool-cases (leb (pkt.offset + length payload) (length m.buf))) [
        | inr out ↦ rw (some_bytes, sized, taken, out) tt
        | inl fits ↦
            rw (some_bytes, sized, taken, fits)
              (then_schedule-Steps now s _ (settle-Steps s key _ new))
      ]
    ]
  ]
]

pub handle_data-StepsIf :
    (s : ReceiverCore) (src : SocketAddr) (pkt : Packet) (payload : List ℕ) (now : ℕ)
    → StepsIf s (handle_data s src pkt payload now)
unfolding handle_data
handle_data-StepsIf s src pkt payload now =
    let key = msg_key src pkt.msg_id in
    elim (Bool-cases (contains s.completed key)) [
      | inl old ↦ rw old (unfold delivered_keys in silent refl refl)
      | inr new ↦ elim (Option-cases (get s.incoming key)) [
        | inr (m, e) ↦ rw (new, e, handle_data) (receive-StepsIf s key m pkt payload now new)
        | inl e ↦ elim (Bool-cases (leb s.cfg.max_incoming (length s.incoming))) [
          | inl full ↦ rw (new, e, full, handle_data) (unfold delivered_keys in silent refl refl)
          | inr more ↦ elim (Bool-cases (s.cfg.packet_size == 0)) [
            | inl null ↦ rw (new, e, more, null, handle_data) tt
            | inr sized ↦
                rw (new, e, more, sized, handle_data)
                  (receive-StepsIf s key (fresh_msg s.cfg pkt.msg_len now) pkt payload now new)
          ]
        ]
      ]
    ]

pub tick-Steps : (now : ℕ) (s : ReceiverCore) → Steps s (tick now s)
unfolding delivered_keys deliveries
tick-Steps now s =
    let (loses, sent) = tick-Quiet now s in
    silent loses.done (keys_of_deliveries (tick now s).1 [] (deliveries_none (tick now s).1 sent))
