-- ===== src/Transport/Drain.antt =====
-- `drain` against what the actions ask for.
use agent_transport.Base.{
  ℕ, not, ◌≡◌, refl, sym, ◌∙◌, ap, Option, none, some, List, [], ◌∷◌, ◌++◌, append-nil,
  append_assoc, take, drop, length, arith, ◌==◌, if◌then◌else◌, Bool-cases, inl, inr,
}
use mathlib.Core.List.{Perm, perm_middle}
use mathlib.Core.List.Perm
use agent_transport.Config.{SocketAddr, Action, send, deliver}
use agent_transport.TxQueue.{TxQueues, Outgoing, classify, is_data_packet, level, flush_budget}
use agent_transport.TxQueue.Order.{contents, pop_batch_lem}
use agent_transport.TxQueue.Filed.{
  IsFiled, Enters, classify-Classified, classify-IsFiled, pop_batch-IsFiled,
}
use agent_transport.Transport.{State, Drained, drain_actions, drain}

-- What a list of actions asks for: messages to hand over, packets to queue, and packets to send at
-- once.
unfoldable pub handed_over : List Action → List (SocketAddr × List ℕ)
handed_over [] = []
handed_over (send dest bytes ∷ actions) = handed_over actions
handed_over (deliver src msg_id bytes ∷ actions) = (src, bytes) ∷ handed_over actions

unfoldable pub queued_sends : List Action → List Outgoing
queued_sends [] = []
queued_sends (send dest bytes ∷ actions) =
    let rest = queued_sends actions in if is_data_packet bytes then (dest, bytes) ∷ rest else rest
queued_sends (deliver src msg_id bytes ∷ actions) = queued_sends actions

unfoldable pub direct_sends : List Action → List Outgoing
direct_sends [] = []
direct_sends (send dest bytes ∷ actions) =
    let rest = direct_sends actions in if is_data_packet bytes then rest else (dest, bytes) ∷ rest
direct_sends (deliver src msg_id bytes ∷ actions) = direct_sends actions

-- What the loop of `drain` does.
record Passes (st : State) (actions : List Action) (d : Drained) : Type 0 where
  filed : IsFiled d.state.tx
  sender : d.state.sender ≡ st.sender
  receiver : d.state.receiver ≡ st.receiver
  completed : d.state.completed ≡ st.completed ++ handed_over actions
  notified : d.notified ≡ not (length (handed_over actions) == 0)
  direct : d.datagrams ≡ direct_sends actions
  queued : Perm (contents d.state.tx) (queued_sends actions ++ contents st.tx)

-- One packet enters the queues, and the others after it.
queue_one :
    (item : Outgoing) (later before after end : List Outgoing)
    → Perm after (item ∷ before)
    → Perm end (later ++ after)
    → Perm end (item ∷ (later ++ before))
queue_one item later before after end first rest =
    Perm.trans rest (Perm.trans (Perm.append (Perm.refl later) first) (perm_middle later before))

Enters-Perm :
    (lvl : ℕ) (item : Outgoing) (before after : List Outgoing)
    → Enters lvl item before after
    → Perm after (item ∷ before)
Enters-Perm lvl item before after (ahead, behind, was, is, low, high) =
    rw (was, is) (perm_middle ahead behind)

drain_actions-none :
    (st : State) (dest : SocketAddr) (bytes : List ℕ) (actions : List Action)
    → (classify st.tx dest bytes).1 ≡ none
    → drain_actions st (send dest bytes ∷ actions)
      ≡ drain_actions (record st { tx = (classify st.tx dest bytes).0 }) actions
unfolding drain_actions
drain_actions-none st dest bytes actions e = rw (e, drain_actions)

drain_actions-some :
    (st : State) (dest : SocketAddr) (bytes : List ℕ) (actions : List Action)
    → classify st.tx dest bytes ≡ (st.tx, some (dest, bytes))
    → let r = drain_actions st actions in
      drain_actions st (send dest bytes ∷ actions)
      ≡ record r { datagrams = (dest, bytes) ∷ r.datagrams }
unfolding drain_actions
drain_actions-some st dest bytes actions e =
    ap {B = Drained}
      (λ (c : TxQueues × Option Outgoing).
        let r = drain_actions (record st { tx = c.0 }) actions in
        elim c.1 [ none ↦ r | some item ↦ record r { datagrams = item ∷ r.datagrams } ])
      e

drain_actions-Passes :
    (st : State) (actions : List Action)
    → IsFiled st.tx
    → Passes st actions (drain_actions st actions)
unfolding drain_actions handed_over queued_sends direct_sends
drain_actions-Passes st [] h = record {
  filed = h;
  sender = refl;
  receiver = refl;
  completed = sym (append-nil st.completed);
  notified = refl;
  direct = refl;
  queued = Perm.refl (contents st.tx);
}
drain_actions-Passes st (deliver src msg_id bytes ∷ actions) h =
    let p =
      drain_actions-Passes (record st { completed = st.completed ++ ((src, bytes) ∷ []) }) actions
        h in
    record {
      filed = p.filed;
      sender = p.sender;
      receiver = p.receiver;
      completed = p.completed ∙ append_assoc st.completed ((src, bytes) ∷ []) (handed_over actions);
      notified = ground arith;
      direct = p.direct;
      queued = p.queued;
    }
drain_actions-Passes st (send dest bytes ∷ actions) h = elim (Bool-cases (is_data_packet bytes)) [
  | inl queues ↦
      let (held, enters) = rw queues at (classify-Classified st.tx dest bytes h) in
      let p =
        drain_actions-Passes (record st { tx = (classify st.tx dest bytes).0 }) actions
          (classify-IsFiled st.tx dest bytes h) in
      rw (drain_actions-none st dest bytes actions held) (record {
        filed = p.filed;
        sender = p.sender;
        receiver = p.receiver;
        completed = p.completed;
        notified = p.notified;
        direct = rw queues p.direct;
        queued = rw queues (
            queue_one (dest, bytes) (queued_sends actions) (contents st.tx) _ _
              (Enters-Perm (level bytes) (dest, bytes) _ _ enters) p.queued);
      })
  | inr other ↦
      let p = drain_actions-Passes st actions h in
      rw
        (drain_actions-some st dest bytes actions
          (rw other at (classify-Classified st.tx dest bytes h)))
        (record {
          filed = p.filed;
          sender = p.sender;
          receiver = p.receiver;
          completed = p.completed;
          notified = p.notified;
          direct = rw other (ap (◌∷◌ (dest, bytes)) p.direct);
          queued = rw other p.queued;
        })
]

-- What `drain` does with a list of actions.
pub record Drains (st : State) (actions : List Action) (d : Drained) : Type 0 where
  pub filed : IsFiled d.state.tx
  pub sender : d.state.sender ≡ st.sender
  pub receiver : d.state.receiver ≡ st.receiver
  pub completed : d.state.completed ≡ st.completed ++ handed_over actions
  pub notified : d.notified ≡ not (length (handed_over actions) == 0)
  pub queue : List Outgoing
  pub queued : Perm queue (queued_sends actions ++ contents st.tx)
  pub goes : d.datagrams ≡ direct_sends actions ++ take flush_budget queue
  pub stays : contents d.state.tx ≡ drop flush_budget queue

-- `drain` hands over the delivered messages in their order behind those that wait, and wakes the
-- waiters exactly if there are any. Every control packet goes to the socket at once and in order,
-- before at most 256 DATA packets; the DATA packets that go and those that stay in the queues are
-- together the ones that were queued and the new ones, none lost and none twice.
pub drain-Drains :
    (st : State) (actions : List Action) → IsFiled st.tx → Drains st actions (drain st actions)
unfolding drain
drain-Drains st actions h =
    let p = drain_actions-Passes st actions h in
    let tx = (drain_actions st actions).state.tx in
    let (goes, stays) = pop_batch_lem tx flush_budget in
    record {
      filed = pop_batch-IsFiled tx flush_budget p.filed;
      sender = p.sender;
      receiver = p.receiver;
      completed = p.completed;
      notified = p.notified;
      queue = contents tx;
      queued = p.queued;
      goes = rw (p.direct, goes);
      stays = stays;
    }
