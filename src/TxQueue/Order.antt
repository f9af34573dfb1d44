-- ===== src/TxQueue/Order.antt =====
-- The queues read as one list, highest priority first, and the operations on that list.
use agent_transport.Base.{
  ℕ, zero, suc, ◌-◌, ◌≡◌, refl, List, [], ◌∷◌, ◌++◌, length, ==_iff, length-take, take-nil,
  drop-nil, take-append_more, drop-append_more, take, drop, arith, append-nil, Bool-cases, inl, inr,
  ◌==◌,
}
use agent_transport.TxQueue.{Outgoing, TxQueues, pop_queue, pop_queues, pop_batch}

unfoldable pub concat : List (List Outgoing) → List Outgoing
concat [] = []
concat (q ∷ qs) = q ++ concat qs

-- What the queues hold, in the order in which it is to leave.
abbrev pub contents : TxQueues → List Outgoing
contents tx = concat tx.queues

pub pop_queue_lem : (room : ℕ) (q : List Outgoing) → pop_queue room q ≡ (take room q, drop room q)
unfolding pop_queue
pop_queue_lem zero q = refl
pop_queue_lem (suc room) [] = refl
pop_queue_lem (suc room) (item ∷ q) = rw (pop_queue_lem room q)

pop_queues_lem :
    (room : ℕ) (qs : List (List Outgoing))
    → ((pop_queues room qs).0 ≡ take room (concat qs))
      × (concat (pop_queues room qs).1 ≡ drop room (concat qs))
unfolding pop_queues concat
pop_queues_lem room [] = rw (take-nil, drop-nil) (refl, refl)
pop_queues_lem room (q ∷ qs) =
    let left : room - length (take room q) ≡ room - length q = omega (arith, length-take room q) in
    let (out, rest) = pop_queues_lem (room - length q) qs in
    rw
      (
        pop_queue_lem room q,
        left,
        take-append_more room q (concat qs),
        drop-append_more room q (concat qs),
      )
      (elim (Bool-cases (room - length q == 0)) [
        | inl full ↦ rw (full, (==_iff _ 0).0 full, append-nil) (refl, refl)
        | inr more ↦ rw (more, out, rest) (refl, refl)
      ])

-- `pop_batch` takes the first `budget` packets of the queues, higher priorities first and each
-- level in its order of arrival, and leaves the others as they were.
pub pop_batch_lem :
    (tx : TxQueues) (budget : ℕ)
    → ((pop_batch tx budget).0 ≡ take budget (contents tx))
      × (contents (pop_batch tx budget).1 ≡ drop budget (contents tx))
unfolding pop_batch
pop_batch_lem tx budget = pop_queues_lem budget tx.queues
