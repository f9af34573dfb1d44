-- ===== src/TxQueue.antt =====
-- transport/txqueue.rs: the eight send queues. A `VecDeque` is a list, its front first; the array
-- of queues is the list of its eight entries.
pub mod Order
pub mod Filed
use agent_transport.Base.{
  ℕ, zero, suc, ◌-◌, ◌+◌, min, Bool, true, ◌&&◌, Option, none, some, List, [], ◌∷◌, ◌++◌, length,
  replicate, get_or, leb, ltb, ◌==◌, if◌then◌else◌,
}
use agent_transport.Packet.{«data», as_u8}
use agent_transport.Priority.{num_priorities}
use agent_transport.Config.{SocketAddr}

abbrev pub flush_budget : ℕ
flush_budget = 256

-- A datagram and where it goes.
abbrev pub Outgoing : Type 0
Outgoing = SocketAddr × List ℕ

pub record TxQueues : Type 0 where
  pub queues : List (List Outgoing)

unfoldable pub new : TxQueues
new = record { queues = replicate num_priorities [] }

-- self.queues[prio].push_back(item)
unfoldable pub push_back : ℕ → Outgoing → List (List Outgoing) → List (List Outgoing)
push_back prio item [] = []
push_back zero item (q ∷ qs) = (q ++ (item ∷ [])) ∷ qs
push_back (suc prio) item (q ∷ qs) = q ∷ push_back prio item qs

-- The test of `classify`, and the queue of a DATA packet.
unfoldable pub is_data_packet : List ℕ → Bool
unfolding as_u8
is_data_packet bytes = leb 2 (length bytes) && get_or bytes 0 0 == as_u8 «data»

unfoldable pub level : List ℕ → ℕ
level bytes = min (get_or bytes 1 0) (num_priorities - 1)

unfoldable pub classify : TxQueues → SocketAddr → List ℕ → TxQueues × Option Outgoing
classify tx dest bytes =
    if is_data_packet bytes
    then (record { queues = push_back (level bytes) (dest, bytes) tx.queues }, none)
    else (tx, some (dest, bytes))

-- The inner loop of `pop_batch` on one queue: what it pops while there is room, and what is left.
unfoldable pub pop_queue : ℕ → List Outgoing → List Outgoing × List Outgoing
pop_queue zero q = ([], q)
pop_queue (suc room) [] = ([], [])
pop_queue (suc room) (item ∷ q) = let (out, rest) = pop_queue room q in (item ∷ out, rest)

-- The outer loop; `room` is `budget - out.len()`, and the loop stops where it is zero.
unfoldable pub pop_queues : ℕ → List (List Outgoing) → List Outgoing × List (List Outgoing)
unfolding pop_queue
pop_queues room [] = ([], [])
pop_queues room (q ∷ qs) =
    let (out, q') = pop_queue room q in
    let left = room - length out in
    let later = pop_queues left qs in
    if left == 0 then (out, q' ∷ qs) else (out ++ later.0, q' ∷ later.1)

unfoldable pub pop_batch : TxQueues → ℕ → List Outgoing × TxQueues
unfolding pop_queues
pop_batch tx budget = let (out, qs) = pop_queues budget tx.queues in (out, record { queues = qs })

all_empty : List (List Outgoing) → Bool
all_empty [] = true
all_empty (q ∷ qs) = length q == 0 && all_empty qs

unfoldable pub is_empty : TxQueues → Bool
unfolding all_empty
is_empty tx = all_empty tx.queues

sum_lengths : List (List Outgoing) → ℕ
sum_lengths [] = 0
sum_lengths (q ∷ qs) = length q + sum_lengths qs

unfoldable pub backlog : TxQueues → ℕ
unfolding sum_lengths
backlog tx = sum_lengths tx.queues
