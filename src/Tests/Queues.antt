-- ===== src/Tests/Queues.antt =====
-- Tests of transport/txqueue.rs.
use agent_transport.Base.{ℕ, ◌≡◌, refl, List, [], ◌∷◌, drop, arith, some}
use agent_transport.Config.{SocketAddr}
use agent_transport.TxQueue.{TxQueues, classify, pop_batch, is_data_packet, level, push_back}
use agent_transport.TxQueue.Order.{contents, pop_batch_lem}
use agent_transport.TxQueue.Filed.{IsFiled, Outranks, pop_batch-Outranks}

abbrev peer : SocketAddr
peer = record { ip = 0x7f00_0001; port = 9000 }

-- The first bytes of DATA packets of levels 0, 3 and 7, and of a GRANT.
abbrev short_rpc : List ℕ
short_rpc = 0 ∷ 0 ∷ 1 ∷ []

abbrev middle : List ℕ
middle = 0 ∷ 3 ∷ 2 ∷ []

abbrev long_transfer : List ℕ
long_transfer = 0 ∷ 9 ∷ 3 ∷ []

abbrev control : List ℕ
control = 1 ∷ 0 ∷ []

abbrev busy_queues : TxQueues
busy_queues = record {
  queues = [] ∷ [] ∷ [] ∷ ((peer, middle) ∷ []) ∷ [] ∷ [] ∷ [] ∷ ((peer, long_transfer) ∷ []) ∷ [];
}

busy_queues-IsFiled : IsFiled busy_queues
unfolding level
busy_queues-IsFiled = record { eight = refl; filed = omega arith }

pop_batch_lem_example : contents (pop_batch busy_queues 1).1 ≡ drop 1 (contents busy_queues)
pop_batch_lem_example = (pop_batch_lem busy_queues 1).1

pop_batch-Outranks_example :
    Outranks (pop_batch busy_queues 1).0 (contents (pop_batch busy_queues 1).1)
pop_batch-Outranks_example = pop_batch-Outranks busy_queues 1 busy_queues-IsFiled

-- The short message overtakes what has waited longer.
short_first :
    (pop_batch (classify busy_queues peer short_rpc).0 2).0
    ≡ (peer, short_rpc) ∷ (peer, middle) ∷ []
unfolding classify pop_batch is_data_packet level push_back
short_first = refl

control_direct : (classify busy_queues peer control).1 ≡ some (peer, control)
unfolding classify is_data_packet
control_direct = refl
