-- ===== src/Tests/Receiving.antt =====
-- Tests of transport/receiver.rs.
use agent_transport.Base.{ℕ, zero, suc, ◌*◌, ◌<◌, ◌≡◌, ◌⊎◌, inl, inr, refl, List, [], ◌∷◌, arith}
use agent_transport.Base.Dict.{get}
use agent_transport.Packet.{Packet, «data»}
use agent_transport.Config.{
  SocketAddr, msg_key, msg_key_eq, TransportConfig, default, Action, deliver,
}
use agent_transport.Receiver.State.{InMsg, ReceiverCore, new, contains, fresh_msg}
use agent_transport.Receiver.Handlers.{returns}
use agent_transport.Receiver.Reassembly.{chunk}
use agent_transport.Receiver.Chunks.{IsChunk, Pending, HasIf, deliveries}
use agent_transport.Receiver.Arrivals.{Arrival, feed, Honest, Comes, feed_all}

abbrev small : TransportConfig
small = record default { packet_size = 4; unscheduled_bytes = 6; grant_increment = 4 }

abbrev peer : SocketAddr
peer = record { ip = 0x7f00_0001; port = 9000 }

abbrev six : List ℕ
six = 1 ∷ 2 ∷ 3 ∷ 4 ∷ 5 ∷ 6 ∷ []

abbrev data_at : ℕ → ℕ → Packet
data_at off n = record {
  typ = «data»;
  priority = 0;
  msg_id = 1;
  msg_len = 6;
  offset = off;
  length = n;
}

abbrev second : Arrival
second = record { packet = data_at 4 2; payload = 5 ∷ 6 ∷ []; now = 1 }

abbrev first : Arrival
first = record { packet = data_at 0 4; payload = 1 ∷ 2 ∷ 3 ∷ 4 ∷ []; now = 2 }

-- The second packet comes first, and again last.
abbrev disordered : List Arrival
disordered = second ∷ first ∷ second ∷ []

second-IsChunk : IsChunk 4 six 1 second.packet second.payload
unfolding chunk
second-IsChunk = record {
  states_length = refl;
  starts = refl;
  carries = refl;
  inside = omega arith;
}

first-IsChunk : IsChunk 4 six 0 first.packet first.payload
unfolding chunk
first-IsChunk = record { states_length = refl; starts = refl; carries = refl; inside = omega arith }

disordered-Honest : Honest 4 six 1 disordered
disordered-Honest =
    ((refl, (1, second-IsChunk)), ((refl, (0, first-IsChunk)), ((refl, (1, second-IsChunk)), tt)))

new-Pending : Pending 4 six (msg_key peer 1) (new small)
unfolding new contains get
new-Pending = record {
  pos = omega arith;
  size = refl;
  undelivered = refl;
  holds = tt;
  unfinished = tt;
  room = λ e. omega arith;
}

all_come :
    (i : ℕ) → i * 4 < 6 → HasIf (get (new small).incoming (msg_key peer 1)) i ⊎ Comes 4 i disordered
all_come zero inside = inr (inr (inl refl))
all_come (suc zero) inside = inr (inl refl)
all_come (suc (suc i)) inside = absurd (omega arith)

feed_all_example :
    (r : ReceiverCore × List Action) × (feed (new small) peer disordered ≡ returns r)
    × (deliveries r.1 ≡ deliver peer 1 six ∷ [])
feed_all_example =
    feed_all 4 six (new small) peer 1 disordered (omega arith) new-Pending disordered-Honest
      all_come

abbrev half : InMsg
half = record (fresh_msg small 6 0) { granted_to = 4 }

abbrev receiving : ReceiverCore
receiving = record (new small) { incoming = (msg_key peer 1, half) ∷ [] }
