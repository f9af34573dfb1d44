-- ===== src/Tests/Straddling.antt =====
-- A lost GRANT, three lost packets and a late GRANT: `handle_resend` leaves the sender between two
-- cuts, and the receiver delivers bytes that were never sent.
use agent_transport.Base.{ℕ, ◌≡◌, refl, none, some, List, [], ◌∷◌, ◌++◌, map}
use agent_transport.Base.Picks.{pull}
use agent_transport.Config.{SocketAddr, TransportConfig, default, deliver}
use agent_transport.Receiver.Handlers.{tick}
use agent_transport.EndToEnd.Exchange.{Exchange, up, begin, datagrams, arrive_next}

abbrev narrow : TransportConfig
narrow = record default { packet_size = 4; unscheduled_bytes = 8; grant_increment = 10 }

abbrev client : SocketAddr
client = record { ip = 0x7f00_0001; port = 9000 }

abbrev server : SocketAddr
server = record { ip = 0x7f00_0001; port = 9001 }

abbrev sixteen : List ℕ
sixteen = 1 ∷ 2 ∷ 3 ∷ 4 ∷ 5 ∷ 6 ∷ 7 ∷ 8 ∷ 9 ∷ 10 ∷ 11 ∷ 12 ∷ 13 ∷ 14 ∷ 15 ∷ 16 ∷ []

abbrev next : Exchange → ℕ → Exchange
next x k = arrive_next client server x k 0

unfoldable lose : Exchange → ℕ → Exchange
lose x k = elim (pull k x.net) [ none ↦ x | some (flight, rest) ↦ record x { net = rest } ]

abbrev wait : Exchange → ℕ → Exchange
wait x now =
    let (r, actions) = tick now x.receiver in
    record x { receiver = r; net = x.net ++ map (λ d. up d) (datagrams actions) }

-- The second packet comes, and the receiver asks for the bytes from 0 to 10.
abbrev asked : Exchange
asked = wait (next (lose (begin client server narrow 7 sixteen 0) 0) 0) 100

-- The sender sends them; of these the packet from 8 to 12 is lost. Then the GRANT comes.
abbrev between : Exchange
between = next (next (lose (next asked 1) 3) 1) 0

-- The bytes from 10 to 14 come, and the last ones after a loss.
abbrev ended : Exchange
ended = next (next (wait (lose (next (next between 1) 1) 1) 200) 1) 1

-- The message is delivered with zeros in place of its ninth and tenth bytes.
corrupted :
    ended.delivered
    ≡ deliver client 7 (1 ∷ 2 ∷ 3 ∷ 4 ∷ 5 ∷ 6 ∷ 7 ∷ 8 ∷ 0 ∷ 0 ∷ 11 ∷ 12 ∷ 13 ∷ 14 ∷ 15 ∷ 16 ∷ [])
      ∷ []
unfolding lose arrive_next pull begin datagrams agent_transport.Sender.start
    agent_transport.Sender.pump agent_transport.Base.Dict.get agent_transport.Base.Dict.insert
    agent_transport.Sender.new agent_transport.Sender.pump_msg agent_transport.Sender.pump_loop
    agent_transport.EndToEnd.Exchange.arrive agent_transport.Packet.decode
    agent_transport.Sender.data_packet agent_transport.Packet.encode
    agent_transport.Base.Bytes.le_bytes agent_transport.Packet.from_u8
    agent_transport.Sender.data_header agent_transport.Base.Bytes.from_le_bytes
    agent_transport.Base.Dict.remove agent_transport.Config.for_each agent_transport.Packet.as_u8
    agent_transport.Packet.new agent_transport.Packet.read_header
    agent_transport.Priority.priority_for_len agent_transport.Priority.search_level
    agent_transport.Receiver.Chunks.deliveries agent_transport.Receiver.Handlers.deliver_msg
    agent_transport.Receiver.Handlers.handle_data agent_transport.Receiver.Handlers.receive
    agent_transport.Receiver.Handlers.remember agent_transport.Receiver.Handlers.settle
    agent_transport.Receiver.Handlers.then_schedule agent_transport.Receiver.Scheduler.add_starving
    agent_transport.Receiver.Scheduler.candidates agent_transport.Receiver.Scheduler.grant_msg
    agent_transport.Receiver.Scheduler.insert_by agent_transport.Receiver.Scheduler.issue_grant
    agent_transport.Receiver.Scheduler.schedule agent_transport.Receiver.Scheduler.select
    agent_transport.Receiver.Scheduler.shortest agent_transport.Receiver.Scheduler.sort_by_remaining
    agent_transport.Receiver.Scheduler.wants_grant agent_transport.Receiver.State.accepts
    agent_transport.Receiver.State.contains agent_transport.Receiver.State.copy_into
    agent_transport.Receiver.State.fresh_msg agent_transport.Receiver.State.new
    agent_transport.Receiver.State.remaining agent_transport.Receiver.State.store
    agent_transport.Receiver.State.without agent_transport.Sender.chunk_range
    agent_transport.Sender.handle_busy agent_transport.Sender.handle_grant
    agent_transport.Sender.handle_resend agent_transport.Sender.resend_account
    agent_transport.Sender.resend_loop agent_transport.Sender.resend_msg
    agent_transport.Sender.write agent_transport.Receiver.Handlers.tick
    agent_transport.Receiver.Handlers.tick_key agent_transport.Receiver.Handlers.tick_stalled
    agent_transport.Receiver.Handlers.request_resend agent_transport.Receiver.Handlers.renew_grant
    agent_transport.Receiver.State.first_missing agent_transport.Receiver.State.first_missing_offset
corrupted = refl
