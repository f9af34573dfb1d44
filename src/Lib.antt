-- ===== src/Lib.antt =====
-- agent-transport: a message transport over UDP in the manner of Homa, and a small RPC layer on it.
-- A sender cuts a message into DATA packets; it sends the first `unscheduled_bytes` at once and the
-- rest as the receiver's GRANTs allow. The receiver puts the packets together, grants the messages
-- with the fewest bytes left first, asks for lost packets by RESEND, and delivers each message.
--
-- Files and the code that they model:
--   Base: lists, numbers, bytes, association lists, loops that wait, and elements taken out of a list
--     (no code of the repository).
--   Packet: src/transport/packet.rs, the header, `encode` and `decode`.
--   Priority: src/transport/priority.rs, `priority_for_len`.
--   Config: `TransportConfig` and `Action` of src/transport/mod.rs.
--   TxQueue: src/transport/txqueue.rs, `TxQueues` with `classify` and `pop_batch`.
--   Sender: src/transport/sender.rs, `SenderCore` with `start`, `handle_grant`, `handle_resend`,
--     `handle_busy`, `tick`, `is_done`, `finish`. `pump` is `pump_loop` inside `pump_msg`.
--   Receiver: src/transport/receiver.rs. State has `InMsg` and `ReceiverCore`, Scheduler has
--     `schedule` and `issue_grant`, Handlers has `handle_data`, `deliver` and `tick`.
--   Transport: src/transport/mod.rs. `drain`, `dispatch` and `bind` have their names. `send_to` is
--     `take_number`, `begin_send`, `dispatch` and rounds of `poll_send`; `recv` is rounds of
--     `poll_recv`; a round of the loop of `io_loop` is `io_iteration`. Each of these parts is one
--     step on an atomic or under the one lock, so that any order of them is a run. Lifecycle has the
--     loops themselves, `shutdown` and `drop`; Working says what the turns of `io_loop` do.
--   EndToEnd: the packets of a sender at a receiver. Network: many senders with all their calls, and
--     a network that loses, repeats and reorders. Exchange: one message between two ends that answer
--     every datagram, with what is in the net. Silent: a message without bytes.
--   Rpc: src/rpc/mod.rs. `encode_frame` and `decode_frame`; the thread of `RpcServer::spawn` is
--     `on_message`, its workers are `on_worker`; the dispatcher of `RpcClient::new` is `dispatch`,
--     and `call_with_timeout` is a loop of `attempts`. Lifecycle has `spawn`, `new`, `call` and the
--     loops of the threads; Together a client with a server; Calls the client
--     with calls on several threads, step by step; Tcp is `tcp_baseline`.
--   Tests: runs at concrete inputs.
--
-- How the code corresponds: a method takes the state and returns the new one, with the list of the
-- actions that it pushes. An Instant and a Duration are numbers of milliseconds, and
-- `duration_since` stops at zero. A HashMap is an association list in the order of its iteration,
-- and the theorems hold for any order. Integers of the wire have their widths written out;
-- `remaining` wraps as in a release build. Sums of usize are not cut, since lengths and parameters
-- are far below 2^63. A slice out of range and a division by a packet size of zero in `handle_data`
-- are the outcome `panics`, which ends the I/O thread and, since it poisons the lock, every later
-- call; elsewhere a packet size of zero is excluded by a hypothesis where it matters. The field
-- `data` of OutMsg is `contents`.
-- `pump_loop` has fuel for as many rounds as the limit has bytes, and `resend_loop` for as many as
-- the range's end: each round moves on by at least a byte, so both are enough. `conn_loop` has fuel
-- for as many rounds as its stream has bytes, and each round takes the four of a header.
--
-- What is not under src/ stands as a parameter: the handler of an RPC server is a function, what the
-- transport does during an attempt of a call is a given sequence of events, what a socket gives is a
-- list of inputs, and what a TCP stream gives is a list of bytes.
--
-- Not modelled: sockets and threads, the waking of waiters but for its condition (a caller that
-- waits has a list of wake-ups), `local_addr`, which asks the socket, `debug_dump` and `debug_state`,
-- which format, and how long a call of the TCP client takes.
pub mod Base
pub mod Packet
pub mod Priority
pub mod Config
pub mod TxQueue
pub mod Sender
pub mod Receiver
pub mod Transport
pub mod EndToEnd
pub mod Rpc
pub mod Tests
