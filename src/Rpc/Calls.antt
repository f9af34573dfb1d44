-- ===== src/Rpc/Calls.antt =====
-- `RpcClient` of src/rpc/mod.rs with calls that run at the same time, each on the thread of its
-- caller, and the thread of the dispatcher. A step is what a thread does under one hold of the lock
-- of the map of waiters, or between two.
pub mod Answered
pub mod Kept
use agent_transport.Base.{
  ℕ, suc, ◌+◌, ◌%◌, ◌^◌, max, nat_eq, ◌==◌, Bool, true, false, Option, none, some, List, [], ◌∷◌,
  ◌++◌, map, get_elem?, set, ltb, if◌then◌else◌,
}
use agent_transport.Base.Dict.{insert, remove}
use agent_transport.Config.{SocketAddr}
use agent_transport.Rpc.{
  Client, encode_frame, dispatch, CallResult, returned, send_error, timed_out,
}

-- Where a call stands in the loop of `call_with_timeout`: at its head, before it sends, while it
-- waits, after its time for the attempt, and at its end. From the first of them on there is a
-- channel, by its number, and the body that is in it.
pub data Stage : Type 0 where
  inserts removes : Stage
  sends listens : ℕ → Option (List ℕ) → Stage
  ends : CallResult → Stage

pub record Call : Type 0 where
  pub server : SocketAddr
  pub rpc_id : ℕ
  pub frame : List ℕ
  pub attempt : ℕ
  pub limit : ℕ
  pub stage : Stage

-- The calls in the order of their start; `held` is what the dispatcher has taken a waiter out for
-- and has not sent to its channel yet, and `heard` are the messages that it has got.
pub record Threads : Type 0 where
  pub client : Client
  pub next_channel : ℕ
  pub calls : List Call
  pub held : Option (ℕ × (ℕ × List ℕ))
  pub heard : List (List ℕ)

abbrev pub quiet : Threads
quiet = record {
  client = record { next_id = 1; waiters = []; sent = [] };
  next_channel = 0;
  calls = [];
  held = none;
  heard = [];
}

-- A call starts.
unfoldable pub begin_call : Threads → SocketAddr → List ℕ → ℕ → Threads
begin_call t server payload max_attempts =
    let rpc_id = t.client.next_id in
    record t {
      client = record t.client { next_id = (rpc_id + 1) % 2 ^ 64 };
      calls =
          t.calls
          ++ (record {
            server = server;
            rpc_id = rpc_id;
            frame = encode_frame rpc_id payload;
            attempt = 0;
            limit = max max_attempts 1;
            stage = inserts;
          }
              ∷ []);
    }

abbrev pub stand : Threads → ℕ → Call → Stage → Threads
stand t n call stage = record t { calls = set t.calls n (record call { stage = stage }) }

-- The next part of call n. `good` says that its `send_to` succeeds, or that it has time left.
unfoldable pub proceed : Threads → ℕ → Call → Bool → Stage → Threads
proceed t n call good inserts =
    if ltb call.attempt call.limit
    then record t {
      client = record t.client { waiters = insert t.client.waiters call.rpc_id t.next_channel };
      next_channel = suc t.next_channel;
      calls =
          set t.calls n
            (record call { attempt = suc call.attempt; stage = sends t.next_channel none });
    }
    else stand t n call (ends timed_out)
proceed t n call good (sends channel inbox) =
    if good
    then stand
        (record t {
          client = record t.client { sent = t.client.sent ++ ((call.server, call.frame) ∷ []) };
        })
        n call (listens channel inbox)
    else stand t n call (ends send_error)
proceed t n call good (listens channel (some body)) = stand t n call (ends (returned body))
proceed t n call good (listens channel none) = if good then t else stand t n call removes
proceed t n call good removes =
    stand (record t { client = record t.client { waiters = remove t.client.waiters call.rpc_id } })
      n call inserts
proceed t n call good (ends result) = t

unfoldable pub on_call : Threads → ℕ → Bool → Threads
on_call t n good = elim (get_elem? t.calls n) [
  | none ↦ t
  | some call ↦ proceed t n call good call.stage
]

-- The dispatcher on a message, up to where it lets go of the map.
unfoldable pub route : Threads → List ℕ → Threads
route t frame = elim t.held [
  | some item ↦ t
  | none ↦
      let (waiters, got) = dispatch t.client.waiters frame in
      record t {
        client = record t.client { waiters = waiters };
        held = got;
        heard = t.heard ++ (frame ∷ []);
      }
]

-- tx.send(body): a channel keeps what came first, and a caller that has gone gets nothing.
abbrev pub fill : List ℕ → Option (List ℕ) → Option (List ℕ)
fill body none = some body
fill body (some first) = some first

abbrev pub receive_stage : ℕ → List ℕ → Stage → Stage
receive_stage to body inserts = inserts
receive_stage to body removes = removes
receive_stage to body (sends channel inbox) =
    sends channel (if channel == to then fill body inbox else inbox)
receive_stage to body (listens channel inbox) =
    listens channel (if channel == to then fill body inbox else inbox)
receive_stage to body (ends result) = ends result

abbrev pub receive : ℕ → List ℕ → Call → Call
receive to body call = record call { stage = receive_stage to body call.stage }

-- The dispatcher sends to the channel.
unfoldable pub hand_over : Threads → Threads
hand_over t = elim t.held [
  | none ↦ t
  | some (id, (to, body)) ↦ record t {
    held = none;
    calls = map (λ call. receive to body call) t.calls;
  }
]

-- What a thread does next.
pub data Move : Type 0 where
  begins : SocketAddr → List ℕ → ℕ → Move
  runs : ℕ → Bool → Move
  routes : List ℕ → Move
  hands : Move

abbrev pub move : Threads → Move → Threads
move t (begins server payload max_attempts) = begin_call t server payload max_attempts
move t (runs n good) = on_call t n good
move t (routes frame) = route t frame
move t hands = hand_over t

unfoldable pub run_calls : Threads → List Move → Threads
run_calls t [] = t
run_calls t (m ∷ moves) = run_calls (move t m) moves
