-- ===== src/Tests/Concurrent.antt =====
-- Two threads that call the same client at the same time.
use agent_transport.Base.{
  ◌≡◌, ◌≤◌, ◌+◌, ◌%◌, ◌^◌, refl, true, some, List, [], ◌∷◌, get_elem?, nat_eq,
}
use agent_transport.Base.Picks.{Any}
use agent_transport.Base.Dict.{get, insert, remove}
use agent_transport.Base.Bytes.{le_bytes, from_le_bytes}
use agent_transport.Config.{SocketAddr}
use agent_transport.Rpc.{encode_frame, decode_frame, dispatch, returned}
use agent_transport.Rpc.Calls.{
  ends, Call, quiet, begin_call, proceed, on_call, route, hand_over, Move, begins, runs, routes,
  hands, run_calls,
}
use agent_transport.Rpc.Calls.Answered.{Told}
use agent_transport.Rpc.Calls.Answered.Runs.{run_calls-answered}
use agent_transport.Rpc.Calls.Kept.{KeptBy}
use agent_transport.Rpc.Calls.Kept.Runs.{run_calls-KeptBy}

abbrev host : SocketAddr
host = record { ip = 0x7f00_0001; port = 9000 }

-- Both send; the answer to the second comes, and is for the second.
abbrev moves : List Move
moves =
    begins host (5 ∷ []) 3
    ∷ begins host (6 ∷ []) 3
    ∷ runs 0 true
    ∷ runs 1 true
    ∷ runs 1 true
    ∷ runs 0 true
    ∷ routes (encode_frame 2 (9 ∷ []))
    ∷ hands
    ∷ runs 0 true
    ∷ runs 1 true
    ∷ []

abbrev second : Call
second = record {
  server = host;
  rpc_id = 2;
  frame = encode_frame 2 (6 ∷ []);
  attempt = 1;
  limit = 3;
  stage = ends (returned (9 ∷ []));
}

second_there : get_elem? (run_calls quiet moves).calls 1 ≡ some second
unfolding run_calls begin_call on_call proceed route hand_over dispatch encode_frame decode_frame
    get insert remove le_bytes from_le_bytes
second_there = refl

run_calls-answered_example :
    (2 ≡ (1 + 1) % 2 ^ 64) × (1 ≤ 3) × Told (run_calls quiet moves).heard second second.stage
run_calls-answered_example = run_calls-answered moves 1 second second_there

first_waits : get (run_calls quiet moves).client.waiters 1 ≡ some 0
unfolding run_calls begin_call on_call proceed route hand_over dispatch encode_frame decode_frame
    get insert remove le_bytes from_le_bytes
first_waits = refl

run_calls-KeptBy_example : Any (KeptBy 1 0) (run_calls quiet moves).calls
run_calls-KeptBy_example = run_calls-KeptBy moves 1 0 first_waits
