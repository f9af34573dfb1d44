-- ===== src/Rpc/Calls/Answered/Runs.antt =====
-- What holds of the calls after every run.
use agent_transport.Base.{
  ℕ, ◌+◌, ◌%◌, ◌^◌, ◌≤◌, ◌≡◌, refl, max, some, List, [], ◌∷◌, length-append, get_elem?, All-append,
  All-get, arith, nat_eq,
}
use agent_transport.Base.Dict.{get}
use agent_transport.Config.{SocketAddr}
use agent_transport.Rpc.{encode_frame}
use agent_transport.Rpc.Calls.{
  Stage, inserts, removes, sends, listens, ends, Call, Threads, quiet, begin_call, Move, begins,
  runs, routes, hands, move, run_calls,
}
use agent_transport.Rpc.Calls.Answered.{Told, Stands, Right, Sound, Numbered-append, Numbered-get}
use agent_transport.Rpc.Calls.Answered.Moves.{on_call-Sound}
use agent_transport.Rpc.Calls.Answered.Routing.{route-Sound, hand_over-Sound}

begin_call-Sound :
    (t : Threads) (server : SocketAddr) (payload : List ℕ) (max_attempts : ℕ)
    → Sound t
    → Sound (begin_call t server payload max_attempts)
unfolding begin_call
begin_call-Sound t server payload max_attempts s =
    let call : Call = record {
      server = server;
      rpc_id = t.client.next_id;
      frame = encode_frame t.client.next_id payload;
      attempt = 0;
      limit = max max_attempts 1;
      stage = inserts;
    } in
    record {
      right = All-append (Right t) t.calls (call ∷ []) s.right ((omega arith, tt), tt);
      routed = s.routed;
      held_old = s.held_old;
      waiter_old = s.waiter_old;
      numbered = Numbered-append 1 t.calls call s.numbered s.next;
      next = omega (arith, s.next, length-append t.calls (call ∷ []));
    }

move-Sound : (t : Threads) (m : Move) → Sound t → Sound (move t m)
move-Sound t (begins server payload max_attempts) s =
    begin_call-Sound t server payload max_attempts s
move-Sound t (runs n good) s = on_call-Sound t n good s
move-Sound t (routes frame) s = route-Sound t frame s
move-Sound t hands s = hand_over-Sound t s

run_calls-Sound : (t : Threads) (moves : List Move) → Sound t → Sound (run_calls t moves)
unfolding run_calls
run_calls-Sound t [] s = s
run_calls-Sound t (m ∷ moves) s = run_calls-Sound (move t m) moves (move-Sound t m s)

quiet-Sound : Sound quiet
unfolding get
quiet-Sound = record {
  right = tt;
  routed = λ id to body h. cc h;
  held_old = λ id to body h. cc h;
  waiter_old = λ id to h. cc h;
  numbered = tt;
  next = refl;
}

Stands-Told :
    (t : Threads) (call : Call) (stage : Stage) → Stands t call stage → Told t.heard call stage
Stands-Told t call inserts h = tt
Stands-Told t call removes h = tt
Stands-Told t call (sends channel inbox) h = tt
Stands-Told t call (listens channel inbox) h = tt
Stands-Told t call (ends result) h = h

-- Any number of threads call the same client, in any order and with their parts and the
-- dispatcher's in any order. The call that starts as number i has the request number i + 1 (modulo
-- 2^64). A call that returns a body returns the body of a response to its own request number,
-- which the dispatcher has got, and one that times out has made all its attempts; no call makes
-- more attempts than its limit.
pub run_calls-answered :
    (moves : List Move) (i : ℕ) (call : Call)
    → get_elem? (run_calls quiet moves).calls i ≡ some call
    → (call.rpc_id ≡ (1 + i) % 2 ^ 64)
      × (call.attempt ≤ call.limit)
      × Told (run_calls quiet moves).heard call call.stage
run_calls-answered moves i call e =
    let s = run_calls-Sound quiet moves quiet-Sound in
    let (few, now) = All-get (Right (run_calls quiet moves)) _ i call s.right e in
    (
      Numbered-get 1 (run_calls quiet moves).calls i call s.numbered e,
      few,
      Stands-Told (run_calls quiet moves) call call.stage now,
    )
