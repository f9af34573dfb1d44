-- ===== src/Rpc/Calls/Kept/Runs.antt =====
-- What every run leaves in the map of waiters.
use agent_transport.Base.{
  ℕ, ◌≡◌, sym, ap, ◌∙◌, some, List, [], ◌∷◌, nat_eq, ◌==◌, ==_iff, Bool-cases, Option-cases, inl,
  inr,
}
use agent_transport.Base.Picks.{Any, Any-map, Any-append_left}
use agent_transport.Base.Dict.{get}
use agent_transport.Config.{SocketAddr}
use agent_transport.Rpc.{dispatch, returned, send_error, timed_out}
use agent_transport.Rpc.Calls.{
  Stage, inserts, removes, sends, listens, ends, Threads, quiet, begin_call, route, receive_stage,
  receive, hand_over, Move, begins, runs, routes, hands, move, run_calls,
}
use agent_transport.Rpc.Calls.Answered.Routing.{dispatch-old, dispatch-from, routed_to}
use agent_transport.Rpc.Waiters.{dispatch-gone}
use agent_transport.Rpc.Calls.Kept.{Keeps, KeptBy, Kept, on_call-Kept}

-- The dispatcher takes a waiter out.
routed_to-Kept : (t : Threads) (frame : List ℕ) → Kept t → Kept (routed_to t frame)
routed_to-Kept t frame s = record {
  owned = λ id channel h. s.owned id channel (dispatch-old t.client.waiters frame id channel h);
  single = λ a b channel h g.
      s.single a b channel (dispatch-old t.client.waiters frame a channel h)
        (dispatch-old t.client.waiters frame b channel g);
  gone = λ id k channel body h g.
      let same =
        s.single id k channel (dispatch-from t.client.waiters frame id channel body h)
          (dispatch-old t.client.waiters frame k channel g) in
      cc (
        sym (dispatch-gone t.client.waiters frame id channel body h)
        ∙ (ap (get (dispatch t.client.waiters frame).0) same ∙ g));
  waiter_old =
      λ id channel h. s.waiter_old id channel (dispatch-old t.client.waiters frame id channel h);
  held_old = λ id channel body h.
      s.waiter_old id channel (dispatch-from t.client.waiters frame id channel body h);
}

route-Kept : (t : Threads) (frame : List ℕ) → Kept t → Kept (route t frame)
unfolding route
route-Kept t frame s = elim (Option-cases t.held) [
  | inl free ↦ rw (free, route) (routed_to-Kept t frame s)
  | inr (item, e) ↦ rw (e, route) s
]

receive-Keeps :
    (channel to : ℕ) (body : List ℕ) (stage : Stage)
    → ¬ (to ≡ channel)
    → Keeps channel stage
    → Keeps channel (receive_stage to body stage)
receive-Keeps channel to body inserts other k = k
receive-Keeps channel to body removes other k = tt
receive-Keeps channel to body (sends c inbox) other k = elim (Bool-cases (c == to)) [
  | inl same ↦ absurd (other (sym ((==_iff c to).0 same) ∙ k.0))
  | inr apart ↦ rw apart k
]
receive-Keeps channel to body (listens c inbox) other k = elim (Bool-cases (c == to)) [
  | inl same ↦ absurd (other (sym ((==_iff c to).0 same) ∙ k.0))
  | inr apart ↦ rw apart k
]
receive-Keeps channel to body (ends (returned b)) other k = k
receive-Keeps channel to body (ends timed_out) other k = k
receive-Keeps channel to body (ends send_error) other k = tt

hand_over-Kept : (t : Threads) → Kept t → Kept (hand_over t)
unfolding hand_over
hand_over-Kept t s = elim (Option-cases t.held) [
  | inl free ↦ rw (free, hand_over) s
  | inr ((id, (to, body)), e) ↦
      rw (e, hand_over)
        (record {
          owned = λ k channel h.
              Any-map (KeptBy k channel) (λ call. receive to body call) t.calls
                (λ call x. (
                  x.0,
                  receive-Keeps channel to body call.stage
                      (λ same. s.gone id k to body e (h ∙ ap some (sym same))) x.1,
                ))
                (s.owned k channel h);
          single = s.single;
          gone = λ k j channel b h g. cc h;
          waiter_old = s.waiter_old;
          held_old = λ k channel b h. cc h;
        })
]

begin_call-Kept :
    (t : Threads) (server : SocketAddr) (payload : List ℕ) (max_attempts : ℕ)
    → Kept t
    → Kept (begin_call t server payload max_attempts)
unfolding begin_call
begin_call-Kept t server payload max_attempts s = record {
  owned = λ id channel h. Any-append_left (KeptBy id channel) t.calls _ (s.owned id channel h);
  single = s.single;
  gone = s.gone;
  waiter_old = s.waiter_old;
  held_old = s.held_old;
}

move-Kept : (t : Threads) (m : Move) → Kept t → Kept (move t m)
move-Kept t (begins server payload max_attempts) s = begin_call-Kept t server payload max_attempts s
move-Kept t (runs n good) s = on_call-Kept t n good s
move-Kept t (routes frame) s = route-Kept t frame s
move-Kept t hands s = hand_over-Kept t s

run_calls-Kept : (t : Threads) (moves : List Move) → Kept t → Kept (run_calls t moves)
unfolding run_calls
run_calls-Kept t [] s = s
run_calls-Kept t (m ∷ moves) s = run_calls-Kept (move t m) moves (move-Kept t m s)

quiet-Kept : Kept quiet
unfolding get
quiet-Kept = record {
  owned = λ id channel h. cc h;
  single = λ a b channel h g. cc h;
  gone = λ id k channel body h g. cc h;
  waiter_old = λ id channel h. cc h;
  held_old = λ id channel body h. cc h;
}

-- However the threads of the client run, a request number that has a waiter in the map is that of
-- a call that is under way and has got nothing, or of one that failed to send. So the calls that
-- return a body or time out leave no waiter behind.
pub run_calls-KeptBy :
    (moves : List Move) (id channel : ℕ)
    → get (run_calls quiet moves).client.waiters id ≡ some channel
    → Any (KeptBy id channel) (run_calls quiet moves).calls
run_calls-KeptBy moves id channel = (run_calls-Kept quiet moves quiet-Kept).owned id channel
