-- ===== src/Rpc/Lifecycle.antt =====
-- rpc/mod.rs: the server and the client as their owners see them, the loops of their threads, and
-- their end. Whether `Transport::bind`, `local_addr` and the start of a thread succeed is a parameter.
use agent_transport.Base.{
  ℕ, ◌≡◌, refl, sym, ◌∙◌, ◌++◌, Bool, true, false, Option, none, some, List, [], ◌∷◌, map, nat_eq,
  if◌then◌else◌, Bool-cases, Option-cases, inl, inr,
}
use agent_transport.Base.Dict.{Dict}
use agent_transport.Base.Loops.{
  Step, goes_on, Standing, ended, running, Turn, while_up, while_up-stops,
}
use agent_transport.Config.{SocketAddr}
use agent_transport.Rpc.{
  Server, idle_server, on_message, on_worker, Event, comes, runs, serve, Client, dispatch, Attempt,
  CallResult, call_with_timeout, default_attempt_timeout, default_max_attempts,
}

-- One turn of the server's loop: the worker threads that run while it waits, and what
-- `Transport::recv` then gives it, which is nothing after 50 ms.
pub record ServerInput : Type 0 where
  pub workers : List ℕ
  pub message : Option (SocketAddr × List ℕ)

pub record RpcServer : Type 0 where
  pub addr : SocketAddr
  pub stopping : Bool
  pub thread : Option Server

-- `spawn`: whether the transport is bound, the address if the socket tells it, and whether the
-- thread starts, which has an empty table.
unfoldable pub spawn : Bool → Option SocketAddr → Bool → Option RpcServer
spawn false local_addr starts = none
spawn true none starts = none
spawn true (some addr) false = none
spawn true (some addr) true =
    some (record { addr = addr; stopping = false; thread = some idle_server })

module _ (handler : List ℕ → List ℕ) where
  unfoldable pub server_body : Server → ServerInput → Step Server
  server_body srv input =
      let srv' = serve handler srv (map runs input.workers) in
      goes_on (elim input.message [ none ↦ srv' | some (src, frame) ↦ on_message srv' src frame ])

  unfoldable pub server_loop : Server → List (Turn ServerInput) → Standing Server
  server_loop srv turns = while_up server_body srv turns

  -- `drop` sets the flag and joins the thread: `left` are the turns before the thread reads it.
  unfoldable pub drop_server : RpcServer → List ServerInput → RpcServer × Option (Standing Server)
  drop_server s left = (
    record s { stopping = true; thread = none },
    elim s.thread [
      | none ↦ none
      | some srv ↦ some (
          server_loop srv (
            map (λ input. record { stop = false; input = input }) left
            ++ (record { stop = true; input = record { workers = []; message = none } } ∷ [])))
    ],
  )

  -- The events of some turns, up to the one that sees the flag.
  unfoldable pub events_of : List (Turn ServerInput) → List Event
  events_of [] = []
  events_of (t ∷ turns) =
      let later = events_of turns in
      if t.stop
      then []
      else map runs t.input.workers
        ++ (elim t.input.message [ none ↦ later | some (src, frame) ↦ comes src frame ∷ later ])

  abbrev pub state_of : Standing Server → Server
  state_of (ended srv) = srv
  state_of (running srv) = srv

  serve-append :
      (srv : Server) (first second : List Event)
      → serve handler srv (first ++ second) ≡ serve handler (serve handler srv first) second
  unfolding serve
  serve-append srv [] second = refl
  serve-append srv (comes src frame ∷ first) second =
      serve-append (on_message srv src frame) first second
  serve-append srv (runs n ∷ first) second = serve-append (on_worker handler srv n) first second

  serve-comes :
      (srv : Server) (src : SocketAddr) (frame : List ℕ) (turns : List (Turn ServerInput))
      → serve handler srv (comes src frame ∷ events_of turns)
        ≡ serve handler (on_message srv src frame) (events_of turns)
  unfolding serve
  serve-comes srv src frame turns = refl

  -- The loop of the server's thread is a run of the server: up to the turn that sees the flag, the
  -- messages that come and the worker threads in their order.
  pub server_loop-serve :
      (srv : Server) (turns : List (Turn ServerInput))
      → state_of (server_loop srv turns) ≡ serve handler srv (events_of turns)
  unfolding server_loop while_up server_body events_of
  server_loop-serve srv [] = unfold serve in refl
  server_loop-serve srv (t ∷ turns) =
      let work = map runs t.input.workers in
      let srv' = serve handler srv work in
      elim (Bool-cases t.stop) [
        | inl stop ↦ rw stop (unfold serve in refl)
        | inr on ↦ elim (Option-cases t.input.message) [
          | inl quiet ↦
              rw (on, quiet, serve-append srv work (events_of turns)) (server_loop-serve srv' turns)
          | inr ((src, frame), e) ↦
              rw (on, e, serve-append srv work (comes src frame ∷ events_of turns))
                (server_loop-serve (on_message srv' src frame) turns
                  ∙ sym (serve-comes srv' src frame turns))
        ]
      ]

  -- The thread ends once it reads the flag, and what it has done by then is a run of the server.
  pub drop_server-ended :
      (s : RpcServer) (srv : Server) (left : List ServerInput)
      → s.thread ≡ some srv
      → (srv' : Server) × ((drop_server s left).1 ≡ some (ended srv'))
  unfolding drop_server server_loop
  drop_server-ended s srv left e =
      let (srv', last, same) =
        while_up-stops server_body srv (map (λ input. record { stop = false; input = input }) left)
          [] (record { stop = true; input = record { workers = []; message = none } }) refl in
      (srv', rw (e, drop_server, last) refl)

-- The client: what its threads share, the flag, and the parameters of `call`.
pub record RpcClient : Type 0 where
  pub client : Client
  pub stopping : Bool
  pub transport_stopping : Bool
  pub dispatching : Bool
  pub attempt_timeout : ℕ
  pub max_attempts : ℕ

-- `RpcClient::new`, if the transport is bound and the dispatcher's thread starts.
unfoldable pub new : Bool → Bool → Option RpcClient
new false starts = none
new true false = none
new true true = some (record {
  client = record { next_id = 1; waiters = []; sent = [] };
  stopping = false;
  transport_stopping = false;
  dispatching = true;
  attempt_timeout = default_attempt_timeout;
  max_attempts = default_max_attempts;
})

-- `call`: `env` is what each attempt hears within the client's time for one.
unfoldable pub call : (ℕ → ℕ → Attempt) → RpcClient → SocketAddr → List ℕ → RpcClient × CallResult
call env c server payload =
    let (client, result) =
      call_with_timeout (env c.attempt_timeout) c.client server payload c.max_attempts in
    (record c { client = client }, result)

-- The dispatcher: the waiters, and what it has handed to their channels.
pub record Dispatcher : Type 0 where
  pub waiters : Dict ℕ ℕ
  pub routed : List (ℕ × (ℕ × List ℕ))

unfoldable pub dispatcher_body : Dispatcher → Option (List ℕ) → Step Dispatcher
dispatcher_body d none = goes_on d
dispatcher_body d (some frame) =
    let (waiters, got) = dispatch d.waiters frame in
    goes_on (elim got [
      | none ↦ record { waiters = waiters; routed = d.routed }
      | some item ↦ record { waiters = waiters; routed = d.routed ++ (item ∷ []) }
    ])

unfoldable pub dispatcher_loop : Dispatcher → List (Turn (Option (List ℕ))) → Standing Dispatcher
dispatcher_loop d turns = while_up dispatcher_body d turns

-- `drop` sets the client's flag and the transport's, and joins the dispatcher.
unfoldable pub drop_client : RpcClient → RpcClient
drop_client c = record c { stopping = true; transport_stopping = true; dispatching = false }
