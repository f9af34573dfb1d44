-- ===== src/Transport/Lifecycle.antt =====
-- transport/mod.rs: the loops of `io_loop`, `send_to` and `recv`, and the end of a transport.
use agent_transport.Base.{
  ℕ, ◌+◌, ◌≡◌, refl, Bool, true, false, Option, none, some, List, [], ◌∷◌, ◌++◌, map, if◌then◌else◌,
}
use agent_transport.Base.Loops.{
  Step, goes_on, breaks, Standing, ended, Turn, while_up, while_up-stops, first_answer,
}
use agent_transport.Config.{SocketAddr}
use agent_transport.TxQueue.{Outgoing}
use agent_transport.Transport.{
  State, Inner, IoLoop, Received, Iteration, continues, thread_dies, tick_if_due, io_iteration,
  SendPoll, sent, timed_out, waits, poll_send, RecvPoll, received, would_block, idles, poll_recv,
}

-- What `recv_from` gives an iteration: a datagram or a timeout, with the times that the iteration
-- reads; or another error, with the flag as it is read then.
pub data Input : Type 0 where
  hears : Received → ℕ → ℕ → Input
  fails : Bool → ℕ → Input

-- The I/O thread: its loop's state, all that it has handed to the socket, how often it has woken the
-- waiters, and if it died of a panic.
pub record IoThread : Type 0 where
  pub loop : IoLoop
  pub datagrams : List Outgoing
  pub wake_ups : ℕ
  pub dead : Bool

unfoldable pub after_iteration : IoThread → Iteration → Step IoThread
after_iteration t thread_dies = breaks (record t { dead = true })
after_iteration t (continues l datagrams notified) = goes_on (record t {
  loop = l;
  datagrams = t.datagrams ++ datagrams;
  wake_ups = t.wake_ups + (if notified then 1 else 0);
})

-- The body of the loop of `io_loop`.
unfoldable pub io_body : IoThread → Input → Step IoThread
io_body t (hears input now later) = after_iteration t (io_iteration t.loop input now later)
io_body t (fails stopping later) =
    if stopping then breaks t else after_iteration t (tick_if_due t.loop [] false later)

unfoldable pub io_loop : IoThread → List (Turn Input) → Standing IoThread
io_loop t turns = while_up io_body t turns

-- A transport as its owner sees it: the flag, and the thread that is not joined yet.
pub record Transport : Type 0 where
  pub stopping : Bool
  pub io_thread : Option IoThread

unfoldable pub shutdown : Transport → Transport
shutdown t = record t { stopping = true }

-- The turns of the thread from now on: some that read the flag before it is set, and one after.
abbrev pub last_turns : List Input → List (Turn Input)
last_turns left =
    map (λ input. record { stop = false; input = input }) left
    ++ (record { stop = true; input = fails true 0 } ∷ [])

-- `drop` sets the flag and joins the thread, once: where it then stands.
unfoldable pub drop : Transport → List Input → Transport × Option (Standing IoThread)
drop t left = (
  record { stopping = true; io_thread = none },
  elim t.io_thread [ none ↦ none | some io ↦ some (io_loop io (last_turns left)) ],
)

-- One wake-up of a waiting caller: what it finds under the lock, and the time.
pub record Wakeup : Type 0 where
  pub inner : Inner
  pub now : ℕ

pub data SendResult : Type 0 where
  sent_ok : ℕ → SendResult
  timed_out_error : SendResult

-- What a round leaves under the lock counts too. A round that waits leaves it as it was, and other
-- threads change it before the next wake-up.
unfoldable pub send_answer : Inner × SendPoll → Option (SendResult × Inner)
send_answer (inner, sent msg_id) = some (sent_ok msg_id, inner)
send_answer (inner, timed_out) = some (timed_out_error, inner)
send_answer (inner, waits) = none

-- The loop of `send_to` over the wake-ups of its caller: what it returns, and what it leaves.
unfoldable pub send_wait : SocketAddr → ℕ → ℕ → List Wakeup → Option (SendResult × Inner)
send_wait dest msg_id deadline =
    first_answer (λ w. send_answer (poll_send w.inner dest msg_id deadline w.now))

pub data RecvResult : Type 0 where
  received_ok : SocketAddr → List ℕ → RecvResult
  would_block_error : RecvResult

unfoldable pub recv_answer : State × RecvPoll → Option (RecvResult × State)
recv_answer (st, received src bytes) = some (received_ok src bytes, st)
recv_answer (st, would_block) = some (would_block_error, st)
recv_answer (st, idles) = none

-- The loop of `recv`: what it returns, and what it leaves.
unfoldable pub recv_wait : ℕ → List Wakeup → Option (RecvResult × State)
recv_wait deadline = first_answer (λ w. recv_answer (poll_recv w.inner.state deadline w.now))

-- `drop` ends the thread, whatever comes before it reads the flag, and there is nothing to join by a
-- second one.
pub drop_ends :
    (t : Transport) (io : IoThread) (left more : List Input)
    → t.io_thread ≡ some io
    → (io' : IoThread) × ((drop t left).1 ≡ some (ended io'))
      × ((drop (drop t left).0 more).1 ≡ none)
unfolding drop io_loop
drop_ends t io left more e =
    let (io', last, same) =
      while_up-stops io_body io (map (λ input. record { stop = false; input = input }) left) []
        (record { stop = true; input = fails true 0 }) refl in
    (io', rw (e, drop, last) refl, refl)
