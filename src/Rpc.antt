-- ===== src/Rpc.antt =====
-- rpc/mod.rs: frames, the server's table of requests, and the client's waiters and attempts. The
-- messages that the code hands to `Transport::send_to` are lists that the steps extend.
pub mod Frames
pub mod Table
pub mod Once
pub mod Attempts
pub mod Waiters
pub mod Together
pub mod Calls
pub mod Lifecycle
pub mod Tcp
pub mod Echo
use agent_transport.Base.{
  ℕ, zero, suc, ◌==◌, nat_eq, ◌&&◌, ◌+◌, ◌%◌, ◌^◌, max, Bool, true, false, Option, none, some, List,
  [], ◌∷◌, ◌++◌, length, take, drop, get_elem?, set, ltb, if◌then◌else◌,
}
use agent_transport.Base.Bytes.{le_bytes, from_le_bytes}
use agent_transport.Base.Dict.{Dict, get, insert, remove}
use agent_transport.Config.{SocketAddr, MsgKey, msg_key, msg_key_eq}

abbrev pub rpc_hdr : ℕ
rpc_hdr = 8

abbrev pub default_attempt_timeout : ℕ
default_attempt_timeout = 500

abbrev pub default_max_attempts : ℕ
default_max_attempts = 5

unfoldable pub encode_frame : ℕ → List ℕ → List ℕ
encode_frame rpc_id body = le_bytes 8 rpc_id ++ body

unfoldable pub decode_frame : List ℕ → Option (ℕ × List ℕ)
decode_frame frame =
    if ltb (length frame) rpc_hdr
    then none
    else some (from_le_bytes (take 8 frame), drop rpc_hdr frame)

-- Where a request's worker thread stands: before its call of the handler, after its `send_to` of
-- the response, or at its end.
pub data Phase : Type 0 where
  waits : Phase
  answered : List ℕ → Phase
  recorded : List ℕ → Phase

pub record Work : Type 0 where
  pub body : List ℕ
  pub phase : Phase

-- The server: the table `dedup`, the worker threads in the order of their start, and in the order
-- of time the calls of the handler (who asks, what for) and the responses sent.
pub record Server : Type 0 where
  pub dedup : Dict MsgKey (Option (List ℕ))
  pub workers : List (MsgKey × Work)
  pub calls : List (MsgKey × List ℕ)
  pub replies : List (MsgKey × List ℕ)

abbrev pub idle_server : Server
idle_server = record { dedup = []; workers = []; calls = []; replies = [] }

-- The receive loop on a request that it has decoded.
unfoldable pub on_request : Server → MsgKey → List ℕ → Server
on_request srv key body = elim (get srv.dedup key) [
  | some (some cached) ↦ record srv { replies = srv.replies ++ ((key, cached) ∷ []) }
  | some none ↦ srv
  | none ↦ record srv {
    dedup = insert srv.dedup key none;
    workers = srv.workers ++ ((key, record { body = body; phase = waits }) ∷ []);
  }
]

unfoldable pub on_message : Server → SocketAddr → List ℕ → Server
on_message srv src frame = elim (decode_frame frame) [
  | none ↦ srv
  | some (rpc_id, body) ↦ on_request srv (msg_key src rpc_id) body
]

-- What happens next on the server: a message comes, or a worker thread runs on.
pub data Event : Type 0 where
  comes : SocketAddr → List ℕ → Event
  runs : ℕ → Event

-- `handler` is the closure that the server's user passes to `spawn`.
module _ (handler : List ℕ → List ℕ) where
  abbrev pub response : MsgKey → List ℕ → List ℕ
  response key body = encode_frame key.id (handler body)

  -- The next part of worker n, by where it stands: it calls the handler and sends the response,
  -- and then it records the response in the table.
  unfoldable pub proceed : Server → ℕ → MsgKey → List ℕ → Phase → Server
  proceed srv n key body waits = record srv {
    workers = set srv.workers n (key, record { body = body; phase = answered (response key body) });
    calls = srv.calls ++ ((key, body) ∷ []);
    replies = srv.replies ++ ((key, response key body) ∷ []);
  }
  proceed srv n key body (answered resp) = record srv {
    dedup = insert srv.dedup key (some resp);
    workers = set srv.workers n (key, record { body = body; phase = recorded resp });
  }
  proceed srv n key body (recorded resp) = srv

  unfoldable pub on_worker : Server → ℕ → Server
  on_worker srv n = elim (get_elem? srv.workers n) [
    | none ↦ srv
    | some (key, work) ↦ proceed srv n key work.body work.phase
  ]

  unfoldable pub serve : Server → List Event → Server
  serve srv [] = srv
  serve srv (comes src frame ∷ events) = serve (on_message srv src frame) events
  serve srv (runs n ∷ events) = serve (on_worker srv n) events

-- The client: `waiters` holds for each request number the channel of its attempt. A channel is
-- named by the request number and the attempt's; `sent` is what it has handed to `send_to`.
pub record Client : Type 0 where
  pub next_id : ℕ
  pub waiters : Dict ℕ ℕ
  pub sent : List (SocketAddr × List ℕ)

-- The dispatcher's loop on a message: the channel that it is for, and the body.
unfoldable pub dispatch : Dict ℕ ℕ → List ℕ → Dict ℕ ℕ × Option (ℕ × (ℕ × List ℕ))
dispatch waiters frame = elim (decode_frame frame) [
  | none ↦ (waiters, none)
  | some (rpc_id, body) ↦ elim (get waiters rpc_id) [
    | none ↦ (waiters, none)
    | some channel ↦ (remove waiters rpc_id, some (rpc_id, (channel, body)))
  ]
]

-- `rx.recv_timeout` of an attempt, with the messages that come before its time is over.
unfoldable pub await : Dict ℕ ℕ → ℕ → ℕ → List (List ℕ) → Dict ℕ ℕ × Option (List ℕ)
await waiters rpc_id channel [] = (waiters, none)
await waiters rpc_id channel (frame ∷ frames) =
    let (waiters', got) = dispatch waiters frame in
    let later = await waiters' rpc_id channel frames in
    elim got [
      | none ↦ later
      | some (id, (to, body)) ↦
          if id == rpc_id && to == channel then (waiters', some body) else later
    ]

-- The dispatcher on the messages that come while `send_to` blocks, if it then fails.
unfoldable pub dispatch_all : Dict ℕ ℕ → List (List ℕ) → Dict ℕ ℕ
dispatch_all waiters [] = waiters
dispatch_all waiters (frame ∷ frames) = dispatch_all (dispatch waiters frame).0 frames

-- What the transport does during an attempt: `send_to` fails, or it does not; and the messages that
-- come meanwhile, or before the attempt's time is over.
pub data Attempt : Type 0 where
  send_fails hears : List (List ℕ) → Attempt

pub data CallResult : Type 0 where
  returned : List ℕ → CallResult
  send_error timed_out : CallResult

-- The loop of `call_with_timeout`, from attempt k on.
unfoldable pub attempts :
    (ℕ → Attempt) → SocketAddr → ℕ → List ℕ → ℕ → ℕ → Client → Client × CallResult
attempts env server rpc_id frame zero k c = (c, timed_out)
attempts env server rpc_id frame (suc n) k c =
    let waiting = insert c.waiters rpc_id k in
    elim (env k) [
      | send_fails frames ↦ (record c { waiters = dispatch_all waiting frames }, send_error)
      | hears frames ↦
          let (waiters, got) = await waiting rpc_id k frames in
          let sent = c.sent ++ ((server, frame) ∷ []) in
          let later =
            attempts env server rpc_id frame n (suc k)
              (record c { waiters = remove waiters rpc_id; sent = sent }) in
          elim got [
            | some body ↦ (record c { waiters = waiters; sent = sent }, returned body)
            | none ↦ later
          ]
    ]

unfoldable pub call_with_timeout :
    (ℕ → Attempt) → Client → SocketAddr → List ℕ → ℕ → Client × CallResult
call_with_timeout env c server payload max_attempts =
    let rpc_id = c.next_id in
    attempts env server rpc_id (encode_frame rpc_id payload) (max max_attempts 1) 0
      (record c { next_id = (rpc_id + 1) % 2 ^ 64 })
