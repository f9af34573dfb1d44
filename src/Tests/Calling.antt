-- ===== src/Tests/Calling.antt =====
-- Tests of rpc/mod.rs.
use agent_transport.Base.{nat_eq, ℕ, zero, suc, ◌≡◌, refl, some, List, [], ◌∷◌, ◌++◌, All, arith}
use agent_transport.Base.Bytes.{from_le_bytes, le_bytes}
use agent_transport.Base.Dict.{IsDistinct}
use agent_transport.Config.{SocketAddr, msg_key_eq}
use mathlib.Core.List.{Memᴰ}
use agent_transport.Rpc.{
  on_message, on_request, on_worker, proceed, await, dispatch, returned, Event, idle_server, comes,
  runs, serve, encode_frame, decode_frame, Client, Attempt, hears, call_with_timeout, attempts,
}
use agent_transport.Rpc.Once.{IsReply, serve-IsReply}
use agent_transport.Rpc.{send_fails}
use agent_transport.Base.Dict.{get, insert, remove}
use agent_transport.Rpc.Waiters.{Leaves, call_with_timeout-Leaves}
use agent_transport.Rpc.Together.{IsAsked, HearsReplies, call_with_timeout-answer}

abbrev peer : SocketAddr
peer = record { ip = 0x7f00_0001; port = 9000 }

abbrev frame_seven : List ℕ
frame_seven = 7 ∷ 0 ∷ 0 ∷ 0 ∷ 0 ∷ 0 ∷ 0 ∷ 0 ∷ 42 ∷ []

frame_seven-decodes : decode_frame frame_seven ≡ some (7, 42 ∷ [])
unfolding decode_frame from_le_bytes
frame_seven-decodes = refl

-- A handler that says the request twice, and a request that comes again before and after the
-- response.
abbrev twice : List ℕ → List ℕ
twice body = body ++ body

abbrev repeated : List Event
repeated =
    comes peer frame_seven ∷ comes peer frame_seven ∷ runs 0 ∷ runs 0 ∷ comes peer frame_seven ∷ []

serve-IsReply_example :
    let srv = serve twice idle_server repeated in
    IsDistinct srv.calls × All (IsReply twice srv.calls) srv.replies
serve-IsReply_example = serve-IsReply twice repeated

-- The first attempt hears another request's response, the second its own.
abbrev late_answer : ℕ → Attempt
late_answer zero = hears ((8 ∷ 0 ∷ 0 ∷ 0 ∷ 0 ∷ 0 ∷ 0 ∷ 0 ∷ []) ∷ [])
late_answer (suc k) = hears (frame_seven ∷ [])

abbrev client : Client
client = record { next_id = 7; waiters = []; sent = [] }

abbrev broken : ℕ → Attempt
broken zero = hears []
broken (suc k) = send_fails (frame_seven ∷ [])

call_with_timeout-Leaves_example :
    let r = call_with_timeout broken client peer (1 ∷ []) 5 in
    Leaves broken 7 r.1 (get r.0.waiters 7)
call_with_timeout-Leaves_example = call_with_timeout-Leaves broken client peer (1 ∷ []) 5

abbrev answer : List ℕ
answer = 7 ∷ 0 ∷ 0 ∷ 0 ∷ 0 ∷ 0 ∷ 0 ∷ 0 ∷ 42 ∷ 42 ∷ []

-- The first attempt hears nothing, the second the answer.
abbrev second_try : ℕ → Attempt
second_try zero = hears []
second_try (suc k) = hears (answer ∷ [])

repeated-IsAsked : All (IsAsked (λ key. 42 ∷ [])) repeated
unfolding decode_frame from_le_bytes
repeated-IsAsked =
    let here : IsAsked (λ key. 42 ∷ []) (comes peer frame_seven) = (refl, omega arith) in
    (here, (here, (tt, (tt, (here, tt)))))

second_try-Hears :
    (i : ℕ) → HearsReplies peer (serve twice idle_server repeated).replies (second_try i)
unfolding serve on_message on_request on_worker proceed decode_frame from_le_bytes encode_frame
    le_bytes get insert
second_try-Hears zero = tt
second_try-Hears (suc i) = ((7, Memᴰ.head refl), tt)

second_try-returns :
    (call_with_timeout second_try client peer (42 ∷ []) 5).1 ≡ returned (42 ∷ 42 ∷ [])
unfolding call_with_timeout attempts await dispatch decode_frame from_le_bytes get insert remove
second_try-returns = refl

call_with_timeout-answer_example : (42 ∷ 42 ∷ []) ≡ twice (42 ∷ [])
call_with_timeout-answer_example =
    call_with_timeout-answer twice (λ key. 42 ∷ []) second_try client peer peer (42 ∷ []) 5 repeated
      (42 ∷ 42 ∷ []) repeated-IsAsked second_try-Hears refl second_try-returns
