-- ===== src/Tests/Running.antt =====
-- Tests of runs: of the receiver, of the sender, and of both with a network between them.
use agent_transport.Base.{ℕ, ◌≡◌, refl, true, false, inl, List, [], ◌∷◌, arith, All}
use mathlib.Core.List.{Memᴰ}
use agent_transport.Base.Dict.{get, insert, remove}
use agent_transport.Packet.{Packet, «data», grant, resend}
use agent_transport.Config.{
  SocketAddr, msg_key, msg_key_eq, TransportConfig, default, Action, deliver, for_each,
}
use agent_transport.Sender.{
  new as new_sender, start, pump, pump_msg, pump_loop, handle_grant, write, data_packet,
}
use agent_transport.Sender.Invariant.{Call, starts, grants, resends, ticks}
use agent_transport.Sender.Genuine.{Genuine}
use agent_transport.Sender.Acts.{act, pushed_by, AllFair}
use agent_transport.Sender.Faithful.{sender_faithful}
use agent_transport.Receiver.State.{
  InMsg, ReceiverCore, new as new_receiver, contains, without, fresh_msg, accepts, store, copy_into,
}
use agent_transport.Receiver.Scheduler.{
  schedule, select, add_starving, shortest, candidates, sort_by_remaining, wants_grant,
}
use agent_transport.Receiver.Handlers.{
  returns, handle_data, receive, settle, deliver_msg, remember, then_schedule,
}
use agent_transport.Receiver.Invariant.{Event, arrives, ticks as receiver_ticks}
use agent_transport.Receiver.Reassembly.{chunk}
use agent_transport.Receiver.Chunks.{IsChunk}
use agent_transport.Receiver.Steps.{play, delivered_keys}
use agent_transport.Receiver.Once.{AllDifferent, play_once}
use agent_transport.Receiver.Truthful.{IsTrue, IsHonest}
use agent_transport.Receiver.HonestRuns.{play_honest}
use agent_transport.Receiver.Bounds.{IsBounded, play-IsBounded}
use agent_transport.EndToEnd.{Decodes, data_packet-Decodes}
use agent_transport.EndToEnd.Silent.{IsSilent, start-IsSilent}
use agent_transport.Config.{MsgKey}
use agent_transport.Base.{if◌then◌else◌, ◌==◌}
use agent_transport.Sender.{is_done}
use agent_transport.EndToEnd.Network.{Carried, sent_to, network_faithful}

abbrev small : TransportConfig
small = record default { packet_size = 4; unscheduled_bytes = 6; grant_increment = 4 }

abbrev peer : SocketAddr
peer = record { ip = 0x7f00_0001; port = 9000 }

abbrev six : List ℕ
six = 1 ∷ 2 ∷ 3 ∷ 4 ∷ 5 ∷ 6 ∷ []

abbrev data_at : ℕ → ℕ → Packet
data_at off n = record {
  typ = «data»;
  priority = 0;
  msg_id = 1;
  msg_len = 6;
  offset = off;
  length = n;
}

-- Both packets of the message in the wrong order, and one of them again.
abbrev events : List Event
events =
    arrives peer (data_at 4 2) (5 ∷ 6 ∷ []) 1
    ∷ receiver_ticks 5
    ∷ arrives peer (data_at 0 4) (1 ∷ 2 ∷ 3 ∷ 4 ∷ []) 6
    ∷ arrives peer (data_at 4 2) (5 ∷ 6 ∷ []) 7
    ∷ []

events-IsHonest : All (IsHonest (λ key. six) 4) events
unfolding chunk
events-IsHonest =
    let second : IsChunk 4 six 1 (data_at 4 2) (5 ∷ 6 ∷ []) = record {
      states_length = refl;
      starts = refl;
      carries = refl;
      inside = omega arith;
    } in
    let first : IsChunk 4 six 0 (data_at 0 4) (1 ∷ 2 ∷ 3 ∷ 4 ∷ []) = record {
      states_length = refl;
      starts = refl;
      carries = refl;
      inside = omega arith;
    } in
    ((1, second), (tt, ((0, first), ((1, second), tt))))

play_honest_example :
    (r : ReceiverCore × List Action) × (play (new_receiver small) events ≡ returns r)
    × All (IsTrue (λ key. six)) r.1
play_honest_example = play_honest (λ key. six) small events (omega arith) events-IsHonest

-- An empty message that comes twice.
abbrev twice : List Event
twice =
    let empty = record (data_at 0 0) { msg_len = 0 } in
    arrives peer empty [] 1 ∷ arrives peer empty [] 2 ∷ []

abbrev after_both : ReceiverCore × List Action
after_both = (
  record { cfg = small; incoming = []; granting = []; completed = msg_key peer 1 ∷ [] },
  deliver peer 1 [] ∷ [],
)

twice_runs : play (new_receiver small) twice ≡ returns after_both
unfolding play new_receiver handle_data contains get receive deliver_msg insert remove without
    remember then_schedule schedule select add_starving shortest candidates sort_by_remaining
    for_each fresh_msg
twice_runs = refl

play_once_example :
    AllDifferent (delivered_keys after_both.1)
    × (after_both.0.completed ≡ delivered_keys after_both.1)
unfolding delivered_keys
play_once_example = play_once small twice after_both twice_runs (omega arith)

abbrev ten : List ℕ
ten = 1 ∷ 2 ∷ 3 ∷ 4 ∷ 5 ∷ 6 ∷ 7 ∷ 8 ∷ 9 ∷ 10 ∷ []

abbrev grant_of : ℕ → Packet
grant_of n = record { typ = grant; priority = 0; msg_id = 1; msg_len = 0; offset = n; length = 4 }

abbrev resend_of : ℕ → ℕ → Packet
resend_of from n = record {
  typ = resend;
  priority = 0;
  msg_id = 1;
  msg_len = 0;
  offset = from;
  length = n;
}

abbrev calls : List Call
calls =
    starts peer 1 ten 0
    ∷ grants peer (grant_of 10) 1
    ∷ resends peer (resend_of 4 4) 2
    ∷ ticks 100
    ∷ []

calls-AllFair : AllFair (λ key. ten) (new_sender small) calls
unfolding act new_sender start pump pump_msg pump_loop handle_grant write get insert
calls-AllFair = ((refl, omega arith, omega arith), (tt, (inl refl, (tt, tt))))

sender_faithful_example : All (Genuine (λ key. ten) 4) (pushed_by (new_sender small) calls)
sender_faithful_example = sender_faithful (λ key. ten) small calls (omega arith) calls-AllFair

-- A message of no bytes beside one of ten.
abbrev bodies : MsgKey → List ℕ
bodies key = if key.id == 2 then [] else ten

abbrev empty_calls : List Call
empty_calls = starts peer 2 [] 0 ∷ starts peer 1 ten 0 ∷ ticks 100 ∷ []

empty_calls-AllFair : AllFair bodies (new_sender small) empty_calls
empty_calls-AllFair =
    ((refl, omega arith, omega arith), ((refl, omega arith, omega arith), (tt, tt)))

start-IsSilent_example :
    ((start (new_sender small) peer 2 [] 0).1 ≡ [])
    × (is_done (start (new_sender small) peer 2 [] 0).0 peer 2 ≡ true)
    × All (IsSilent peer 2) (pushed_by (new_sender small) empty_calls)
start-IsSilent_example =
    start-IsSilent bodies small empty_calls peer 2 (new_sender small) 0 (omega arith) refl
      empty_calls-AllFair

abbrev me : SocketAddr
me = record { ip = 0x7f00_0002; port = 9001 }

abbrev sends_six : SocketAddr → List Call
sends_six src = starts me 1 six 0 ∷ []

-- The second packet of the message, decoded.
abbrev second : Decodes 4 six 1 1 (data_packet six 1 4 6)
second = data_packet-Decodes 4 six 1 1 (omega arith) (omega arith) (omega arith)

abbrev travels : List Event
travels =
    arrives peer second.packet second.payload 1
    ∷ receiver_ticks 6
    ∷ arrives peer second.packet second.payload 7
    ∷ []

abbrev pushed : SocketAddr → List Action
pushed src = pushed_by (new_sender small) (sends_six src)

second-Carried : (now : ℕ) → Carried me pushed (arrives peer second.packet second.payload now)
unfolding pushed_by act new_sender start pump pump_msg pump_loop write get insert
second-Carried now = (data_packet six 1 4 6, Memᴰ.tail (Memᴰ.head refl), second.decodes)

travels-Carried : All (Carried me pushed) travels
travels-Carried = (second-Carried 1, (tt, (second-Carried 7, tt)))

network_faithful_example :
    (r : ReceiverCore × List Action) × (play (new_receiver small) travels ≡ returns r)
    × All (IsTrue (sent_to (λ src key. six) me)) r.1
network_faithful_example =
    network_faithful (λ src key. six) me small (λ src. small) sends_six travels (omega arith)
      (λ src. refl) (λ src. ((refl, omega arith, omega arith), tt)) travels-Carried

abbrev half : InMsg
half = record {
  total_len = 6;
  buf = 0 ∷ 0 ∷ 0 ∷ 0 ∷ 5 ∷ 6 ∷ [];
  received = false ∷ true ∷ [];
  received_bytes = 2;
  granted_to = 6;
  last_progress = 1;
  last_grant = 1;
  unanswered_resends = 0;
}

abbrev half_way : List Event
half_way = arrives peer (data_at 4 2) (5 ∷ 6 ∷ []) 1 ∷ []

abbrev after_half : ReceiverCore × List Action
after_half = (
  record { cfg = small; incoming = (msg_key peer 1, half) ∷ []; granting = []; completed = [] },
  [],
)

half_way_runs : play (new_receiver small) half_way ≡ returns after_half
unfolding play new_receiver handle_data contains get receive settle insert accepts store copy_into
    then_schedule schedule select add_starving shortest candidates sort_by_remaining for_each
    fresh_msg wants_grant
half_way_runs = refl

half_way-IsHonest : All (IsHonest (λ key. six) 4) half_way
unfolding chunk
half_way-IsHonest =
    let second : IsChunk 4 six 1 (data_at 4 2) (5 ∷ 6 ∷ []) = record {
      states_length = refl;
      starts = refl;
      carries = refl;
      inside = omega arith;
    } in
    ((1, second), tt)

play-IsBounded_example : IsBounded six half
unfolding get
play-IsBounded_example =
    play-IsBounded (λ key. six) small half_way after_half (msg_key peer 1) half (omega arith)
      half_way-IsHonest half_way_runs refl (omega arith)
