-- ===== src/Tests/Sending.antt =====
-- Tests of transport/sender.rs.
use agent_transport.Base.{ℕ, ◌≡◌, refl, some, none, List, [], ◌∷◌, arith}
use agent_transport.Base.Dict.{get, IsDistinct}
use agent_transport.Packet.{Packet, grant, resend}
use agent_transport.Config.{SocketAddr, msg_key, msg_key_eq, TransportConfig, default, send}
use agent_transport.Sender.{
  OutMsg, SenderCore, new, handle_grant, handle_resend, tick, tick_msg, data_packet, resend_msg,
  resend_loop, resend_account, chunk_range, write,
}
use agent_transport.Sender.Grant.{Granted, handle_grant_fresh}
use agent_transport.Sender.Resend.{Resent, handle_resend_lem, chunks}
use agent_transport.Sender.Tick.{tick_lem, tick_msg_lem}
use agent_transport.Sender.Valid.{IsValid}
use agent_transport.Sender.Invariant.{run, run-new-IsValid, starts, grants, ticks, finishes}

abbrev small : TransportConfig
small = record default { packet_size = 4; unscheduled_bytes = 6; grant_increment = 4 }

abbrev peer : SocketAddr
peer = record { ip = 0x7f00_0001; port = 9000 }

abbrev idle : SenderCore
idle = record { cfg = small; out = [] }

abbrev ten : List ℕ
ten = 1 ∷ 2 ∷ 3 ∷ 4 ∷ 5 ∷ 6 ∷ 7 ∷ 8 ∷ 9 ∷ 10 ∷ []

abbrev waiting : OutMsg
waiting = record {
  contents = ten;
  granted_to = 6;
  next_send = 8;
  done_at = none;
  last_progress = 0;
}

abbrev sending : SenderCore
sending = record { cfg = small; out = (msg_key peer 1, waiting) ∷ [] }

abbrev grant_of : ℕ → Packet
grant_of n = record { typ = grant; priority = 0; msg_id = 1; msg_len = 0; offset = n; length = 4 }

abbrev resend_of : ℕ → ℕ → Packet
resend_of from n = record {
  typ = resend;
  priority = 0;
  msg_id = 1;
  msg_len = 0;
  offset = from;
  length = n;
}

sending-found : get sending.out (msg_key peer 1) ≡ some waiting
unfolding get
sending-found = refl

handle_grant_fresh_example :
    Granted sending peer (grant_of 10) 1 waiting (handle_grant sending peer (grant_of 10) 1)
handle_grant_fresh_example =
    handle_grant_fresh sending peer (grant_of 10) 1 waiting (omega arith) sending-found refl
      (omega arith)

handle_resend_lem_example :
    Resent sending peer (resend_of 3 3) waiting 1 (handle_resend sending peer (resend_of 3 3) 1)
handle_resend_lem_example =
    handle_resend_lem sending peer (resend_of 3 3) 1 waiting (omega arith) sending-found
      (omega arith)

-- Chunks 0 and 1 are both touched by the bytes 3 to 5.
resend_touches :
    (handle_resend sending peer (resend_of 3 3) 1).1 ≡ chunks 4 (msg_key peer 1) ten 0 2
unfolding handle_resend get resend_msg resend_loop resend_account chunk_range chunks write
resend_touches = refl

sending-IsDistinct : IsDistinct sending.out
unfolding get
sending-IsDistinct = (refl, tt)

tick_lem_example :
    (get (tick sending 60).0.out (msg_key peer 1) ≡ some (record waiting { last_progress = 60 }))
    × ((tick sending 60).1 ≡ send peer (data_packet ten 1 4 8) ∷ [])
unfolding get
tick_lem_example = tick_lem sending 60 (msg_key peer 1) (omega arith) sending-IsDistinct

tick_msg_lem_example :
    tick_msg small (msg_key peer 1) 60 waiting
    ≡ (record waiting { last_progress = 60 }, send peer (data_packet ten 1 4 8) ∷ [])
tick_msg_lem_example = tick_msg_lem small (msg_key peer 1) 60 waiting (omega arith)

run-new-IsValid_example : IsValid (
    run
      (new small)
      (starts peer 1 ten 0 ∷ grants peer (grant_of 10) 1 ∷ ticks 60 ∷ finishes peer 1 ∷ []))
run-new-IsValid_example =
    run-new-IsValid small
      (starts peer 1 ten 0 ∷ grants peer (grant_of 10) 1 ∷ ticks 60 ∷ finishes peer 1 ∷ [])
      (omega arith)
