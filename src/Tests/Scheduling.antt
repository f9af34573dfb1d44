-- ===== src/Tests/Scheduling.antt =====
-- Tests of the scheduler, the ticks and the panic of transport/receiver.rs.
use agent_transport.Base.{
  List, ℕ, ◌≤◌, ◌<◌, ◌≡◌, ◌↔◌, ◌⊎◌, inl, refl, none, some, true, [], ◌∷◌, arith,
}
use agent_transport.Base.Dict.{get, IsDistinct}
use agent_transport.Packet.{Packet, «data»}
use agent_transport.Config.{SocketAddr, msg_key, msg_key_eq, TransportConfig, default}
use agent_transport.Receiver.State.{
  InMsg, ReceiverCore, new, contains, fresh_msg, accepts, first_missing_offset, first_missing,
}
use agent_transport.Receiver.Scheduler.{schedule, select, wants_grant}
use agent_transport.Receiver.Handlers.{handle_data, panics}
use agent_transport.Receiver.Valid.{IsReceiver}
use agent_transport.Receiver.Invariant.{Event, run, arrives, ticks, IfAlive, run-new-IfAlive}
use agent_transport.Receiver.Panics.{Overruns, DividesByZero, handle_data_panics}
use agent_transport.Receiver.Selection.{Selects, select-Selects, starves}
use agent_transport.Receiver.Grants.{Credited, schedule-Credited, schedule_starving}
use agent_transport.Receiver.Stuck.{IsStuck, Still}
use agent_transport.Receiver.StuckRuns.{StillAfter, run_stuck}
use agent_transport.Receiver.GivesUp.{ticks_give_up, ticks as ticks_at}

abbrev small : TransportConfig
small = record default { packet_size = 4; unscheduled_bytes = 6; grant_increment = 4 }

abbrev peer : SocketAddr
peer = record { ip = 0x7f00_0001; port = 9000 }

abbrev data_of : ℕ → ℕ → ℕ → Packet
data_of msg_len off n = record {
  typ = «data»;
  priority = 0;
  msg_id = 1;
  msg_len = msg_len;
  offset = off;
  length = n;
}

-- Six bytes are on their way, four of them granted; nothing has come, and 39 requests are without an answer.
abbrev half : InMsg
half = record (fresh_msg small 6 0) { granted_to = 4; unanswered_resends = 39 }

abbrev receiving : ReceiverCore
receiving = record {
  cfg = small;
  incoming = (msg_key peer 1, half) ∷ [];
  granting = [];
  completed = [];
}

receiving-found : get receiving.incoming (msg_key peer 1) ≡ some half
unfolding get fresh_msg
receiving-found = refl

receiving-IsDistinct : IsDistinct receiving.incoming
unfolding get fresh_msg
receiving-IsDistinct = (refl, tt)

receiving-IsReceiver : IsReceiver receiving
unfolding fresh_msg contains get
receiving-IsReceiver = record {
  entries = (
    (
      record {
        sized = refl;
        credit = omega arith;
        window = omega arith;
        unfinished = refl;
        alive = omega arith;
      },
      refl,
    ),
    tt,
  );
  distinct = (refl, tt);
  bounded = omega arith;
  memory = omega arith;
}

run-new-IfAlive_example :
    IfAlive
      (run (new small) (arrives peer (data_of 6 4 2) (5 ∷ 6 ∷ []) 1 ∷ ticks 30 ∷ ticks 60 ∷ []))
run-new-IfAlive_example =
    run-new-IfAlive small (arrives peer (data_of 6 4 2) (5 ∷ 6 ∷ []) 1 ∷ ticks 30 ∷ ticks 60 ∷ [])

-- A packet of the same message that says that the message is longer.
handle_data_panics_example :
    (handle_data receiving peer (data_of 100 4 4) (5 ∷ 6 ∷ 7 ∷ 8 ∷ []) 1 ≡ panics) ↔ (
      ((0 < receiving.cfg.packet_size)
        × ((m : InMsg) × (get receiving.incoming (msg_key peer 1) ≡ some m)
            × Overruns receiving m (data_of 100 4 4) (5 ∷ 6 ∷ 7 ∷ 8 ∷ [])))
      ⊎ DividesByZero receiving (msg_key peer 1) (data_of 100 4 4))
handle_data_panics_example =
    handle_data_panics receiving peer (data_of 100 4 4) (5 ∷ 6 ∷ 7 ∷ 8 ∷ []) 1 receiving-IsReceiver

-- It does panic.
longer_panics : handle_data receiving peer (data_of 100 4 4) (5 ∷ 6 ∷ 7 ∷ 8 ∷ []) 1 ≡ panics
unfolding accepts fresh_msg
longer_panics =
    let (to, from) =
      handle_data_panics receiving peer (data_of 100 4 4) (5 ∷ 6 ∷ 7 ∷ 8 ∷ []) 1
        receiving-IsReceiver in
    from (inl (omega arith, (half, receiving-found, (omega arith, refl, omega arith))))

-- A packet size of zero, on the first packet.
no_size_panics :
    handle_data (new (record small { packet_size = 0 })) peer (data_of 6 0 2) (5 ∷ 6 ∷ []) 1
    ≡ panics
unfolding handle_data contains get new
no_size_panics = refl

select-Selects_example : Selects small 300 receiving.incoming (select small 300 receiving.incoming)
select-Selects_example = select-Selects small 300 receiving.incoming receiving-IsDistinct

schedule-Credited_example :
    Credited receiving
      (schedule 300 receiving).0
      (msg_key peer 1)
      half
      (contains (select small 300 receiving.incoming) (msg_key peer 1))
schedule-Credited_example = schedule-Credited 300 receiving (msg_key peer 1) half receiving-found

half-starves : starves 200 300 half ≡ true
unfolding starves wants_grant fresh_msg
half-starves = refl

schedule_starving_example :
    (m' : InMsg) × (get (schedule 300 receiving).0.incoming (msg_key peer 1) ≡ some m')
    × (2 ≤ m'.granted_to)
unfolding fresh_msg
schedule_starving_example =
    schedule_starving 300 receiving (msg_key peer 1) half (omega arith) receiving-IsDistinct
      receiving-found half-starves

half-missing : first_missing_offset half 4 ≡ some 0
unfolding first_missing_offset first_missing fresh_msg
half-missing = refl

-- The fortieth request goes out at 20 ms, and the forty-first at 40 ms.
ticks_give_up_example : get (ticks_at receiving (20 ∷ 40 ∷ [])).incoming (msg_key peer 1) ≡ none
unfolding fresh_msg
ticks_give_up_example =
    ticks_give_up (20 ∷ 40 ∷ []) receiving (msg_key peer 1) half (omega arith) receiving-found
      (0, half-missing, omega arith) (omega arith) (omega arith) (omega arith)

-- The first packet had one byte of chunk 0 only, the second all of chunk 1.
abbrev holed : InMsg
holed = record (fresh_msg small 6 0) { received = true ∷ true ∷ []; received_bytes = 3 }

abbrev holding : ReceiverCore
holding = record {
  cfg = small;
  incoming = (msg_key peer 1, holed) ∷ [];
  granting = [];
  completed = [];
}

holed-IsStuck : IsStuck holed
unfolding first_missing fresh_msg
holed-IsStuck = record { full = refl; short = refl }

holding-Still : Still (msg_key peer 1) holed holding
unfolding get
holding-Still = record { total = refl; buffer = refl; bitmap = refl; count = refl }

-- The bytes of chunk 0 come again, and the receiver ticks.
abbrev retries : List Event
retries = arrives peer (data_of 6 0 4) (1 ∷ 2 ∷ 3 ∷ 4 ∷ []) 1 ∷ ticks 1000 ∷ ticks 5000 ∷ []

run_stuck_example : StillAfter (msg_key peer 1) holed (run holding retries)
run_stuck_example =
    run_stuck retries holding (msg_key peer 1) holed holed-IsStuck (refl, (tt, (tt, tt)))
      holding-Still
