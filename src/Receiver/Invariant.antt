-- ===== src/Receiver/Invariant.antt =====
-- Every operation of the receiver keeps the invariant, whatever packets come.
use agent_transport.Base.{
  ℕ, ◌+◌, ◌-◌, ◌≡◌, true, Option, none, some, List, [], ◌∷◌, arith, leb, ltb, Bool-cases, inl, inr,
  Option-cases, ltb→le,
}
use agent_transport.Base.Dict.{get, keys}
use agent_transport.Packet.{Packet}
use agent_transport.Config.{SocketAddr, MsgKey, msg_key_eq, TransportConfig, for_each, for_each_inv}
use agent_transport.Receiver.State.{
  InMsg, ReceiverCore, new, contains, without, max_unanswered_resends, first_missing_offset,
}
use agent_transport.Receiver.Handlers.{
  returns, panics, handle_data, request_resend, renew_grant, tick_stalled, tick_key, tick,
}
use agent_transport.Receiver.Valid.{
  IsReceiver, rewrite-IsReceiver, remove-IsReceiver, found-IsIn, issue_grant-IsReceiver,
}
use agent_transport.Receiver.Keeping.{Keeps, then_schedule-IsReceiver, handle_data-Keeps}

request_resend-IsReceiver :
    (now : ℕ) (s : ReceiverCore) (key : MsgKey) (m : InMsg) (off : ℕ)
    → IsReceiver s
    → get s.incoming key ≡ some m
    → IsReceiver (request_resend now s key m off).0
unfolding request_resend
request_resend-IsReceiver now s key m off v e =
    let h = found-IsIn s key m v e in
    elim (Bool-cases (ltb max_unanswered_resends (m.unanswered_resends + 1))) [
      | inl over ↦ rw over (remove-IsReceiver s key (without s.granting key) v)
      | inr fine ↦ rw fine (
          rewrite-IsReceiver s key m
            (record m { last_progress = now; unanswered_resends = m.unanswered_resends + 1 }) v e
            (record {
              sized = h.sized;
              credit = h.credit;
              window = h.window;
              unfinished = h.unfinished;
              alive = ltb→le _ _ fine;
            }))
    ]

renew_grant-IsReceiver :
    (now : ℕ) (s : ReceiverCore) (key : MsgKey) (m : InMsg)
    → IsReceiver s
    → get s.incoming key ≡ some m
    → IsReceiver (renew_grant now s key m).0
unfolding renew_grant
renew_grant-IsReceiver now s key m v e =
    let h = found-IsIn s key m v e in
    let v' =
      rewrite-IsReceiver s key m (record m { last_progress = now }) v e
        (record {
          sized = h.sized;
          credit = h.credit;
          window = h.window;
          unfinished = h.unfinished;
          alive = h.alive;
        }) in
    elim (Bool-cases (leb s.cfg.grant_timeout (now - m.last_progress))) [
      | inr early ↦ rw early v
      | inl late ↦ elim (Bool-cases (contains s.granting key)) [
        | inl granted ↦ rw (late, granted) (issue_grant-IsReceiver now true _ key v')
        | inr other ↦ rw (late, other) v'
      ]
    ]

tick_stalled-IsReceiver :
    (now : ℕ) (s : ReceiverCore) (key : MsgKey) (m : InMsg) (missing : Option ℕ)
    → IsReceiver s
    → get s.incoming key ≡ some m
    → IsReceiver (tick_stalled now s key m missing).0
unfolding tick_stalled
tick_stalled-IsReceiver now s key m none v e = renew_grant-IsReceiver now s key m v e
tick_stalled-IsReceiver now s key m (some off) v e = elim (Bool-cases (ltb off m.granted_to)) [
  | inl hole ↦ rw hole (request_resend-IsReceiver now s key m off v e)
  | inr whole ↦ rw whole (renew_grant-IsReceiver now s key m v e)
]

tick_key-IsReceiver :
    (now : ℕ) (s : ReceiverCore) (key : MsgKey) → IsReceiver s → IsReceiver (tick_key now s key).0
unfolding tick_key
tick_key-IsReceiver now s key v = elim (Option-cases (get s.incoming key)) [
  | inl e ↦ rw (e, tick_key) v
  | inr (m, e) ↦ elim (Bool-cases (ltb (now - m.last_progress) s.cfg.resend_timeout)) [
    | inl early ↦ rw (e, tick_key, early) v
    | inr late ↦
        rw (e, tick_key, late)
          (tick_stalled-IsReceiver now s key m (first_missing_offset m s.cfg.packet_size) v e)
  ]
]

pub tick-IsReceiver : (now : ℕ) (s : ReceiverCore) → IsReceiver s → IsReceiver (tick now s).0
unfolding tick
tick-IsReceiver now s v =
    then_schedule-IsReceiver now (for_each (tick_key now) s (keys s.incoming))
      (for_each_inv IsReceiver (tick_key now) (tick_key-IsReceiver now) s (keys s.incoming) v)

-- What comes to the receiver: a DATA packet, or the time.
pub data Event : Type 0 where
  arrives : SocketAddr → Packet → List ℕ → ℕ → Event
  ticks : ℕ → Event

-- The receiver after some events; a panic ends it.
unfoldable pub run : ReceiverCore → List Event → Option ReceiverCore
run s [] = some s
run s (ticks now ∷ events) = run (tick now s).0 events
run s (arrives src pkt payload now ∷ events) = elim (handle_data s src pkt payload now) [
  | returns r ↦ run r.0 events
  | panics ↦ none
]

abbrev pub IfAlive : Option ReceiverCore → Type 0
IfAlive none = Unit
IfAlive (some s) = IsReceiver s

run-IfAlive : (s : ReceiverCore) (events : List Event) → IsReceiver s → IfAlive (run s events)
unfolding run
run-IfAlive s [] v = v
run-IfAlive s (ticks now ∷ events) v = run-IfAlive (tick now s).0 events (tick-IsReceiver now s v)
run-IfAlive s (arrives src pkt payload now ∷ events) v =
    elim (handle_data s src pkt payload now)
        as (λ o. Keeps o → IfAlive (elim o [ returns r ↦ run r.0 events | panics ↦ none ])) [
          | returns r ↦ λ v'. run-IfAlive r.0 events v'
          | panics ↦ λ dead. tt
        ]
      (handle_data-Keeps s src pkt payload now v)

pub new-IsReceiver : (cfg : TransportConfig) → IsReceiver (new cfg)
unfolding new
new-IsReceiver cfg = record {
  entries = tt;
  distinct = tt;
  bounded = omega arith;
  memory = omega arith;
}

-- Whatever packets come to a new receiver, and whenever it ticks: as long as it does not panic, it
-- holds at most `max_incoming` messages and remembers at most 4096 delivered ones, none of which it
-- still holds; no message has two entries; the buffer of each has the message's length; its credit
-- is within its length and at most the unscheduled window, or one increment past the bytes that
-- came; no message is left complete; and none has more than 40 requests without an answer.
pub run-new-IfAlive : (cfg : TransportConfig) (events : List Event) → IfAlive (run (new cfg) events)
run-new-IfAlive cfg events = run-IfAlive (new cfg) events (new-IsReceiver cfg)
