-- ===== src/Receiver/StuckRuns.antt =====
-- A stuck message stays stuck, whatever happens.
use agent_transport.Base.{
  ℕ, ◌-◌, ◌≡◌, ◌≢◌, refl, true, not, ◌||◌, Option, none, some, List, [], ◌∷◌, length, All, arith,
  leb, ltb, ◌==◌, Bool-cases, Option-cases, inl, inr,
}
use agent_transport.Base.Dict.{keys, get, insert, get-insert_self}
use agent_transport.Packet.{Packet}
use agent_transport.Config.{
  SocketAddr, MsgKey, msg_key, msg_key_eq, key_eq, key_eq_iff, for_each, for_each_inv,
}
use agent_transport.Receiver.Keys.{other_key}
use agent_transport.Receiver.State.{
  InMsg, ReceiverCore, contains, fresh_msg, first_missing, first_missing_offset,
}
use agent_transport.Receiver.Handlers.{
  returns, panics, handle_data, renew_grant, tick_stalled, tick_key, tick,
}
use agent_transport.Receiver.Frame.{SameBytes, SameEntry, SameEntry-trans, issue_grant-Frame}
use agent_transport.Receiver.Stalled.{tick_key-other}
use agent_transport.Receiver.Invariant.{Event, arrives, ticks, run}
use agent_transport.Receiver.Stuck.{
  IsStuck, Still, StillIf, Still-schedule, receive_other, receive_stuck,
}

IsStuck-Same : (m n : InMsg) → SameBytes m n → IsStuck m → IsStuck n
IsStuck-Same m n same h = record {
  full = rw same.bitmap h.full;
  short = rw (same.count, same.total) h.short;
}

-- A message that is still there is found.
still_found :
    (m : InMsg) (o : Option InMsg)
    → SameEntry (some m) o
    → (n : InMsg) × (o ≡ some n) × SameBytes m n
still_found m none h = absurd h
still_found m (some n) h = (n, refl, h)

handle_data-Still :
    (s : ReceiverCore) (src : SocketAddr) (pkt : Packet) (payload : List ℕ) (now : ℕ) (key : MsgKey)
    (m : InMsg)
    → (not (key_eq (msg_key src pkt.msg_id) key) || ltb 0 pkt.msg_len) ≡ true
    → IsStuck m
    → Still key m s
    → StillIf key m (handle_data s src pkt payload now)
unfolding handle_data
handle_data-Still s src pkt payload now key m says stuck h =
    let k = msg_key src pkt.msg_id in
    elim (Bool-cases (contains s.completed k)) [
      | inl old ↦ rw old h
      | inr new ↦ elim (Bool-cases (key_eq k key)) [
        | inl here ↦
            let at : k ≡ key = (key_eq_iff k key).0 here in
            let (n, found, same) = still_found m (get s.incoming key) h in
            let found' : get s.incoming k ≡ some n = rw at found in
            rw (new, found', handle_data)
              (rw at (
                receive_stuck s key m n pkt payload now (ground (arith, says, here))
                  (IsStuck-Same m n same stuck) same))
        | inr other ↦
            let ne : k ≢ key = other_key k key other in
            elim (Option-cases (get s.incoming k)) [
              | inr (n, e) ↦
                  rw (new, e, handle_data) (receive_other s k key m n pkt payload now ne h)
              | inl e ↦ elim (Bool-cases (leb s.cfg.max_incoming (length s.incoming))) [
                | inl full ↦ rw (new, e, full, handle_data) h
                | inr more ↦ elim (Bool-cases (s.cfg.packet_size == 0)) [
                  | inl null ↦ rw (new, e, more, null, handle_data) tt
                  | inr sized ↦
                      rw (new, e, more, sized, handle_data)
                        (receive_other s k key m (fresh_msg s.cfg pkt.msg_len now) pkt payload now
                          ne h)
                ]
              ]
            ]
      ]
    ]

renew_grant-Still :
    (now : ℕ) (s : ReceiverCore) (key : MsgKey) (m n : InMsg)
    → SameBytes m n
    → Still key m s
    → Still key m (renew_grant now s key n).0
unfolding renew_grant
renew_grant-Still now s key m n same h =
    let n' = record n { last_progress = now } in
    let s' = record s { incoming = insert s.incoming key n' } in
    let h' : Still key m s' = rw (get-insert_self s.incoming key n') (record {
      total = same.total;
      buffer = same.buffer;
      bitmap = same.bitmap;
      count = same.count;
    }) in
    elim (Bool-cases (leb s.cfg.grant_timeout (now - n.last_progress))) [
      | inr early ↦ rw early h
      | inl late ↦ elim (Bool-cases (contains s.granting key)) [
        | inl granted ↦
            rw (late, granted)
              (SameEntry-trans (some m) _ _ h' ((issue_grant-Frame key now true s').0.entries key))
        | inr other ↦ rw (late, other) h'
      ]
    ]

none_missing :
    (n : InMsg) (pkt_size : ℕ)
    → first_missing 0 n.received ≡ none
    → first_missing_offset n pkt_size ≡ none
unfolding first_missing_offset
none_missing n pkt_size full = rw (full, first_missing_offset) refl

tick_key-Still :
    (now : ℕ) (key : MsgKey) (m : InMsg) (s : ReceiverCore) (k : MsgKey)
    → IsStuck m
    → Still key m s
    → Still key m (tick_key now s k).0
unfolding tick_key tick_stalled
tick_key-Still now key m s k stuck h = elim (Bool-cases (key_eq k key)) [
  | inr other ↦ let ne : k ≢ key = other_key k key other in rw (tick_key-other now s k key ne) h
  | inl here ↦
      let at : k ≡ key = (key_eq_iff k key).0 here in
      let (n, found, same) = still_found m (get s.incoming key) h in
      let stuck' = IsStuck-Same m n same stuck in
      rw at (elim (Bool-cases (ltb (now - n.last_progress) s.cfg.resend_timeout)) [
        | inl early ↦ rw (found, tick_key, early) h
        | inr late ↦
            rw (found, tick_key, late, none_missing n s.cfg.packet_size stuck'.full)
              (renew_grant-Still now s key m n same h)
      ])
]

tick-Still :
    (now : ℕ) (s : ReceiverCore) (key : MsgKey) (m : InMsg)
    → IsStuck m
    → Still key m s
    → Still key m (tick now s).0
unfolding tick
tick-Still now s key m stuck h =
    Still-schedule now key m (for_each (tick_key now) s (keys s.incoming)) (
      for_each_inv (Still key m) (tick_key now) (λ s' k h'. tick_key-Still now key m s' k stuck h')
        s (keys s.incoming) h)

-- The event is no packet that states length zero for the message.
abbrev pub SaysSome : MsgKey → Event → Type 0
SaysSome key (ticks now) = Unit
SaysSome key (arrives src pkt payload now) =
    (not (key_eq (msg_key src pkt.msg_id) key) || ltb 0 pkt.msg_len) ≡ true

abbrev pub StillAfter : MsgKey → InMsg → Option ReceiverCore → Type 0
StillAfter key m none = Unit
StillAfter key m (some s) = Still key m s

-- A message whose chunks are all marked, but of which not as many bytes came as it has, is stuck:
-- whatever packets come, for it or for others, but for one that states length zero for it, and
-- however often the receiver ticks, the receiver still holds the message with the same bytes, so
-- that it neither delivers it nor gives it up, unless it panics.
pub run_stuck :
    (events : List Event) (s : ReceiverCore) (key : MsgKey) (m : InMsg)
    → IsStuck m
    → All (SaysSome key) events
    → Still key m s
    → StillAfter key m (run s events)
unfolding run
run_stuck [] s key m stuck says h = h
run_stuck (ticks now ∷ events) s key m stuck (first, says) h =
    run_stuck events (tick now s).0 key m stuck says (tick-Still now s key m stuck h)
run_stuck (arrives src pkt payload now ∷ events) s key m stuck (first, says) h =
    elim (handle_data s src pkt payload now)
        as (λ o.
          StillIf key m o
          → StillAfter key m (elim o [ returns r ↦ run r.0 events | panics ↦ none ])) [
            | returns r ↦ λ h'. run_stuck events r.0 key m stuck says h'
            | panics ↦ λ dead. tt
          ]
      (handle_data-Still s src pkt payload now key m first stuck h)
