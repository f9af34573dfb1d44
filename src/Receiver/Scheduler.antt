-- ===== src/Receiver/Scheduler.antt =====
-- transport/receiver.rs: `schedule` and `issue_grant`.
use agent_transport.Base.{
  ℕ, ◌+◌, ◌-◌, ◌/◌, min, max, Bool, false, not, ◌&&◌, none, some, List, [], ◌∷◌, ◌++◌, map, take,
  ltb, leb, ◌==◌, if◌then◌else◌,
}
use agent_transport.Base.Bytes.{as_u32}
use agent_transport.Base.Dict.{Dict, get, insert}
use agent_transport.Packet.{grant}
use agent_transport.Packet
use agent_transport.Priority.{priority_for_len}
use agent_transport.Config.{MsgKey, msg_key_eq, Action, send, TransportConfig, for_each}
use agent_transport.Receiver.State.{InMsg, ReceiverCore, remaining, complete, contains}

-- The message still needs credit.
unfoldable pub wants_grant : InMsg → Bool
wants_grant m = not (complete m) && ltb m.granted_to m.total_len

-- The candidates with the bytes that each still misses, in the order of the map.
unfoldable pub candidates : Dict MsgKey InMsg → List (MsgKey × ℕ)
candidates [] = []
candidates ((key, m) ∷ incoming) =
    let rest = candidates incoming in if wants_grant m then (key, remaining m) ∷ rest else rest

-- cands.sort_by_key(|(_, rem)| *rem), the stable sort of the standard library
unfoldable pub insert_by : MsgKey × ℕ → List (MsgKey × ℕ) → List (MsgKey × ℕ)
insert_by c [] = c ∷ []
insert_by c (d ∷ cands) = if leb c.1 d.1 then c ∷ d ∷ cands else d ∷ insert_by c cands

unfoldable pub sort_by_remaining : List (MsgKey × ℕ) → List (MsgKey × ℕ)
sort_by_remaining [] = []
sort_by_remaining (c ∷ cands) = insert_by c (sort_by_remaining cands)

-- The second loop of `schedule`: the messages that have waited too long join the selection.
unfoldable pub add_starving : ℕ → ℕ → Dict MsgKey InMsg → List MsgKey → List MsgKey
add_starving starve now [] selected = selected
add_starving starve now ((key, m) ∷ incoming) selected = add_starving starve now incoming (
    if wants_grant m && (leb starve (now - m.last_grant) && not (contains selected key))
    then selected ++ (key ∷ [])
    else selected)

unfoldable pub shortest : ℕ → Dict MsgKey InMsg → List MsgKey
unfolding candidates sort_by_remaining
shortest k incoming = map (λ c. c.0) (take k (sort_by_remaining (candidates incoming)))

unfoldable pub select : TransportConfig → ℕ → Dict MsgKey InMsg → List MsgKey
select cfg now incoming =
    add_starving cfg.starve_threshold now incoming (shortest (max cfg.overcommit 1) incoming)

-- The window of a message: `force` grants it also where enough credit is outstanding.
unfoldable pub grant_msg : ℕ → MsgKey → ℕ → Bool → InMsg → InMsg × List Action
grant_msg increment key now force m =
    let outstanding = m.granted_to - m.received_bytes in
    let target = max (min (m.received_bytes + increment) m.total_len) m.granted_to in
    let added = target - m.granted_to in
    if not force && leb (increment / 2) outstanding
    then (m, [])
    else if target == m.granted_to && not force
    then (m, [])
    else (
      record m { granted_to = target; last_grant = now },
      send key.addr (
            Packet.encode
              (Packet.new grant (priority_for_len m.total_len) key.id 0 (as_u32 target)
                (as_u32 added))
              [])
          ∷ [],
    )

unfoldable pub issue_grant : MsgKey → ℕ → Bool → ReceiverCore → ReceiverCore × List Action
unfolding grant_msg
issue_grant key now force s = elim (get s.incoming key) [
  | none ↦ (s, [])
  | some m ↦
      let (m', pushed) = grant_msg s.cfg.grant_increment key now force m in
      (record s { incoming = insert s.incoming key m' }, pushed)
]

unfoldable pub schedule : ℕ → ReceiverCore → ReceiverCore × List Action
schedule now s =
    let selected = select s.cfg now s.incoming in
    for_each (λ s' key. issue_grant key now false s') (record s { granting = selected }) selected
