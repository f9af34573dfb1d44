-- ===== src/Receiver/Single.antt =====
-- The scheduler of a receiver that holds one message: the message is granted whenever it wants it.
use agent_transport.Base.{
  ℕ, ◌+◌, ◌-◌, ◌/◌, ◌≤◌, ◌<◌, ◌≡◌, ◌⊎◌, refl, ap, ◌∙◌, min, max, false, some, List, [], ◌∷◌, ◌++◌,
  append-nil, take_all, arith, leb, ◌==◌, ==_iff, leb→le, if◌then◌else◌, Bool-cases, inl, inr,
}
use agent_transport.Base.Bytes.{as_u32}
use agent_transport.Base.Dict.{get, insert}
use agent_transport.Packet.{grant}
use agent_transport.Packet
use agent_transport.Priority.{priority_for_len}
use agent_transport.Config.{MsgKey, msg_key_eq, key_eq_iff, Action, send, TransportConfig, for_each}
use agent_transport.Receiver.State.{InMsg, ReceiverCore, contains, remaining}
use agent_transport.Receiver.Scheduler.{
  wants_grant, candidates, insert_by, sort_by_remaining, add_starving, shortest, select, grant_msg,
  issue_grant, schedule,
}
use agent_transport.Receiver.Frame.{SameBytes}

-- What is left when the scheduler has passed over the only message.
abbrev pub passed : ReceiverCore → MsgKey → InMsg → List MsgKey → ReceiverCore
passed s key m granting = record s { incoming = (key, m) ∷ []; granting = granting }

module _ (cfg : TransportConfig) (now : ℕ) (key : MsgKey) (m : InMsg) where
  shortest_one :
      shortest (max cfg.overcommit 1) ((key, m) ∷ []) ≡ (if wants_grant m then key ∷ [] else [])
  unfolding shortest candidates sort_by_remaining insert_by
  shortest_one = elim (Bool-cases (wants_grant m)) [
    | inl wants ↦
        let one : List (MsgKey × ℕ) = (key, remaining m) ∷ [] in
        rw (wants, take_all (max cfg.overcommit 1) one (omega arith)) refl
    | inr sated ↦
        rw
          (
            sated,
            take_all (max cfg.overcommit 1) (let none_left : List (MsgKey × ℕ) = [] in none_left)
                (omega arith),
          )
          refl
  ]

  select_one : select cfg now ((key, m) ∷ []) ≡ (if wants_grant m then key ∷ [] else [])
  unfolding select add_starving contains
  select_one = elim (Bool-cases (wants_grant m)) [
    | inl wants ↦ rw (shortest_one, wants, (key_eq_iff key key).1 refl) (ground arith)
    | inr sated ↦ rw (shortest_one, sated) refl
  ]

pub get_one : (key : MsgKey) (m : InMsg) → get ((key, m) ∷ []) key ≡ some m
unfolding get
get_one key m = rw ((key_eq_iff key key).1 refl) refl

pub insert_one : (key : MsgKey) (m m' : InMsg) → insert ((key, m) ∷ []) key m' ≡ (key, m') ∷ []
unfolding insert
insert_one key m m' = rw ((key_eq_iff key key).1 refl) refl

issue_grant_one :
    (now : ℕ) (s : ReceiverCore) (key : MsgKey) (m : InMsg) (granting : List MsgKey)
    → let g = grant_msg s.cfg.grant_increment key now false m in
      issue_grant key now false (passed s key m granting) ≡ (passed s key g.0 granting, g.1)
unfolding issue_grant
issue_grant_one now s key m granting =
    let m' = (grant_msg s.cfg.grant_increment key now false m).0 in
    rw (get_one key m, issue_grant, insert_one key m m') refl

schedule_one :
    (now : ℕ) (s : ReceiverCore) (key : MsgKey) (m : InMsg) (granting : List MsgKey)
    → let g = grant_msg s.cfg.grant_increment key now false m in
      schedule now (passed s key m granting) ≡ (
        if wants_grant m then (passed s key g.0 (key ∷ []), g.1 ++ []) else (passed s key m [], []))
unfolding schedule for_each
schedule_one now s key m granting = elim (Bool-cases (wants_grant m)) [
  | inl wants ↦
      rw (select_one s.cfg now key m, wants)
        (ap {B = ReceiverCore × List Action} (λ (r : ReceiverCore × List Action). (r.0, r.1 ++ []))
          (issue_grant_one now s key m (key ∷ [])))
  | inr sated ↦ rw (select_one s.cfg now key m, sated) refl
]

-- Nothing to grant.
pub schedule_empty :
    (now : ℕ) (s : ReceiverCore)
    → s.incoming ≡ []
    → schedule now s ≡ (record s { granting = [] }, [])
unfolding schedule for_each select add_starving shortest candidates sort_by_remaining
schedule_empty now s e =
    rw
      (
        e,
        take_all (max s.cfg.overcommit 1) (let none_left : List (MsgKey × ℕ) = [] in none_left)
            (omega arith),
      )
      refl

-- The datagram of a GRANT up to `target`.
unfoldable pub credit_datagram : MsgKey → ℕ → ℕ → ℕ → List ℕ
credit_datagram key total_len target added =
    Packet.encode
      (Packet.new grant (priority_for_len total_len) key.id 0 (as_u32 target) (as_u32 added)) []

-- The message has more credit than bytes, and where it has got more credit, a GRANT says so.
pub record OneCredit (key : MsgKey) (m m' : InMsg) (pushed : List Action) : Type 0 where
  pub same : SameBytes m m'
  pub ahead : m.received_bytes < m'.granted_to
  pub within : m'.granted_to ≤ m.total_len
  pub how :
      ((pushed ≡ []) × (m'.granted_to ≡ m.granted_to))
      ⊎ ((added : ℕ) × (m.granted_to < m'.granted_to)
          × (pushed ≡ send key.addr (credit_datagram key m.total_len m'.granted_to added) ∷ []))

grant_msg-OneCredit :
    (increment : ℕ) (key : MsgKey) (now : ℕ) (m : InMsg)
    → 2 ≤ increment
    → m.received_bytes < m.total_len
    → m.granted_to ≤ m.total_len
    → let g = grant_msg increment key now false m in OneCredit key m g.0 g.1
unfolding grant_msg credit_datagram
grant_msg-OneCredit increment key now m some_credit part credit =
    let target = max (min (m.received_bytes + increment) m.total_len) m.granted_to in
    elim (Bool-cases (leb (increment / 2) (m.granted_to - m.received_bytes))) [
      | inl enough ↦ rw enough (record {
        same = record { total = refl; buffer = refl; bitmap = refl; count = refl };
        ahead = omega (arith, leb→le _ _ enough);
        within = credit;
        how = inl (refl, refl);
      })
      | inr short ↦ elim (Bool-cases (target == m.granted_to)) [
        | inl unchanged ↦
            rw (short, unchanged)
              (record {
                same = record { total = refl; buffer = refl; bitmap = refl; count = refl };
                ahead = omega (arith, (==_iff _ _).0 unchanged);
                within = credit;
                how = inl (refl, refl);
              })
        | inr raised ↦
            rw (short, raised)
              (record {
                same = record { total = refl; buffer = refl; bitmap = refl; count = refl };
                ahead = omega arith;
                within = omega arith;
                how = inr (target - m.granted_to, ground (arith, raised), refl);
              })
      ]
    ]

-- One round of scheduling for one message that is not complete.
pub schedule_one-OneCredit :
    (now : ℕ) (s : ReceiverCore) (key : MsgKey) (m : InMsg) (granting : List MsgKey)
    → 2 ≤ s.cfg.grant_increment
    → m.received_bytes < m.total_len
    → m.granted_to ≤ m.total_len
    → (m' : InMsg) × (granting' : List MsgKey) × (pushed : List Action) × (schedule now
          (passed s key m granting)
        ≡ (passed s key m' granting', pushed))
      × OneCredit key m m' pushed
schedule_one-OneCredit now s key m granting some_credit part credit =
    let g = grant_msg s.cfg.grant_increment key now false m in
    elim (Bool-cases (wants_grant m)) [
      | inl wants ↦ (
        g.0,
        key ∷ [],
        g.1,
        schedule_one now s key m granting ∙ (rw (wants, append-nil g.1) refl),
        grant_msg-OneCredit s.cfg.grant_increment key now m some_credit part credit,
      )
      | inr sated ↦ (
        m,
        [],
        [],
        schedule_one now s key m granting ∙ (rw sated refl),
        record {
          same = record { total = refl; buffer = refl; bitmap = refl; count = refl };
          ahead = unfold wants_grant in ground (arith, sated);
          within = credit;
          how = inl (refl, refl);
        },
      )
    ]
