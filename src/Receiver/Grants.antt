-- ===== src/Receiver/Grants.antt =====
-- The credit that a round of scheduling gives.
use agent_transport.Base.{
  ℕ, ◌+◌, ◌/◌, ◌≤◌, ◌≡◌, ◌≢◌, refl, ◌∙◌, min, max, Bool, true, false, not, ◌&&◌, ◌||◌, some, List,
  [], ◌∷◌, arith, leb, if◌then◌else◌, Bool-cases, Option-cases, inl, inr, le→leb, leb→le,
}
use agent_transport.Base.Dict.{get, get-insert, get-insert_ne, Every-get, IsDistinct}
use agent_transport.Config.{MsgKey, msg_key_eq, key_eq, key_eq_iff, for_each}
use agent_transport.Receiver.State.{InMsg, ReceiverCore, contains}
use agent_transport.Receiver.Scheduler.{grant_msg, issue_grant, schedule, select}
use agent_transport.Receiver.Frame.{issue_grant-Frame}
use agent_transport.Receiver.Selection.{starves, select-Selects}

-- From one view of a message to a later one, which differs in its credit only, and in the time of
-- its last GRANT. No credit is lost.
pub record Later (m m' : InMsg) : Type 0 where
  pub total : m'.total_len ≡ m.total_len
  pub count : m'.received_bytes ≡ m.received_bytes
  pub buffer : m'.buf ≡ m.buf
  pub bitmap : m'.received ≡ m.received
  pub progress : m'.last_progress ≡ m.last_progress
  pub asked : m'.unanswered_resends ≡ m.unanswered_resends
  pub kept : m.granted_to ≤ m'.granted_to

-- Credit for half an increment past the bytes that came, or for the whole message.
abbrev pub enough : ℕ → InMsg → Bool
enough increment m = leb (min m.total_len (m.received_bytes + increment / 2)) m.granted_to

grant_msg-Later :
    (increment : ℕ) (key : MsgKey) (now : ℕ) (force : Bool) (m : InMsg)
    → Later m (grant_msg increment key now force m).0
unfolding grant_msg
grant_msg-Later increment key now force m = record {
  total = ground arith;
  count = ground arith;
  buffer = ground arith;
  bitmap = ground arith;
  progress = ground arith;
  asked = ground arith;
  kept = ground arith;
}

-- `issue_grant` leaves no message short of half an increment: it grants up to a whole increment
-- past the bytes that came, within the message, if less than half of one is outstanding.
pub grant_msg_lem :
    (increment : ℕ) (key : MsgKey) (now : ℕ) (force : Bool) (m : InMsg)
    → 2 ≤ increment
    → let m' = (grant_msg increment key now force m).0 in
      (min m.total_len (m.received_bytes + increment / 2) ≤ m'.granted_to)
      × (m.granted_to ≤ m'.granted_to)
      × (m'.granted_to ≤ max m.granted_to (min m.total_len (m.received_bytes + increment)))
unfolding grant_msg
grant_msg_lem increment key now force m some_credit = (ground arith, ground arith, ground arith)

Later-enough :
    (increment : ℕ) (m m' : InMsg)
    → Later m m'
    → enough increment m ≡ true
    → enough increment m' ≡ true
Later-enough increment m m' l h = rw (l.total, l.count) (ground (arith, l.kept))

pub Later-refl : (m : InMsg) → Later m m
Later-refl m = record {
  total = refl;
  count = refl;
  buffer = refl;
  bitmap = refl;
  progress = refl;
  asked = refl;
  kept = omega arith;
}

pub Later-trans : (a b c : InMsg) → Later a b → Later b c → Later a c
Later-trans a b c p q = record {
  total = q.total ∙ p.total;
  count = q.count ∙ p.count;
  buffer = q.buffer ∙ p.buffer;
  bitmap = q.bitmap ∙ p.bitmap;
  progress = q.progress ∙ p.progress;
  asked = q.asked ∙ p.asked;
  kept = omega (arith, p.kept, q.kept);
}

-- The message of a key after a grant to some key, the same or another.
granted_view : ℕ → MsgKey → ℕ → MsgKey → InMsg → InMsg
granted_view increment k now key m =
    if key_eq k key then (grant_msg increment k now false m).0 else m

issue_grant_view :
    (s : ReceiverCore) (k key : MsgKey) (now : ℕ) (m : InMsg)
    → get s.incoming key ≡ some m
    → get (issue_grant k now false s).0.incoming key
      ≡ some (granted_view s.cfg.grant_increment k now key m)
unfolding granted_view issue_grant
issue_grant_view s k key now m e = elim (Bool-cases (key_eq k key)) [
  | inl same ↦
      let at_k : get s.incoming k ≡ some m = rw ((key_eq_iff k key).0 same) e in
      rw (at_k, issue_grant, same)
        (rw (get-insert s.incoming k key (grant_msg s.cfg.grant_increment k now false m).0, same)
          refl)
  | inr other ↦ elim (Option-cases (get s.incoming k)) [
    | inl absent ↦ rw (absent, issue_grant, other) e
    | inr (m', e') ↦
        rw (e', issue_grant, other)
          (rw
            (get-insert s.incoming k key (grant_msg s.cfg.grant_increment k now false m').0, other)
            e)
  ]
]

-- A grant to another message.
pub issue_grant_other :
    (now : ℕ) (force : Bool) (s : ReceiverCore) (k key : MsgKey)
    → k ≢ key
    → get (issue_grant k now force s).0.incoming key ≡ get s.incoming key
unfolding issue_grant
issue_grant_other now force s k key ne = elim (Option-cases (get s.incoming k)) [
  | inl absent ↦ rw (absent, issue_grant) refl
  | inr (m, e) ↦
      rw (e, issue_grant)
        (get-insert_ne s.incoming k key (grant_msg s.cfg.grant_increment k now force m).0 ne)
]

granted_view-Later :
    (increment : ℕ) (k : MsgKey) (now : ℕ) (key : MsgKey) (m : InMsg)
    → Later m (granted_view increment k now key m)
unfolding granted_view
granted_view-Later increment k now key m = elim (Bool-cases (key_eq k key)) [
  | inl same ↦ rw same (grant_msg-Later increment k now false m)
  | inr other ↦ rw other (Later-refl m)
]

granted_view-enough :
    (increment : ℕ) (k : MsgKey) (now : ℕ) (key : MsgKey) (m : InMsg)
    → 2 ≤ increment
    → key_eq k key ≡ true
    → enough increment (granted_view increment k now key m) ≡ true
unfolding granted_view
granted_view-enough increment k now key m some_credit same =
    let (much, kept, bounded) = grant_msg_lem increment k now false m some_credit in
    let l = grant_msg-Later increment k now false m in
    rw same (rw (l.total, l.count) (le→leb _ _ much))

cfg-issue_grant :
    (s : ReceiverCore) (k : MsgKey) (now : ℕ) → (issue_grant k now false s).0.cfg ≡ s.cfg
cfg-issue_grant s k now = (issue_grant-Frame k now false s).0.config

-- The message of a key after grants to some keys: it has enough credit if it is one of them, and
-- the increment is not trivial.
abbrev pub Credited : ReceiverCore → ReceiverCore → MsgKey → InMsg → Bool → Type 0
Credited s s' key m selected =
    (m' : InMsg) × (get s'.incoming key ≡ some m')
    × Later m m'
    × ((not (leb 2 s.cfg.grant_increment && selected) || enough s.cfg.grant_increment m') ≡ true)

grants_view :
    (now : ℕ) (s : ReceiverCore) (keys : List MsgKey) (key : MsgKey) (m : InMsg)
    → get s.incoming key ≡ some m
    → Credited s (for_each (λ s' k. issue_grant k now false s') s keys).0 key m (contains keys key)
unfolding for_each contains
grants_view now s [] key m e = (m, e, Later-refl m, ground arith)
grants_view now s (k ∷ keys) key m e =
    let view = granted_view s.cfg.grant_increment k now key m in
    let first = granted_view-Later s.cfg.grant_increment k now key m in
    let same = cfg-issue_grant s k now in
    let (m', found, later, much) =
      grants_view now (issue_grant k now false s).0 keys key view
        (issue_grant_view s k key now m e) in
    let much' = rw same at much in
    (
      m',
      found,
      Later-trans m view m' first later,
      elim (Bool-cases (key_eq k key)) [
        | inl here ↦ rw here (elim (Bool-cases (leb 2 s.cfg.grant_increment)) [
          | inl some_credit ↦
              rw
                (
                  some_credit,
                  Later-enough s.cfg.grant_increment view m' later (
                      granted_view-enough s.cfg.grant_increment k now key m (leb→le _ _ some_credit)
                        here),
                )
                refl
          | inr trivial ↦ rw trivial refl
        ])
        | inr other ↦ rw other much'
      ],
    )

-- After a round of scheduling a message is as before but for its credit and the time of its last
-- GRANT, and it loses no credit. If it is selected and the increment is at least 2, its credit goes
-- at least half an increment past the bytes that came, or covers the message.
pub schedule-Credited :
    (now : ℕ) (s : ReceiverCore) (key : MsgKey) (m : InMsg)
    → get s.incoming key ≡ some m
    → Credited s (schedule now s).0 key m (contains (select s.cfg now s.incoming) key)
unfolding schedule
schedule-Credited now s key m e =
    let selected = select s.cfg now s.incoming in
    grants_view now (record s { granting = selected }) selected key m e

-- With an increment of at least 2 bytes, and no message with two entries, no message starves: one
-- that wants credit and has had none for the starvation threshold has, after a round of scheduling,
-- credit for at least half an increment past the bytes that came, or for the whole message.
pub schedule_starving :
    (now : ℕ) (s : ReceiverCore) (key : MsgKey) (m : InMsg)
    → 2 ≤ s.cfg.grant_increment
    → IsDistinct s.incoming
    → get s.incoming key ≡ some m
    → starves s.cfg.starve_threshold now m ≡ true
    → (m' : InMsg) × (get (schedule now s).0.incoming key ≡ some m')
      × (min m.total_len (m.received_bytes + s.cfg.grant_increment / 2) ≤ m'.granted_to)
schedule_starving now s key m some_credit distinct e hungry =
    let keys = select s.cfg now s.incoming in
    let served =
      Every-get (λ k n. (not (starves s.cfg.starve_threshold now n) || contains keys k) ≡ true)
        s.incoming key m (select-Selects s.cfg now s.incoming distinct).served e in
    let there : contains keys key ≡ true = rw hungry at served in
    let (m', found, later, much) = schedule-Credited now s key m e in
    let much' = rw (le→leb _ _ some_credit, there, later.total, later.count) at much in
    (m', found, leb→le _ _ much')
