-- ===== src/Receiver/Frame.antt =====
-- What the scheduler leaves alone: it changes credit and times only, and sends only.
use agent_transport.Base.{
  ℕ, ◌≡◌, refl, ◌∙◌, Bool, false, Option, none, some, List, [], ◌∷◌, length, arith, All, All-append,
  Bool-cases, Option-cases, inl, inr,
}
use agent_transport.Base.Dict.{get, insert, get-insert, length-insert_present}
use agent_transport.Config.{MsgKey, msg_key_eq, key_eq, key_eq_iff, Action, send, deliver, for_each}
use agent_transport.Receiver.State.{InMsg, ReceiverCore}
use agent_transport.Receiver.Scheduler.{grant_msg, issue_grant, schedule, select}

-- Two views of a message with the same bytes.
pub record SameBytes (m m' : InMsg) : Type 0 where
  pub total : m'.total_len ≡ m.total_len
  pub buffer : m'.buf ≡ m.buf
  pub bitmap : m'.received ≡ m.received
  pub count : m'.received_bytes ≡ m.received_bytes

abbrev pub SameEntry : Option InMsg → Option InMsg → Type 0
SameEntry none none = Unit
SameEntry none (some m') = ⊥
SameEntry (some m) none = ⊥
SameEntry (some m) (some m') = SameBytes m m'

pub SameEntry-refl : (o : Option InMsg) → SameEntry o o
SameEntry-refl none = tt
SameEntry-refl (some m) = record { total = refl; buffer = refl; bitmap = refl; count = refl }

pub SameEntry-trans : (a b c : Option InMsg) → SameEntry a b → SameEntry b c → SameEntry a c
SameEntry-trans none none none p q = tt
SameEntry-trans none none (some z) p q = q
SameEntry-trans none (some y) c p q = absurd p
SameEntry-trans (some x) none c p q = absurd p
SameEntry-trans (some x) (some y) none p q = q
SameEntry-trans (some x) (some y) (some z) p q = record {
  total = q.total ∙ p.total;
  buffer = q.buffer ∙ p.buffer;
  bitmap = q.bitmap ∙ p.bitmap;
  count = q.count ∙ p.count;
}

pub record Frame (s s' : ReceiverCore) : Type 0 where
  pub config : s'.cfg ≡ s.cfg
  pub done : s'.completed ≡ s.completed
  pub entries : (key : MsgKey) → SameEntry (get s.incoming key) (get s'.incoming key)
  pub size : length s'.incoming ≡ length s.incoming

abbrev pub IsSend : Action → Type 0
IsSend (send dest bytes) = Unit
IsSend (deliver src msg_id bytes) = ⊥

Frame-refl : (s : ReceiverCore) → Frame s s
Frame-refl s = record {
  config = refl;
  done = refl;
  entries = λ key. SameEntry-refl (get s.incoming key);
  size = refl;
}

grant_msg-SameBytes :
    (increment : ℕ) (key : MsgKey) (now : ℕ) (force : Bool) (m : InMsg)
    → SameBytes m (grant_msg increment key now force m).0
unfolding grant_msg
grant_msg-SameBytes increment key now force m = record {
  total = ground arith;
  buffer = ground arith;
  bitmap = ground arith;
  count = ground arith;
}

grant_msg-IsSend :
    (increment : ℕ) (key : MsgKey) (now : ℕ) (force : Bool) (m : InMsg)
    → All IsSend (grant_msg increment key now force m).1
unfolding grant_msg
grant_msg-IsSend increment key now force m = ground arith

-- Writing a view of a message with the same bytes.
pub write-Frame :
    (s : ReceiverCore) (key : MsgKey) (m m' : InMsg)
    → get s.incoming key ≡ some m
    → SameBytes m m'
    → Frame s (record s { incoming = insert s.incoming key m' })
write-Frame s key m m' e same = record {
  config = refl;
  done = refl;
  entries = λ k. rw (get-insert s.incoming key k m') (elim (Bool-cases (key_eq key k)) [
    | inl here ↦ rw (here, ← (key_eq_iff key k).0 here, e) same
    | inr other ↦ rw other (SameEntry-refl (get s.incoming k))
  ]);
  size = length-insert_present s.incoming key m' m e;
}

pub Frame-trans : (a b c : ReceiverCore) → Frame a b → Frame b c → Frame a c
Frame-trans a b c p q = record {
  config = q.config ∙ p.config;
  done = q.done ∙ p.done;
  entries = λ k. SameEntry-trans _ _ _ (p.entries k) (q.entries k);
  size = q.size ∙ p.size;
}

pub issue_grant-Frame :
    (key : MsgKey) (now : ℕ) (force : Bool) (s : ReceiverCore)
    → Frame s (issue_grant key now force s).0 × All IsSend (issue_grant key now force s).1
unfolding issue_grant
issue_grant-Frame key now force s = elim (Option-cases (get s.incoming key)) [
  | inl e ↦ rw (e, issue_grant) (Frame-refl s, tt)
  | inr (m, e) ↦
      rw (e, issue_grant)
        (
          write-Frame s key m (grant_msg s.cfg.grant_increment key now force m).0 e
              (grant_msg-SameBytes s.cfg.grant_increment key now force m),
          grant_msg-IsSend s.cfg.grant_increment key now force m,
        )
]

pub for_each-Frame :
    (body : ReceiverCore → MsgKey → ReceiverCore × List Action)
    → ((s : ReceiverCore) (key : MsgKey) → Frame s (body s key).0 × All IsSend (body s key).1)
    → (s : ReceiverCore) (keys : List MsgKey)
    → Frame s (for_each body s keys).0 × All IsSend (for_each body s keys).1
unfolding for_each
for_each-Frame body each s [] = (Frame-refl s, tt)
for_each-Frame body each s (key ∷ keys) =
    let (first, sent) = each s key in
    let (rest, later) = for_each-Frame body each (body s key).0 keys in
    (Frame-trans s _ _ first rest, All-append IsSend _ _ sent later)

-- A round of scheduling keeps every message's bytes and the memory of delivered messages, and
-- delivers nothing.
pub schedule-Frame :
    (now : ℕ) (s : ReceiverCore) → Frame s (schedule now s).0 × All IsSend (schedule now s).1
unfolding schedule
schedule-Frame now s =
    let selected = select s.cfg now s.incoming in
    let (frame, sent) =
      for_each-Frame (λ s' key. issue_grant key now false s')
        (λ s' key. issue_grant-Frame key now false s') (record s { granting = selected })
        selected in
    (
      record {
        config = frame.config;
        done = frame.done;
        entries = frame.entries;
        size = frame.size;
      },
      sent,
    )
