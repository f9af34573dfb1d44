-- ===== src/Receiver/Loses.antt =====
-- What `tick` and the scheduler leave alone: they may give a message up, but they change no byte
-- of one, and they remember and deliver none.
use agent_transport.Base.{
  ℕ, ◌+◌, ◌-◌, ◌≡◌, refl, ◌∙◌, ◌⊎◌, true, Option, none, some, List, [], ◌∷◌, All, All-append, leb,
  ltb, Bool-cases, inl, inr, Option-cases,
}
use agent_transport.Base.Dict.{get, insert, remove, get-remove, keys}
use agent_transport.Config.{MsgKey, msg_key_eq, key_eq, Action, for_each}
use agent_transport.Receiver.State.{
  InMsg, ReceiverCore, contains, without, max_unanswered_resends, first_missing_offset,
}
use agent_transport.Receiver.Scheduler.{schedule}
use agent_transport.Receiver.Handlers.{
  request_resend, renew_grant, tick_stalled, tick_key, tick, then_schedule,
}
use agent_transport.Receiver.Frame.{
  SameBytes, SameEntry, SameEntry-refl, SameEntry-trans, Frame, IsSend, write-Frame,
  issue_grant-Frame, schedule-Frame,
}

-- An entry has gone, or has the same bytes.
abbrev pub KeptOrGone : Option InMsg → Option InMsg → Type 0
KeptOrGone o o' = (o' ≡ none) ⊎ SameEntry o o'

pub record Loses (s s' : ReceiverCore) : Type 0 where
  pub config : s'.cfg ≡ s.cfg
  pub done : s'.completed ≡ s.completed
  pub entries : (key : MsgKey) → KeptOrGone (get s.incoming key) (get s'.incoming key)

Frame-Loses : (s s' : ReceiverCore) → Frame s s' → Loses s s'
Frame-Loses s s' f = record {
  config = f.config;
  done = f.done;
  entries = λ key. inr (f.entries key);
}

Loses-refl : (s : ReceiverCore) → Loses s s
Loses-refl s = record {
  config = refl;
  done = refl;
  entries = λ key. inr (SameEntry-refl (get s.incoming key));
}

SameEntry-none : (o : Option InMsg) → SameEntry none o → o ≡ none
SameEntry-none none same = refl
SameEntry-none (some m) same = absurd same

KeptOrGone-trans : (a b c : Option InMsg) → KeptOrGone a b → KeptOrGone b c → KeptOrGone a c
KeptOrGone-trans a b c p (inl gone) = inl gone
KeptOrGone-trans a b c (inl gone) (inr same) = inl (SameEntry-none c (rw gone at same))
KeptOrGone-trans a b c (inr first) (inr second) = inr (SameEntry-trans a b c first second)

pub Loses-trans : (a b c : ReceiverCore) → Loses a b → Loses b c → Loses a c
Loses-trans a b c p q = record {
  config = q.config ∙ p.config;
  done = q.done ∙ p.done;
  entries = λ k. KeptOrGone-trans _ _ _ (p.entries k) (q.entries k);
}

-- A call that loses at most messages, and sends at most.
abbrev pub Quiet : ReceiverCore → ReceiverCore × List Action → Type 0
Quiet s r = Loses s r.0 × All IsSend r.1

remove-Loses :
    (s : ReceiverCore) (key : MsgKey)
    → Loses s (record s { incoming = remove s.incoming key; granting = without s.granting key })
remove-Loses s key = record {
  config = refl;
  done = refl;
  entries = λ k. rw (get-remove s.incoming key k) (elim (Bool-cases (key_eq key k)) [
    | inl here ↦ rw here (inl refl)
    | inr other ↦ rw other (inr (SameEntry-refl (get s.incoming k)))
  ]);
}

touch-Loses :
    (s : ReceiverCore) (key : MsgKey) (m m' : InMsg)
    → get s.incoming key ≡ some m
    → SameBytes m m'
    → Loses s (record s { incoming = insert s.incoming key m' })
touch-Loses s key m m' e same = Frame-Loses s _ (write-Frame s key m m' e same)

request_resend-Quiet :
    (now : ℕ) (s : ReceiverCore) (key : MsgKey) (m : InMsg) (off : ℕ)
    → get s.incoming key ≡ some m
    → Quiet s (request_resend now s key m off)
unfolding request_resend
request_resend-Quiet now s key m off e =
    elim (Bool-cases (ltb max_unanswered_resends (m.unanswered_resends + 1))) [
      | inl over ↦ rw over (remove-Loses s key, (tt, tt))
      | inr fine ↦ rw fine (
        touch-Loses s key m
            (record m { last_progress = now; unanswered_resends = m.unanswered_resends + 1 }) e
            (record { total = refl; buffer = refl; bitmap = refl; count = refl }),
        (tt, tt),
      )
    ]

renew_grant-Quiet :
    (now : ℕ) (s : ReceiverCore) (key : MsgKey) (m : InMsg)
    → get s.incoming key ≡ some m
    → Quiet s (renew_grant now s key m)
unfolding renew_grant
renew_grant-Quiet now s key m e =
    let touched =
      touch-Loses s key m (record m { last_progress = now }) e
        (record { total = refl; buffer = refl; bitmap = refl; count = refl }) in
    elim (Bool-cases (leb s.cfg.grant_timeout (now - m.last_progress))) [
      | inr early ↦ rw early (Loses-refl s, tt)
      | inl late ↦ elim (Bool-cases (contains s.granting key)) [
        | inr other ↦ rw (late, other) (touched, tt)
        | inl granted ↦
            let (frame, sent) =
              issue_grant-Frame key now true (record s {
                incoming = insert s.incoming key (record m { last_progress = now });
              }) in
            rw (late, granted) (Loses-trans s _ _ touched (Frame-Loses _ _ frame), sent)
      ]
    ]

tick_stalled-Quiet :
    (now : ℕ) (s : ReceiverCore) (key : MsgKey) (m : InMsg) (missing : Option ℕ)
    → get s.incoming key ≡ some m
    → Quiet s (tick_stalled now s key m missing)
unfolding tick_stalled
tick_stalled-Quiet now s key m none e = renew_grant-Quiet now s key m e
tick_stalled-Quiet now s key m (some off) e = elim (Bool-cases (ltb off m.granted_to)) [
  | inl hole ↦ rw hole (request_resend-Quiet now s key m off e)
  | inr whole ↦ rw whole (renew_grant-Quiet now s key m e)
]

tick_key-Quiet : (now : ℕ) (s : ReceiverCore) (key : MsgKey) → Quiet s (tick_key now s key)
unfolding tick_key
tick_key-Quiet now s key = elim (Option-cases (get s.incoming key)) [
  | inl e ↦ rw (e, tick_key) (Loses-refl s, tt)
  | inr (m, e) ↦ elim (Bool-cases (ltb (now - m.last_progress) s.cfg.resend_timeout)) [
    | inl early ↦ rw (e, tick_key, early) (Loses-refl s, tt)
    | inr late ↦
        rw (e, tick_key, late)
          (tick_stalled-Quiet now s key m (first_missing_offset m s.cfg.packet_size) e)
  ]
]

for_each-Quiet :
    (body : ReceiverCore → MsgKey → ReceiverCore × List Action)
    → ((s : ReceiverCore) (key : MsgKey) → Quiet s (body s key))
    → (s : ReceiverCore) (keys : List MsgKey) → Quiet s (for_each body s keys)
unfolding for_each
for_each-Quiet body each s [] = (Loses-refl s, tt)
for_each-Quiet body each s (key ∷ keys) =
    let (first, sent) = each s key in
    let (rest, later) = for_each-Quiet body each (body s key).0 keys in
    (Loses-trans s _ _ first rest, All-append IsSend _ _ sent later)

pub schedule-Quiet : (now : ℕ) (s : ReceiverCore) → Quiet s (schedule now s)
schedule-Quiet now s = let (frame, sent) = schedule-Frame now s in (Frame-Loses s _ frame, sent)

then_schedule-Quiet :
    (now : ℕ) (s : ReceiverCore) (r : ReceiverCore × List Action)
    → Quiet s r
    → Quiet s (then_schedule now r)
unfolding then_schedule
then_schedule-Quiet now s r (loses, sent) =
    let (loses', later) = schedule-Quiet now r.0 in
    (Loses-trans s r.0 _ loses loses', All-append IsSend _ _ sent later)

pub tick-Quiet : (now : ℕ) (s : ReceiverCore) → Quiet s (tick now s)
unfolding tick
tick-Quiet now s =
    then_schedule-Quiet now s _ (for_each-Quiet (tick_key now) (tick_key-Quiet now) s _)
