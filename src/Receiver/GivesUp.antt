-- ===== src/Receiver/GivesUp.antt =====
-- A message whose sender is dead is given up.
use agent_transport.Base.{
  ℕ, ◌+◌, ◌-◌, ◌≤◌, ◌<◌, ◌≡◌, refl, ap, ◌∙◌, true, false, Option, none, some, List, [], ◌∷◌, length,
  arith, ltb, Bool-cases, Option-cases, inl, inr, lt→ltb, le→ltb,
}
use agent_transport.Base.Dict.{Dict, keys, get}
use agent_transport.Config.{MsgKey, msg_key_eq, key_eq, key_eq_iff, for_each, for_each_inv}
use agent_transport.Receiver.Keys.{other_key}
use agent_transport.Receiver.State.{
  InMsg, ReceiverCore, contains, first_missing_offset, max_unanswered_resends,
}
use agent_transport.Receiver.Scheduler.{schedule}
use agent_transport.Receiver.Handlers.{then_schedule, tick_key, tick}
use agent_transport.Receiver.Frame.{schedule-Frame, SameEntry}
use agent_transport.Receiver.Grants.{Later, schedule-Credited}
use agent_transport.Receiver.Stalled.{
  HasHole, asked_again, tick_key_hole, tick_key_early, tick_key-none, tick_key-other, cfg-tick_key,
}

-- The message has been asked for at this time, or is gone.
abbrev IsSettled : ℕ → Option InMsg → Type 0
IsSettled now none = Unit
IsSettled now (some m) = m.last_progress ≡ now

tick_key_settled :
    (now : ℕ) (s : ReceiverCore) (key : MsgKey)
    → 0 < s.cfg.resend_timeout
    → IsSettled now (get s.incoming key)
    → tick_key now s key ≡ (s, [])
tick_key_settled now s key pos h = elim (Option-cases (get s.incoming key)) [
  | inl e ↦ tick_key-none now s key e
  | inr (m, e) ↦
      let at_now : m.last_progress ≡ now = rw e at h in tick_key_early now s key m e (omega arith)
]

asked_again-IsSettled : (now : ℕ) (m : InMsg) → IsSettled now (asked_again now m)
asked_again-IsSettled now m =
    elim (Bool-cases (ltb max_unanswered_resends (m.unanswered_resends + 1))) [
      | inl over ↦ rw over tt
      | inr fine ↦ rw fine refl
    ]

for_each_settled :
    (now : ℕ) (ks : List MsgKey) (s : ReceiverCore) (key : MsgKey)
    → 0 < s.cfg.resend_timeout
    → IsSettled now (get s.incoming key)
    → get (for_each (tick_key now) s ks).0.incoming key ≡ get s.incoming key
unfolding for_each
for_each_settled now [] s key pos h = refl
for_each_settled now (k ∷ ks) s key pos h = elim (Bool-cases (key_eq k key)) [
  | inl same ↦
      let still : tick_key now s k ≡ (s, []) =
        rw ((key_eq_iff k key).0 same) (tick_key_settled now s key pos h) in
      rw still (for_each_settled now ks s key pos h)
  | inr other ↦
      let kept = tick_key-other now s k key (other_key k key other) in
      for_each_settled now ks (tick_key now s k).0 key (rw (cfg-tick_key now s k) pos) (rw kept h)
      ∙ kept
]

for_each_hole :
    (now : ℕ) (ks : List MsgKey) (s : ReceiverCore) (key : MsgKey) (m : InMsg)
    → 0 < s.cfg.resend_timeout
    → contains ks key ≡ true
    → get s.incoming key ≡ some m
    → s.cfg.resend_timeout ≤ now - m.last_progress
    → HasHole s.cfg.packet_size m
    → get (for_each (tick_key now) s ks).0.incoming key ≡ asked_again now m
unfolding for_each contains
for_each_hole now [] s key m pos there e late hole = cc there
for_each_hole now (k ∷ ks) s key m pos there e late hole = elim (Bool-cases (key_eq k key)) [
  | inl same ↦
      let first : get (tick_key now s k).0.incoming key ≡ asked_again now m =
        rw ((key_eq_iff k key).0 same) (tick_key_hole now s key m e late hole) in
      for_each_settled now ks (tick_key now s k).0 key (rw (cfg-tick_key now s k) pos)
        (rw first (asked_again-IsSettled now m))
      ∙ first
  | inr other ↦
      let same = cfg-tick_key now s k in
      for_each_hole now ks (tick_key now s k).0 key m (rw same pos) (rw other at there)
        (tick_key-other now s k key (other_key k key other) ∙ e) (rw same late) (rw same hole)
]

contains-keys :
    (d : Dict MsgKey InMsg) (key : MsgKey) (m : InMsg)
    → get d key ≡ some m
    → contains (keys d) key ≡ true
unfolding get contains
contains-keys [] key m e = cc e
contains-keys ((k, n) ∷ d) key m e = elim (Bool-cases (key_eq k key)) [
  | inl same ↦ rw same refl
  | inr other ↦ rw other (contains-keys d key m (rw other at e))
]

-- One more request, at this time.
abbrev pub once_more : ℕ → InMsg → InMsg
once_more now m = record m { last_progress = now; unanswered_resends = m.unanswered_resends + 1 }

cfg-tick : (now : ℕ) (s : ReceiverCore) → (tick now s).0.cfg ≡ s.cfg
unfolding tick then_schedule
cfg-tick now s =
    (schedule-Frame now (for_each (tick_key now) s (keys s.incoming)).0).0.config
    ∙ for_each_inv (λ s'. s'.cfg ≡ s.cfg) (tick_key now) (λ s' k same. cfg-tick_key now s' k ∙ same)
        s (keys s.incoming) refl

absent_entry : (o : Option InMsg) → SameEntry none o → o ≡ none
absent_entry none h = refl
absent_entry (some m) h = absurd h

module _ (now : ℕ) (s : ReceiverCore) (key : MsgKey) (m : InMsg) where
  tick_asks :
      0 < s.cfg.resend_timeout
      → get s.incoming key ≡ some m
      → s.cfg.resend_timeout ≤ now - m.last_progress
      → HasHole s.cfg.packet_size m
      → m.unanswered_resends < max_unanswered_resends
      → (m' : InMsg) × (get (tick now s).0.incoming key ≡ some m') × Later (once_more now m) m'
  unfolding tick then_schedule
  tick_asks pos e late hole few =
      let there = contains-keys s.incoming key m e in
      let asked = for_each_hole now (keys s.incoming) s key m pos there e late hole in
      let more : ltb max_unanswered_resends (m.unanswered_resends + 1) ≡ false =
        le→ltb _ _ (omega arith) in
      let (m', found, later, much) =
        schedule-Credited now (for_each (tick_key now) s (keys s.incoming)).0 key (once_more now m)
          (asked ∙ (rw more)) in
      (m', found, later)

  tick_drops :
      0 < s.cfg.resend_timeout
      → get s.incoming key ≡ some m
      → s.cfg.resend_timeout ≤ now - m.last_progress
      → HasHole s.cfg.packet_size m
      → m.unanswered_resends ≡ max_unanswered_resends
      → get (tick now s).0.incoming key ≡ none
  unfolding tick then_schedule
  tick_drops pos e late hole full =
      let there = contains-keys s.incoming key m e in
      let asked = for_each_hole now (keys s.incoming) s key m pos there e late hole in
      let over : ltb max_unanswered_resends (m.unanswered_resends + 1) ≡ true =
        lt→ltb _ _ (omega arith) in
      let s' = (for_each (tick_key now) s (keys s.incoming)).0 in
      let gone : get s'.incoming key ≡ none = asked ∙ (rw over refl) in
      let same = rw gone at ((schedule-Frame now s').0.entries key) in
      absent_entry (get (schedule now s').0.incoming key) same

-- Ticks of the receiver.
unfoldable pub ticks : ReceiverCore → List ℕ → ReceiverCore
ticks s [] = s
ticks s (now ∷ times) = ticks (tick now s).0 times

-- Each time is at least `gap` after the one before.
abbrev pub Spaced : ℕ → ℕ → List ℕ → Type 0
Spaced gap last [] = Unit
Spaced gap last (now ∷ times) = (gap ≤ now - last) × Spaced gap now times

HasHole-Later :
    (pkt_size : ℕ) (m m' : InMsg)
    → m'.received ≡ m.received
    → m.granted_to ≤ m'.granted_to
    → HasHole pkt_size m
    → HasHole pkt_size m'
unfolding first_missing_offset
HasHole-Later pkt_size m m' same kept (off, missing, inside) =
    (off, rw same missing, omega (arith, kept))

Spaced-eq :
    (gap gap' last last' : ℕ) (times : List ℕ)
    → gap' ≡ gap
    → last' ≡ last
    → Spaced gap last times
    → Spaced gap' last' times
Spaced-eq gap gap' last last' times e e' h = rw (e, e') h

-- A message that misses a chunk inside its window is given up, if no more of it comes: after as
-- many ticks as are left of 41, each at least the resend timeout after the one before, the receiver
-- no longer holds it.
pub ticks_give_up :
    (times : List ℕ) (s : ReceiverCore) (key : MsgKey) (m : InMsg)
    → 0 < s.cfg.resend_timeout
    → get s.incoming key ≡ some m
    → HasHole s.cfg.packet_size m
    → Spaced s.cfg.resend_timeout m.last_progress times
    → m.unanswered_resends ≤ max_unanswered_resends
    → m.unanswered_resends + length times ≡ max_unanswered_resends + 1
    → get (ticks s times).incoming key ≡ none
unfolding ticks
ticks_give_up [] s key m pos e hole spaced alive enough = absurd (omega arith)
ticks_give_up (now ∷ []) s key m pos e hole (late, spaced) alive enough =
    tick_drops now s key m pos e late hole (omega arith)
ticks_give_up (now ∷ later ∷ times) s key m pos e hole (late, spaced) alive enough =
    let (m', found, l) = tick_asks now s key m pos e late hole (omega arith) in
    let same = cfg-tick now s in
    ticks_give_up (later ∷ times) (tick now s).0 key m' (rw same pos) found
      (rw same (HasHole-Later s.cfg.packet_size m m' l.bitmap l.kept hole))
      (Spaced-eq s.cfg.resend_timeout _ now _ (later ∷ times) (ap (λ c. c.resend_timeout) same)
        l.progress spaced)
      (omega (arith, l.asked)) (omega (arith, l.asked))
