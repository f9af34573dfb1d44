-- ===== src/Sender/Passing.antt =====
-- sender.rs: `tick` as one pass over the messages that it keeps.
use agent_transport.Base.{
  ℕ, ◌≡◌, refl, ap, ◌∙◌, Bool, Option, none, some, List, [], ◌∷◌, ◌++◌, arith, if◌then◌else◌,
  Bool-cases, inl, inr,
}
use agent_transport.Base.Dict.{Dict, keys, get, IsDistinct, get-insert}
use agent_transport.Config.{
  MsgKey, msg_key_eq, key_eq, key_eq_iff, Action, TransportConfig, for_each,
}
use agent_transport.Sender.{OutMsg, SenderCore, tick_msg, tick_key, tick, retain, lingers, write}

-- All that `tick` sends for a map of messages: for each in turn, its probe if it has stalled.
unfoldable pub probes : TransportConfig → ℕ → Dict MsgKey OutMsg → List Action
probes cfg now [] = []
probes cfg now ((key, m) ∷ out) = (tick_msg cfg key now m).1 ++ probes cfg now out

-- The messages of a map after `tick` has passed over them.
abbrev pub ticked : TransportConfig → MsgKey → ℕ → Option OutMsg → Option OutMsg → Option OutMsg
ticked cfg key now none otherwise = otherwise
ticked cfg key now (some m) otherwise = some (tick_msg cfg key now m).0

-- Every message of `d` is one of the state's.
abbrev Within : Dict MsgKey OutMsg → SenderCore → Type 0
Within d s = (k : MsgKey) (m : OutMsg) → get d k ≡ some m → get s.out k ≡ some m

tick_key_present :
    (now : ℕ) (s : SenderCore) (key : MsgKey) (m : OutMsg)
    → get s.out key ≡ some m
    → tick_key now s key ≡ write s key (tick_msg s.cfg key now m)
unfolding tick_key
tick_key_present now s key m e = rw (e, tick_key)

get-write :
    (s : SenderCore) (k j : MsgKey) (r : OutMsg × List Action)
    → get (write s k r).0.out j ≡ (if key_eq k j then some r.0 else get s.out j)
unfolding write
get-write s k j r = get-insert s.out k j r.0

get-cons :
    (k j : MsgKey) (m : OutMsg) (d : Dict MsgKey OutMsg)
    → get ((k, m) ∷ d) j ≡ (if key_eq k j then some m else get d j)
unfolding get
get-cons k j m d = refl

Within-head :
    (s : SenderCore) (k : MsgKey) (m : OutMsg) (d : Dict MsgKey OutMsg)
    → Within ((k, m) ∷ d) s
    → get s.out k ≡ some m
Within-head s k m d h = h k m (rw (get-cons k k m d, (key_eq_iff k k).1 refl))

-- Writing a message that `d` does not hold leaves the messages of `d`.
Within-write :
    (s : SenderCore) (k : MsgKey) (m : OutMsg) (d : Dict MsgKey OutMsg) (r : OutMsg × List Action)
    → get d k ≡ none
    → Within ((k, m) ∷ d) s
    → Within d (write s k r).0
Within-write s k m d r absent h j n e =
    ground (arith, get-write s k j r, get-cons k j m d, key_eq_iff k j, h j n)

ticked-write :
    (now : ℕ) (s : SenderCore) (k key : MsgKey) (m : OutMsg) (d : Dict MsgKey OutMsg)
    → get d k ≡ none
    → let r = tick_msg s.cfg k now m in
      ticked s.cfg key now (get d key) (get (write s k r).0.out key)
      ≡ ticked s.cfg key now (get ((k, m) ∷ d) key) (get s.out key)
ticked-write now s k key m d absent =
    rw (get-write s k key (tick_msg s.cfg k now m), get-cons k key m d)
      (elim (Bool-cases (key_eq k key)) [
        | inl same ↦ rw (same, ← (key_eq_iff k key).0 same, absent)
        | inr other ↦ rw other
      ])

for_each-tick :
    (now : ℕ) (s : SenderCore) (k : MsgKey) (m : OutMsg) (ks : List MsgKey)
    → get s.out k ≡ some m
    → let r = tick_msg s.cfg k now m in
      for_each (tick_key now) s (k ∷ ks) ≡ (
        (for_each (tick_key now) (write s k r).0 ks).0,
        r.1 ++ (for_each (tick_key now) (write s k r).0 ks).1,
      )
unfolding for_each write
for_each-tick now s k m ks e =
    ap {B = SenderCore × List Action}
      (λ t. ((for_each (tick_key now) t.0 ks).0, t.1 ++ (for_each (tick_key now) t.0 ks).1))
      (tick_key_present now s k m e)

cfg-write : (s : SenderCore) (k : MsgKey) (r : OutMsg × List Action) → (write s k r).0.cfg ≡ s.cfg
unfolding write
cfg-write s k r = refl

tick_keys_lem :
    (now : ℕ) (d : Dict MsgKey OutMsg) (s : SenderCore) (key : MsgKey)
    → IsDistinct d
    → Within d s
    → let r = for_each (tick_key now) s (keys d) in
      (get r.0.out key ≡ ticked s.cfg key now (get d key) (get s.out key))
      × (r.1 ≡ probes s.cfg now d)
unfolding probes
tick_keys_lem now [] s key distinct h = unfold for_each get in (refl, refl)
tick_keys_lem now ((k, m) ∷ d) s key (absent, distinct) h =
    let r = tick_msg s.cfg k now m in
    let (found, sent) =
      tick_keys_lem now d (write s k r).0 key distinct (Within-write s k m d r absent h) in
    rw (for_each-tick now s k m (keys d) (Within-head s k m d h)) (
      (rw (cfg-write s k r) at found) ∙ ticked-write now s k key m d absent,
      ap (◌++◌ r.1) (rw (cfg-write s k r) at sent),
    )

abbrev pub kept : (OutMsg → Bool) → Option OutMsg → Option OutMsg
kept keep none = none
kept keep (some m) = if keep m then some m else none

get-retain :
    (keep : OutMsg → Bool) (d : Dict MsgKey OutMsg) (key : MsgKey)
    → IsDistinct d
    → get (retain keep d) key ≡ kept keep (get d key)
unfolding retain get
get-retain keep [] key distinct = refl
get-retain keep ((k, m) ∷ d) key (absent, distinct) =
    let rest = get-retain keep d key distinct in
    elim (Bool-cases (key_eq k key)) [
      | inl same ↦ elim (Bool-cases (keep m)) [
        | inl stays ↦ rw (stays, same, stays)
        | inr goes ↦ rw (goes, same, goes, rest, ← (key_eq_iff k key).0 same, absent)
      ]
      | inr other ↦ elim (Bool-cases (keep m)) [
        | inl stays ↦ rw (stays, other) rest
        | inr goes ↦ rw (goes, other) rest
      ]
    ]

pub IsDistinct-retain :
    (keep : OutMsg → Bool) (d : Dict MsgKey OutMsg) → IsDistinct d → IsDistinct (retain keep d)
unfolding retain
IsDistinct-retain keep [] h = tt
IsDistinct-retain keep ((k, m) ∷ d) (absent, distinct) =
    let rest = IsDistinct-retain keep d distinct in
    let gone : get (retain keep d) k ≡ none = rw (get-retain keep d k distinct, absent) in
    elim (Bool-cases (keep m)) [ inl stays ↦ rw stays (gone, rest) | inr goes ↦ rw goes rest ]

ticked_self :
    (cfg : TransportConfig) (key : MsgKey) (now : ℕ) (o : Option OutMsg)
    → ticked cfg key now o o ≡ ticked cfg key now o none
ticked_self cfg key now none = refl
ticked_self cfg key now (some m) = refl

-- `tick` passes over each of the messages that it keeps, once.
pub tick_live :
    (s : SenderCore) (now : ℕ) (key : MsgKey)
    → IsDistinct s.out
    → let live = retain (lingers now s.cfg.linger) s.out in
      (get (tick s now).0.out key
        ≡ ticked s.cfg key now (kept (lingers now s.cfg.linger) (get s.out key)) none)
      × ((tick s now).1 ≡ probes s.cfg now live)
unfolding tick
tick_live s now key distinct =
    let keep = lingers now s.cfg.linger in
    let live = retain keep s.out in
    let (found, sent) =
      tick_keys_lem now live (record s { out = live }) key (IsDistinct-retain keep s.out distinct)
        (λ k m e. e) in
    let over : get live key ≡ kept keep (get s.out key) = get-retain keep s.out key distinct in
    (found ∙ (ticked_self s.cfg key now (get live key) ∙ (rw over)), sent)
