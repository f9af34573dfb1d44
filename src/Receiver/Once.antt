-- ===== src/Receiver/Once.antt =====
-- No message is delivered twice, whatever comes, as long as the memory of the receiver lasts.
use agent_transport.Base.{
  ◌+◌, ◌≤◌, ◌<◌, ◌≡◌, refl, sym, ap, ◌∙◌, subst, false, List, [], ◌∷◌, ◌++◌, append-nil,
  append_assoc, length, length-append, arith, lt→leb,
}
use agent_transport.Config.{MsgKey, msg_key_eq, key_eq_iff, Action, TransportConfig}
use agent_transport.Receiver.Keys.{contains-append_one}
use agent_transport.Receiver.State.{ReceiverCore, new as new_receiver, contains, completed_cache}
use agent_transport.Receiver.Handlers.{Outcome, returns, panics, handle_data, remember, tick}
use agent_transport.Receiver.Invariant.{Event, arrives, ticks}
use agent_transport.Receiver.Steps.{
  delivered_keys, delivered_keys-append, play, Halves, and_then-Halves, Steps, StepsIf, silent,
  fresh, handle_data-StepsIf, tick-Steps,
}

-- No key occurs twice.
abbrev pub AllDifferent : List MsgKey → Type 0
AllDifferent [] = Unit
AllDifferent (key ∷ keys) = (contains keys key ≡ false) × AllDifferent keys

AllDifferent-append_one :
    (keys : List MsgKey) (key : MsgKey)
    → contains keys key ≡ false
    → AllDifferent keys
    → AllDifferent (keys ++ (key ∷ []))
unfolding contains
AllDifferent-append_one [] key new h = (refl, tt)
AllDifferent-append_one (k ∷ keys) key new (first, rest) = (
  rw (contains-append_one keys key k) (ground (arith, key_eq_iff key k, key_eq_iff k key)),
  AllDifferent-append_one keys key (ground arith) rest,
)

remember_short :
    (keys : List MsgKey) (key : MsgKey)
    → length keys < completed_cache
    → remember keys key ≡ keys ++ (key ∷ [])
unfolding remember
remember_short keys key short = rw (lt→leb _ _ short)

-- The memory of the receiver after some calls: what it was, and what they delivered.
pub record Recorded (s : ReceiverCore) (r : ReceiverCore × List Action) : Type 0 where
  pub log : r.0.completed ≡ s.completed ++ delivered_keys r.1
  pub different : AllDifferent r.0.completed

-- The memory has room for what is delivered.
abbrev pub Fits : ReceiverCore → List Action → Type 0
Fits s pushed = length s.completed + length (delivered_keys pushed) ≤ completed_cache

Steps-Recorded :
    (s : ReceiverCore) (r : ReceiverCore × List Action)
    → AllDifferent s.completed
    → Fits s r.1
    → Steps s r
    → Recorded s r
Steps-Recorded s r h fits (silent same none_yet) = record {
  log = same ∙ (rw (none_yet) (sym (append-nil s.completed)));
  different = rw same h;
}
Steps-Recorded s r h fits (fresh key unseen grows one) =
    let short : length s.completed < completed_cache = omega (arith, ap length one) in
    let grows' = grows ∙ remember_short s.completed key short in
    record {
      log = grows' ∙ (rw one refl);
      different = rw grows' (AllDifferent-append_one s.completed key unseen h);
    }

Recorded-trans :
    (s : ReceiverCore) (a b : ReceiverCore × List Action)
    → Recorded s a
    → Recorded a.0 b
    → Recorded s (b.0, a.1 ++ b.1)
Recorded-trans s a b p q = record {
  log =
      q.log
      ∙ (rw (p.log, delivered_keys-append a.1 b.1)
          (append_assoc s.completed (delivered_keys a.1) (delivered_keys b.1)));
  different = q.different;
}

then-Recorded :
    (s : ReceiverCore) (a b : ReceiverCore × List Action)
    → AllDifferent s.completed
    → Fits s (a.1 ++ b.1)
    → Steps s a
    → (AllDifferent a.0.completed → Fits a.0 b.1 → Recorded a.0 b)
    → Recorded s (b.0, a.1 ++ b.1)
then-Recorded s a b h fits step more =
    let both : length (delivered_keys (a.1 ++ b.1))
        ≡ length (delivered_keys a.1) + length (delivered_keys b.1) =
      rw (delivered_keys-append a.1 b.1)
        (length-append (delivered_keys a.1) (delivered_keys b.1)) in
    let p = Steps-Recorded s a h (omega arith) step in
    let longer = length-append s.completed (delivered_keys a.1) in
    let q = more p.different (rw p.log (omega arith)) in Recorded-trans s a b p q

-- A first half that is one step, and a second half that keeps the record.
Halves-Recorded :
    (s : ReceiverCore) (o : Outcome) (f : ReceiverCore → Outcome) (r : ReceiverCore × List Action)
    → Halves o f r
    → StepsIf s o
    → AllDifferent s.completed
    → Fits s r.1
    → ((a : ReceiverCore) (b : ReceiverCore × List Action)
        → f a ≡ returns b
        → AllDifferent a.completed
        → Fits a b.1
        → Recorded a b)
    → Recorded s r
Halves-Recorded s o f r p steps h fits more =
    let step : Steps s p.first = subst (StepsIf s) p.first_returns steps in
    rw (p.whole) (
      then-Recorded s p.first p.rest h (subst (Fits s) (ap (λ c. c.1) p.whole) fits) step
        (more p.first.0 p.rest p.rest_returns))

play-Recorded :
    (s : ReceiverCore) (events : List Event) (r : ReceiverCore × List Action)
    → AllDifferent s.completed
    → play s events ≡ returns r
    → Fits s r.1
    → Recorded s r
unfolding play
play-Recorded s [] r h e fits =
    unfold delivered_keys in
    subst (Recorded s) (ap (λ o. elim o [ returns c ↦ c | panics ↦ r ]) e)
      (record { log = sym (append-nil s.completed); different = h })
play-Recorded s (ticks now ∷ events) r h e fits =
    Halves-Recorded s (returns (tick now s)) (λ s'. play s' events) r
      (and_then-Halves (returns (tick now s)) (λ s'. play s' events) r e) (tick-Steps now s) h fits
      (λ a b rest different room. play-Recorded a events b different rest room)
play-Recorded s (arrives src pkt payload now ∷ events) r h e fits =
    let o = handle_data s src pkt payload now in
    Halves-Recorded s o (λ s'. play s' events) r (and_then-Halves o (λ s'. play s' events) r e)
      (handle_data-StepsIf s src pkt payload now) h fits
      (λ a b rest different room. play-Recorded a events b different rest room)

-- As long as a new receiver delivers at most 4096 messages, it delivers none of them twice, whatever
-- packets come, repeated or forged, and whenever it ticks: the keys of what it delivers are all
-- different, and they are what it remembers.
pub play_once :
    (cfg : TransportConfig) (events : List Event) (r : ReceiverCore × List Action)
    → play (new_receiver cfg) events ≡ returns r
    → length (delivered_keys r.1) ≤ completed_cache
    → AllDifferent (delivered_keys r.1) × (r.0.completed ≡ delivered_keys r.1)
unfolding new_receiver
play_once cfg events r e fits =
    let p = play-Recorded (new_receiver cfg) events r tt e (omega arith) in
    (subst AllDifferent p.log p.different, p.log)
