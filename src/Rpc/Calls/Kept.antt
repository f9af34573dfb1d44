-- ===== src/Rpc/Calls/Kept.antt =====
-- Calls at the same time: what they leave in the map of waiters.
pub mod Runs
use agent_transport.Base.{
  ℕ, zero, suc, ◌+◌, ◌%◌, ◌^◌, ◌≤◌, ◌<◌, ◌≡◌, refl, sym, ap, ◌∙◌, subst, if◌then◌else◌, ◌⊎◌, Bool,
  true, false, max, Option, none, some, List, [], ◌∷◌, ◌++◌, map, length, length-append, length-set,
  length-map, get_elem?, set, All, All-append, All-set, All-get, All-mono, arith, nat_eq, ltb, ◌==◌,
  ==_iff, Bool-cases, Option-cases, inl, inr,
}
use mathlib.Core.Option.{some-injective}
use agent_transport.Base.Picks.{
  Any, Any-set, Any-set_there, Any-map, Any-append_left, Any-append_right,
}
use agent_transport.Base.Dict.{
  Dict, get, insert, remove, get-insert, get-insert_self, get-insert_ne, get-remove,
  get-remove_self, get-remove_ne,
}
use agent_transport.Config.{SocketAddr}
use agent_transport.Rpc.{
  decode_frame, encode_frame, dispatch, CallResult, returned, send_error, timed_out,
}
use agent_transport.Rpc.Attempts.{Answers, dispatch-some}
use agent_transport.Rpc.Calls.{
  Stage, inserts, removes, sends, listens, ends, Call, Threads, quiet, begin_call, stand, proceed,
  on_call, route, fill, receive_stage, receive, hand_over, Move, begins, runs, routes, hands, move,
  run_calls,
}
use agent_transport.Rpc.Calls.Answered.Routing.{dispatch-old, dispatch-from, routed_to}

-- A waiter is for the channel of a call that is under way and has got nothing yet, or it was left by
-- a call that failed to send.
abbrev pub Keeps : ℕ → Stage → Type 0
Keeps channel inserts = ⊥
Keeps channel removes = Unit
Keeps channel (sends c inbox) = (c ≡ channel) × (inbox ≡ none)
Keeps channel (listens c inbox) = (c ≡ channel) × (inbox ≡ none)
Keeps channel (ends (returned body)) = ⊥
Keeps channel (ends timed_out) = ⊥
Keeps channel (ends send_error) = Unit

abbrev pub KeptBy : ℕ → ℕ → Call → Type 0
KeptBy id channel call = (call.rpc_id ≡ id) × Keeps channel call.stage

pub record Kept (t : Threads) : Type 0 where
  pub owned :
      (id channel : ℕ) → get t.client.waiters id ≡ some channel → Any (KeptBy id channel) t.calls
  pub single :
      (a b channel : ℕ)
      → get t.client.waiters a ≡ some channel
      → get t.client.waiters b ≡ some channel
      → a ≡ b
  pub gone :
      (id k channel : ℕ) (body : List ℕ)
      → t.held ≡ some (id, (channel, body))
      → ¬ (get t.client.waiters k ≡ some channel)
  pub waiter_old :
      (id channel : ℕ) → get t.client.waiters id ≡ some channel → channel < t.next_channel
  pub held_old :
      (id channel : ℕ) (body : List ℕ)
      → t.held ≡ some (id, (channel, body))
      → channel < t.next_channel

-- A step that changes only where call n stands.
stand-Kept :
    (t : Threads) (n : ℕ) (call : Call) (stage : Stage)
    → Kept t
    → get_elem? t.calls n ≡ some call
    → ((id channel : ℕ)
        → get t.client.waiters id ≡ some channel
        → KeptBy id channel call
        → Keeps channel stage)
    → Kept (stand t n call stage)
stand-Kept t n call stage s e keeps = record {
  owned = λ id channel h.
      Any-set (KeptBy id channel) t.calls n call (record call { stage = stage }) e
        (λ k. (k.0, keeps id channel h k)) (s.owned id channel h);
  single = s.single;
  gone = s.gone;
  waiter_old = s.waiter_old;
  held_old = s.held_old;
}

Kept-sent :
    (t : Threads) (sent : List (SocketAddr × List ℕ))
    → Kept t
    → Kept (record t { client = record t.client { sent = sent } })
Kept-sent t sent s = record {
  owned = s.owned;
  single = s.single;
  gone = s.gone;
  waiter_old = s.waiter_old;
  held_old = s.held_old;
}

remove-old :
    (waiters : Dict ℕ ℕ) (k id channel : ℕ)
    → get (remove waiters k) id ≡ some channel
    → (get waiters id ≡ some channel) × ¬ (k ≡ id)
remove-old waiters k id channel h = elim (Bool-cases (k == id)) [
  | inl own ↦
      let gone : get (remove waiters k) id ≡ none = get-remove waiters k id ∙ (rw own refl) in
      cc (sym h ∙ gone)
  | inr other ↦ (
    sym (get-remove waiters k id ∙ (rw other refl)) ∙ h,
    λ same. cc (sym other ∙ (==_iff k id).1 same),
  )
]

Kept-remove :
    (t : Threads) (k : ℕ)
    → Kept t
    → Kept (record t { client = record t.client { waiters = remove t.client.waiters k } })
Kept-remove t k s = record {
  owned = λ id channel h. s.owned id channel (remove-old t.client.waiters k id channel h).0;
  single = λ a b channel h g.
      s.single a b channel (remove-old t.client.waiters k a channel h).0
        (remove-old t.client.waiters k b channel g).0;
  gone = λ id j channel body h g.
      s.gone id j channel body h (remove-old t.client.waiters k j channel g).0;
  waiter_old =
      λ id channel h. s.waiter_old id channel (remove-old t.client.waiters k id channel h).0;
  held_old = s.held_old;
}

insert-cases :
    (waiters : Dict ℕ ℕ) (k v id channel : ℕ)
    → get (insert waiters k v) id ≡ some channel
    → ((id ≡ k) × (channel ≡ v)) ⊎ (get waiters id ≡ some channel)
insert-cases waiters k v id channel h = elim (Bool-cases (k == id)) [
  | inl own ↦
      let newest : some channel ≡ some v = sym h ∙ (get-insert waiters k id v ∙ (rw own refl)) in
      inl (sym ((==_iff k id).0 own), some-injective channel v newest)
  | inr other ↦
      let before : get (insert waiters k v) id ≡ get waiters id =
        get-insert waiters k id v ∙ (rw other refl) in
      inr (sym before ∙ h)
]

abbrev started : Threads → ℕ → Call → Threads
started t n call = record t {
  client = record t.client { waiters = insert t.client.waiters call.rpc_id t.next_channel };
  next_channel = suc t.next_channel;
  calls =
      set t.calls n (record call { attempt = suc call.attempt; stage = sends t.next_channel none });
}

inserts-Kept :
    (t : Threads) (n : ℕ) (call : Call)
    → Kept t
    → get_elem? t.calls n ≡ some call
    → call.stage ≡ inserts
    → Kept (started t n call)
inserts-Kept t n call s e stage =
    let call' : Call = record call {
      attempt = suc call.attempt;
      stage = sends t.next_channel none;
    } in
    let cases = insert-cases t.client.waiters call.rpc_id t.next_channel in
    record {
      owned = λ id channel h. elim (cases id channel h) [
        | inl (own, newest) ↦
            Any-set_there (KeptBy id channel) t.calls n call call' e (sym own, (sym newest, refl))
        | inr before ↦
            Any-set (KeptBy id channel) t.calls n call call' e
              (λ k. absurd (subst (Keeps channel) stage k.1)) (s.owned id channel before)
      ];
      single = λ a b channel h g. elim (cases a channel h) [
        | inl (own, newest) ↦ elim (cases b channel g) [
          | inl (mine, too) ↦ own ∙ sym mine
          | inr before ↦ absurd (omega (arith, s.waiter_old b channel before))
        ]
        | inr before ↦ elim (cases b channel g) [
          | inl (mine, newest) ↦ absurd (omega (arith, s.waiter_old a channel before))
          | inr too ↦ s.single a b channel before too
        ]
      ];
      gone = λ id k channel body h g. elim (cases k channel g) [
        | inl (own, newest) ↦ omega (arith, s.held_old id channel body h)
        | inr before ↦ s.gone id k channel body h before
      ];
      waiter_old = λ id channel h. elim (cases id channel h) [
        | inl (own, newest) ↦ omega (arith, newest)
        | inr before ↦ omega (arith, s.waiter_old id channel before)
      ];
      held_old = λ id channel body h. omega (arith, s.held_old id channel body h);
    }

proceed-Kept :
    (t : Threads) (n : ℕ) (call : Call) (good : Bool) (stage : Stage)
    → Kept t
    → get_elem? t.calls n ≡ some call
    → call.stage ≡ stage
    → Kept (proceed t n call good stage)
unfolding proceed
proceed-Kept t n call good inserts s e at = elim (Bool-cases (ltb call.attempt call.limit)) [
  | inl more ↦ rw more (inserts-Kept t n call s e at)
  | inr all ↦
      rw all
        (stand-Kept t n call (ends timed_out) s e (λ id channel h k. subst (Keeps channel) at k.1))
]
proceed-Kept t n call true (sends channel inbox) s e at =
    stand-Kept _ n call (listens channel inbox)
      (Kept-sent t (t.client.sent ++ ((call.server, call.frame) ∷ [])) s) e
      (λ id c h k. subst (Keeps c) at k.1)
proceed-Kept t n call false (sends channel inbox) s e at =
    stand-Kept t n call (ends send_error) s e (λ id c h k. tt)
proceed-Kept t n call good (listens channel (some body)) s e at =
    stand-Kept t n call (ends (returned body)) s e (λ id c h k. cc ((subst (Keeps c) at k.1).1))
proceed-Kept t n call true (listens channel none) s e at = s
proceed-Kept t n call false (listens channel none) s e at =
    stand-Kept t n call removes s e (λ id c h k. tt)
proceed-Kept t n call good removes s e at =
    stand-Kept _ n call inserts (Kept-remove t call.rpc_id s) e
      (λ id c h k. (remove-old t.client.waiters call.rpc_id id c h).1 k.0)
proceed-Kept t n call good (ends result) s e at = s

pub on_call-Kept : (t : Threads) (n : ℕ) (good : Bool) → Kept t → Kept (on_call t n good)
unfolding on_call
on_call-Kept t n good s = elim (Option-cases (get_elem? t.calls n)) [
  | inl nobody ↦ rw (nobody, on_call) s
  | inr (call, e) ↦ rw (e, on_call) (proceed-Kept t n call good call.stage s e refl)
]
