-- ===== src/Rpc/Calls/Answered/Moves.antt =====
-- Each step of a call keeps what holds of the calls.
use agent_transport.Base.{
  ℕ, suc, ◌≤◌, ◌<◌, ◌≡◌, refl, sym, ◌∙◌, ◌⊎◌, Bool, true, false, none, some, List, [], ◌∷◌, ◌++◌,
  length-set, get_elem?, set, All-set, All-get, arith, nat_eq, ltb, ◌==◌, ==_iff, Bool-cases,
  Option-cases, inl, inr,
}
use mathlib.Core.Option.{some-injective}
use agent_transport.Base.Dict.{get, insert, remove, get-insert, get-remove}
use agent_transport.Config.{SocketAddr}
use agent_transport.Rpc.{returned, send_error, timed_out}
use agent_transport.Rpc.Calls.{
  Stage, inserts, removes, sends, listens, ends, Call, Threads, stand, proceed, on_call,
}
use agent_transport.Rpc.Calls.Answered.{Stands, Right, Sound, Changes, Right-keep, Numbered-set}

-- A step of call n, on a client whose dispatcher does not move.
record Replaces (t t' : Threads) (n : ℕ) (call call' : Call) : Type 0 where
  changes : Changes t t'
  found : get_elem? t.calls n ≡ some call
  set_there : t'.calls ≡ set t.calls n call'
  same_number : call'.rpc_id ≡ call.rpc_id
  same_next : t'.client.next_id ≡ t.client.next_id
  same_held : t'.held ≡ t.held
  same_heard : t'.heard ≡ t.heard
  waiter_old : (id to : ℕ) → get t'.client.waiters id ≡ some to → to < t'.next_channel

Replaces-Sound :
    (t t' : Threads) (n : ℕ) (call call' : Call)
    → Sound t
    → Replaces t t' n call call'
    → Right t' call'
    → Sound t'
Replaces-Sound t t' n call call' s r now = record {
  right =
      rw r.set_there (All-set (Right t') t.calls n call' (Right-keep t t' r.changes s.right) now);
  routed = λ id to body e. rw r.same_heard (s.routed id to body (sym r.same_held ∙ e));
  held_old =
      λ id to body e. omega (arith, s.held_old id to body (sym r.same_held ∙ e), r.changes.grows);
  waiter_old = r.waiter_old;
  numbered = rw r.set_there (Numbered-set 1 t.calls n call call' r.found r.same_number s.numbered);
  next = r.same_next ∙ (s.next ∙ (rw (r.set_there, length-set t.calls n call') refl));
}

-- A step that leaves the waiters alone too.
stand-Sound :
    (t : Threads) (n : ℕ) (call : Call) (stage : Stage)
    → Sound t
    → get_elem? t.calls n ≡ some call
    → call.attempt ≤ call.limit
    → Stands (stand t n call stage) (record call { stage = stage }) stage
    → Sound (stand t n call stage)
stand-Sound t n call stage s e few now =
    Replaces-Sound t (stand t n call stage) n call (record call { stage = stage }) s
      (record {
        changes = record {
          grows = omega arith;
          waiting = λ id to below h. h;
          taking = λ id to body h. inl h;
          hearing = λ id body h. h;
        };
        found = e;
        set_there = refl;
        same_number = refl;
        same_next = refl;
        same_held = refl;
        same_heard = refl;
        waiter_old = s.waiter_old;
      })
      (few, now)

Sound-sent :
    (t : Threads) (sent : List (SocketAddr × List ℕ))
    → Sound t
    → Sound (record t { client = record t.client { sent = sent } })
Sound-sent t sent s = record {
  right = s.right;
  routed = s.routed;
  held_old = s.held_old;
  waiter_old = s.waiter_old;
  numbered = s.numbered;
  next = s.next;
}

-- An attempt begins: the waiter of the request is the new channel.
inserts-Sound :
    (t : Threads) (n : ℕ) (call : Call)
    → Sound t
    → get_elem? t.calls n ≡ some call
    → call.attempt < call.limit
    → Sound (record t {
      client = record t.client { waiters = insert t.client.waiters call.rpc_id t.next_channel };
      next_channel = suc t.next_channel;
      calls =
          set t.calls n
            (record call { attempt = suc call.attempt; stage = sends t.next_channel none });
    })
inserts-Sound t n call s e more =
    Replaces-Sound t _ n call
      (record call { attempt = suc call.attempt; stage = sends t.next_channel none }) s
      (record {
        changes = record {
          grows = omega arith;
          waiting = λ id to below h. elim (at id to h) [
            | inl (same, newest) ↦ absurd (omega (arith, newest))
            | inr before ↦ before
          ];
          taking = λ id to body h. inl h;
          hearing = λ id body h. h;
        };
        found = e;
        set_there = refl;
        same_number = refl;
        same_next = refl;
        same_held = refl;
        same_heard = refl;
        waiter_old = λ id to h. elim (at id to h) [
          | inl (same, newest) ↦ omega (arith, newest)
          | inr before ↦ omega (arith, s.waiter_old id to before)
        ];
      })
      (
        omega arith,
        (
          (
            omega arith,
            λ id h. elim (at id t.next_channel h) [
              | inl (same, newest) ↦ same
              | inr before ↦ absurd (omega (arith, s.waiter_old id t.next_channel before))
            ],
            λ id body h. absurd (omega (arith, s.held_old id t.next_channel body h)),
          ),
          tt,
        ),
      )
  where
    at :
        (id to : ℕ)
        → get (insert t.client.waiters call.rpc_id t.next_channel) id ≡ some to
        → ((id ≡ call.rpc_id) × (to ≡ t.next_channel)) ⊎ (get t.client.waiters id ≡ some to)
    at id to h = elim (Bool-cases (call.rpc_id == id)) [
      | inl own ↦ inl (
        sym ((==_iff call.rpc_id id).0 own),
        some-injective to t.next_channel
            (sym h ∙ (get-insert t.client.waiters call.rpc_id id t.next_channel ∙ (rw own refl))),
      )
      | inr other ↦
          inr
            (sym (get-insert t.client.waiters call.rpc_id id t.next_channel ∙ (rw other refl)) ∙ h)
    ]

-- An attempt is over.
removes-Sound :
    (t : Threads) (n : ℕ) (call : Call)
    → Sound t
    → get_elem? t.calls n ≡ some call
    → call.attempt ≤ call.limit
    → Sound (
        stand
          (record t { client = record t.client { waiters = remove t.client.waiters call.rpc_id } })
          n
          call
          inserts)
removes-Sound t n call s e few =
    Replaces-Sound t _ n call (record call { stage = inserts }) s
      (record {
        changes = record {
          grows = omega arith;
          waiting = λ id to below h. stays id to h;
          taking = λ id to body h. inl h;
          hearing = λ id body h. h;
        };
        found = e;
        set_there = refl;
        same_number = refl;
        same_next = refl;
        same_held = refl;
        same_heard = refl;
        waiter_old = λ id to h. s.waiter_old id to (stays id to h);
      })
      (few, tt)
  where
    stays :
        (id to : ℕ)
        → get (remove t.client.waiters call.rpc_id) id ≡ some to
        → get t.client.waiters id ≡ some to
    stays id to h = elim (Bool-cases (call.rpc_id == id)) [
      | inl own ↦
          let gone : get (remove t.client.waiters call.rpc_id) id ≡ none =
            get-remove t.client.waiters call.rpc_id id ∙ (rw own refl) in
          cc (sym h ∙ gone)
      | inr other ↦ sym (get-remove t.client.waiters call.rpc_id id ∙ (rw other refl)) ∙ h
    ]

proceed-Sound :
    (t : Threads) (n : ℕ) (call : Call) (good : Bool) (stage : Stage)
    → Sound t
    → get_elem? t.calls n ≡ some call
    → call.attempt ≤ call.limit
    → Stands t call stage
    → Sound (proceed t n call good stage)
unfolding proceed
proceed-Sound t n call good inserts s e few now = elim (Bool-cases (ltb call.attempt call.limit)) [
  | inl more ↦ rw more (inserts-Sound t n call s e (ground (arith, more)))
  | inr all ↦ rw all (stand-Sound t n call (ends timed_out) s e few (ground (arith, all)))
]
proceed-Sound t n call true (sends channel inbox) s e few now =
    stand-Sound _ n call (listens channel inbox)
      (Sound-sent t (t.client.sent ++ ((call.server, call.frame) ∷ [])) s) e few now
proceed-Sound t n call false (sends channel inbox) s e few now =
    stand-Sound t n call (ends send_error) s e few tt
proceed-Sound t n call good (listens channel (some body)) s e few now =
    stand-Sound t n call (ends (returned body)) s e few now.1
proceed-Sound t n call true (listens channel none) s e few now = s
proceed-Sound t n call false (listens channel none) s e few now =
    stand-Sound t n call removes s e few tt
proceed-Sound t n call good removes s e few now = removes-Sound t n call s e few
proceed-Sound t n call good (ends result) s e few now = s

pub on_call-Sound : (t : Threads) (n : ℕ) (good : Bool) → Sound t → Sound (on_call t n good)
unfolding on_call
on_call-Sound t n good s = elim (Option-cases (get_elem? t.calls n)) [
  | inl nobody ↦ rw (nobody, on_call) s
  | inr (call, e) ↦
      let (few, now) = All-get (Right t) t.calls n call s.right e in
      rw (e, on_call) (proceed-Sound t n call good call.stage s e few now)
]
