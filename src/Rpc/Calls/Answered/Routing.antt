-- ===== src/Rpc/Calls/Answered/Routing.antt =====
-- Each step of the dispatcher keeps what holds of the calls.
use agent_transport.Base.{
  ℕ, ◌≡◌, refl, sym, ap, ◌∙◌, subst, if◌then◌else◌, Option, none, some, List, [], ◌∷◌, ◌++◌, map,
  length-map, All, arith, nat_eq, ◌==◌, ==_iff, Bool-cases, Option-cases, inl, inr,
}
use mathlib.Core.Option.{some-injective}
use agent_transport.Base.Picks.{Any, Any-append_left, Any-append_right}
use agent_transport.Base.Dict.{Dict, get, remove, get-remove}
use agent_transport.Rpc.{decode_frame, dispatch, returned, send_error, timed_out}
use agent_transport.Rpc.Attempts.{Answers, dispatch-some}
use agent_transport.Rpc.Calls.{
  Stage, inserts, removes, sends, listens, ends, Call, Threads, route, fill, receive_stage, receive,
  hand_over,
}
use agent_transport.Rpc.Calls.Answered.{Open, Got, Stands, Right, Sound, Right-keep, Numbered-map}

-- The dispatcher only takes waiters out.
pub dispatch-old :
    (waiters : Dict ℕ ℕ) (frame : List ℕ) (id to : ℕ)
    → get (dispatch waiters frame).0 id ≡ some to
    → get waiters id ≡ some to
unfolding dispatch
dispatch-old waiters frame id to h = elim (Option-cases (decode_frame frame)) [
  | inl junk ↦ rw (junk, dispatch) at h
  | inr (r, decoded) ↦ elim (Option-cases (get waiters r.0)) [
    | inl nobody ↦ rw (decoded, dispatch, nobody) at h
    | inr (channel, found) ↦
        let left : get (remove waiters r.0) id ≡ some to = rw (decoded, dispatch, found) at h in
        elim (Bool-cases (r.0 == id)) [
          | inl own ↦
              let gone : get (remove waiters r.0) id ≡ none =
                get-remove waiters r.0 id ∙ (rw own refl) in
              cc (sym left ∙ gone)
          | inr other ↦ sym (get-remove waiters r.0 id ∙ (rw other refl)) ∙ left
        ]
  ]
]

pub dispatch-from :
    (waiters : Dict ℕ ℕ) (frame : List ℕ) (id to : ℕ) (body : List ℕ)
    → (dispatch waiters frame).1 ≡ some (id, (to, body))
    → get waiters id ≡ some to
unfolding dispatch
dispatch-from waiters frame id to body h = elim (Option-cases (decode_frame frame)) [
  | inl junk ↦ cc (rw (junk, dispatch) at h)
  | inr (r, decoded) ↦ elim (Option-cases (get waiters r.0)) [
    | inl nobody ↦ cc (rw (decoded, dispatch, nobody) at h)
    | inr (channel, found) ↦
        let same =
          some-injective (r.0, (channel, r.1)) (id, (to, body))
            (rw (decoded, dispatch, found) at h) in
        let named : r.0 ≡ id = ap (λ x. x.0) same in
        let there : channel ≡ to = ap (λ x. x.1.0) same in
        subst (λ (k : ℕ). get waiters k ≡ some to) named (found ∙ ap some there)
  ]
]

abbrev pub routed_to : Threads → List ℕ → Threads
routed_to t frame = record t {
  client = record t.client { waiters = (dispatch t.client.waiters frame).0 };
  held = (dispatch t.client.waiters frame).1;
  heard = t.heard ++ (frame ∷ []);
}

route_free : (t : Threads) (frame : List ℕ) → Sound t → Sound (routed_to t frame)
route_free t frame s = record {
  right =
      Right-keep t (routed_to t frame)
        (record {
          grows = omega arith;
          waiting = λ id to below h. dispatch-old t.client.waiters frame id to h;
          taking = λ id to body h. inr (dispatch-from t.client.waiters frame id to body h);
          hearing = λ id body h. Any-append_left (Answers id body) t.heard (frame ∷ []) h;
        })
        s.right;
  routed = λ id to body h.
      Any-append_right (Answers id body) t.heard (frame ∷ [])
        (inl (dispatch-some t.client.waiters frame id to body h));
  held_old = λ id to body h. s.waiter_old id to (dispatch-from t.client.waiters frame id to body h);
  waiter_old = λ id to h. s.waiter_old id to (dispatch-old t.client.waiters frame id to h);
  numbered = s.numbered;
  next = s.next;
}

pub route-Sound : (t : Threads) (frame : List ℕ) → Sound t → Sound (route t frame)
unfolding route
route-Sound t frame s = elim (Option-cases t.held) [
  | inl free ↦ rw (free, route) (route_free t frame s)
  | inr (item, e) ↦ rw (e, route) s
]

-- A call of which the channel gets the body.
module _ (t : Threads) (id to : ℕ) (body : List ℕ) (s : Sound t)
    (e : t.held ≡ some (id, (to, body))) where
  abbrev after : Threads
  after = record t { held = none; calls = map (λ call. receive to body call) t.calls }

  Open-after : (rpc_id channel : ℕ) → Open t rpc_id channel → Open after rpc_id channel
  Open-after rpc_id channel (below, named, due) = (below, named, λ k b h. cc h)

  fill-Got :
      (rpc_id channel : ℕ) (inbox : Option (List ℕ))
      → Open t rpc_id channel
      → Got t.heard rpc_id inbox
      → Got t.heard rpc_id (if channel == to then fill body inbox else inbox)
  fill-Got rpc_id channel inbox (below, named, due) g = elim (Bool-cases (channel == to)) [
    | inr other ↦ rw other g
    | inl own ↦ rw own (
        (elim inbox as (λ i. Got t.heard rpc_id i → Got t.heard rpc_id (fill body i)) [
          | none ↦ λ h.
              let mine : id ≡ rpc_id =
                due id body
                  (e ∙ ap (λ (c : ℕ). some (id, (c, body))) (sym ((==_iff channel to).0 own))) in
              subst (λ (k : ℕ). Any (Answers k body) t.heard) mine (s.routed id to body e)
          | some first ↦ λ h. h
        ])
          g)
  ]

  receive-Stands :
      (call : Call) (stage : Stage)
      → Stands t call stage
      → Stands after (receive to body call) (receive_stage to body stage)
  receive-Stands call inserts h = tt
  receive-Stands call removes h = tt
  receive-Stands call (sends channel inbox) (o, g) =
      (Open-after call.rpc_id channel o, fill-Got call.rpc_id channel inbox o g)
  receive-Stands call (listens channel inbox) (o, g) =
      (Open-after call.rpc_id channel o, fill-Got call.rpc_id channel inbox o g)
  receive-Stands call (ends (returned b)) h = h
  receive-Stands call (ends timed_out) h = h
  receive-Stands call (ends send_error) h = tt

  All-received :
      (calls : List Call)
      → All (Right t) calls
      → All (Right after) (map (λ call. receive to body call) calls)
  All-received [] h = tt
  All-received (call ∷ calls) h =
      ((h.0.0, receive-Stands call call.stage h.0.1), All-received calls h.1)

  after-Sound : Sound after
  after-Sound = record {
    right = All-received t.calls s.right;
    routed = λ k c b h. cc h;
    held_old = λ k c b h. cc h;
    waiter_old = s.waiter_old;
    numbered = Numbered-map 1 (λ call. receive to body call) t.calls (λ call. refl) s.numbered;
    next = s.next ∙ (rw (length-map (λ call. receive to body call) t.calls) refl);
  }

pub hand_over-Sound : (t : Threads) → Sound t → Sound (hand_over t)
unfolding hand_over
hand_over-Sound t s = elim (Option-cases t.held) [
  | inl free ↦ rw (free, hand_over) s
  | inr ((id, (to, body)), e) ↦ rw (e, hand_over) (after-Sound t id to body s e)
]
