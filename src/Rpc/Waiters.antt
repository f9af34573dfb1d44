-- ===== src/Rpc/Waiters.antt =====
-- What a call leaves in the client's map of waiters.
use agent_transport.Base.{
  ℕ, zero, suc, ◌≡◌, refl, ap, max, ◌&&◌, ◌||◌, ◌∙◌, subst, Bool, false, if◌then◌else◌, Option,
  none, some, List, [], ◌∷◌, arith, ◌==◌, ==_iff, nat_eq, Bool-cases, Option-cases, inl, inr,
}
use mathlib.Core.Option.{some-injective}
use agent_transport.Base.Dict.{Dict, get, insert, get-insert_self, get-remove, get-remove_self}
use agent_transport.Config.{SocketAddr}
use agent_transport.Rpc.{
  Client, decode_frame, encode_frame, dispatch, dispatch_all, await, Attempt, send_fails,
  CallResult, returned, send_error, timed_out, attempts, call_with_timeout,
}
use agent_transport.Rpc.Attempts.{Attempt-cases}

-- A message for the request takes its waiter out.
pub dispatch-gone :
    (waiters : Dict ℕ ℕ) (frame : List ℕ) (id to : ℕ) (body : List ℕ)
    → (dispatch waiters frame).1 ≡ some (id, (to, body))
    → get (dispatch waiters frame).0 id ≡ none
unfolding dispatch
dispatch-gone waiters frame id to body e = elim (Option-cases (decode_frame frame)) [
  | inl short ↦ cc (rw (short, dispatch) at e)
  | inr (r, decoded) ↦ elim (Option-cases (get waiters r.0)) [
    | inl nobody ↦ cc (rw (decoded, dispatch, nobody) at e)
    | inr (channel, found) ↦
        let same = some-injective _ (id, (to, body)) (rw (decoded, dispatch, found) at e) in
        let named : r.0 ≡ id = ap (λ x. x.0) same in
        rw (decoded, dispatch, found, ← named) (get-remove_self waiters r.0)
  ]
]

await-gone :
    (waiters : Dict ℕ ℕ) (rpc_id channel : ℕ) (frames : List (List ℕ)) (body : List ℕ)
    → (await waiters rpc_id channel frames).1 ≡ some body
    → get (await waiters rpc_id channel frames).0 rpc_id ≡ none
unfolding await
await-gone waiters rpc_id channel [] body e = cc e
await-gone waiters rpc_id channel (frame ∷ frames) body e =
    let rest = await-gone (dispatch waiters frame).0 rpc_id channel frames body in
    elim (Option-cases (dispatch waiters frame).1) [
      | inl nothing ↦ rw (nothing, await) (rest (rw (nothing, await) at e))
      | inr ((id, (to, b)), got) ↦ elim (Bool-cases (id == rpc_id && to == channel)) [
        | inl own ↦
            let named : id ≡ rpc_id = (==_iff id rpc_id).0 (ground (arith, own)) in
            rw (got, await, own) (rw (← named) (dispatch-gone waiters frame id to b got))
        | inr other ↦ rw (got, await, other) (rest (rw (got, await, other) at e))
      ]
    ]

-- Some message of the list is a response to the request, whatever its body.
abbrev pub names : ℕ → List ℕ → Bool
names rpc_id frame = elim (decode_frame frame) [ none ↦ false | some (id, body) ↦ id == rpc_id ]

unfoldable pub some_names : ℕ → List (List ℕ) → Bool
some_names rpc_id [] = false
some_names rpc_id (frame ∷ frames) = names rpc_id frame || some_names rpc_id frames

dispatch-names :
    (waiters : Dict ℕ ℕ) (frame : List ℕ) (rpc_id : ℕ)
    → get (dispatch waiters frame).0 rpc_id
      ≡ (if names rpc_id frame then none else get waiters rpc_id)
unfolding dispatch
dispatch-names waiters frame rpc_id = elim (Option-cases (decode_frame frame)) [
  | inl short ↦ rw (short, dispatch, names) refl
  | inr (r, decoded) ↦ elim (Option-cases (get waiters r.0)) [
    | inr (channel, found) ↦ rw (decoded, dispatch, names, found) (get-remove waiters r.0 rpc_id)
    | inl nobody ↦ elim (Bool-cases (r.0 == rpc_id)) [
      | inl own ↦
          let absent : get waiters rpc_id ≡ none =
            subst (λ (k : ℕ). get waiters k ≡ none) ((==_iff r.0 rpc_id).0 own) nobody in
          rw (decoded, dispatch, names, nobody, own) absent
      | inr other ↦ rw (decoded, dispatch, names, nobody, other) refl
    ]
  ]
]

dispatch_all-names :
    (waiters : Dict ℕ ℕ) (frames : List (List ℕ)) (rpc_id : ℕ)
    → get (dispatch_all waiters frames) rpc_id
      ≡ (if some_names rpc_id frames then none else get waiters rpc_id)
unfolding dispatch_all some_names
dispatch_all-names waiters [] rpc_id = refl
dispatch_all-names waiters (frame ∷ frames) rpc_id =
    dispatch_all-names (dispatch waiters frame).0 frames rpc_id
    ∙ (rw (dispatch-names waiters frame rpc_id) (ground arith))

-- The waiter that a call leaves for its request.
abbrev pub Leaves : (ℕ → Attempt) → ℕ → CallResult → Option ℕ → Type 0
Leaves env rpc_id (returned body) waiter = waiter ≡ none
Leaves env rpc_id timed_out waiter = waiter ≡ none
Leaves env rpc_id send_error waiter =
    (k : ℕ) × (frames : List (List ℕ)) × (env k ≡ send_fails frames)
    × (waiter ≡ (if some_names rpc_id frames then none else some k))

attempts-Leaves :
    (env : ℕ → Attempt) (server : SocketAddr) (rpc_id : ℕ) (frame : List ℕ) (n k : ℕ) (c : Client)
    → (n ≡ 0 → get c.waiters rpc_id ≡ none)
    → let r = attempts env server rpc_id frame n k c in
      Leaves env rpc_id r.1 (get r.0.waiters rpc_id)
unfolding attempts
attempts-Leaves env server rpc_id frame zero k c tried = tried refl
attempts-Leaves env server rpc_id frame (suc n) k c tried = elim (Attempt-cases (env k)) [
  | inl (frames, fails) ↦
      let left : get (dispatch_all (insert c.waiters rpc_id k) frames) rpc_id
          ≡ (if some_names rpc_id frames then none else some k) =
        dispatch_all-names (insert c.waiters rpc_id k) frames rpc_id
        ∙ (rw (get-insert_self c.waiters rpc_id k) refl) in
      rw (fails, attempts) (k, frames, fails, left)
  | inr (frames, heard) ↦
      let waiting = insert c.waiters rpc_id k in
      elim (Option-cases (await waiting rpc_id k frames).1) [
        | inr (body, got) ↦ rw (heard, attempts, got) (await-gone waiting rpc_id k frames body got)
        | inl nothing ↦
            let left = (await waiting rpc_id k frames).0 in
            rw (heard, attempts, nothing)
              (attempts-Leaves env server rpc_id frame n (suc k) _
                (λ last. get-remove_self left rpc_id))
      ]
]

-- A call that returns a body, or times out, leaves no waiter for its request in the client's map. A
-- call that fails in `send_to` leaves its attempt's waiter behind, unless a response to its number
-- comes while that `send_to` blocks.
pub call_with_timeout-Leaves :
    (env : ℕ → Attempt) (c : Client) (server : SocketAddr) (payload : List ℕ) (max_attempts : ℕ)
    → let r = call_with_timeout env c server payload max_attempts in
      Leaves env c.next_id r.1 (get r.0.waiters c.next_id)
unfolding call_with_timeout
call_with_timeout-Leaves env c server payload max_attempts =
    attempts-Leaves env server c.next_id (encode_frame c.next_id payload) (max max_attempts 1) 0 _
      (λ never. absurd (omega (arith, never)))
