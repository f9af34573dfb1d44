-- ===== src/Rpc/Attempts.antt =====
-- What a call of the client sends, and what it returns.
use agent_transport.Base.{
  ℕ, zero, suc, ◌+◌, ◌≤◌, ◌<◌, ◌≡◌, ◌⊎◌, ◌&&◌, refl, sym, ap, ◌∙◌, max, some, List, [], ◌∷◌, ◌++◌,
  append_assoc, append-nil, replicate, arith, ◌==◌, ==_iff, nat_eq, Bool-cases, Option-cases, inl,
  inr,
}
use mathlib.Core.Option.{some-injective}
use agent_transport.Base.Dict.{Dict, get, insert, remove}
use agent_transport.Config.{SocketAddr}
use agent_transport.Rpc.{
  Client, decode_frame, encode_frame, dispatch, await, Attempt, send_fails, hears, CallResult,
  returned, send_error, timed_out, attempts, call_with_timeout,
}

-- The message is a response to the request.
abbrev pub Answers : ℕ → List ℕ → List ℕ → Type 0
Answers rpc_id body frame = decode_frame frame ≡ some (rpc_id, body)

-- Some message of the list is.
abbrev pub SomeAnswers : ℕ → List ℕ → List (List ℕ) → Type 0
SomeAnswers rpc_id body [] = ⊥
SomeAnswers rpc_id body (frame ∷ frames) =
    Answers rpc_id body frame ⊎ SomeAnswers rpc_id body frames

abbrev pub Heard : ℕ → List ℕ → Attempt → Type 0
Heard rpc_id body (send_fails frames) = ⊥
Heard rpc_id body (hears frames) = SomeAnswers rpc_id body frames

-- What the result of a call says: the body of a response that came in one of its attempts; a failed
-- `send_to` in one of them; or that all have been made.
abbrev pub Explained : (ℕ → Attempt) → ℕ → ℕ → ℕ → ℕ → CallResult → Type 0
Explained env rpc_id k n tries (returned body) =
    (i : ℕ) × (k ≤ i) × (i < k + n) × Heard rpc_id body (env i)
Explained env rpc_id k n tries send_error =
    (i : ℕ) × (k ≤ i) × (i < k + n) × (frames : List (List ℕ)) × (env i ≡ send_fails frames)
Explained env rpc_id k n tries timed_out = tries ≡ n

pub dispatch-some :
    (waiters : Dict ℕ ℕ) (frame : List ℕ) (id to : ℕ) (body : List ℕ)
    → (dispatch waiters frame).1 ≡ some (id, (to, body))
    → Answers id body frame
unfolding dispatch
dispatch-some waiters frame id to body e = elim (Option-cases (decode_frame frame)) [
  | inl short ↦ cc (rw (short, dispatch) at e)
  | inr (r, decoded) ↦ elim (Option-cases (get waiters r.0)) [
    | inl nobody ↦ cc (rw (decoded, dispatch, nobody) at e)
    | inr (channel, found) ↦
        let same = some-injective _ (id, (to, body)) (rw (decoded, dispatch, found) at e) in
        decoded ∙ ap some (ap (λ x. (x.0, x.1.1)) same)
  ]
]

-- What an attempt gets is a response to its request.
await-some :
    (waiters : Dict ℕ ℕ) (rpc_id channel : ℕ) (frames : List (List ℕ)) (body : List ℕ)
    → (await waiters rpc_id channel frames).1 ≡ some body
    → SomeAnswers rpc_id body frames
unfolding await
await-some waiters rpc_id channel [] body e = cc e
await-some waiters rpc_id channel (frame ∷ frames) body e =
    let rest = await-some (dispatch waiters frame).0 rpc_id channel frames body in
    elim (Option-cases (dispatch waiters frame).1) [
      | inl nothing ↦ inr (rest (rw (nothing, await) at e))
      | inr ((id, (to, b)), got) ↦ elim (Bool-cases (id == rpc_id && to == channel)) [
        | inl own ↦
            let same = some-injective b body (rw (got, await, own) at e) in
            let here = dispatch-some waiters frame id to b got in
            let named : id ≡ rpc_id = (==_iff id rpc_id).0 (ground (arith, own)) in
            inl (here ∙ (rw (named, same) refl))
        | inr other ↦ inr (rest (rw (got, await, other) at e))
      ]
    ]

-- What a run of attempts does: the frame goes out once for each try, and the result is explained.
abbrev pub Attempted :
    (ℕ → Attempt) → SocketAddr → ℕ → List ℕ → ℕ → ℕ → Client → Client × CallResult → Type 0
Attempted env server rpc_id frame n k c r =
    (tries : ℕ) × (tries ≤ n)
    × (r.0.sent ≡ c.sent ++ replicate tries (server, frame))
    × Explained env rpc_id k n tries r.1

-- The later attempts' account, from the attempt before them on.
Explained-later :
    (env : ℕ → Attempt) (rpc_id k n tries : ℕ) (r : CallResult)
    → Explained env rpc_id (suc k) n tries r
    → Explained env rpc_id k (suc n) (suc tries) r
Explained-later env rpc_id k n tries (returned body) (i, lo, hi, h) =
    (i, omega arith, omega arith, h)
Explained-later env rpc_id k n tries send_error (i, lo, hi, frames, h) =
    (i, omega arith, omega arith, frames, h)
Explained-later env rpc_id k n tries timed_out h = ap suc h

pub Attempt-cases :
    (a : Attempt)
    → ((frames : List (List ℕ)) × (a ≡ send_fails frames))
      ⊎ ((frames : List (List ℕ)) × (a ≡ hears frames))
Attempt-cases (send_fails frames) = inl (frames, refl)
Attempt-cases (hears frames) = inr (frames, refl)

attempts_lem :
    (env : ℕ → Attempt) (server : SocketAddr) (rpc_id : ℕ) (frame : List ℕ) (n k : ℕ) (c : Client)
    → Attempted env server rpc_id frame n k c (attempts env server rpc_id frame n k c)
unfolding attempts
attempts_lem env server rpc_id frame zero k c = (0, omega arith, sym (append-nil c.sent), refl)
attempts_lem env server rpc_id frame (suc n) k c = elim (Attempt-cases (env k)) [
  | inl (frames, fails) ↦
      rw (fails, attempts)
        (0, omega arith, sym (append-nil c.sent), (k, omega arith, omega arith, frames, fails))
  | inr (frames, heard) ↦
      let waiting = insert c.waiters rpc_id k in
      let sent = c.sent ++ ((server, frame) ∷ []) in
      elim (Option-cases (await waiting rpc_id k frames).1) [
        | inr (body, got) ↦
            rw (heard, attempts, got)
              (
                1,
                omega arith,
                refl,
                (
                  k,
                  omega arith,
                  omega arith,
                  rw heard (await-some waiting rpc_id k frames body got),
                ),
              )
        | inl nothing ↦
            let c' : Client = record c {
              waiters = remove (await waiting rpc_id k frames).0 rpc_id;
              sent = sent;
            } in
            let (tries, few, all, why) = attempts_lem env server rpc_id frame n (suc k) c' in
            rw (heard, attempts, nothing)
              (
                suc tries,
                omega arith,
                all ∙ append_assoc c.sent ((server, frame) ∷ []) (replicate tries (server, frame)),
                Explained-later env rpc_id k n tries _ why,
              )
      ]
]

-- A call sends the same frame, of its own request number, once for each of at most `max_attempts`
-- tries (at least one), and nothing else. It returns only the body of a response to that number
-- that came during one of its attempts; it fails only because `send_to` failed in one of them; and
-- it times out only after it has made all of them.
pub call_with_timeout_lem :
    (env : ℕ → Attempt) (c : Client) (server : SocketAddr) (payload : List ℕ) (max_attempts : ℕ)
    → Attempted env server c.next_id
        (encode_frame c.next_id payload)
        (max max_attempts 1)
        0
        c
        (call_with_timeout env c server payload max_attempts)
unfolding call_with_timeout
call_with_timeout_lem env c server payload max_attempts =
    attempts_lem env server c.next_id (encode_frame c.next_id payload) (max max_attempts 1) 0 _
