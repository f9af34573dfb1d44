-- ===== src/Receiver/Stalled.antt =====
-- What `tick` does to a message that misses a chunk inside its window, and how such a message ends.
use agent_transport.Base.{
  ℕ, ◌+◌, ◌-◌, ◌≤◌, ◌<◌, ◌≡◌, ◌≢◌, refl, ◌∙◌, true, Option, none, some, [], leb, ltb, if◌then◌else◌,
  Bool-cases, Option-cases, inl, inr, le→ltb, lt→ltb,
}
use agent_transport.Base.Dict.{
  get, insert, get-insert_self, get-insert_ne, get-remove_self, get-remove_ne,
}
use agent_transport.Config.{MsgKey, msg_key_eq}
use agent_transport.Receiver.State.{
  InMsg, ReceiverCore, contains, first_missing_offset, max_unanswered_resends,
}
use agent_transport.Receiver.Handlers.{request_resend, renew_grant, tick_stalled, tick_key}
use agent_transport.Receiver.Frame.{issue_grant-Frame}
use agent_transport.Receiver.Grants.{issue_grant_other}

-- A chunk is missing inside the window.
abbrev pub HasHole : ℕ → InMsg → Type 0
HasHole pkt_size m = (off : ℕ) × (first_missing_offset m pkt_size ≡ some off) × (off < m.granted_to)

-- The message after one more request.
abbrev pub asked_again : ℕ → InMsg → Option InMsg
asked_again now m =
    if ltb max_unanswered_resends (m.unanswered_resends + 1)
    then none
    else some (record m { last_progress = now; unanswered_resends = m.unanswered_resends + 1 })

request_resend-get :
    (now : ℕ) (s : ReceiverCore) (key : MsgKey) (m : InMsg) (off : ℕ)
    → get (request_resend now s key m off).0.incoming key ≡ asked_again now m
unfolding request_resend
request_resend-get now s key m off =
    elim (Bool-cases (ltb max_unanswered_resends (m.unanswered_resends + 1))) [
      | inl over ↦ rw over (get-remove_self s.incoming key)
      | inr fine ↦ rw fine (get-insert_self s.incoming key _)
    ]

-- A message that is late and has a hole is asked for.
pub tick_key_hole :
    (now : ℕ) (s : ReceiverCore) (key : MsgKey) (m : InMsg)
    → get s.incoming key ≡ some m
    → s.cfg.resend_timeout ≤ now - m.last_progress
    → HasHole s.cfg.packet_size m
    → get (tick_key now s key).0.incoming key ≡ asked_again now m
unfolding tick_key tick_stalled
tick_key_hole now s key m e late (off, missing, inside) =
    rw (e, tick_key, le→ltb _ _ late, missing, lt→ltb _ _ inside)
      (request_resend-get now s key m off)

-- A message that has just been asked for is left alone.
pub tick_key_early :
    (now : ℕ) (s : ReceiverCore) (key : MsgKey) (m : InMsg)
    → get s.incoming key ≡ some m
    → now - m.last_progress < s.cfg.resend_timeout
    → tick_key now s key ≡ (s, [])
unfolding tick_key
tick_key_early now s key m e early = rw (e, tick_key, lt→ltb _ _ early)

pub tick_key-none :
    (now : ℕ) (s : ReceiverCore) (key : MsgKey)
    → get s.incoming key ≡ none
    → tick_key now s key ≡ (s, [])
unfolding tick_key
tick_key-none now s key e = rw (e, tick_key)

request_resend-other :
    (now : ℕ) (s : ReceiverCore) (k key : MsgKey) (m : InMsg) (off : ℕ)
    → k ≢ key
    → get (request_resend now s k m off).0.incoming key ≡ get s.incoming key
unfolding request_resend
request_resend-other now s k key m off ne =
    elim (Bool-cases (ltb max_unanswered_resends (m.unanswered_resends + 1))) [
      | inl over ↦ rw over (get-remove_ne s.incoming k key ne)
      | inr fine ↦ rw fine (get-insert_ne s.incoming k key _ ne)
    ]

renew_grant-other :
    (now : ℕ) (s : ReceiverCore) (k key : MsgKey) (m : InMsg)
    → k ≢ key
    → get (renew_grant now s k m).0.incoming key ≡ get s.incoming key
unfolding renew_grant
renew_grant-other now s k key m ne =
    let m' = record m { last_progress = now } in
    let s' = record s { incoming = insert s.incoming k m' } in
    let same : get s'.incoming key ≡ get s.incoming key = get-insert_ne s.incoming k key m' ne in
    elim (Bool-cases (leb s.cfg.grant_timeout (now - m.last_progress))) [
      | inr early ↦ rw early refl
      | inl late ↦ elim (Bool-cases (contains s.granting k)) [
        | inl granted ↦ rw (late, granted) (issue_grant_other now true s' k key ne ∙ same)
        | inr other ↦ rw (late, other) same
      ]
    ]

tick_stalled-other :
    (now : ℕ) (s : ReceiverCore) (k key : MsgKey) (m : InMsg) (missing : Option ℕ)
    → k ≢ key
    → get (tick_stalled now s k m missing).0.incoming key ≡ get s.incoming key
unfolding tick_stalled
tick_stalled-other now s k key m none ne = renew_grant-other now s k key m ne
tick_stalled-other now s k key m (some off) ne = elim (Bool-cases (ltb off m.granted_to)) [
  | inl hole ↦ rw hole (request_resend-other now s k key m off ne)
  | inr whole ↦ rw whole (renew_grant-other now s k key m ne)
]

-- Another message's tick.
pub tick_key-other :
    (now : ℕ) (s : ReceiverCore) (k key : MsgKey)
    → k ≢ key
    → get (tick_key now s k).0.incoming key ≡ get s.incoming key
unfolding tick_key
tick_key-other now s k key ne = elim (Option-cases (get s.incoming k)) [
  | inl e ↦ rw (e, tick_key) refl
  | inr (m, e) ↦ elim (Bool-cases (ltb (now - m.last_progress) s.cfg.resend_timeout)) [
    | inl early ↦ rw (e, tick_key, early) refl
    | inr late ↦
        rw (e, tick_key, late)
          (tick_stalled-other now s k key m (first_missing_offset m s.cfg.packet_size) ne)
  ]
]

cfg-request_resend :
    (now : ℕ) (s : ReceiverCore) (k : MsgKey) (m : InMsg) (off : ℕ)
    → (request_resend now s k m off).0.cfg ≡ s.cfg
unfolding request_resend
cfg-request_resend now s k m off =
    elim (Bool-cases (ltb max_unanswered_resends (m.unanswered_resends + 1))) [
      | inl over ↦ rw over refl
      | inr fine ↦ rw fine refl
    ]

cfg-renew_grant :
    (now : ℕ) (s : ReceiverCore) (k : MsgKey) (m : InMsg) → (renew_grant now s k m).0.cfg ≡ s.cfg
unfolding renew_grant
cfg-renew_grant now s k m =
    let s' = record s { incoming = insert s.incoming k (record m { last_progress = now }) } in
    elim (Bool-cases (leb s.cfg.grant_timeout (now - m.last_progress))) [
      | inr early ↦ rw early refl
      | inl late ↦ elim (Bool-cases (contains s.granting k)) [
        | inl granted ↦ rw (late, granted) (issue_grant-Frame k now true s').0.config
        | inr other ↦ rw (late, other) refl
      ]
    ]

cfg-tick_stalled :
    (now : ℕ) (s : ReceiverCore) (k : MsgKey) (m : InMsg) (missing : Option ℕ)
    → (tick_stalled now s k m missing).0.cfg ≡ s.cfg
unfolding tick_stalled
cfg-tick_stalled now s k m none = cfg-renew_grant now s k m
cfg-tick_stalled now s k m (some off) = elim (Bool-cases (ltb off m.granted_to)) [
  | inl hole ↦ rw hole (cfg-request_resend now s k m off)
  | inr whole ↦ rw whole (cfg-renew_grant now s k m)
]

pub cfg-tick_key : (now : ℕ) (s : ReceiverCore) (k : MsgKey) → (tick_key now s k).0.cfg ≡ s.cfg
unfolding tick_key
cfg-tick_key now s k = elim (Option-cases (get s.incoming k)) [
  | inl e ↦ rw (e, tick_key) refl
  | inr (m, e) ↦ elim (Bool-cases (ltb (now - m.last_progress) s.cfg.resend_timeout)) [
    | inl early ↦ rw (e, tick_key, early) refl
    | inr late ↦ rw (e, tick_key, late) (cfg-tick_stalled now s k m _)
  ]
]
