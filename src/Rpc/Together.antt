-- ===== src/Rpc/Together.antt =====
-- A client and a server together: what a call returns is the handler's answer.
use agent_transport.Base.{
  ℕ, ◌≡◌, sym, ap, ◌∙◌, subst, inl, inr, Option, none, some, List, [], ◌∷◌, get_elem?, All,
  All-append, All-Memᴰ, All-set, All-get, Option-cases,
}
use mathlib.Core.List.{Memᴰ}
use mathlib.Core.Option.{some-injective}
use agent_transport.Base.Bytes.{IsU64}
use agent_transport.Base.Dict.{Every, Every-get, get}
use agent_transport.Config.{SocketAddr, MsgKey, msg_key, msg_key_eq}
use agent_transport.Rpc.{
  Server, idle_server, Work, Phase, waits, answered, recorded, on_request, on_message, decode_frame,
  proceed, on_worker, Event, comes, runs, serve, Client, Attempt, send_fails, hears, returned,
  call_with_timeout,
}
use agent_transport.Rpc.Frames.{decode_frame-encode_frame}
use agent_transport.Rpc.Once.{IsReply, serve-IsReply}
use agent_transport.Rpc.Attempts.{Answers, SomeAnswers, Heard, call_with_timeout_lem}

module _ (asked : MsgKey → List ℕ) where
  -- A request of this key has this body; its number is one of 8 bytes.
  abbrev pub Asks : MsgKey → List ℕ → Type 0
  Asks key body = (body ≡ asked key) × IsU64 key.id

  abbrev AsksIf : SocketAddr → Option (ℕ × List ℕ) → Type 0
  AsksIf src none = Unit
  AsksIf src (some (rpc_id, body)) = Asks (msg_key src rpc_id) body

  -- A message that comes to the server, if it is a frame, is a request that was made.
  abbrev pub IsAsked : Event → Type 0
  IsAsked (comes src frame) = AsksIf src (decode_frame frame)
  IsAsked (runs n) = Unit

  record Faithful (srv : Server) : Type 0 where
    works : All (λ (e : MsgKey × Work). Asks e.0 e.1.body) srv.workers
    calls : Every Asks srv.calls

-- A message that the client hears is a reply to it.
abbrev pub Replied : SocketAddr → List (MsgKey × List ℕ) → List ℕ → Type 0
Replied me replies frame = (rpc_id : ℕ) × Memᴰ (msg_key me rpc_id, frame) replies

abbrev pub HearsReplies : SocketAddr → List (MsgKey × List ℕ) → Attempt → Type 0
HearsReplies me replies (send_fails frames) = Unit
HearsReplies me replies (hears frames) = All (Replied me replies) frames

module _ (handler : List ℕ → List ℕ) (asked : MsgKey → List ℕ) where
  on_request-Faithful :
      (srv : Server) (key : MsgKey) (body : List ℕ)
      → Asks asked key body
      → Faithful asked srv
      → Faithful asked (on_request srv key body)
  unfolding on_request
  on_request-Faithful srv key body h v = elim (Option-cases (get srv.dedup key)) [
    | inr (none, e) ↦ rw (e, on_request) v
    | inr (some cached, e) ↦ rw (e, on_request) (record { works = v.works; calls = v.calls })
    | inl e ↦
        rw (e, on_request)
          (record {
            works =
                All-append (λ (e : MsgKey × Work). Asks asked e.0 e.1.body) srv.workers _ v.works
                  (h, tt);
            calls = v.calls;
          })
  ]

  on_message-Faithful :
      (srv : Server) (src : SocketAddr) (frame : List ℕ)
      → IsAsked asked (comes src frame)
      → Faithful asked srv
      → Faithful asked (on_message srv src frame)
  unfolding on_message
  on_message-Faithful srv src frame h v = elim (Option-cases (decode_frame frame)) [
    | inl e ↦ rw (e, on_message) v
    | inr (r, e) ↦
        rw (e, on_message)
          (on_request-Faithful srv (msg_key src r.0) r.1 (subst (AsksIf asked src) e h) v)
  ]

  proceed-Faithful :
      (srv : Server) (n : ℕ) (key : MsgKey) (body : List ℕ) (phase : Phase)
      → Asks asked key body
      → Faithful asked srv
      → Faithful asked (proceed handler srv n key body phase)
  unfolding proceed
  proceed-Faithful srv n key body waits h v = record {
    works = All-set (λ (e : MsgKey × Work). Asks asked e.0 e.1.body) srv.workers n _ v.works h;
    calls = All-append (λ (e : MsgKey × List ℕ). Asks asked e.0 e.1) srv.calls _ v.calls (h, tt);
  }
  proceed-Faithful srv n key body (answered resp) h v = record {
    works = All-set (λ (e : MsgKey × Work). Asks asked e.0 e.1.body) srv.workers n _ v.works h;
    calls = v.calls;
  }
  proceed-Faithful srv n key body (recorded resp) h v = v

  on_worker-Faithful :
      (srv : Server) (n : ℕ) → Faithful asked srv → Faithful asked (on_worker handler srv n)
  unfolding on_worker
  on_worker-Faithful srv n v = elim (Option-cases (get_elem? srv.workers n)) [
    | inl e ↦ rw (e, on_worker) v
    | inr (r, e) ↦
        rw (e, on_worker)
          (proceed-Faithful srv n r.0 r.1.body r.1.phase
            (All-get (λ (e : MsgKey × Work). Asks asked e.0 e.1.body) srv.workers n r v.works e) v)
  ]

  serve-Faithful :
      (srv : Server) (events : List Event)
      → All (IsAsked asked) events
      → Faithful asked srv
      → Faithful asked (serve handler srv events)
  unfolding serve
  serve-Faithful srv [] h v = v
  serve-Faithful srv (comes src frame ∷ events) h v =
      serve-Faithful (on_message srv src frame) events h.1 (on_message-Faithful srv src frame h.0 v)
  serve-Faithful srv (runs n ∷ events) h v =
      serve-Faithful (on_worker handler srv n) events h.1 (on_worker-Faithful srv n v)

  -- A reply is the handler's answer to what was asked under its number.
  Replied-answer :
      (me : SocketAddr) (events : List Event) (frame : List ℕ) (rpc_id : ℕ) (body : List ℕ)
      → All (IsAsked asked) events
      → Replied me (serve handler idle_server events).replies frame
      → Answers rpc_id body frame
      → body ≡ handler (asked (msg_key me rpc_id))
  Replied-answer me events frame rpc_id body h (id, reply) e =
      let srv = serve handler idle_server events in
      let (question, found, made) =
        All-Memᴰ (IsReply handler srv.calls) (serve-IsReply handler events).1 reply in
      let v = serve-Faithful idle_server events h (record { works = tt; calls = tt }) in
      let (right, id_u64) =
        Every-get (Asks asked) srv.calls (msg_key me id) question v.calls found in
      let decoded = decode_frame-encode_frame id (handler question) id_u64 in
      let same : (id, handler question) ≡ (rpc_id, body) =
        some-injective _ _ (sym decoded ∙ (ap decode_frame (sym made) ∙ e)) in
      sym (ap (λ p. p.1) same) ∙ ap handler (right ∙ ap (λ p. asked (msg_key me p.0)) same)

  SomeAnswers-answer :
      (me : SocketAddr) (events : List Event) (frames : List (List ℕ)) (rpc_id : ℕ) (body : List ℕ)
      → All (IsAsked asked) events
      → All (Replied me (serve handler idle_server events).replies) frames
      → SomeAnswers rpc_id body frames
      → body ≡ handler (asked (msg_key me rpc_id))
  SomeAnswers-answer me events [] rpc_id body h replied some_answer = absurd some_answer
  SomeAnswers-answer me events (frame ∷ frames) rpc_id body h replied (inl this) =
      Replied-answer me events frame rpc_id body h replied.0 this
  SomeAnswers-answer me events (frame ∷ frames) rpc_id body h replied (inr later) =
      SomeAnswers-answer me events frames rpc_id body h replied.1 later

  Heard-answer :
      (me : SocketAddr) (events : List Event) (a : Attempt) (rpc_id : ℕ) (body : List ℕ)
      → All (IsAsked asked) events
      → HearsReplies me (serve handler idle_server events).replies a
      → Heard rpc_id body a
      → body ≡ handler (asked (msg_key me rpc_id))
  Heard-answer me events (send_fails frames) rpc_id body h replied heard = absurd heard
  Heard-answer me events (hears frames) rpc_id body h replied heard =
      SomeAnswers-answer me events frames rpc_id body h replied heard

-- What a call returns is the handler's answer to its payload, whatever is lost, repeated or delayed
-- between the two, and in whatever order the server's workers run. What the client hears in its
-- attempts are replies of the server to it; what comes to the server are requests that were made,
-- `asked` for the client and number of each; and the number of the call is not used for another one.
pub call_with_timeout-answer :
    (handler : List ℕ → List ℕ) (asked : MsgKey → List ℕ) (env : ℕ → Attempt) (c : Client)
    (server me : SocketAddr) (payload : List ℕ) (max_attempts : ℕ) (events : List Event)
    (body : List ℕ)
    → All (IsAsked asked) events
    → ((i : ℕ) → HearsReplies me (serve handler idle_server events).replies (env i))
    → asked (msg_key me c.next_id) ≡ payload
    → (call_with_timeout env c server payload max_attempts).1 ≡ returned body
    → body ≡ handler payload
call_with_timeout-answer handler asked env c server me payload max_attempts events body h replied
      own e =
    let (tries, few, all, why) = call_with_timeout_lem env c server payload max_attempts in
    let (i, lo, hi, heard) = rw e at why in
    Heard-answer handler asked me events (env i) c.next_id body h (replied i) heard ∙ ap handler own
