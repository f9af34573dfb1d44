-- ===== src/Rpc/Once.antt =====
-- The server calls the handler at most once for a request, and all its responses come of that call.
use agent_transport.Base.{
  ℕ, ◌≡◌, refl, sym, ◌∙◌, none, some, List, [], ◌∷◌, get_elem?, All, All-append, All-mono,
  Bool-cases, Option-cases, inl, inr,
}
use agent_transport.Base.Dict.{
  Dict, get, insert, get-insert, get-insert_self, IsDistinct, IsDistinct-insert, Every,
  Every-insert, Every-get,
}
use agent_transport.Config.{SocketAddr, MsgKey, msg_key, msg_key_eq, key_eq, key_eq_iff}
use agent_transport.Rpc.{
  Server, idle_server, Work, Phase, waits, answered, recorded, on_request, on_message, decode_frame,
  response, proceed, on_worker, Event, comes, runs, serve,
}
use agent_transport.Rpc.Table.{
  push-insert, get_elem?-get, set-insert, Table-insert, Table-keep, Called-insert, Called-keep,
  entry_at, entry_of, call_at, call_of, entry_cached, entry_none,
}

module _ (handler : List ℕ → List ℕ) where
  -- The worker's response is the handler's.
  abbrev RightPhase : MsgKey → List ℕ → Phase → Type 0
  RightPhase key body waits = Unit
  RightPhase key body (answered resp) = resp ≡ response handler key body
  RightPhase key body (recorded resp) = resp ≡ response handler key body

  -- A response is the handler's, for a call that was made.
  abbrev pub IsReply : Dict MsgKey (List ℕ) → MsgKey × List ℕ → Type 0
  IsReply calls (key, resp) =
      (body : List ℕ) × (get calls key ≡ some body) × (resp ≡ response handler key body)

  record IsServer (srv : Server) : Type 0 where
    distinct : IsDistinct srv.workers
    once : IsDistinct srv.calls
    table : (k : MsgKey) → get srv.dedup k ≡ entry_of (get srv.workers k)
    called : (k : MsgKey) → get srv.calls k ≡ call_of (get srv.workers k)
    right : Every (λ k w. RightPhase k w.body w.phase) srv.workers
    replied : All (IsReply srv.calls) srv.replies

  replay :
      (srv : Server) (key : MsgKey) (cached : List ℕ)
      → IsServer srv
      → get srv.dedup key ≡ some (some cached)
      → IsReply srv.calls (key, cached)
  unfolding call_of call_at
  replay srv key cached v e =
      let (w, found, phase) = entry_cached (get srv.workers key) cached (sym (v.table key) ∙ e) in
      let right = Every-get (λ k u. RightPhase k u.body u.phase) srv.workers key w v.right found in
      (w.body, v.called key ∙ (rw (found, phase) refl), rw phase at right)

  on_request-IsServer :
      (srv : Server) (key : MsgKey) (body : List ℕ)
      → IsServer srv
      → IsServer (on_request srv key body)
  unfolding on_request entry_at call_at call_of
  on_request-IsServer srv key body v = elim (Option-cases (get srv.dedup key)) [
    | inl new ↦
        let absent = entry_none (get srv.workers key) (sym (v.table key) ∙ new) in
        let w : Work = record { body = body; phase = waits } in
        rw (new, on_request, push-insert srv.workers key w absent)
          (record {
            distinct = IsDistinct-insert srv.workers key w v.distinct;
            once = v.once;
            table = Table-insert srv.workers key w srv.dedup none refl v.table;
            called =
                Called-keep srv.workers key w srv.calls (v.called key ∙ (rw absent refl)) v.called;
            right = Every-insert (λ k u. RightPhase k u.body u.phase) srv.workers key w v.right tt;
            replied = v.replied;
          })
    | inr (none, e) ↦ rw (e, on_request) v
    | inr (some cached, e) ↦
        rw (e, on_request)
          (record {
            distinct = v.distinct;
            once = v.once;
            table = v.table;
            called = v.called;
            right = v.right;
            replied =
                All-append (IsReply srv.calls) srv.replies ((key, cached) ∷ []) v.replied
                  (replay srv key cached v e, tt);
          })
  ]

  on_message-IsServer :
      (srv : Server) (src : SocketAddr) (frame : List ℕ)
      → IsServer srv
      → IsServer (on_message srv src frame)
  unfolding on_message
  on_message-IsServer srv src frame v = elim (Option-cases (decode_frame frame)) [
    | inl e ↦ rw (e, on_message) v
    | inr (r, e) ↦ rw (e, on_message) (on_request-IsServer srv (msg_key src r.0) r.1 v)
  ]

  IsReply-insert :
      (calls : Dict MsgKey (List ℕ)) (key : MsgKey) (body : List ℕ) (r : MsgKey × List ℕ)
      → get calls key ≡ none
      → IsReply calls r
      → IsReply (insert calls key body) r
  IsReply-insert calls key body r absent (b, found, e) = (
    b,
    get-insert calls key r.0 body ∙ elim (Bool-cases (key_eq key r.0)) [
      | inl here ↦ cc (absent, found, (key_eq_iff key r.0).0 here)
      | inr other ↦ rw other found
    ],
    e,
  )

  proceed-IsServer :
      (srv : Server) (n : ℕ) (key : MsgKey) (body : List ℕ) (phase : Phase)
      → IsServer srv
      → get_elem? srv.workers n ≡ some (key, record { body = body; phase = phase })
      → IsServer (proceed handler srv n key body phase)
  unfolding proceed entry_at call_at entry_of call_of
  proceed-IsServer srv n key body (recorded resp) v e = v
  proceed-IsServer srv n key body (answered resp) v e =
      let old : Work = record { body = body; phase = answered resp } in
      let w : Work = record { body = body; phase = recorded resp } in
      let found = get_elem?-get srv.workers n key old v.distinct e in
      let right =
        Every-get (λ k u. RightPhase k u.body u.phase) srv.workers key old v.right found in
      rw (set-insert srv.workers n key old w v.distinct e) (record {
        distinct = IsDistinct-insert srv.workers key w v.distinct;
        once = v.once;
        table = Table-insert srv.workers key w srv.dedup (some resp) refl v.table;
        called = Called-keep srv.workers key w srv.calls (v.called key ∙ (rw found refl)) v.called;
        right = Every-insert (λ k u. RightPhase k u.body u.phase) srv.workers key w v.right right;
        replied = v.replied;
      })
  proceed-IsServer srv n key body waits v e =
      let old : Work = record { body = body; phase = waits } in
      let resp = response handler key body in
      let w : Work = record { body = body; phase = answered resp } in
      let found = get_elem?-get srv.workers n key old v.distinct e in
      let uncalled : get srv.calls key ≡ none = v.called key ∙ (rw found refl) in
      rw (set-insert srv.workers n key old w v.distinct e, push-insert srv.calls key body uncalled)
        (record {
          distinct = IsDistinct-insert srv.workers key w v.distinct;
          once = IsDistinct-insert srv.calls key body v.once;
          table = Table-keep srv.workers key w srv.dedup (v.table key ∙ (rw found refl)) v.table;
          called = Called-insert srv.workers key w srv.calls body refl v.called;
          right = Every-insert (λ k u. RightPhase k u.body u.phase) srv.workers key w v.right refl;
          replied =
              All-append (IsReply (insert srv.calls key body)) srv.replies ((key, resp) ∷ [])
                (All-mono (IsReply srv.calls) (IsReply (insert srv.calls key body)) srv.replies
                  (λ r. IsReply-insert srv.calls key body r uncalled) v.replied)
                ((body, get-insert_self srv.calls key body, refl), tt);
        })

  on_worker-IsServer : (srv : Server) (n : ℕ) → IsServer srv → IsServer (on_worker handler srv n)
  unfolding on_worker
  on_worker-IsServer srv n v = elim (Option-cases (get_elem? srv.workers n)) [
    | inl e ↦ rw (e, on_worker) v
    | inr (r, e) ↦ rw (e, on_worker) (proceed-IsServer srv n r.0 r.1.body r.1.phase v e)
  ]

  serve-IsServer :
      (srv : Server) (events : List Event) → IsServer srv → IsServer (serve handler srv events)
  unfolding serve
  serve-IsServer srv [] v = v
  serve-IsServer srv (comes src frame ∷ events) v =
      serve-IsServer (on_message srv src frame) events (on_message-IsServer srv src frame v)
  serve-IsServer srv (runs n ∷ events) v =
      serve-IsServer (on_worker handler srv n) events (on_worker-IsServer srv n v)

  idle-IsServer : IsServer idle_server
  unfolding get entry_of call_of
  idle-IsServer = record {
    distinct = tt;
    once = tt;
    table = λ k. refl;
    called = λ k. refl;
    right = tt;
    replied = tt;
  }

  -- Whatever messages come to a new server, repeated requests among them, and in whatever order its
  -- worker threads run: it calls the handler at most once for a client's request number, and each
  -- response that it sends is the frame of that number with the handler's answer to that one call.
  pub serve-IsReply :
      (events : List Event)
      → let srv = serve handler idle_server events in
        IsDistinct srv.calls × All (IsReply srv.calls) srv.replies
  serve-IsReply events =
      let v = serve-IsServer idle_server events idle-IsServer in (v.once, v.replied)
