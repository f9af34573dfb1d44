-- ===== src/Sender/Genuine.antt =====
-- The DATA packets that the operations on one message push: each is a chunk of the message, cut at
-- multiples of the packet size.
use agent_transport.Base.{
  ℕ, zero, suc, ◌+◌, ◌-◌, ◌*◌, ◌/◌, ◌<◌, ◌≡◌, refl, sym, subst, ap, ◌∙◌, ◌⊎◌, min, max, List,
  length, All, arith, leb, ltb, ltb→lt, ltb→le, leb→le, leb→lt, Bool-cases, inl, inr, Option-cases,
}
use agent_transport.Base.Division.{div_bounds, div_mono, mul_mono}
use agent_transport.Base.Bytes.{IsU32, IsU64}
use agent_transport.Packet.{Packet}
use agent_transport.Config.{SocketAddr, MsgKey, msg_key, Action, send, deliver, TransportConfig}
use agent_transport.Sender.{OutMsg, data_packet, pump_msg, resend_msg, tick_msg, is_some}
use agent_transport.Sender.Pump.{Sends, done, chunk, Sends-le, pump_msg-Pumped}
use agent_transport.Sender.Resend.{
  chunks, from_of, end_of, resend_msg-chunks, resend_loop_end, resend_account_lem,
}
use agent_transport.Sender.Tick.{tick_msg_lem}
use agent_transport.Sender.Valid.{IsOut, pump_msg_done}

-- A point where a message is cut: a multiple of the packet size, or its end.
abbrev pub OnGrid : ℕ → ℕ → ℕ → Type 0
OnGrid packet_size size n = (n ≡ size) ⊎ ((q : ℕ) × (n ≡ q * packet_size))

OnGrid-size : (packet_size a b n : ℕ) → a ≡ b → OnGrid packet_size a n → OnGrid packet_size b n
OnGrid-size packet_size a b n e h = subst (λ k. OnGrid packet_size k n) e h

module _ (sent : MsgKey → List ℕ) where
  -- The datagram is the packet of a chunk of the message that is sent to `dest` under its id.
  pub record IsGenuine (packet_size : ℕ) (dest : SocketAddr) (datagram : List ℕ) : Type 0 where
    pub id : ℕ
    pub q : ℕ
    pub inside : q * packet_size < length (sent (msg_key dest id))
    pub id_u64 : IsU64 id
    pub length_u32 : IsU32 (length (sent (msg_key dest id)))
    pub bytes :
        let body = sent (msg_key dest id) in
        datagram
        ≡ data_packet body id (q * packet_size) (min (q * packet_size + packet_size) (length body))

  abbrev pub Genuine : ℕ → Action → Type 0
  Genuine packet_size (send dest datagram) = IsGenuine packet_size dest datagram
  Genuine packet_size (deliver src msg_id bytes) = ⊥

  -- A message that is as it was sent, and is sent up to a cut.
  pub record IsCut (packet_size : ℕ) (key : MsgKey) (m : OutMsg) : Type 0 where
    pub same : m.contents ≡ sent key
    pub id_u64 : IsU64 key.id
    pub length_u32 : IsU32 (length (sent key))
    pub grid : OnGrid packet_size (length (sent key)) m.next_send

  -- What an operation on a message leaves and pushes.
  abbrev pub Cuts : ℕ → MsgKey → OutMsg × List Action → Type 0
  Cuts packet_size key r = IsCut packet_size key r.0 × All (Genuine packet_size) r.1

  chunk-Genuine :
      (packet_size : ℕ) (key : MsgKey) (m : OutMsg) (q : ℕ)
      → IsCut packet_size key m
      → q * packet_size < length m.contents
      → IsGenuine packet_size key.addr (
          data_packet m.contents key.id
            (q * packet_size)
            (min (q * packet_size + packet_size) (length m.contents)))
  chunk-Genuine packet_size key m q h inside = record {
    id = key.id;
    q = q;
    inside = rw (← h.same) inside;
    id_u64 = h.id_u64;
    length_u32 = h.length_u32;
    bytes = rw (h.same) refl;
  }

  -- From a cut on, consecutive chunks are chunks of the message, and end at a cut.
  Sends-Genuine :
      {packet_size : ℕ} {key : MsgKey} {m : OutMsg} {b a : ℕ} {pushed : List Action}
      → IsCut packet_size key m
      → OnGrid packet_size (length m.contents) a
      → Sends packet_size key m.contents b a pushed
      → OnGrid packet_size (length m.contents) b × All (Genuine packet_size) pushed
  Sends-Genuine h at done = (at, tt)
  Sends-Genuine h (inl all) (chunk more size later) = absurd (omega (arith, Sends-le later))
  Sends-Genuine {packet_size} {key} {m} h (inr (q, here)) (chunk {a = a} {e = e} more size later) =
      let inside : q * packet_size < length m.contents = omega arith in
      let next : OnGrid packet_size (length m.contents) e =
        elim (Bool-cases (leb (q * packet_size + packet_size) (length m.contents))) [
          | inl full ↦ inr (suc q, omega (arith, leb→le _ _ full))
          | inr short ↦ inl (omega (arith, leb→lt _ _ short))
        ] in
      let (last, rest) = Sends-Genuine {m = m} h next later in
      (last, (rw (here, (rw here at size)) (chunk-Genuine packet_size key m q h inside), rest))

  chunks-Genuine :
      (packet_size : ℕ) (key : MsgKey) (m : OutMsg) (q n : ℕ)
      → IsCut packet_size key m
      → (q + n) * packet_size < length m.contents
      → All (Genuine packet_size) (chunks packet_size key m.contents q (suc n))
  unfolding chunks
  chunks-Genuine packet_size key m q zero h inside =
      (chunk-Genuine packet_size key m q h (omega arith), tt)
  chunks-Genuine packet_size key m q (suc n) h inside = (
    chunk-Genuine packet_size key m q h
        (omega (arith, mul_mono q (q + suc n) packet_size (omega arith))),
    chunks-Genuine packet_size key m (suc q) n h (omega arith),
  )

  pub pump_msg-Cuts :
      (packet_size : ℕ) (key : MsgKey) (limit now : ℕ) (m : OutMsg)
      → 0 < packet_size
      → IsCut packet_size key m
      → Cuts packet_size key (pump_msg packet_size key limit now m)
  pump_msg-Cuts packet_size key limit now m pos h = elim (Option-cases m.done_at) [
    | inr (t, e) ↦ rw (pump_msg_done packet_size key limit now m t e) (h, tt)
    | inl unsent ↦
        let p = pump_msg-Pumped packet_size key limit now m pos unsent in
        let (last, pushed) = Sends-Genuine {m = m} h (rw h.same h.grid) p.sends in
        (
          record {
            same = p.grows.same_bytes ∙ h.same;
            id_u64 = h.id_u64;
            length_u32 = h.length_u32;
            grid = OnGrid-size packet_size _ _ _ (ap length h.same) last;
          },
          pushed,
        )
  ]

  resend_pushed-Genuine :
      (packet_size : ℕ) (key : MsgKey) (pkt : Packet) (now : ℕ) (m : OutMsg)
      → 0 < packet_size
      → IsCut packet_size key m
      → All (Genuine packet_size) (resend_msg packet_size key pkt now m).1
  resend_pushed-Genuine packet_size key pkt now m pos h =
      elim (Bool-cases (ltb (from_of pkt m) (end_of pkt m))) [
        | inl some_bytes ↦
            let below = ltb→lt _ _ some_bytes in
            let last = (end_of pkt m - 1) / packet_size in
            let order = div_mono (from_of pkt m) (end_of pkt m - 1) packet_size pos (omega arith) in
            let there : from_of pkt m / packet_size + (last - from_of pkt m / packet_size) ≡ last =
              omega arith in
            rw (resend_msg-chunks packet_size key pkt now m pos below) (
              chunks-Genuine packet_size key m (from_of pkt m / packet_size)
                (last - from_of pkt m / packet_size) h
                (rw there (omega (arith, div_bounds (end_of pkt m - 1) packet_size pos))))
        | inr nothing ↦
            unfold resend_msg in
            rw
              (resend_loop_end (end_of pkt m) packet_size key m (end_of pkt m) (from_of pkt m)
                (ltb→le _ _ nothing))
              tt
      ]

  -- The end of the request leaves the message at a cut, if that is where the message is sent up to.
  pub resend_msg-Cuts :
      (packet_size : ℕ) (key : MsgKey) (pkt : Packet) (now : ℕ) (m : OutMsg)
      → 0 < packet_size
      → OnGrid packet_size (length m.contents) (max m.next_send (end_of pkt m))
      → IsCut packet_size key m
      → Cuts packet_size key (resend_msg packet_size key pkt now m)
  resend_msg-Cuts packet_size key pkt now m pos fair h = (
    unfold resend_msg in
        let (same, credit, next, stamped, finished) = resend_account_lem (end_of pkt m) now m in
        record {
          same = same ∙ h.same;
          id_u64 = h.id_u64;
          length_u32 = h.length_u32;
          grid = rw (next) (OnGrid-size packet_size _ _ _ (ap length h.same) fair);
        },
    resend_pushed-Genuine packet_size key pkt now m pos h,
  )

  pub tick_msg-Cuts :
      (cfg : TransportConfig) (key : MsgKey) (now : ℕ) (m : OutMsg)
      → 0 < cfg.packet_size
      → IsOut cfg.packet_size m
      → IsCut cfg.packet_size key m
      → Cuts cfg.packet_size key (tick_msg cfg key now m)
  tick_msg-Cuts cfg key now m pos out h =
      let q = (m.next_send - 1) / cfg.packet_size in
      rw (tick_msg_lem cfg key now m pos) (elim (Bool-cases (is_some m.done_at)) [
        | inl finished ↦ rw finished (h, tt)
        | inr unfinished ↦
            let more : m.next_send < length m.contents =
              leb→lt _ _ (sym out.finished ∙ unfinished) in
            let probe =
              chunk-Genuine cfg.packet_size key m q h
                (omega (arith, div_bounds (m.next_send - 1) cfg.packet_size pos)) in
            elim (Bool-cases (leb cfg.poke_timeout (now - m.last_progress))) [
              | inr early ↦ rw (unfinished, early) (h, tt)
              | inl late ↦
                  rw (unfinished, late)
                    (
                      record {
                        same = h.same;
                        id_u64 = h.id_u64;
                        length_u32 = h.length_u32;
                        grid = h.grid;
                      },
                      (probe, tt),
                    )
            ]
      ])
