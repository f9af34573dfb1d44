-- ===== src/Sender/Acts.antt =====
-- Everything that a sender pushes over a run is a packet of a chunk of one of its messages.
use agent_transport.Base.{
  ℕ, ◌≡◌, refl, subst, min, max, Option, none, some, List, [], ◌∷◌, ◌++◌, length, All, arith, leb,
  Bool-cases, inl, inr, Option-cases,
}
use agent_transport.Base.Bytes.{IsU32, IsU64}
use agent_transport.Base.Dict.{Dict, get, Every, Every-insert, Every-get}
use agent_transport.Packet.{Packet}
use agent_transport.Config.{SocketAddr, MsgKey, msg_key, msg_key_eq, Action}
use agent_transport.Sender.{
  OutMsg, SenderCore, pump_msg, pump, start, handle_grant, handle_resend, handle_busy, resend_msg,
  tick, finish, first_msg, write,
}
use agent_transport.Sender.Pump.{pump_present, start-write, started}
use agent_transport.Sender.Grant.{handle_grant_unknown, handle_grant_present, limit_of}
use agent_transport.Sender.Resend.{end_of}
use agent_transport.Sender.Valid.{IsValid}
use agent_transport.Sender.Invariant.{Call, starts, grants, resends, busies, ticks, finishes, step}
use agent_transport.Sender.Genuine.{OnGrid, Genuine, IsCut, Cuts, pump_msg-Cuts, resend_msg-Cuts}

-- One call, with the actions that it pushes.
unfoldable pub act : SenderCore → Call → SenderCore × List Action
act s (starts dest msg_id bytes now) = start s dest msg_id bytes now
act s (grants src pkt now) = handle_grant s src pkt now
act s (resends src pkt now) = handle_resend s src pkt now
act s (busies src pkt now) = (handle_busy s src pkt now, [])
act s (ticks now) = tick s now
act s (finishes dest msg_id) = (finish s dest msg_id, [])

-- All that the sender pushes over some calls.
unfoldable pub pushed_by : SenderCore → List Call → List Action
pushed_by s [] = []
pushed_by s (c ∷ calls) = let (s', pushed) = act s c in pushed ++ pushed_by s' calls

pub act-step : (s : SenderCore) (c : Call) → (act s c).0 ≡ step s c
unfolding act step
act-step s (starts dest msg_id bytes now) = refl
act-step s (grants src pkt now) = refl
act-step s (resends src pkt now) = refl
act-step s (busies src pkt now) = refl
act-step s (ticks now) = refl
act-step s (finishes dest msg_id) = refl

module _ (sent : MsgKey → List ℕ) where
  abbrev pub Cut : ℕ → Dict MsgKey OutMsg → Type 0
  Cut packet_size = Every (IsCut sent packet_size)

  pub record IsFaithful (s : SenderCore) : Type 0 where
    pub valid : IsValid s
    pub cut : Cut s.cfg.packet_size s.out

  -- What a call leaves and pushes.
  pub record Acts (s : SenderCore) (r : SenderCore × List Action) : Type 0 where
    pub config : r.0.cfg ≡ s.cfg
    pub cut : Cut s.cfg.packet_size r.0.out
    pub genuine : All (Genuine sent s.cfg.packet_size) r.1

  abbrev pub FairIf : ℕ → Packet → Option OutMsg → Type 0
  FairIf packet_size pkt none = Unit
  FairIf packet_size pkt (some m) =
      OnGrid packet_size (length m.contents) (max m.next_send (end_of pkt m))

  -- A message that is started is the one that is sent under its key, with a length and an id that
  -- the header has room for; and a RESEND that moves `next_send` moves it to a cut.
  abbrev pub Fair : SenderCore → Call → Type 0
  Fair s (starts dest msg_id bytes now) =
      (bytes ≡ sent (msg_key dest msg_id)) × IsU64 msg_id × IsU32 (length bytes)
  Fair s (grants src pkt now) = Unit
  Fair s (resends src pkt now) = FairIf s.cfg.packet_size pkt (get s.out (msg_key src pkt.msg_id))
  Fair s (busies src pkt now) = Unit
  Fair s (ticks now) = Unit
  Fair s (finishes dest msg_id) = Unit

  abbrev pub AllFair : SenderCore → List Call → Type 0
  AllFair s [] = Unit
  AllFair s (c ∷ calls) = Fair s c × AllFair (act s c).0 calls

  pub nothing-Acts : (s : SenderCore) → Cut s.cfg.packet_size s.out → Acts s (s, [])
  nothing-Acts s h = record { config = refl; cut = h; genuine = tt }

  pub write-Acts :
      (s : SenderCore) (key : MsgKey) (r : OutMsg × List Action)
      → Cut s.cfg.packet_size s.out
      → Cuts sent s.cfg.packet_size key r
      → Acts s (write s key r)
  unfolding write
  write-Acts s key r h c = record {
    config = refl;
    cut = Every-insert (IsCut sent s.cfg.packet_size) s.out key r.0 h c.0;
    genuine = c.1;
  }

  pub found-IsCut :
      (s : SenderCore) (key : MsgKey) (m : OutMsg)
      → Cut s.cfg.packet_size s.out
      → get s.out key ≡ some m
      → IsCut sent s.cfg.packet_size key m
  found-IsCut s key m h e = Every-get (IsCut sent s.cfg.packet_size) s.out key m h e

  pub start-Acts :
      (s : SenderCore) (dest : SocketAddr) (msg_id : ℕ) (bytes : List ℕ) (now : ℕ)
      → IsFaithful s
      → Fair s (starts dest msg_id bytes now)
      → Acts s (start s dest msg_id bytes now)
  start-Acts s dest msg_id bytes now h (same, id, short) =
      let unscheduled = min s.cfg.unscheduled_bytes (length bytes) in
      rw (start-write s dest msg_id bytes now) (
        write-Acts s (msg_key dest msg_id) (started s dest msg_id bytes now) h.cut (
          pump_msg-Cuts sent s.cfg.packet_size (msg_key dest msg_id) unscheduled now
            (first_msg unscheduled now bytes) h.valid.pos
            (record {
              same = same;
              id_u64 = id;
              length_u32 = subst (λ b. IsU32 (length b)) same short;
              grid = inr (0, omega arith);
            })))

  pump-Acts :
      (s : SenderCore) (key : MsgKey) (limit now : ℕ) (m : OutMsg)
      → IsFaithful s
      → get s.out key ≡ some m
      → Acts s (pump s key limit now)
  pump-Acts s key limit now m h e = rw (pump_present s key limit now m e) (
      write-Acts s key (pump_msg s.cfg.packet_size key limit now m) h.cut (
        pump_msg-Cuts sent s.cfg.packet_size key limit now m h.valid.pos
          (found-IsCut s key m h.cut e)))

  pub handle_grant-Acts :
      (s : SenderCore) (src : SocketAddr) (pkt : Packet) (now : ℕ)
      → IsFaithful s
      → Acts s (handle_grant s src pkt now)
  handle_grant-Acts s src pkt now h = elim (Option-cases (get s.out (msg_key src pkt.msg_id))) [
    | inl e ↦ rw (handle_grant_unknown s src pkt now e) (nothing-Acts s h.cut)
    | inr (m, e) ↦
        let limit = limit_of s src pkt now m in
        rw (handle_grant_present s src pkt now m e) (elim (Bool-cases (leb limit m.granted_to)) [
          | inl old ↦ rw old (nothing-Acts s h.cut)
          | inr more ↦ rw more (pump-Acts s (msg_key src pkt.msg_id) limit now m h e)
        ])
  ]

  pub handle_resend-Acts :
      (s : SenderCore) (src : SocketAddr) (pkt : Packet) (now : ℕ)
      → IsFaithful s
      → Fair s (resends src pkt now)
      → Acts s (handle_resend s src pkt now)
  unfolding handle_resend
  handle_resend-Acts s src pkt now h fair =
      let key = msg_key src pkt.msg_id in
      elim (Option-cases (get s.out key)) [
        | inl e ↦ rw (e, handle_resend) (nothing-Acts s h.cut)
        | inr (m, e) ↦
            rw (e, handle_resend)
              (write-Acts s key (resend_msg s.cfg.packet_size key pkt now m) h.cut (
                resend_msg-Cuts sent s.cfg.packet_size key pkt now m h.valid.pos
                  (subst (FairIf s.cfg.packet_size pkt) e fair) (found-IsCut s key m h.cut e)))
      ]
